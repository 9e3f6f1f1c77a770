-- ===== src/Daemon/FanOut/Turns.antt =====
-- src/daemon/mod.rs: the turns of a fan-out, one per relay, and what a run of them gives.
use Prim.Native.String.{String}
use wotcrawler.Prelude.{
  ℕ, ◌+◌, ◌≡◌, ◌≢◌, Bool, true, false, Bool-cases, List, [], ◌∷◌, ◌++◌, Option, none, some, Member,
  Member-append, Member-append_left, Member-append_right, length, arith, refl, sym, ◌∙◌, subst, ap,
  inl, inr, ◌⊎◌,
}
use wotcrawler.Prelude.Results.{Result, ok, err}
use wotcrawler.External.{External}
use wotcrawler.Errors.{RelayError}
use wotcrawler.Relay.Nip11.{FromJson, RelayLimits}
use wotcrawler.Relay.Health.{Float, RelayHealthRegistry, try_mark_attempt}
use wotcrawler.Relay.Fetch.Chunks.{record_fetch_health}
use wotcrawler.Daemon.FanOut.{
  Shared, Visit, turn, fan_out, attempt, observed, fetch_of, admitted, limits_of, want_kind,
}

module _ (ext : External) (float : Float) (from_json : FromJson) (fetch_timeout : ℕ)
    (relays : List String) (threshold : float.F) (visits : ℕ → Visit ext float from_json)
    (authors : List ℕ) where
  open ext use {Event}

  abbrev pub Registries : Type 0
  Registries = Shared ext float from_json

  abbrev pub turn_of :
      ℕ → String → Registries → Option (Result RelayError (List Event)) × Registries
  turn_of = turn ext float from_json fetch_timeout relays threshold visits authors

  abbrev pub run :
      ℕ → List String → List Event → Registries → Result RelayError (List Event) × Registries
  run = fan_out ext float from_json fetch_timeout relays threshold visits authors

  -- The state after the turns of some relays.
  unfoldable pub after_turns : ℕ → List String → Registries → Registries
  after_turns index [] s = s
  after_turns index (r ∷ rest) s = after_turns (index + 1) rest (turn_of index r s).1

  -- Some turn satisfies `P`, of its index, its relay and the state that it starts in.
  abbrev pub AnyTurn : (ℕ → String → Registries → Type 0) → ℕ → List String → Registries → Type 0
  AnyTurn P index [] s = ⊥
  AnyTurn P index (r ∷ rest) s = P index r s ⊎ AnyTurn P (index + 1) rest (turn_of index r s).1

  abbrev pub AllTurns : (ℕ → String → Registries → Type 0) → ℕ → List String → Registries → Type 0
  AllTurns P index [] s = Unit
  AllTurns P index (r ∷ rest) s = P index r s × AllTurns P (index + 1) rest (turn_of index r s).1

  -- The turn is skipped, or its fetch succeeds with events of `out`.
  abbrev pub Contributes : List Event → ℕ → String → Registries → Type 0
  Contributes out index r s =
      ((turn_of index r s).0 ≡ none)
      ⊎ ((events : List Event) × ((turn_of index r s).0 ≡ some (ok events))
          × ((x : Event) → Member x events → Member x out))

  -- The event `x` is one that the turn fetches.
  abbrev pub Brings : Event → ℕ → String → Registries → Type 0
  Brings x index r s =
      (events : List Event) × ((turn_of index r s).0 ≡ some (ok events)) × Member x events

  -- The first turn whose fetch fails does so with `e`, and leaves `t`.
  abbrev pub FailsFirst : RelayError → Registries → ℕ → List String → Registries → Type 0
  FailsFirst e t index [] s = ⊥
  FailsFirst e t index (r ∷ rest) s =
      (turn_of index r s ≡ (some (err e), t))
      ⊎ (((d : RelayError) → (turn_of index r s).0 ≢ some (err d))
          × FailsFirst e t (index + 1) rest (turn_of index r s).1)

  pub record IsCollected (index : ℕ) (rest : List String) (found : List Event) (s : Registries)
      (out : List Event) (t : Registries) : Type 0 where
    pub kept : (x : Event) → Member x found → Member x out
    pub all : AllTurns (Contributes out) index rest s
    pub only : (x : Event) → Member x out → Member x found ⊎ AnyTurn (Brings x) index rest s
    pub last : t ≡ after_turns index rest s

  abbrev pub Good :
      ℕ
      → List String
      → List Event
      → Registries
      → Result RelayError (List Event) × Registries
      → Type 0
  Good index rest found s (ok out, t) = IsCollected index rest found s out t
  Good index rest found s (err e, t) = FailsFirst e t index rest s

  module _ (r : String) (rest : List String) (index : ℕ) (found : List Event) (s : Registries) where
    abbrev next : Registries
    next = (turn_of index r s).1

    Good-skipped :
        (v : Result RelayError (List Event) × Registries)
        → (turn_of index r s).0 ≡ none
        → Good (index + 1) rest found next v
        → Good index (r ∷ rest) found s v
    unfolding after_turns
    Good-skipped (ok out, t) e g = record {
      kept = g.kept;
      all = (inl e, g.all);
      only = λ x m. elim (g.only x m) [ inl h ↦ inl h | inr h ↦ inr (inr h) ];
      last = g.last;
    }
    Good-skipped (err d, t) e g = inr (λ d' h. cc, g)

    Good-extended :
        (events : List Event) (v : Result RelayError (List Event) × Registries)
        → (turn_of index r s).0 ≡ some (ok events)
        → Good (index + 1) rest (found ++ events) next v
        → Good index (r ∷ rest) found s v
    unfolding after_turns
    Good-extended events (ok out, t) e g = record {
      kept = λ x m. g.kept x (Member-append_left x found events m);
      all = (inr (events, e, λ x m. g.kept x (Member-append_right x found events m)), g.all);
      only = λ x m. elim (g.only x m) [
        | inl h ↦ elim (Member-append x found events h) [
          | inl k ↦ inl k
          | inr k ↦ inr (inl (events, e, k))
        ]
        | inr h ↦ inr (inr h)
      ];
      last = g.last;
    }
    Good-extended events (err d, t) e g = inr (λ d' h. cc, g)

    Good-failed :
        (d : RelayError)
        → (turn_of index r s).0 ≡ some (err d)
        → Good index (r ∷ rest) found s (err d, next)
    Good-failed d e = inl (cc)

  outcomes :
      (o : Option (Result RelayError (List Event)))
      → (o ≡ none)
        ⊎ ((events : List Event) × (o ≡ some (ok events)))
        ⊎ ((e : RelayError) × (o ≡ some (err e)))
  outcomes none = inl refl
  outcomes (some (ok events)) = inr (inl (events, refl))
  outcomes (some (err e)) = inr (inr (e, refl))

  pub run-Good :
      (rest : List String) (index : ℕ) (found : List Event) (s : Registries)
      → Good index rest found s (run index rest found s)
  unfolding fan_out after_turns
  run-Good [] index found s = record { kept = λ x m. m; all = tt; only = λ x m. inl m; last = refl }
  run-Good (r ∷ rest) index found s = elim (outcomes (turn_of index r s).0) [
    | inl e ↦
        rw (e, fan_out)
          (Good-skipped r rest index found s (run (index + 1) rest found (turn_of index r s).1) e
            (run-Good rest (index + 1) found (turn_of index r s).1))
    | inr (inl (events, e)) ↦
        rw (e, fan_out)
          (Good-extended r rest index found s events
            (run (index + 1) rest (found ++ events) (turn_of index r s).1) e
            (run-Good rest (index + 1) (found ++ events) (turn_of index r s).1))
    | inr (inr (d, e)) ↦ rw (e, fan_out) (Good-failed r rest index found s d e)
  ]

  -- What holds of all turns holds of the one after those of `before`.
  pub AllTurns-at :
      (P : ℕ → String → Registries → Type 0) (before : List String) (index : ℕ) (r : String)
      (rest : List String) (s : Registries)
      → AllTurns P index (before ++ r ∷ rest) s
      → P (index + length before) r (after_turns index before s)
  unfolding after_turns
  AllTurns-at P [] index r rest s h = subst (λ i. P i r s) (omega arith) h.0
  AllTurns-at P (b ∷ before) index r rest s h =
      subst (λ i. P i r (after_turns (index + 1) before (turn_of index b s).1)) (omega arith)
        (AllTurns-at P before (index + 1) r rest (turn_of index b s).1 h.1)

  module _ (index : ℕ) (r : String) (s : Registries) where
    abbrev v : Visit ext float from_json
    v = visits index

    -- The decision on the relay, with the state of health after it.
    abbrev pub routed : Bool × RelayHealthRegistry float
    routed = try_mark_attempt float s.health r threshold v.now

    abbrev pub routed_state : Registries
    routed_state = record s { health = routed.1 }

    abbrev pub limits : RelayLimits
    limits = (limits_of ext float from_json fetch_timeout r v routed_state).0

    -- What the fetch of the turn gives.
    abbrev pub outcome : Result RelayError (List Event)
    outcome = fetch_of ext float from_json fetch_timeout want_kind authors limits r v

    abbrev done_state : Registries
    done_state = admitted ext float from_json fetch_timeout r v (record routed_state {
      limit_cache = (limits_of ext float from_json fetch_timeout r v routed_state).1;
    })

    abbrev seen : Result RelayError (List Event) → Registries
    seen o =
        observed ext float from_json fetch_timeout relays threshold visits r v.latency o done_state

    not_skipped :
        {o : Result RelayError (List Event)}
        → Path (Option (Result RelayError (List Event))) none (some o)
        → ⊥
    not_skipped q = cc

    some_injective :
        {a b : Result RelayError (List Event)}
        → Path (Option (Result RelayError (List Event))) (some a) (some b)
        → a ≡ b
    some_injective q = cc

    pub turn-allowed : routed.0 ≡ true → turn_of index r s ≡ (some outcome, seen outcome)
    unfolding turn attempt
    turn-allowed e = rw e refl

    turn-refused : routed.0 ≡ false → turn_of index r s ≡ (none, routed_state)
    unfolding turn
    turn-refused e = rw e refl

    -- A failed turn has recorded its failure last.
    pub turn-err :
        (t : Registries) (e : RelayError)
        → turn_of index r s ≡ (some (err e), t)
        → (h : RelayHealthRegistry float) × (t.health
            ≡ record_fetch_health {A = List Event} float h r v.latency (err e))
    unfolding observed
    turn-err t e h = elim (Bool-cases routed.0) [
      | inr a ↦
          let q = turn-refused a in absurd (not_skipped (sym (ap (λ p. p.0) q) ∙ ap (λ p. p.0) h))
      | inl a ↦
          let q = turn-allowed a in
          let failed : outcome ≡ err e = some_injective (sym (ap (λ p. p.0) q) ∙ ap (λ p. p.0) h) in
          let left : t ≡ seen outcome = sym (ap (λ p. p.1) h) ∙ ap (λ p. p.1) q in
          (done_state.health, ap (λ (u : Registries). u.health) (left ∙ ap seen failed))
    ]

  -- The failing turn is one of a relay of the list.
  pub FailsFirst-recorded :
      (e : RelayError) (t : Registries) (index : ℕ) (rest : List String) (s : Registries)
      → FailsFirst e t index rest s
      → (r : String) × Member r rest
        × (latency : ℕ) × (h : RelayHealthRegistry float) × (t.health
            ≡ record_fetch_health {A = List Event} float h r latency (err e))
  FailsFirst-recorded e t index [] s f = absurd f
  FailsFirst-recorded e t index (r ∷ rest) s (inl h) =
      let (health, q) = turn-err index r s t e h in (r, inl refl, (visits index).latency, health, q)
  FailsFirst-recorded e t index (r ∷ rest) s (inr (_, f)) =
      let (q, m, latency, health, recorded) =
        FailsFirst-recorded e t (index + 1) rest (turn_of index r s).1 f in
      (q, inr m, latency, health, recorded)
