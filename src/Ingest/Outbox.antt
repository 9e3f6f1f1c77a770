-- ===== src/Ingest/Outbox.antt =====
-- src/ingest/relay_list.rs: resolving one author's relay list runs the gate of `ingest_events`.
use wotcrawler.Prelude.{
  ℕ, ◌≡◌, refl, sym, ◌∙◌, ap, subst, inl, inr, true, List, [], ◌∷◌, ◌++◌, Option, none, some,
  Option-cases, Bool-cases, Member, contains, ==_refl, arith,
}
use wotcrawler.External.{External, BindsId}
use wotcrawler.Ingest.Verify.{accept}
use wotcrawler.Ingest.Replaceable.{pick_winner}
use wotcrawler.Ingest.Gate.{GateState, push_event, empty_gate, gate_step, gate}
use wotcrawler.Ingest.Groups.{Grouped}
use wotcrawler.Ingest.Latest.{IsLatest, winner-IsLatest}
use wotcrawler.Ingest.RelayList.{
  ValidatedRelayList, relay_list_kind, candidate_step, candidates_from, relay_list_from_event,
  resolve_relay_list,
}

module _ (ext : External) (author : ℕ) where
  open ext use {Event, id, pubkey}

  -- The single group that the candidates are in the general gate.
  abbrev pub as_groups : List Event → List (ℕ × List Event)
  as_groups [] = []
  as_groups (e ∷ es) = (author, e ∷ es) ∷ []

  abbrev as_gate : List ℕ × List Event → GateState Event
  as_gate s = record { seen = s.0; by_author = as_groups s.1 }

  accept-author :
      (e : Event) → accept ext e relay_list_kind (author ∷ []) ≡ true → pubkey e ≡ author
  unfolding accept
  accept-author e h = ground arith

  push-as_groups :
      (candidates : List Event) (e : Event)
      → push_event author e (as_groups candidates) ≡ as_groups (candidates ++ e ∷ [])
  unfolding push_event
  push-as_groups [] e = refl
  push-as_groups (x ∷ xs) e = rw ==_refl

  step-as_gate :
      (seen : List ℕ) (candidates : List Event) (e : Event)
      → as_gate (candidate_step ext author (seen, candidates) e)
        ≡ gate_step ext relay_list_kind (author ∷ []) (as_gate (seen, candidates)) e
  unfolding candidate_step gate_step
  step-as_gate seen candidates e = elim (Bool-cases (accept ext e relay_list_kind (author ∷ []))) [
    | inr bad ↦ rw bad
    | inl ok ↦ elim (Bool-cases (contains seen (id e))) [
      | inl old ↦ rw (ok, old)
      | inr new ↦ rw (ok, new, accept-author e ok, push-as_groups candidates e)
    ]
  ]

  from-as_gate :
      (events : List Event) (seen : List ℕ) (candidates : List Event)
      → as_gate (candidates_from ext author (seen, candidates) events)
        ≡ gate ext relay_list_kind (author ∷ []) (as_gate (seen, candidates)) events
  unfolding candidates_from gate
  from-as_gate [] seen candidates = refl
  from-as_gate (e ∷ es) seen candidates =
      let s = candidate_step ext author (seen, candidates) e in
      from-as_gate es s.0 s.1
      ∙ ap (λ g. gate ext relay_list_kind (author ∷ []) g es) (step-as_gate seen candidates e)

  -- The candidates are what the gate of `ingest_events` gathers for kind 10002 and this author:
  -- the same events, in the same order, after the same checks.
  pub candidates-eq-gate :
      (events : List Event)
      → as_groups (candidates_from ext author ([], []) events).1
        ≡ (gate ext relay_list_kind (author ∷ []) empty_gate events).by_author
  candidates-eq-gate events = ap (λ (g : GateState Event). g.by_author) (from-as_gate events [] [])

  module _ (bound : BindsId ext) (events : List Event) (now future_clamp_secs : ℕ) where
    abbrev candidates : List Event
    candidates = (candidates_from ext author ([], []) events).1

    abbrev Latest : Event → Type 0
    Latest = IsLatest ext events relay_list_kind (author ∷ []) now future_clamp_secs

    newest_in_groups :
        (cs : List Event) (w : Event)
        → as_groups cs ≡ (gate ext relay_list_kind (author ∷ []) empty_gate events).by_author
        → pick_winner ext cs now future_clamp_secs ≡ some w
        → Latest w × (pubkey w ≡ author)
    unfolding pick_winner
    newest_in_groups [] w e won = cc
    newest_in_groups (c ∷ cs) w e won =
        winner-IsLatest ext bound events relay_list_kind (author ∷ []) now future_clamp_secs author
          (c ∷ cs) w (rw (← e) (inl refl)) (λ x gx. alone x (subst (Grouped author x) (sym e) gx))
          won
      where
        alone : (x : Event) → Grouped author x (as_groups (c ∷ cs)) → Member x (c ∷ cs)
        alone x (inl p) = p.1
        alone x (inr f) = elim f [ ]

    -- A relay list that is found was read off the author's latest event of kind 10002: one that
    -- arrived, verified and is within the clamp, and that no other such event beats. (The ids of
    -- verified events bind their author and time.)
    pub resolve_relay_list-IsLatest :
        (v : ValidatedRelayList)
        → resolve_relay_list ext events author now future_clamp_secs ≡ some v
        → (w : Event) × Latest w × (pubkey w ≡ author) × (v ≡ relay_list_from_event ext w)
    unfolding resolve_relay_list
    resolve_relay_list-IsLatest v h =
        elim (Option-cases (pick_winner ext candidates now future_clamp_secs)) [
          | inl e ↦ absurd (nothing (rw (e, resolve_relay_list) at h))
          | inr (w, e) ↦
              let (latest, same) = newest_in_groups candidates w (candidates-eq-gate events) e in
              (w, latest, same, made w (rw (e, resolve_relay_list) at h))
        ]
      where
        nothing : Path (Option ValidatedRelayList) none (some v) → ⊥
        nothing q = cc

        made :
            (w : Event)
            → some (relay_list_from_event ext w) ≡ some v
            → v ≡ relay_list_from_event ext w
        made w q = cc
