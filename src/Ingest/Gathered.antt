-- ===== src/Ingest/Gathered.antt =====
-- src/ingest/mod.rs: the invariant of the first loop of `ingest_events`.
use wotcrawler.Prelude.{
  ℕ, ◌≡◌, refl, sym, ◌∙◌, ap, subst, inl, inr, true, false, List, [], ◌∷◌, ◌++◌, contains,
  contains→member, Member, IsDistinct, Member-append, Member-append_left, Member-append_right,
  Bool-cases, append-nil, append_cons,
}
use wotcrawler.External.{External}
use wotcrawler.Ingest.Verify.{accept}
use wotcrawler.Ingest.Gate.{push_event, GateState, empty_gate, gate_step, gate}
use wotcrawler.Ingest.Groups.{
  Grouped, keys, Grouped-push_self, Grouped-push_of, Grouped-push, IsDistinct-push,
}

module _ (ext : External) (want_kind : ℕ) (requested : List ℕ) where
  open ext use {Event, id, pubkey}

  abbrev pub Accepted : Event → Type 0
  Accepted e = accept ext e want_kind requested ≡ true

  -- The state after the events in `past`: every group holds accepted events of its author, and
  -- every accepted event is in its author's group, or another of the same id is in a group.
  pub record Gathers (past : List Event) (g : GateState Event) : Type 0 where
    pub grouped :
        (a : ℕ) (e : Event) → Grouped a e g.by_author → Member e past × Accepted e × (pubkey e ≡ a)
    pub stands_in :
        (e : Event)
        → Member e past
        → Accepted e
        → (d : Event) × (id d ≡ id e) × Grouped (pubkey d) d g.by_author
    pub seen_stands :
        (i : ℕ) → Member i g.seen → (d : Event) × (id d ≡ i) × Grouped (pubkey d) d g.by_author
    pub distinct : IsDistinct (keys g.by_author)

  Gathers-empty : Gathers [] empty_gate
  Gathers-empty = record {
    grouped = λ a e m. absurd m;
    stands_in = λ e m p. absurd m;
    seen_stands = λ i m. absurd m;
    distinct = tt;
  }

  module _ (past : List Event) (g : GateState Event) (inv : Gathers past g) (event : Event) where
    -- A round that leaves the state as it is.
    Gathers-skip :
        (Accepted event → (d : Event) × (id d ≡ id event) × Grouped (pubkey d) d g.by_author)
        → Gathers (past ++ event ∷ []) g
    Gathers-skip known = record {
      grouped = λ a e m.
          let (l, p, q) = inv.grouped a e m in (Member-append_left e past (event ∷ []) l, p, q);
      stands_in = λ e m p. elim (Member-append e past (event ∷ []) m) [
        | inl h ↦ inv.stands_in e h p
        | inr h ↦ elim h [
          | inl s ↦
              let (d, same, at_d) = known (subst Accepted s p) in (d, same ∙ ap id (sym s), at_d)
          | inr f ↦ elim f [ ]
        ]
      ];
      seen_stands = inv.seen_stands;
      distinct = inv.distinct;
    }

    abbrev pushed : GateState Event
    pushed = record {
      seen = id event ∷ g.seen;
      by_author = push_event (pubkey event) event g.by_author;
    }

    still :
        (i : ℕ)
        → (d : Event) × (id d ≡ i) × Grouped (pubkey d) d g.by_author
        → (d : Event) × (id d ≡ i) × Grouped (pubkey d) d pushed.by_author
    still i (d, same, m) =
        (d, same, Grouped-push_of (pubkey event) event (pubkey d) d g.by_author m)

    new : (d : Event) × (id d ≡ id event) × Grouped (pubkey d) d pushed.by_author
    new = (event, refl, Grouped-push_self (pubkey event) event g.by_author)

    Gathers-push : Accepted event → Gathers (past ++ event ∷ []) pushed
    Gathers-push ok = record {
      grouped = λ a e m. elim (Grouped-push (pubkey event) event a e g.by_author m) [
        | inl p ↦ (
          Member-append_right e past (event ∷ []) (inl p.1),
          subst Accepted (sym p.1) ok,
          ap pubkey p.1 ∙ sym p.0,
        )
        | inr q ↦
            let (l, p, r) = inv.grouped a e q in (Member-append_left e past (event ∷ []) l, p, r)
      ];
      stands_in = λ e m p. elim (Member-append e past (event ∷ []) m) [
        | inl h ↦ still (id e) (inv.stands_in e h p)
        | inr h ↦ elim h [
          | inl s ↦
              subst (λ i. (d : Event) × (id d ≡ i) × Grouped (pubkey d) d pushed.by_author)
                (ap id (sym s)) new
          | inr f ↦ elim f [ ]
        ]
      ];
      seen_stands = λ i m. elim m [
        | inl s ↦
            subst (λ j. (d : Event) × (id d ≡ j) × Grouped (pubkey d) d pushed.by_author) (sym s)
              new
        | inr h ↦ still i (inv.seen_stands i h)
      ];
      distinct = IsDistinct-push (pubkey event) event g.by_author inv.distinct;
    }

    Gathers-step : Gathers (past ++ event ∷ []) (gate_step ext want_kind requested g event)
    unfolding gate_step
    Gathers-step = elim (Bool-cases (accept ext event want_kind requested)) [
      | inr bad ↦ rw bad (Gathers-skip (λ p. absurd (clash bad p)))
      | inl ok ↦ elim (Bool-cases (contains g.seen (id event))) [
        | inl old ↦
            rw (ok, old)
              (Gathers-skip
                (λ _. inv.seen_stands (id event) (contains→member g.seen (id event) old)))
        | inr fresh ↦ rw (ok, fresh) (Gathers-push ok)
      ]
    ]
      where
        clash :
            accept ext event want_kind requested ≡ false
            → accept ext event want_kind requested ≡ true
            → ⊥
        clash p q = cc

  gate-Gathers :
      (past rest : List Event) (g : GateState Event)
      → Gathers past g
      → Gathers (past ++ rest) (gate ext want_kind requested g rest)
  unfolding gate
  gate-Gathers past [] g inv = rw append-nil inv
  gate-Gathers past (event ∷ events) g inv = rw (append_cons past event events) (
      gate-Gathers (past ++ event ∷ []) events (gate_step ext want_kind requested g event)
        (Gathers-step past g inv event))

  pub gate-empty-Gathers :
      (events : List Event) → Gathers events (gate ext want_kind requested empty_gate events)
  gate-empty-Gathers events = gate-Gathers [] events empty_gate Gathers-empty
