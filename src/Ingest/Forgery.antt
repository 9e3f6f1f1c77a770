-- ===== src/Ingest/Forgery.antt =====
-- src/ingest/mod.rs: an event that fails the gate, and a copy of one that passed, change nothing.
use wotcrawler.Prelude.{
  ℕ, ◌≡◌, refl, ap, subst, inl, inr, true, false, List, [], ◌∷◌, ◌++◌, contains, Bool-cases,
  filter_map, ◌∙◌, sym, Member, ==_refl, or-true,
}
use wotcrawler.External.{External}
use wotcrawler.Ingest.Verify.{accept}
use wotcrawler.Ingest.Gate.{
  ValidatedFollowList, GateState, empty_gate, gate_step, gate, resolve_group, ingest_events,
}

module _ (ext : External) (want_kind : ℕ) (requested : List ℕ) where
  open ext use {Event, id}

  gate_step-reject :
      (g : GateState Event) (event : Event)
      → accept ext event want_kind requested ≡ false
      → gate_step ext want_kind requested g event ≡ g
  unfolding gate_step
  gate_step-reject g event h = rw h

  gate_step-seen :
      (g : GateState Event) (event : Event)
      → contains g.seen (id event) ≡ true
      → gate_step ext want_kind requested g event ≡ g
  unfolding gate_step
  gate_step-seen g event h = elim (Bool-cases (accept ext event want_kind requested)) [
    | inl ok ↦ rw (ok, h)
    | inr bad ↦ rw bad
  ]

  gate-append :
      (xs ys : List Event) (g : GateState Event)
      → gate ext want_kind requested g (xs ++ ys)
        ≡ gate ext want_kind requested (gate ext want_kind requested g xs) ys
  unfolding gate
  gate-append [] ys g = refl
  gate-append (x ∷ xs) ys g = gate-append xs ys (gate_step ext want_kind requested g x)

  -- A round keeps what is seen, and marks an accepted event as seen.
  seen-step :
      (g : GateState Event) (event : Event) (i : ℕ)
      → contains g.seen i ≡ true
      → contains (gate_step ext want_kind requested g event).seen i ≡ true
  unfolding gate_step
  seen-step g event i h = elim (Bool-cases (accept ext event want_kind requested)) [
    | inr bad ↦ rw bad h
    | inl ok ↦ elim (Bool-cases (contains g.seen (id event))) [
      | inl old ↦ rw (ok, old) h
      | inr new ↦ rw (ok, new) (rw (h, or-true))
    ]
  ]

  seen-step_self :
      (g : GateState Event) (event : Event)
      → accept ext event want_kind requested ≡ true
      → contains (gate_step ext want_kind requested g event).seen (id event) ≡ true
  unfolding gate_step
  seen-step_self g event ok = elim (Bool-cases (contains g.seen (id event))) [
    | inl old ↦ rw (ok, old) old
    | inr new ↦ rw (ok, new) (rw ==_refl)
  ]

  seen-gate :
      (xs : List Event) (g : GateState Event) (i : ℕ)
      → contains g.seen i ≡ true
      → contains (gate ext want_kind requested g xs).seen i ≡ true
  unfolding gate
  seen-gate [] g i h = h
  seen-gate (x ∷ xs) g i h =
      seen-gate xs (gate_step ext want_kind requested g x) i (seen-step g x i h)

  seen-Member :
      (xs : List Event) (g : GateState Event) (event : Event)
      → Member event xs
      → accept ext event want_kind requested ≡ true
      → contains (gate ext want_kind requested g xs).seen (id event) ≡ true
  unfolding gate
  seen-Member [] g event m ok = elim m [ ]
  seen-Member (x ∷ xs) g event (inl s) ok =
      seen-gate xs (gate_step ext want_kind requested g x) (id event) (
        subst (λ y. contains (gate_step ext want_kind requested g y).seen (id event) ≡ true) s
          (seen-step_self g event ok))
  seen-Member (x ∷ xs) g event (inr m) ok =
      seen-Member xs (gate_step ext want_kind requested g x) event m ok

  gate_insert :
      (xs ys : List Event) (event : Event)
      → ((g : GateState Event)
          → g ≡ gate ext want_kind requested empty_gate xs
          → gate_step ext want_kind requested g event ≡ g)
      → gate ext want_kind requested empty_gate (xs ++ event ∷ ys)
        ≡ gate ext want_kind requested empty_gate (xs ++ ys)
  unfolding gate
  gate_insert xs ys event idle =
      gate-append xs (event ∷ ys) empty_gate
      ∙ ap (λ g. gate ext want_kind requested g ys)
          (idle (gate ext want_kind requested empty_gate xs) refl)
      ∙ sym (gate-append xs ys empty_gate)

  module _ (now future_clamp_secs follow_cap : ℕ) where
    abbrev emitted : List Event → List ValidatedFollowList
    emitted events = ingest_events ext events want_kind requested now future_clamp_secs follow_cap

    ingest_events-eq :
        (xs ys : List Event)
        → gate ext want_kind requested empty_gate xs ≡ gate ext want_kind requested empty_gate ys
        → emitted xs ≡ emitted ys
    unfolding ingest_events
    ingest_events-eq xs ys e =
        ap
          (λ (g : GateState Event).
            filter_map (resolve_group ext now future_clamp_secs follow_cap) g.by_author)
          e

    -- An event that does not pass the gate, wherever it stands and whatever id it claims, changes
    -- nothing of the result: a forged copy cannot suppress the genuine event.
    pub ingest_events_rejected :
        (xs ys : List Event) (event : Event)
        → accept ext event want_kind requested ≡ false
        → emitted (xs ++ event ∷ ys) ≡ emitted (xs ++ ys)
    ingest_events_rejected xs ys event bad =
        ingest_events-eq (xs ++ event ∷ ys) (xs ++ ys)
          (gate_insert xs ys event (λ g _. gate_step-reject g event bad))

    -- An event whose id an accepted event before it has, changes nothing of the result: what
    -- several relays send is counted once.
    pub ingest_events_duplicate :
        (xs ys : List Event) (event copy : Event)
        → Member event xs
        → accept ext event want_kind requested ≡ true
        → id copy ≡ id event
        → emitted (xs ++ copy ∷ ys) ≡ emitted (xs ++ ys)
    ingest_events_duplicate xs ys event copy m ok same =
        ingest_events-eq (xs ++ copy ∷ ys) (xs ++ ys) (
          gate_insert xs ys copy (λ g at_g.
            gate_step-seen g copy (rw (at_g, same) (seen-Member xs empty_gate event m ok))))
