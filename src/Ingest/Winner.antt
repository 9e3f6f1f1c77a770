-- ===== src/Ingest/Winner.antt =====
-- src/ingest/replaceable.rs: what the winner is, on every branch, and that it does not depend on
-- the order in which the relays answered.
use wotcrawler.Prelude.{
  ℕ, ◌≤◌, ◌<◌, ◌≡◌, refl, ap, List, [], ◌∷◌, Option, none, some, ltb, ◌⊎◌, inl, inr, filter, Member,
  All, All-member, All-of_Member, Member-filter, Member-filter_of, arith, Bool-cases, ◌∙◌,
}
use wotcrawler.External.{External}
use wotcrawler.Ingest.Replaceable.{
  max_from, max_by, later_of, by_newest, cutoff, is_current, pick_winner,
}

module _ (ext : External) where
  open ext use {Event, id, created_at}

  -- `w` is newer than `e`, or as new and of an id that is not higher.
  abbrev pub Beats : Event → Event → Type 0
  Beats w e = (created_at e < created_at w) ⊎ ((created_at e ≡ created_at w) × (id w ≤ id e))

  Beats-trans : (a b c : Event) → Beats a b → Beats b c → Beats a c
  Beats-trans a b c h k = grind arith

  later_of-Beats :
      (x y : Event)
      → Beats (later_of (by_newest ext) x y) x × Beats (later_of (by_newest ext) x y) y
  later_of-Beats x y = ground arith

  later_of-eq :
      (x y : Event) → (later_of (by_newest ext) x y ≡ x) ⊎ (later_of (by_newest ext) x y ≡ y)
  later_of-eq x y = ground arith

  max_from-Beats :
      (x : Event) (ys : List Event)
      → Beats (max_from (by_newest ext) x ys) x × All (Beats (max_from (by_newest ext) x ys)) ys
  unfolding max_from
  max_from-Beats x [] = (inr (refl, omega arith), tt)
  max_from-Beats x (y ∷ ys) =
      let z = later_of (by_newest ext) x y in
      let (first, rest) = max_from-Beats z ys in
      let (l, r) = later_of-Beats x y in
      let m = max_from (by_newest ext) z ys in
      (Beats-trans m z x first l, (Beats-trans m z y first r, rest))

  max_from-Member : (x : Event) (ys : List Event) → Member (max_from (by_newest ext) x ys) (x ∷ ys)
  unfolding max_from
  max_from-Member x [] = inl refl
  max_from-Member x (y ∷ ys) =
      let z = later_of (by_newest ext) x y in
      elim (max_from-Member z ys) [
        | inl e ↦ elim (later_of-eq x y) [ inl f ↦ inl (e ∙ f) | inr f ↦ inr (inl (e ∙ f)) ]
        | inr m ↦ inr (inr m)
      ]

  -- The specification of a winner among `events`, for either result.
  abbrev pub IsWinner : List Event → ℕ → Option Event → Type 0
  IsWinner events bound none = All (λ e. bound < created_at e) events
  IsWinner events bound (some w) =
      Member w events
      × (created_at w ≤ bound)
      × All (λ e. (bound < created_at e) ⊎ Beats w e) events

  filter-eq-nil :
      (bound : ℕ) (events : List Event)
      → filter (is_current ext bound) events ≡ []
      → All (λ e. bound < created_at e) events
  filter-eq-nil bound [] h = tt
  filter-eq-nil bound (e ∷ es) h = elim (Bool-cases (ltb bound (created_at e))) [
    | inl p ↦ (ground arith, filter-eq-nil bound es (rw p at h))
    | inr p ↦ absurd (cons-ne-nil (rw p at h))
  ]
    where
      cons-ne-nil : e ∷ filter (is_current ext bound) es ≡ [] → ⊥
      cons-ne-nil h' = cc

  max_by-IsWinner :
      (bound : ℕ) (events kept : List Event)
      → filter (is_current ext bound) events ≡ kept
      → IsWinner events bound (max_by (by_newest ext) kept)
  unfolding max_by
  max_by-IsWinner bound events [] e = filter-eq-nil bound events e
  max_by-IsWinner bound events (x ∷ xs) e =
      let w = max_from (by_newest ext) x xs in
      let here : Member w (filter (is_current ext bound) events) = rw e (max_from-Member x xs) in
      let (listed, current) = Member-filter (is_current ext bound) w events here in
      let beats = max_from-Beats x xs in
      let ahead : All (Beats w) (filter (is_current ext bound) events) = rw e beats in
      (
        listed,
        ground arith,
        All-of_Member (λ a. (bound < created_at a) ⊎ Beats w a) events
            (λ a m. elim (Bool-cases (ltb bound (created_at a))) [
              | inl p ↦ inl (ground arith)
              | inr p ↦ inr (
                  All-member (Beats w) a (filter (is_current ext bound) events) ahead
                    (Member-filter_of (is_current ext bound) a events m (rw p)))
            ]),
      )

  -- The winner is one of the events and not dated beyond the clamp, and every other event is dated
  -- beyond the clamp, or is older, or is as new with an id that is not lower. There is none only
  -- if every event is dated beyond the clamp.
  pub pick_winner-IsWinner :
      (events : List Event) (now future_clamp_secs : ℕ)
      → IsWinner events
          (cutoff now future_clamp_secs)
          (pick_winner ext events now future_clamp_secs)
  unfolding pick_winner
  pick_winner-IsWinner events now clamp =
      max_by-IsWinner (cutoff now clamp) events (filter (is_current ext (cutoff now clamp)) events)
        refl

  -- Two winners of collections with the same members are one event, if ids tell the events apart.
  IsWinner-unique :
      (xs ys : List Event) (bound : ℕ) (v w : Option Event)
      → ((a : Event) → Member a xs → Member a ys)
      → ((a : Event) → Member a ys → Member a xs)
      → ((a b : Event) → Member a xs → Member b xs → id a ≡ id b → a ≡ b)
      → IsWinner xs bound v
      → IsWinner ys bound w
      → v ≡ w
  IsWinner-unique xs ys bound none none to from apart hv hw = refl
  IsWinner-unique xs ys bound none (some w) to from apart hv hw =
      let late = All-member (λ e. bound < created_at e) w xs hv (from w hw.0) in
      absurd (omega arith)
  IsWinner-unique xs ys bound (some v) none to from apart hv hw =
      let late = All-member (λ e. bound < created_at e) v ys hw (to v hv.0) in absurd (omega arith)
  IsWinner-unique xs ys bound (some v) (some w) to from apart hv hw =
      let p = All-member (λ e. (bound < created_at e) ⊎ Beats v e) w xs hv.2 (from w hw.0) in
      let q = All-member (λ e. (bound < created_at e) ⊎ Beats w e) v ys hw.2 (to v hv.0) in
      let same : id v ≡ id w = omega arith in ap some (apart v w hv.0 (from w hw.0) same)

  -- The winner depends only on which events arrived, not on their order or repetition, if the
  -- events that arrived are told apart by their ids.
  pub pick_winner_unordered :
      (xs ys : List Event) (now future_clamp_secs : ℕ)
      → ((a : Event) → Member a xs → Member a ys)
      → ((a : Event) → Member a ys → Member a xs)
      → ((a b : Event) → Member a xs → Member b xs → id a ≡ id b → a ≡ b)
      → pick_winner ext xs now future_clamp_secs ≡ pick_winner ext ys now future_clamp_secs
  pick_winner_unordered xs ys now clamp to from apart =
      IsWinner-unique xs ys (cutoff now clamp) (pick_winner ext xs now clamp)
        (pick_winner ext ys now clamp) to from apart (pick_winner-IsWinner xs now clamp)
        (pick_winner-IsWinner ys now clamp)
