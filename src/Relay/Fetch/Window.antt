-- ===== src/Relay/Fetch/Window.antt =====
-- src/relay/fetch.rs: one window of the page loop.
use wotcrawler.Prelude.{
  ℕ, ◌+◌, ◌≤◌, ◌≡◌, ◌⊎◌, inl, inr, refl, sym, subst, List, [], ◌∷◌, ◌++◌, Option, none, some,
  Option-cases, Bool-cases, contains, contains→member, Member, length, Member-append_left,
  Member-append_right, Member-append, arith, min, leb, ◌==◌, ◌&&◌, ◌||◌, length-append,
}
use native.Mathlib.Decide.{dec_le}
use wotcrawler.External.{External}
use wotcrawler.Relay.Fetch.{
  Pages, page, finish, stall, is_some_of, page_back, oldest_of, absorb, after_window,
}

module _ (ext : External) where
  open ext use {Event, id, created_at}

  -- The oldest time is that of an event of the window, and no event of the window is older; only an
  -- empty window has none.
  abbrev pub IsOldest : List Event → Option ℕ → Type 0
  IsOldest events none = (x : Event) → ¬ Member x events
  IsOldest events (some t) =
      ((x : Event) × Member x events × (created_at x ≡ t))
      × ((x : Event) → Member x events → t ≤ created_at x)

  IsOldest-cons_none :
      (e : Event) (es : List Event) → IsOldest es none → IsOldest (e ∷ es) (some (created_at e))
  IsOldest-cons_none e es h =
      ((e, inl refl, refl), λ x m. elim m [ inl s ↦ rw s (omega arith) | inr n ↦ absurd (h x n) ])

  IsOldest-cons_some :
      (e : Event) (es : List Event) (t : ℕ)
      → IsOldest es (some t)
      → IsOldest (e ∷ es) (some (min (created_at e) t))
  IsOldest-cons_some e es t ((y, my, ey), below) = (
    elim (dec_le (created_at e) t) [
      | yes p ↦ (e, inl refl, omega arith)
      | no p ↦ (y, inr my, omega arith)
    ],
    λ x m. elim m [ inl s ↦ rw s (omega arith) | inr n ↦ let b = below x n in omega arith ],
  )

  pub oldest_of-IsOldest : (events : List Event) → IsOldest events (oldest_of ext events)
  unfolding oldest_of
  oldest_of-IsOldest [] = λ x m. m
  oldest_of-IsOldest (e ∷ es) = elim (Option-cases (oldest_of ext es)) [
    | inl h ↦
        let ih : IsOldest es none = subst (IsOldest es) h (oldest_of-IsOldest es) in
        rw (h, oldest_of) (IsOldest-cons_none e es ih)
    | inr (t, h) ↦
        let ih : IsOldest es (some t) = subst (IsOldest es) h (oldest_of-IsOldest es) in
        rw (h, oldest_of) (IsOldest-cons_some e es t ih)
  ]

  -- What the inner loop adds to the ids seen and the events kept.
  pub record Absorbs (seen : List ℕ) (out : List Event) (n : ℕ) (events : List Event)
      (r : List ℕ × List Event × ℕ) : Type 0 where
    pub keeps_seen : (i : ℕ) → Member i seen → Member i r.0
    pub sees : (x : Event) → Member x events → Member (id x) r.0
    pub keeps_out : (x : Event) → Member x out → Member x r.1
    pub new_out : (x : Event) → Member x r.1 → Member x out ⊎ Member x events
    pub backed :
        ((i : ℕ) → Member i seen → (x : Event) × Member x out × (id x ≡ i))
        → (i : ℕ) → Member i r.0
        → (x : Event) × Member x r.1 × (id x ≡ i)
    pub counts : length r.1 + n ≡ length out + r.2
    pub idle : r.2 ≡ n → r.0 ≡ seen

  Absorbs-nil : (seen : List ℕ) (out : List Event) (n : ℕ) → Absorbs seen out n [] (seen, out, n)
  Absorbs-nil seen out n = record {
    keeps_seen = λ i m. m;
    sees = λ x m. absurd m;
    keeps_out = λ x m. m;
    new_out = λ x m. inl m;
    backed = λ b i m. b i m;
    counts = omega arith;
    idle = λ e. refl;
  }

  Absorbs-old :
      (seen : List ℕ) (out : List Event) (n : ℕ) (e : Event) (es : List Event)
      (r : List ℕ × List Event × ℕ)
      → Member (id e) seen
      → Absorbs seen out n es r
      → Absorbs seen out n (e ∷ es) r
  Absorbs-old seen out n e es r old ih = record {
    keeps_seen = ih.keeps_seen;
    sees = λ x m. elim m [ inl s ↦ rw s (ih.keeps_seen (id e) old) | inr k ↦ ih.sees x k ];
    keeps_out = ih.keeps_out;
    new_out = λ x m. elim (ih.new_out x m) [ inl h ↦ inl h | inr h ↦ inr (inr h) ];
    backed = ih.backed;
    counts = ih.counts;
    idle = ih.idle;
  }

  Absorbs-new :
      (seen : List ℕ) (out : List Event) (n : ℕ) (e : Event) (es : List Event)
      (r : List ℕ × List Event × ℕ)
      → n + 1 ≤ r.2
      → Absorbs (id e ∷ seen) (out ++ e ∷ []) (n + 1) es r
      → Absorbs seen out n (e ∷ es) r
  Absorbs-new seen out n e es r more ih = record {
    keeps_seen = λ i m. ih.keeps_seen i (inr m);
    sees = λ x m. elim m [ inl s ↦ rw s (ih.keeps_seen (id e) (inl refl)) | inr k ↦ ih.sees x k ];
    keeps_out = λ x m. ih.keeps_out x (Member-append_left x out (e ∷ []) m);
    new_out = λ x m. elim (ih.new_out x m) [
      | inl h ↦ elim (Member-append x out (e ∷ []) h) [
        | inl k ↦ inl k
        | inr k ↦ inr (elim k [ inl s ↦ inl s | inr f ↦ absurd f ])
      ]
      | inr h ↦ inr (inr h)
    ];
    backed = λ b. ih.backed (λ i m. elim m [
      | inl s ↦ (e, Member-append_right e out (e ∷ []) (inl refl), sym s)
      | inr k ↦ let (x, mx, ex) = b i k in (x, Member-append_left x out (e ∷ []) mx, ex)
    ]);
    counts = let c = ih.counts in omega (arith, length-append out (e ∷ []));
    idle = λ q. absurd (omega arith);
  }

  new_ids-le :
      (seen : List ℕ) (out : List Event) (n : ℕ) (es : List Event)
      → n ≤ (absorb ext seen out n es).2
  unfolding absorb
  new_ids-le seen out n [] = omega arith
  new_ids-le seen out n (e ∷ es) = elim (Bool-cases (contains seen (id e))) [
    | inl old ↦ rw (old, absorb) (new_ids-le seen out n es)
    | inr new ↦
        rw (new, absorb)
          (let h = new_ids-le (id e ∷ seen) (out ++ e ∷ []) (n + 1) es in omega arith)
  ]

  pub absorb-Absorbs :
      (seen : List ℕ) (out : List Event) (n : ℕ) (events : List Event)
      → Absorbs seen out n events (absorb ext seen out n events)
  unfolding absorb
  absorb-Absorbs seen out n [] = Absorbs-nil seen out n
  absorb-Absorbs seen out n (e ∷ es) = elim (Bool-cases (contains seen (id e))) [
    | inl old ↦ rw old (
        Absorbs-old seen out n e es (absorb ext seen out n es) (contains→member seen (id e) old)
          (absorb-Absorbs seen out n es))
    | inr new ↦ rw new (
        Absorbs-new seen out n e es (absorb ext (id e ∷ seen) (out ++ e ∷ []) (n + 1) es)
          (new_ids-le (id e ∷ seen) (out ++ e ∷ []) (n + 1) es)
          (absorb-Absorbs (id e ∷ seen) (out ++ e ∷ []) (n + 1) es))
  ]

  -- The three verdicts, and the state that a page leads to.
  pub after_window_cases :
      (cap : ℕ) (st : Pages ext) (window : List Event)
      → (after_window ext cap st window ≡ finish (absorb ext st.seen st.out 0 window).1)
        ⊎ (after_window ext cap st window ≡ stall)
        ⊎ ((o : ℕ) × (after_window ext cap st window
              ≡ page (record {
                out = (absorb ext st.seen st.out 0 window).1;
                seen = (absorb ext st.seen st.out 0 window).0;
                until = o;
                prev_until = some st.until;
              })))
  unfolding after_window
  after_window_cases cap st window =
      elim (Bool-cases ((absorb ext st.seen st.out 0 window).2 == 0)) [
        | inl idle ↦
            elim (Bool-cases (
              leb cap (length window)
              && (is_some_of st.prev_until st.until
                  || is_some_of (page_back (length window) cap (oldest_of ext window)) st.until))) [
                    | inl stuck ↦ inr (inl (rw (idle, stuck, after_window)))
                    | inr free ↦ inl (rw (idle, free, after_window))
                  ]
        | inr new ↦ elim (Option-cases (page_back (length window) cap (oldest_of ext window))) [
          | inl e ↦ inl (rw (new, e, after_window))
          | inr (o, e) ↦ inr (inr (o, rw (new, e, after_window)))
        ]
      ]
