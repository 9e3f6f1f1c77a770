-- ===== src/Ingest/Groups.antt =====
-- src/ingest/mod.rs: what the first loop of `ingest_events` gathers.
use wotcrawler.Prelude.{
  ℕ, ◌≡◌, ◌⊎◌, refl, sym, ◌∙◌, ap, subst, inl, inr, true, List, [], ◌∷◌, ◌++◌, ◌==◌, ==_iff, map,
  Member, IsDistinct, Member-append, Member-append_left, Member-append_right, Member-map_of,
  Bool-cases, arith,
}
use wotcrawler.Ingest.Gate.{push_event}

module _ {E : Type 0} where
  -- Event `e` stands in a group of author `a`.
  abbrev pub Grouped : ℕ → E → List (ℕ × List E) → Type 0
  Grouped a e [] = ⊥
  Grouped a e ((b, group) ∷ groups) = (a ≡ b) × Member e group ⊎ Grouped a e groups

  abbrev pub keys : List (ℕ × List E) → List ℕ
  keys = map (λ g. g.0)

  module _ (author : ℕ) (event : E) where
    pub Grouped-push_self :
        (groups : List (ℕ × List E)) → Grouped author event (push_event author event groups)
    unfolding push_event
    Grouped-push_self [] = inl (refl, inl refl)
    Grouped-push_self ((b, group) ∷ groups) = elim (Bool-cases (b == author)) [
      | inl e ↦ rw e (
          inl
            (sym ((==_iff b author).0 e), Member-append_right event group (event ∷ []) (inl refl)))
      | inr e ↦ rw e (inr (Grouped-push_self groups))
    ]

    pub Grouped-push_of :
        (a : ℕ) (x : E) (groups : List (ℕ × List E))
        → Grouped a x groups
        → Grouped a x (push_event author event groups)
    unfolding push_event
    Grouped-push_of a x [] h = elim h [ ]
    Grouped-push_of a x ((b, group) ∷ groups) h = elim (Bool-cases (b == author)) [
      | inl e ↦ rw e (elim h [
        | inl p ↦ inl (p.0, Member-append_left x group (event ∷ []) p.1)
        | inr q ↦ inr q
      ])
      | inr e ↦ rw e (elim h [ inl p ↦ inl p | inr q ↦ inr (Grouped-push_of a x groups q) ])
    ]

    -- Whatever is in the groups after a push was there before, or is the pushed event.
    pub Grouped-push :
        (a : ℕ) (x : E) (groups : List (ℕ × List E))
        → Grouped a x (push_event author event groups)
        → (a ≡ author) × (x ≡ event) ⊎ Grouped a x groups
    unfolding push_event
    Grouped-push a x [] (inl p) = inl (p.0, elim p.1 [ inl s ↦ s | inr f ↦ absurd f ])
    Grouped-push a x [] (inr f) = absurd f
    Grouped-push a x ((b, group) ∷ groups) h = elim (Bool-cases (b == author)) [
      | inl e ↦ here e (rw e at h)
      | inr e ↦ there (Grouped-push a x groups) (rw e at h)
    ]
      where
        here :
            (b == author) ≡ true
            → Grouped a x ((b, group ++ event ∷ []) ∷ groups)
            → (a ≡ author) × (x ≡ event) ⊎ Grouped a x ((b, group) ∷ groups)
        here e (inr q) = inr (inr q)
        here e (inl p) = elim (Member-append x group (event ∷ []) p.1) [
          | inl m ↦ inr (inl (p.0, m))
          | inr m ↦ inl (p.0 ∙ (==_iff b author).0 e, elim m [ inl s ↦ s | inr f ↦ absurd f ])
        ]

        there :
            (Grouped a x (push_event author event groups)
              → (a ≡ author) × (x ≡ event) ⊎ Grouped a x groups)
            → Grouped a x ((b, group) ∷ push_event author event groups)
            → (a ≡ author) × (x ≡ event) ⊎ Grouped a x ((b, group) ∷ groups)
        there ih (inl p) = inr (inl p)
        there ih (inr q) = elim (ih q) [ inl r ↦ inl r | inr r ↦ inr (inr r) ]

    pub Member-keys-push :
        (k : ℕ) (groups : List (ℕ × List E))
        → Member k (keys (push_event author event groups))
        → (k ≡ author) ⊎ Member k (keys groups)
    unfolding push_event
    Member-keys-push k [] (inl e) = inl e
    Member-keys-push k [] (inr f) = absurd f
    Member-keys-push k ((b, group) ∷ groups) h = elim (Bool-cases (b == author)) [
      | inl e ↦ inr (rw e at h)
      | inr e ↦ there (Member-keys-push k groups) (rw e at h)
    ]
      where
        there :
            (Member k (keys (push_event author event groups))
              → (k ≡ author) ⊎ Member k (keys groups))
            → Member k (b ∷ keys (push_event author event groups))
            → (k ≡ author) ⊎ Member k (b ∷ keys groups)
        there ih (inl p) = inr (inl p)
        there ih (inr q) = elim (ih q) [ inl r ↦ inl r | inr r ↦ inr (inr r) ]

    pub IsDistinct-push :
        (groups : List (ℕ × List E))
        → IsDistinct (keys groups)
        → IsDistinct (keys (push_event author event groups))
    unfolding push_event
    IsDistinct-push [] d = ((λ m. m), tt)
    IsDistinct-push ((b, group) ∷ groups) d = elim (Bool-cases (b == author)) [
      | inl e ↦ rw e d
      | inr e ↦ rw e (
        (λ m. elim (Member-keys-push b groups m) [ inl p ↦ ground arith | inr q ↦ d.0 q ]),
        IsDistinct-push groups d.1,
      )
    ]

pub Grouped_of_member :
    {E : Type 0} (a : ℕ) (e : E) (group : List E) (groups : List (ℕ × List E))
    → Member (a, group) groups
    → Member e group
    → Grouped a e groups
Grouped_of_member a e group [] m n = elim m [ ]
Grouped_of_member {E} a e group ((b, other) ∷ groups) (inl s) n =
    inl (ap (λ (p : ℕ × List E). p.0) s, subst (λ (p : ℕ × List E). Member e p.1) s n)
Grouped_of_member a e group (_ ∷ groups) (inr m) n = inr (Grouped_of_member a e group groups m n)

Member-keys :
    {E : Type 0} (a : ℕ) (e : E) (groups : List (ℕ × List E))
    → Grouped a e groups
    → Member a (keys groups)
Member-keys a e [] h = elim h [ ]
Member-keys a e ((b, group) ∷ groups) (inl p) = inl p.0
Member-keys a e ((b, group) ∷ groups) (inr h) = inr (Member-keys a e groups h)

-- The one group of an author holds all that is grouped under the author.
pub group_of :
    {E : Type 0} (a : ℕ) (e : E) (groups : List (ℕ × List E))
    → IsDistinct (keys groups)
    → Grouped a e groups
    → (group : List E) × Member (a, group) groups
      × Member e group
      × ((x : E) → Grouped a x groups → Member x group)
group_of a e [] d h = elim h [ ]
group_of {E} a e ((b, group) ∷ groups) d (inl p) = (
  group,
  inl (ap (λ (k : ℕ). (k, group)) p.0),
  p.1,
  λ x h. elim h [
    | inl q ↦ q.1
    | inr q ↦ absurd (d.0 (subst (λ k. Member k (keys groups)) p.0 (Member-keys a x groups q)))
  ],
)
group_of {E} a e ((b, group) ∷ groups) d (inr h) =
    let (found, m, n, all) = group_of a e groups d.1 h in
    (
      found,
      inr m,
      n,
      λ x q. elim q [
        | inl p ↦ absurd (d.0 (subst (λ k. Member k (keys groups)) p.0 (Member-keys a e groups h)))
        | inr r ↦ all x r
      ],
    )

-- An author has one group.
pub group_unique :
    {E : Type 0} (a : ℕ) (xs ys : List E) (groups : List (ℕ × List E))
    → IsDistinct (keys groups)
    → Member (a, xs) groups
    → Member (a, ys) groups
    → xs ≡ ys
group_unique a xs ys [] d m n = elim m [ ]
group_unique {E} a xs ys ((b, zs) ∷ groups) d (inl s) (inl t) =
    ap (λ (p : ℕ × List E). p.1) (s ∙ sym t)
group_unique {E} a xs ys ((b, zs) ∷ groups) d (inl s) (inr n) = absurd (
    d.0 (
      subst (λ k. Member k (keys groups)) (ap (λ (p : ℕ × List E). p.0) s)
        (Member-map_of (λ (p : ℕ × List E). p.0) (a, ys) groups n)))
group_unique {E} a xs ys ((b, zs) ∷ groups) d (inr m) (inl t) = absurd (
    d.0 (
      subst (λ k. Member k (keys groups)) (ap (λ (p : ℕ × List E). p.0) t)
        (Member-map_of (λ (p : ℕ × List E). p.0) (a, xs) groups m)))
group_unique a xs ys ((b, zs) ∷ groups) d (inr m) (inr n) = group_unique a xs ys groups d.1 m n
