-- ===== src/Crawl/Frontier/Order.antt =====
-- src/crawl/frontier.rs: the order by id, and the first rows of it.
use wotcrawler.Prelude.{
  ℕ, zero, suc, ◌≤◌, ◌≡◌, ◌∙◌, ◌⊎◌, inl, inr, refl, ap, min, List, [], ◌∷◌, Member, take, length,
  leb, Bool-cases, arith, ◌↔◌,
}
use wotcrawler.Store.{Row}
use wotcrawler.Crawl.Frontier.{insert_by_id, order_by_id}

Member-insert :
    (r : Row) (rs : List Row) (x : Row) → Member x (insert_by_id r rs) ↔ ((x ≡ r) ⊎ Member x rs)
unfolding insert_by_id
Member-insert r [] x = ((λ m. m), λ m. m)
Member-insert r (s ∷ rs) x =
    let ih = Member-insert r rs x in
    elim (Bool-cases (leb r.id s.id)) [
      | inl e ↦ rw (e, insert_by_id) ((λ m. m), λ m. m)
      | inr e ↦
          rw (e, insert_by_id)
            (
              (λ m. elim m [
                | inl h ↦ inr (inl h)
                | inr h ↦ elim (ih.0 h) [ inl k ↦ inl k | inr k ↦ inr (inr k) ]
              ]),
              λ m. elim m [
                | inl h ↦ inr (ih.1 (inl h))
                | inr h ↦ elim h [ inl k ↦ inl k | inr k ↦ inr (ih.1 (inr k)) ]
              ],
            )
    ]

pub Member-order : (rs : List Row) (x : Row) → Member x (order_by_id rs) ↔ Member x rs
unfolding order_by_id
Member-order [] x = ((λ m. m), λ m. m)
Member-order (r ∷ rs) x =
    let ih = Member-order rs x in
    let at = Member-insert r (order_by_id rs) x in
    (
      (λ m. elim (at.0 m) [ inl h ↦ inl h | inr h ↦ inr (ih.0 h) ]),
      λ m. elim m [ inl h ↦ at.1 (inl h) | inr h ↦ at.1 (inr (ih.1 h)) ],
    )

length-insert : (r : Row) (rs : List Row) → length (insert_by_id r rs) ≡ suc (length rs)
unfolding insert_by_id
length-insert r [] = refl
length-insert r (s ∷ rs) = ground (arith, length-insert r rs)

pub length-order : (rs : List Row) → length (order_by_id rs) ≡ length rs
unfolding order_by_id
length-order [] = refl
length-order (r ∷ rs) = length-insert r (order_by_id rs) ∙ ap suc (length-order rs)

abbrev pub IsSorted : List Row → Type 0
IsSorted [] = Unit
IsSorted (r ∷ rs) = ((x : Row) → Member x rs → r.id ≤ x.id) × IsSorted rs

insert-IsSorted : (r : Row) (rs : List Row) → IsSorted rs → IsSorted (insert_by_id r rs)
unfolding insert_by_id
insert-IsSorted r [] h = ((λ x m. absurd m), tt)
insert-IsSorted r (s ∷ rs) h = elim (Bool-cases (leb r.id s.id)) [
  | inl e ↦
      rw (e, insert_by_id)
        (
          (λ x m. elim m [ inl k ↦ rw k (ground arith) | inr k ↦ let b = h.0 x k in ground arith ]),
          h,
        )
  | inr e ↦
      rw (e, insert_by_id)
        (
          (λ x m. elim ((Member-insert r rs x).0 m) [
            | inl k ↦ rw k (ground arith)
            | inr k ↦ h.0 x k
          ]),
          insert-IsSorted r rs h.1,
        )
]

pub order-IsSorted : (rs : List Row) → IsSorted (order_by_id rs)
unfolding order_by_id
order-IsSorted [] = tt
order-IsSorted (r ∷ rs) = insert-IsSorted r (order_by_id rs) (order-IsSorted rs)

pub length-take : (n : ℕ) (rs : List Row) → length (take n rs) ≡ min n (length rs)
length-take zero rs = omega arith
length-take (suc n) [] = omega arith
length-take (suc n) (r ∷ rs) = omega (arith, length-take n rs)

pub Member-take : (n : ℕ) (rs : List Row) (x : Row) → Member x (take n rs) → Member x rs
Member-take zero rs x m = absurd m
Member-take (suc n) [] x m = absurd m
Member-take (suc n) (r ∷ rs) x (inl h) = inl h
Member-take (suc n) (r ∷ rs) x (inr h) = inr (Member-take n rs x h)

pub take-lowest :
    (n : ℕ) (rs : List Row) (x y : Row)
    → IsSorted rs
    → Member x (take n rs)
    → Member y rs
    → Member y (take n rs) ⊎ (x.id ≤ y.id)
take-lowest zero rs x y s mx my = absurd mx
take-lowest (suc n) [] x y s mx my = absurd mx
take-lowest (suc n) (r ∷ rs) x y s mx (inl e) = inl (inl e)
take-lowest (suc n) (r ∷ rs) x y s (inl e) (inr my) = inr (rw e (s.0 y my))
take-lowest (suc n) (r ∷ rs) x y s (inr mx) (inr my) = elim (take-lowest n rs x y s.1 mx my) [
  | inl h ↦ inl (inr h)
  | inr h ↦ inr h
]
