-- ===== src/Crawl/Apply/Rows.antt =====
-- src/crawl/apply.rs: two predicates of the rows that a batch keeps.
use wotcrawler.Prelude.{
  ℕ, ◌≡◌, ◌∙◌, inl, inr, refl, sym, Bool, true, false, List, [], ◌∷◌, ◌++◌, some, ◌==◌, ==_iff,
  Bool-cases,
}
use wotcrawler.Prelude.Maps.{nat_eq}
use wotcrawler.Store.{Row, update_rows, has_id}
use wotcrawler.Store.Pubkeys.{bytes_eq, find_pubkey, new_row}
use wotcrawler.Crawl.Frontier.{is_in_progress}
use wotcrawler.Crawl.Apply.Settled.{IsStable}

-- No row with the id is leased.
abbrev pub IsSettled : ℕ → List Row → Type 0
IsSettled id [] = Unit
IsSettled id (r ∷ rs) = (r.id ≡ id → is_in_progress r.status ≡ false) × IsSettled id rs

pub IsSettled-added :
    (i : ℕ) (rows : List Row) (id : ℕ) (key : List ℕ)
    → IsSettled i rows
    → IsSettled i (rows ++ new_row id key ∷ [])
IsSettled-added i [] id key h = ((λ e. refl), tt)
IsSettled-added i (r ∷ rs) id key h = (h.0, IsSettled-added i rs id key h.1)

pub IsSettled-changed :
    (i : ℕ) (select : Row → Bool) (change : Row → Row) (rows : List Row)
    → ((r : Row) → (change r).id ≡ r.id)
    → ((r : Row) → is_in_progress (change r).status ≡ false)
    → IsSettled i rows
    → IsSettled i (update_rows select change rows)
IsSettled-changed i select change [] same free h = tt
IsSettled-changed i select change (r ∷ rs) same free h = elim (Bool-cases (select r)) [
  | inl e ↦ rw e ((λ _. free r), IsSettled-changed i select change rs same free h.1)
  | inr e ↦ rw e (h.0, IsSettled-changed i select change rs same free h.1)
]

-- A change of other rows leaves it as it is.
pub IsSettled-others :
    (i : ℕ) (select : Row → Bool) (change : Row → Row) (rows : List Row)
    → ((r : Row) → r.id ≡ i → select r ≡ false)
    → ((r : Row) → (change r).id ≡ r.id)
    → IsSettled i rows
    → IsSettled i (update_rows select change rows)
IsSettled-others i select change [] others same h = tt
IsSettled-others i select change (r ∷ rs) others same h =
    let rest = IsSettled-others i select change rs others same h.1 in
    elim (Bool-cases (select r)) [
      | inl e ↦ rw e ((λ q. absurd (both_not (others r (sym (same r) ∙ q)) e)), rest)
      | inr e ↦ rw e (h.0, rest)
    ]
  where
    both_not : {b : Bool} → b ≡ false → b ≡ true → ⊥
    both_not p q = cc

pub IsSettled-IsStable : (i : ℕ) → IsStable (IsSettled i)
IsSettled-IsStable i = record {
  added = IsSettled-added i;
  changed =
      λ id change rows same keys free h. IsSettled-changed i (has_id id) change rows same free h;
}

-- A change of all rows with the id settles it.
pub settles :
    (i : ℕ) (change : Row → Row) (rows : List Row)
    → ((r : Row) → (change r).id ≡ r.id)
    → ((r : Row) → is_in_progress (change r).status ≡ false)
    → IsSettled i (update_rows (has_id i) change rows)
settles i change [] same free = tt
settles i change (r ∷ rs) same free = elim (Bool-cases (r.id == i)) [
  | inl e ↦ rw e ((λ _. free r), settles i change rs same free)
  | inr e ↦ rw e ((λ q. absurd (differ q e)), settles i change rs same free)
]
  where
    differ : r.id ≡ i → (r.id == i) ≡ false → ⊥
    differ q e = let b = (==_iff r.id i).1 q in cc

-- The key is known under the id.
abbrev pub IsKnown : List ℕ → ℕ → List Row → Type 0
IsKnown key id rows = find_pubkey key rows ≡ some id

IsKnown-added :
    (key : List ℕ) (i : ℕ) (rows : List Row) (id : ℕ) (other : List ℕ)
    → IsKnown key i rows
    → IsKnown key i (rows ++ new_row id other ∷ [])
IsKnown-added key i [] id other h = cc
IsKnown-added key i (r ∷ rs) id other h = elim (Bool-cases (bytes_eq r.pubkey key)) [
  | inl e ↦ rw e (rw e at h)
  | inr e ↦ rw e (IsKnown-added key i rs id other (rw e at h))
]

pub IsKnown-changed :
    (key : List ℕ) (i : ℕ) (select : Row → Bool) (change : Row → Row) (rows : List Row)
    → ((r : Row) → (change r).id ≡ r.id)
    → ((r : Row) → (change r).pubkey ≡ r.pubkey)
    → IsKnown key i rows
    → IsKnown key i (update_rows select change rows)
IsKnown-changed key i select change [] same keys h = cc
IsKnown-changed key i select change (r ∷ rs) same keys h =
    let rest = IsKnown-changed key i select change rs same keys in
    elim (Bool-cases (select r)) [
      | inl c ↦ elim (Bool-cases (bytes_eq r.pubkey key)) [
        | inl e ↦ rw (c, keys r, e, same r) (rw e at h)
        | inr e ↦ rw (c, keys r, e) (rest (rw e at h))
      ]
      | inr c ↦ elim (Bool-cases (bytes_eq r.pubkey key)) [
        | inl e ↦ rw (c, e) (rw e at h)
        | inr e ↦ rw (c, e) (rest (rw e at h))
      ]
    ]

pub IsKnown-IsStable : (key : List ℕ) (i : ℕ) → IsStable (IsKnown key i)
IsKnown-IsStable key i = record {
  added = IsKnown-added key i;
  changed =
      λ id change rows same keys free h. IsKnown-changed key i (has_id id) change rows same keys h;
}
