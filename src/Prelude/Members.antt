-- ===== src/Prelude/Members.antt =====
-- Membership, universal quantification over a list, and lists with no repetition.
use Prim.Native.Nat.{ℕ}
use mathlib.Core.Path.{◌≡◌, refl, sym, ap, subst}
use mathlib.Core.Logic.{◌⊎◌, inl, inr}
use mathlib.Core.Bool.{Bool, true, false, or-true}
use mathlib.Core.List.{List, [], ◌∷◌, ◌++◌, map}
use mathlib.Core.Option.{Option, some}
use wotcrawler.Prelude.Tests.{Bool-cases, Option-cases, ◌==◌, ==_iff, ==_refl}
use wotcrawler.Prelude.Lists.{filter, filter_map, contains}

-- These compute to sums and tuples, which the tactics take apart and build.
abbrev pub Member : {A : Type 0} → A → List A → Type 0
Member a [] = ⊥
Member a (x ∷ xs) = (a ≡ x) ⊎ Member a xs

abbrev pub All {ℓ κ} : {A : Type ℓ} → (A → Type κ) → List A → Type κ
All P [] = Unit
All P (x ∷ xs) = P x × All P xs

-- No element occurs twice.
abbrev pub IsDistinct : {A : Type 0} → List A → Type 0
IsDistinct [] = Unit
IsDistinct (x ∷ xs) = (¬ Member x xs) × IsDistinct xs

module _ {A : Type 0} where
  pub All-member : (P : A → Type 0) (a : A) (xs : List A) → All P xs → Member a xs → P a
  All-member P a [] h m = elim m [ ]
  All-member P a (x ∷ xs) h (inl e) = subst P (sym e) h.0
  All-member P a (x ∷ xs) h (inr m) = All-member P a xs h.1 m

  pub All-of_Member : (P : A → Type 0) (xs : List A) → ((a : A) → Member a xs → P a) → All P xs
  All-of_Member P [] h = tt
  All-of_Member P (x ∷ xs) h = (h x (inl refl), All-of_Member P xs (λ a m. h a (inr m)))

  pub All-imp : (P Q : A → Type 0) (xs : List A) → ((a : A) → P a → Q a) → All P xs → All Q xs
  All-imp P Q [] f h = tt
  All-imp P Q (x ∷ xs) f h = (f x h.0, All-imp P Q xs f h.1)

  pub All-append : (P : A → Type 0) (xs ys : List A) → All P xs → All P ys → All P (xs ++ ys)
  All-append P [] ys hx hy = hy
  All-append P (x ∷ xs) ys hx hy = (hx.0, All-append P xs ys hx.1 hy)

  pub Member-append_left : (a : A) (xs ys : List A) → Member a xs → Member a (xs ++ ys)
  Member-append_left a [] ys m = elim m [ ]
  Member-append_left a (x ∷ xs) ys (inl e) = inl e
  Member-append_left a (x ∷ xs) ys (inr m) = inr (Member-append_left a xs ys m)

  pub Member-append_right : (a : A) (xs ys : List A) → Member a ys → Member a (xs ++ ys)
  Member-append_right a [] ys m = m
  Member-append_right a (x ∷ xs) ys m = inr (Member-append_right a xs ys m)

  pub Member-append : (a : A) (xs ys : List A) → Member a (xs ++ ys) → Member a xs ⊎ Member a ys
  Member-append a [] ys m = inr m
  Member-append a (x ∷ xs) ys (inl e) = inl (inl e)
  Member-append a (x ∷ xs) ys (inr m) = elim (Member-append a xs ys m) [
    | inl h ↦ inl (inr h)
    | inr h ↦ inr h
  ]

  pub Member-filter :
      (p : A → Bool) (a : A) (xs : List A) → Member a (filter p xs) → Member a xs × (p a ≡ true)
  Member-filter p a [] m = elim m [ ]
  Member-filter p a (x ∷ xs) m = elim (Bool-cases (p x)) [
    | inl e ↦ first e (λ s. Member-filter p a xs s) (rw e at m)
    | inr e ↦ let (l, r) = Member-filter p a xs (rw e at m) in (inr l, r)
  ]
    where
      first :
          p x ≡ true
          → (Member a (filter p xs) → Member a xs × (p a ≡ true))
          → Member a (x ∷ filter p xs)
          → Member a (x ∷ xs) × (p a ≡ true)
      first e ih (inl s) = (inl s, rw s e)
      first e ih (inr s) = let (l, r) = ih s in (inr l, r)

  pub Member-filter_of :
      (p : A → Bool) (a : A) (xs : List A) → Member a xs → p a ≡ true → Member a (filter p xs)
  Member-filter_of p a [] m h = elim m [ ]
  Member-filter_of p a (x ∷ xs) (inl s) h =
      let e : p x ≡ true = subst (λ y. p y ≡ true) s h in rw e (inl s)
  Member-filter_of p a (x ∷ xs) (inr s) h = elim (Bool-cases (p x)) [
    | inl e ↦ rw e (inr (Member-filter_of p a xs s h))
    | inr e ↦ rw e (Member-filter_of p a xs s h)
  ]

  pub filter-append :
      (p : A → Bool) (xs ys : List A) → filter p (xs ++ ys) ≡ filter p xs ++ filter p ys
  filter-append p [] ys = refl
  filter-append p (x ∷ xs) ys = elim (Bool-cases (p x)) [
    | inl e ↦ rw e (ap (◌∷◌ x) (filter-append p xs ys))
    | inr e ↦ rw e (filter-append p xs ys)
  ]

  pub filter-IsDistinct : (p : A → Bool) (xs : List A) → IsDistinct xs → IsDistinct (filter p xs)
  filter-IsDistinct p [] h = tt
  filter-IsDistinct p (x ∷ xs) h = elim (Bool-cases (p x)) [
    | inl e ↦ rw e ((λ m. h.0 (Member-filter p x xs m).0), filter-IsDistinct p xs h.1)
    | inr e ↦ rw e (filter-IsDistinct p xs h.1)
  ]

module _ {A B : Type 0} where
  pub Member-map :
      (f : A → B) (b : B) (xs : List A) → Member b (map f xs) → (a : A) × Member a xs × (b ≡ f a)
  Member-map f b [] m = elim m [ ]
  Member-map f b (x ∷ xs) (inl e) = (x, inl refl, e)
  Member-map f b (x ∷ xs) (inr m) = let (a, l, r) = Member-map f b xs m in (a, inr l, r)

  pub Member-map_of : (f : A → B) (a : A) (xs : List A) → Member a xs → Member (f a) (map f xs)
  Member-map_of f a [] m = elim m [ ]
  Member-map_of f a (x ∷ xs) (inl e) = inl (ap f e)
  Member-map_of f a (x ∷ xs) (inr m) = inr (Member-map_of f a xs m)

  pub Member-filter_map :
      (f : A → Option B) (b : B) (xs : List A)
      → Member b (filter_map f xs)
      → (a : A) × Member a xs × (f a ≡ some b)
  Member-filter_map f b [] m = elim m [ ]
  Member-filter_map f b (x ∷ xs) m = elim (Option-cases (f x)) [
    | inl e ↦ let (a, l, r) = Member-filter_map f b xs (rw (e, filter_map) at m) in (a, inr l, r)
    | inr (c, e) ↦ either c e (λ s. Member-filter_map f b xs s) (rw (e, filter_map) at m)
  ]
    where
      either :
          (c : B)
          → f x ≡ some c
          → (Member b (filter_map f xs) → (a : A) × Member a xs × (f a ≡ some b))
          → Member b (c ∷ filter_map f xs)
          → (a : A) × Member a (x ∷ xs) × (f a ≡ some b)
      either c e ih (inl s) = (x, inl refl, rw s e)
      either c e ih (inr s) = let (a, l, r) = ih s in (a, inr l, r)

  pub Member-filter_map_of :
      (f : A → Option B) (a : A) (b : B) (xs : List A)
      → Member a xs
      → f a ≡ some b
      → Member b (filter_map f xs)
  Member-filter_map_of f a b [] m h = elim m [ ]
  Member-filter_map_of f a b (x ∷ xs) (inl s) h =
      let e : f x ≡ some b = subst (λ y. f y ≡ some b) s h in rw (e, filter_map) (inl refl)
  Member-filter_map_of f a b (x ∷ xs) (inr s) h = elim (Option-cases (f x)) [
    | inl e ↦ rw (e, filter_map) (Member-filter_map_of f a b xs s h)
    | inr (c, e) ↦ rw (e, filter_map) (inr (Member-filter_map_of f a b xs s h))
  ]

pub contains→member : (xs : List ℕ) (a : ℕ) → contains xs a ≡ true → Member a xs
contains→member [] a h = cc
contains→member (x ∷ xs) a h = elim (Bool-cases (x == a)) [
  | inl e ↦ inl (sym ((==_iff x a).0 e))
  | inr e ↦ inr (contains→member xs a (rw e at h))
]

pub member→contains : (xs : List ℕ) (a : ℕ) → Member a xs → contains xs a ≡ true
member→contains [] a m = elim m [ ]
member→contains (x ∷ xs) a (inl e) = rw (e, ==_refl)
member→contains (x ∷ xs) a (inr m) = rw (member→contains xs a m, or-true)

pub not-Member_of_contains : (xs : List ℕ) (a : ℕ) → contains xs a ≡ false → ¬ Member a xs
not-Member_of_contains xs a h m = cc (member→contains xs a m)
