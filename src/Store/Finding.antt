-- ===== src/Store/Finding.antt =====
-- Rows and bytes that are found, and lists that grow at their end.
use wotcrawler.Prelude.{
  ℕ, ◌≡◌, ◌≢◌, inl, inr, refl, sym, ap, subst, Bool, true, false, List, [], ◌∷◌, ◌++◌, none, some,
  ◌==◌, ==_iff, ==_refl, Member, All, IsDistinct, map, filter, Bool-cases, arith, All-of_Member,
  All-member, Member-filter, Member-append,
}
use wotcrawler.Store.{Row, find_row}
use wotcrawler.Store.WellFormed.{ids, keys}
use wotcrawler.Store.Pubkeys.{bytes_eq, find_pubkey}

pub snoc-IsDistinct :
    {A : Type 0} (a : A) (xs : List A) → ¬ Member a xs → IsDistinct xs → IsDistinct (xs ++ a ∷ [])
snoc-IsDistinct a [] n d = (λ m. m, tt)
snoc-IsDistinct a (x ∷ xs) n d = (
  (λ m. elim (Member-append x xs (a ∷ []) m) [
    | inl k ↦ d.0 k
    | inr k ↦ elim k [ inl e ↦ n (inl (sym e)) | inr f ↦ f ]
  ]),
  snoc-IsDistinct a xs (λ m. n (inr m)) d.1,
)

pub map-append :
    {A B : Type 0} (f : A → B) (xs ys : List A) → map f (xs ++ ys) ≡ map f xs ++ map f ys
map-append f [] ys = refl
map-append f (x ∷ xs) ys = ap (◌∷◌ (f x)) (map-append f xs ys)

pub All-filter :
    {A : Type 0} (P : A → Type 0) (p : A → Bool) (xs : List A) → All P xs → All P (filter p xs)
All-filter P p xs h =
    All-of_Member P (filter p xs) (λ a m. All-member P a xs h (Member-filter p a xs m).0)

pub bytes_eq_refl : (xs : List ℕ) → bytes_eq xs xs ≡ true
bytes_eq_refl [] = refl
bytes_eq_refl (x ∷ xs) = rw (==_refl, bytes_eq_refl xs) refl

pub bytes_same : (xs ys : List ℕ) → bytes_eq xs ys ≡ true → xs ≡ ys
bytes_same [] [] h = refl
bytes_same [] (y ∷ ys) h = cc
bytes_same (x ∷ xs) [] h = cc
bytes_same (x ∷ xs) (y ∷ ys) h =
    let parts : ((x == y) ≡ true) × (bytes_eq xs ys ≡ true) = ground arith in
    let head = (==_iff x y).0 parts.0 in let tail = bytes_same xs ys parts.1 in cc

pub bytes_differ : (xs ys : List ℕ) → bytes_eq xs ys ≡ false → xs ≢ ys
bytes_differ xs ys h e =
    let same : bytes_eq xs ys ≡ true = subst (λ zs. bytes_eq xs zs ≡ true) e (bytes_eq_refl xs) in
    cc

pub find_pubkey-none :
    (pubkey : List ℕ) (rs : List Row) → find_pubkey pubkey rs ≡ none → ¬ Member pubkey (keys rs)
find_pubkey-none pubkey [] h m = m
find_pubkey-none pubkey (r ∷ rs) h m = elim (Bool-cases (bytes_eq r.pubkey pubkey)) [
  | inl e ↦ cc
  | inr e ↦ elim m [
    | inl s ↦ bytes_differ r.pubkey pubkey e (sym s)
    | inr k ↦ find_pubkey-none pubkey rs (rw e at h) k
  ]
]

pub find_row-Member : (i : ℕ) (rs : List Row) (r : Row) → find_row i rs ≡ some r → Member i (ids rs)
find_row-Member i [] r h = cc
find_row-Member i (s ∷ rs) r h = elim (Bool-cases (s.id == i)) [
  | inl e ↦ inl (sym ((==_iff s.id i).0 e))
  | inr e ↦ inr (find_row-Member i rs r (rw e at h))
]
