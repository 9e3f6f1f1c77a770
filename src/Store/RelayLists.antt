-- ===== src/Store/RelayLists.antt =====
-- Look-ups in a relay list as it is given: the first entry of a url counts.
use Prim.Native.String.{String}
use wotcrawler.Prelude.{
  inl, inr, ◌≡◌, ◌⊎◌, refl, sym, ◌∙◌, List, [], ◌∷◌, ◌++◌, Option, none, some, Bool-cases,
  Option-cases,
}
use wotcrawler.Prelude.Maps.{string_eq, lookup, beq_refl}
use wotcrawler.Ingest.RelayList.{Marker}

pub lookup-append_found :
    (j : String) (k : Marker) (xs ys : List (String × Marker))
    → lookup j xs ≡ some k
    → lookup j (xs ++ ys) ≡ some k
unfolding lookup
lookup-append_found j k [] ys h = cc
lookup-append_found j k ((u, m) ∷ xs) ys h = elim (Bool-cases (string_eq.beq u j)) [
  | inl e ↦ rw e (rw e at h)
  | inr e ↦ rw e (lookup-append_found j k xs ys (rw e at h))
]

pub lookup-append_none :
    (j : String) (xs ys : List (String × Marker))
    → lookup j xs ≡ none
    → lookup j (xs ++ ys) ≡ lookup j ys
unfolding lookup
lookup-append_none j [] ys h = refl
lookup-append_none j ((u, m) ∷ xs) ys h = elim (Bool-cases (string_eq.beq u j)) [
  | inl e ↦ absurd (some_not (rw e at h))
  | inr e ↦ rw e (lookup-append_none j xs ys (rw e at h))
]
  where
    some_not : Path (Option Marker) (some m) none → ⊥
    some_not q = cc

lookup_one : (j u : String) (m n : Marker) → lookup j ((u, m) ∷ []) ≡ some n → (u ≡ j) × (m ≡ n)
unfolding lookup
lookup_one j u m n h = elim (Bool-cases (string_eq.beq u j)) [
  | inl e ↦ ((string_eq.beq_iff u j).0 e, inj (rw e at h))
  | inr e ↦ absurd (none_not (rw e at h))
]
  where
    inj : Path (Option Marker) (some m) (some n) → m ≡ n
    inj q = cc

    none_not : Path (Option Marker) none (some n) → ⊥
    none_not q = cc

pub lookup_here : (u : String) (m : Marker) → lookup u ((u, m) ∷ []) ≡ some m
unfolding lookup
lookup_here u m = rw (beq_refl u) refl

-- A url that is found in a longer list is found in the list, or is the new one.
pub lookup-append_cases :
    (j u : String) (m n : Marker) (pairs : List (String × Marker))
    → lookup j (pairs ++ (u, m) ∷ []) ≡ some n
    → (lookup j pairs ≡ some n) ⊎ ((lookup j pairs ≡ none) × (u ≡ j) × (m ≡ n))
lookup-append_cases j u m n pairs h = elim (Option-cases (lookup j pairs)) [
  | inl e ↦
      let (same, marked) =
        lookup_one j u m n (sym (lookup-append_none j pairs ((u, m) ∷ []) e) ∙ h) in
      inr (e, same, marked)
  | inr (l, e) ↦ inl (e ∙ (sym (lookup-append_found j l pairs ((u, m) ∷ []) e) ∙ h))
]
