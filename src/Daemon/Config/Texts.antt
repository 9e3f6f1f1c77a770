-- ===== src/Daemon/Config/Texts.antt =====
-- The tests of src/daemon/config.rs on the text of a url.
use wotcrawler.Prelude.{
  ℕ, ◌≡◌, ◌↔◌, refl, sym, ap, ◌∙◌, subst, Bool, true, false, List, [], ◌∷◌, ◌++◌, Member,
  Member-append_left, Member-append_right, is_empty, inl, inr, ==_iff, ==_refl, ◌==◌, Bool-cases,
  or-true,
}
use mathlib.Core.List.{reverse, reverse-cons, reverse-reverse}
use wotcrawler.Relay.RateLimit.{is_whitespace, trim_start, trim}
use wotcrawler.Daemon.Config.{is_prefix, contains_text}

is_prefix-split :
    (pattern text : List ℕ)
    → is_prefix pattern text ≡ true
    → (after : List ℕ) × (text ≡ pattern ++ after)
is_prefix-split [] text h = (text, refl)
is_prefix-split (p ∷ ps) [] h = cc
is_prefix-split (p ∷ ps) (c ∷ cs) h = elim (Bool-cases (p == c)) [
  | inl e ↦
      let (after, q) = is_prefix-split ps cs (rw e at h) in
      (after, let same = (==_iff p c).0 e in cc)
  | inr e ↦ absurd (false_not_true (rw e at h))
]
  where
    false_not_true : Path Bool false true → ⊥
    false_not_true q = cc

is_prefix-append : (pattern after : List ℕ) → is_prefix pattern (pattern ++ after) ≡ true
is_prefix-append [] after = refl
is_prefix-append (p ∷ ps) after = rw ==_refl (is_prefix-append ps after)

-- A text passes the test exactly if the pattern stands in it.
pub contains_text_iff :
    (p : ℕ) (ps text : List ℕ)
    → (contains_text (p ∷ ps) text ≡ true)
      ↔ ((before after : List ℕ) × (text ≡ before ++ (p ∷ ps) ++ after))
contains_text_iff p ps text = (find text, λ (before, after, e). rw e (found before after))
  where
    find :
        (cs : List ℕ)
        → contains_text (p ∷ ps) cs ≡ true
        → (before after : List ℕ) × (cs ≡ before ++ (p ∷ ps) ++ after)
    find [] h = cc
    find (c ∷ cs) h = elim (Bool-cases (is_prefix (p ∷ ps) (c ∷ cs))) [
      | inl e ↦ let (after, q) = is_prefix-split (p ∷ ps) (c ∷ cs) e in ([], after, q)
      | inr e ↦ let (before, after, q) = find cs (rw e at h) in (c ∷ before, after, cc)
    ]

    found : (before after : List ℕ) → contains_text (p ∷ ps) (before ++ (p ∷ ps) ++ after) ≡ true
    found [] after = rw (is_prefix-append (p ∷ ps) after) refl
    found (b ∷ before) after = rw (found before after) (or-true _)

-- A character that is no white space.
abbrev pub IsInk : List ℕ → Type 0
IsInk text = (c : ℕ) × Member c text × (is_whitespace c ≡ false)

trim_start-IsInk : (text : List ℕ) → IsInk text → IsInk (trim_start text)
unfolding trim_start
trim_start-IsInk [] ink = ink
trim_start-IsInk (b ∷ bs) (c, m, e) = elim (Bool-cases (is_whitespace b)) [
  | inr solid ↦ rw solid (c, m, e)
  | inl blank ↦ rw blank (trim_start-IsInk bs (c, later blank m, e))
]
  where
    clash : Path Bool true false → ⊥
    clash q = cc

    later : is_whitespace b ≡ true → Member c (b ∷ bs) → Member c bs
    later blank (inr n) = n
    later blank (inl q) = absurd (clash (sym blank ∙ ap is_whitespace (sym q) ∙ e))

trim_start-within : (text : List ℕ) (c : ℕ) → Member c (trim_start text) → Member c text
unfolding trim_start
trim_start-within [] c m = m
trim_start-within (b ∷ bs) c m = elim (Bool-cases (is_whitespace b)) [
  | inr solid ↦ rw solid at m
  | inl blank ↦ inr (trim_start-within bs c (rw blank at m))
]

-- What is left begins with a character that is none.
trim_start-first : (text : List ℕ) → is_empty (trim_start text) ≡ false → IsInk (trim_start text)
unfolding trim_start
trim_start-first [] h = cc
trim_start-first (b ∷ bs) h = elim (Bool-cases (is_whitespace b)) [
  | inr solid ↦ rw solid (b, inl refl, solid)
  | inl blank ↦ rw blank (trim_start-first bs (rw blank at h))
]

Member-reverse : (c : ℕ) (xs : List ℕ) → Member c xs → Member c (reverse xs)
Member-reverse c [] m = elim m [ ]
Member-reverse c (x ∷ xs) m = rw (reverse-cons x xs) (elim m [
  | inl e ↦ Member-append_right c (reverse xs) (x ∷ []) (inl e)
  | inr n ↦ Member-append_left c (reverse xs) (x ∷ []) (Member-reverse c xs n)
])

reverse-Member : (c : ℕ) (xs : List ℕ) → Member c (reverse xs) → Member c xs
reverse-Member c xs m = subst (Member c) (reverse-reverse xs) (Member-reverse c (reverse xs) m)

IsInk-not_empty : (text : List ℕ) → IsInk text → is_empty text ≡ false
IsInk-not_empty [] (c, m, e) = absurd m
IsInk-not_empty (b ∷ bs) ink = refl

-- A text is not empty after the trim exactly if it has a character that is no white space.
pub trim_iff : (text : List ℕ) → (is_empty (trim text) ≡ false) ↔ IsInk text
unfolding trim
trim_iff text = (
  λ h.
      let (c, m, e) = trim_start-first (reverse (trim_start text)) (not_empty _ h) in
      (c, trim_start-within text c (reverse-Member c _ (trim_start-within _ c m)), e),
  λ ink.
      let (c, m, e) = trim_start-IsInk text ink in
      let (d, n, f) = trim_start-IsInk (reverse (trim_start text)) (c, Member-reverse c _ m, e) in
      IsInk-not_empty _ (d, Member-reverse d _ n, f),
)
  where
    not_empty : (xs : List ℕ) → is_empty (reverse xs) ≡ false → is_empty xs ≡ false
    not_empty [] h = h
    not_empty (x ∷ xs) h = refl
