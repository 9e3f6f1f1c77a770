-- ===== src/Store/Follows/Sets.antt =====
-- src/store/follows.rs: the sets of ids, and what it is to replace the edges of a follower.
use wotcrawler.Prelude.{
  ℕ, ◌≡◌, ◌≢◌, ◌∙◌, ◌↔◌, inl, inr, sym, ap, subst, false, List, [], ◌∷◌, ◌==◌, ==_iff, contains,
  Member, contains→member, Bool-cases, arith,
}
use wotcrawler.Store.Follows.{new_set, followees_of}

-- `new` is `old` with the edges of the follower replaced by those to `ids`, without itself.
pub record IsReplaced (follower_id : ℕ) (ids : List ℕ) (old new : List (ℕ × ℕ)) : Type 0 where
  pub own : (g : ℕ) → Member (follower_id, g) new ↔ (Member g ids × (g ≢ follower_id))
  pub others : (f g : ℕ) → f ≢ follower_id → Member (f, g) new ↔ Member (f, g) old

pub differ : {a b : ℕ} → (a == b) ≡ false → a ≢ b
differ h e = ground arith

pub Member-new_set :
    (f : ℕ) (ids : List ℕ) (g : ℕ) → Member g (new_set f ids) ↔ (Member g ids × (g ≢ f))
unfolding new_set
Member-new_set f [] g = (λ m. absurd m, λ p. absurd p.0)
Member-new_set f (x ∷ xs) g =
    let ih = Member-new_set f xs g in
    let known = contains→member (new_set f xs) x in
    elim (Bool-cases (x == f)) [
      | inl self ↦
          let e = (==_iff x f).0 self in
          rw (self, new_set)
            (
              (λ m. (inr (ih.0 m).0, (ih.0 m).1)),
              λ p. elim p.0 [ inl s ↦ absurd (p.1 (s ∙ e)) | inr k ↦ ih.1 (k, p.1) ],
            )
      | inr other ↦ elim (Bool-cases (contains (new_set f xs) x)) [
        | inl old ↦
            rw (other, old, new_set)
              (
                (λ m. (inr (ih.0 m).0, (ih.0 m).1)),
                λ p. elim p.0 [
                  | inl s ↦ subst (λ y. Member y (new_set f xs)) (sym s) (known old)
                  | inr k ↦ ih.1 (k, p.1)
                ],
              )
        | inr fresh ↦
            rw (other, fresh, new_set)
              (
                (λ m. elim m [
                  | inl s ↦ (inl s, λ q. differ other (sym s ∙ q))
                  | inr k ↦ (inr (ih.0 k).0, (ih.0 k).1)
                ]),
                λ p. elim p.0 [ inl s ↦ inl s | inr k ↦ inr (ih.1 (k, p.1)) ],
              )
      ]
    ]

pub Member-followees_of :
    (f : ℕ) (es : List (ℕ × ℕ)) (g : ℕ) → Member g (followees_of f es) ↔ Member (f, g) es
Member-followees_of f [] g = (λ m. m, λ m. m)
Member-followees_of f ((a, b) ∷ es) g =
    let ih = Member-followees_of f es g in
    elim (Bool-cases (a == f)) [
      | inl e ↦
          let same = (==_iff a f).0 e in
          rw e (
            (λ m. elim m [ inl s ↦ inl (cc) | inr k ↦ inr (ih.0 k) ]),
            λ m. elim m [ inl s ↦ inl (ap (λ p. p.1) s) | inr k ↦ inr (ih.1 k) ],
          )
      | inr e ↦ rw e (
        (λ m. inr (ih.0 m)),
        λ m. elim m [ inl s ↦ absurd (differ e (ap (λ p. p.0) (sym s))) | inr k ↦ ih.1 k ],
      )
    ]
