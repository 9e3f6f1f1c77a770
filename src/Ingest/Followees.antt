-- ===== src/Ingest/Followees.antt =====
-- src/ingest/follow_list.rs: which keys are extracted, and when a list is refused.
use wotcrawler.Prelude.{
  ℕ, ◌≡◌, ◌≢◌, ◌⊎◌, refl, sym, subst, inl, inr, false, List, [], ◌∷◌, ◌++◌, none, some, ltb, ◌==◌,
  ==_iff, if◌then◌else◌, contains, length, Member, IsDistinct, Member-append, Member-append_left,
  Member-append_right, not-Member_of_contains, contains→member, Bool-cases, arith, ◌∙◌, append-nil,
  append_cons,
}
use wotcrawler.External.{External}
use wotcrawler.Ingest.FollowList.{push_followee, collect_followees, followee_pubkeys}

-- `followees` holds no key twice and not the author, and otherwise exactly the keys of `tags`.
pub record IsFolloweeSet (author : ℕ) (tags followees : List ℕ) : Type 0 where
  pub distinct : IsDistinct followees
  pub no_self : ¬ Member author followees
  pub listed : (k : ℕ) → Member k followees → Member k tags
  pub complete : (k : ℕ) → Member k tags → k ≢ author → Member k followees

IsDistinct-snoc : (xs : List ℕ) (x : ℕ) → IsDistinct xs → ¬ Member x xs → IsDistinct (xs ++ x ∷ [])
IsDistinct-snoc [] x d n = ((λ m. m), tt)
IsDistinct-snoc (y ∷ ys) x d n = (
  (λ m. elim (Member-append y ys (x ∷ []) m) [
    | inl h ↦ d.0 h
    | inr h ↦ elim h [ inl e ↦ n (inl (sym e)) | inr f ↦ elim f [ ] ]
  ]),
  IsDistinct-snoc ys x d.1 (λ m. n (inr m)),
)

module _ (author : ℕ) where
  -- The loop's invariant: what has been collected from the tags in `past`.
  IsFolloweeSet-push :
      (past acc : List ℕ) (pk : ℕ)
      → IsFolloweeSet author past acc
      → IsFolloweeSet author (past ++ pk ∷ []) (push_followee author acc pk)
  IsFolloweeSet-push past acc pk inv = elim (Bool-cases (pk == author)) [
    | inl self ↦ rw (self, push_followee) (skip (inl ((==_iff pk author).0 self)))
    | inr other ↦ elim (Bool-cases (contains acc pk)) [
      | inl old ↦ rw (other, old, push_followee) (skip (inr (contains→member acc pk old)))
      | inr new ↦ rw (other, new, push_followee) (grow other new)
    ]
  ]
    where
      skip : (pk ≡ author) ⊎ Member pk acc → IsFolloweeSet author (past ++ pk ∷ []) acc
      skip why = record {
        distinct = inv.distinct;
        no_self = inv.no_self;
        listed = λ k m. Member-append_left k past (pk ∷ []) (inv.listed k m);
        complete = λ k m ne. elim (Member-append k past (pk ∷ []) m) [
          | inl h ↦ inv.complete k h ne
          | inr h ↦ elim h [
            | inl e ↦ elim why [
              | inl self ↦ absurd (ne (e ∙ self))
              | inr old ↦ subst (λ x. Member x acc) (sym e) old
            ]
            | inr f ↦ elim f [ ]
          ]
        ];
      }

      grow :
          (pk == author) ≡ false
          → contains acc pk ≡ false
          → IsFolloweeSet author (past ++ pk ∷ []) (acc ++ pk ∷ [])
      grow other new = record {
        distinct = IsDistinct-snoc acc pk inv.distinct (not-Member_of_contains acc pk new);
        no_self = λ m. elim (Member-append author acc (pk ∷ []) m) [
          | inl h ↦ inv.no_self h
          | inr h ↦ elim h [ inl e ↦ ground arith | inr f ↦ elim f [ ] ]
        ];
        listed = λ k m. elim (Member-append k acc (pk ∷ []) m) [
          | inl h ↦ Member-append_left k past (pk ∷ []) (inv.listed k h)
          | inr h ↦ Member-append_right k past (pk ∷ []) h
        ];
        complete = λ k m ne. elim (Member-append k past (pk ∷ []) m) [
          | inl h ↦ Member-append_left k acc (pk ∷ []) (inv.complete k h ne)
          | inr h ↦ Member-append_right k acc (pk ∷ []) h
        ];
      }

  collect-IsFolloweeSet :
      (past acc rest : List ℕ)
      → IsFolloweeSet author past acc
      → IsFolloweeSet author (past ++ rest) (collect_followees author acc rest)
  unfolding collect_followees
  collect-IsFolloweeSet past acc [] inv = rw append-nil inv
  collect-IsFolloweeSet past acc (pk ∷ pks) inv = rw (append_cons past pk pks) (
      collect-IsFolloweeSet (past ++ pk ∷ []) (push_followee author acc pk) pks
        (IsFolloweeSet-push past acc pk inv))

module _ (ext : External) where
  open ext use {Event, pubkey, public_keys}

  -- The result is the set of the keys of the `p` tags other than the author, each once; or nothing,
  -- exactly when that set has more than `follow_cap` keys.
  pub followee_pubkeys-IsFolloweeSet :
      (event : Event) (follow_cap : ℕ)
      → (followees : List ℕ) × IsFolloweeSet (pubkey event) (public_keys event) followees
        × (followee_pubkeys ext event follow_cap
            ≡ (if ltb follow_cap (length followees) then none else some followees))
  unfolding followee_pubkeys
  followee_pubkeys-IsFolloweeSet event cap = (
    collect_followees (pubkey event) [] (public_keys event),
    collect-IsFolloweeSet (pubkey event) [] [] (public_keys event)
        (record { distinct = tt; no_self = λ m. m; listed = λ k m. m; complete = λ k m ne. m }),
    refl,
  )
