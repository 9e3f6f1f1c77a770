-- ===== src/Store/Follows/Edges.antt =====
-- src/store/follows.rs: the edges after an event was applied.
use wotcrawler.Prelude.{
  ℕ, ◌≡◌, ◌≢◌, ◌∙◌, ◌↔◌, ◌⊎◌, inl, inr, refl, sym, ap, subst, true, false, not, List, [], ◌∷◌, ◌++◌,
  some, ◌==◌, contains, filter, Member, Member-filter, Member-filter_of, Member-append,
  Member-append_left, Member-append_right, contains→member, not-Member_of_contains, Bool-cases,
  Option-cases, arith,
}
use wotcrawler.Prelude.Results.{Result, ok, err}
use wotcrawler.Errors.{StoreError}
use wotcrawler.Store.{Row, Db, World, statement, find_row}
use wotcrawler.Store.Rules.{bind-ok, statement-ok}
use wotcrawler.Store.Follows.{
  difference, edge_is, has_edge, delete_edge, insert_edge, delete_all, insert_all,
}
use wotcrawler.Store.Follows.Sets.{differ}

pub edge_is_iff : (f g : ℕ) (e : ℕ × ℕ) → (edge_is f g e ≡ true) ↔ (e ≡ (f, g))
edge_is_iff f g (a, b) = (
  (λ h. let p : (a ≡ f) × (b ≡ g) = ground arith in cc),
  λ h. let p : a ≡ f = ap (λ e. e.0) h in let q : b ≡ g = ap (λ e. e.1) h in ground arith,
)

pub Member-difference :
    (xs ys : List ℕ) (x : ℕ) → Member x (difference xs ys) ↔ (Member x xs × ¬ Member x ys)
Member-difference xs ys x = (
  (λ m.
      let (k, h) = Member-filter (λ y. not (contains ys y)) x xs m in
      (k, not-Member_of_contains ys x (ground arith))),
  λ p.
      Member-filter_of (λ y. not (contains ys y)) x xs p.0
        (elim (Bool-cases (contains ys x)) [
          | inl e ↦ absurd (p.1 (contains→member ys x e))
          | inr e ↦ rw e refl
        ]),
)

-- What the deletes leave, and what the inserts add.
pub record IsDeleted (f : ℕ) (removed : List ℕ) (old new : Db) : Type 0 where
  pub rows : new.pubkeys ≡ old.pubkeys
  pub edges :
      (e : ℕ × ℕ)
      → Member e new.follows ↔ (Member e old.follows × ¬ ((e.0 ≡ f) × Member e.1 removed))

pub record IsInserted (f : ℕ) (added : List ℕ) (old new : Db) : Type 0 where
  pub rows : new.pubkeys ≡ old.pubkeys
  pub edges :
      (e : ℕ × ℕ) → Member e new.follows ↔ (Member e old.follows ⊎ ((e.0 ≡ f) × Member e.1 added))

Member-without :
    (f g : ℕ) (es : List (ℕ × ℕ)) (e : ℕ × ℕ)
    → Member e (filter (λ d. not (edge_is f g d)) es) ↔ (Member e es × (e ≢ (f, g)))
Member-without f g es e = (
  (λ m.
      let (k, h) = Member-filter (λ d. not (edge_is f g d)) e es m in
      (k, λ s. let t = (edge_is_iff f g e).1 s in ground arith)),
  λ p.
      Member-filter_of (λ d. not (edge_is f g d)) e es p.0
        (elim (Bool-cases (edge_is f g e)) [
          | inl t ↦ absurd (p.1 ((edge_is_iff f g e).0 t))
          | inr t ↦ rw t refl
        ]),
)

pair_eq : (e : ℕ × ℕ) (f g : ℕ) → e.0 ≡ f → e.1 ≡ g → e ≡ (f, g)
pair_eq (a, b) f g p q = cc

delete_edge-ok :
    (f g : ℕ) (old new : Db) (a : Unit {0})
    → delete_edge f g old ≡ ok (a, new)
    → (new.pubkeys ≡ old.pubkeys)
      × ((e : ℕ × ℕ) → Member e new.follows ↔ (Member e old.follows × (e ≢ (f, g))))
unfolding delete_edge
delete_edge-ok f g old new a h =
    let same : record old { follows = filter (λ e. not (edge_is f g e)) old.follows } ≡ new = cc in
    rw (← same) (refl, λ e. Member-without f g old.follows e)

pub delete_all-IsDeleted :
    (f : ℕ) (removed : List ℕ) (w v : World)
    → delete_all f removed w ≡ (ok tt, v)
    → IsDeleted f removed w.db v.db
unfolding delete_all
delete_all-IsDeleted f [] w v h =
    let same : w ≡ v = cc in
    rw (← same) (record { rows = refl; edges = λ e. ((λ m. (m, λ p. p.1)), λ p. p.0) })
delete_all-IsDeleted f (x ∷ xs) w v h =
    let (a, u, first, rest) =
      bind-ok (statement (delete_edge f x)) (λ _. delete_all f xs) w tt v h in
    let ih = delete_all-IsDeleted f xs u v rest in
    let (rows, one) = delete_edge-ok f x w.db u.db a (statement-ok (delete_edge f x) w a u first) in
    record {
      rows = ih.rows ∙ rows;
      edges = λ e. (
        (λ m.
            let (k, kept) = (ih.edges e).0 m in
            let (old, other) = (one e).0 k in
            (old, λ p. elim p.1 [ inl s ↦ other (pair_eq e f x p.0 s) | inr l ↦ kept (p.0, l) ])),
        λ p. (ih.edges e).1 (
          (one e).1 (p.0, λ s. p.1 (ap (λ d. d.0) s, inl (ap (λ d. d.1) s))),
          λ q. p.1 (q.0, inr q.1),
        ),
      );
    }

has_edge→Member : (f g : ℕ) (es : List (ℕ × ℕ)) → has_edge f g es ≡ true → Member (f, g) es
has_edge→Member f g [] h = cc
has_edge→Member f g (e ∷ es) h = elim (Bool-cases (edge_is f g e)) [
  | inl s ↦ inl (sym ((edge_is_iff f g e).0 s))
  | inr s ↦ inr (has_edge→Member f g es (rw s at h))
]

-- An insert that succeeds found the edge, or all that the constraints ask for.
pub insert_edge_cases :
    (f g : ℕ) (old new : Db) (a : Unit {0})
    → insert_edge f g old ≡ ok (a, new)
    → (Member (f, g) old.follows × (old ≡ new))
      ⊎ ((f ≢ g)
          × (has_edge f g old.follows ≡ false)
          × ((r : Row) × (find_row f old.pubkeys ≡ some r))
          × ((s : Row) × (find_row g old.pubkeys ≡ some s))
          × (record old { follows = old.follows ++ (f, g) ∷ [] } ≡ new))
unfolding insert_edge
insert_edge_cases f g old new a h = elim (Bool-cases (f == g)) [
  | inl self ↦ absurd (failed (rw (self, insert_edge) at h))
  | inr other ↦ elim (Bool-cases (has_edge f g old.follows)) [
    | inl there ↦
        inl (has_edge→Member f g old.follows there, holds (rw (other, there, insert_edge) at h))
    | inr absent ↦ elim (Option-cases (find_row f old.pubkeys)) [
      | inl e ↦ absurd (failed (rw (other, absent, insert_edge, e) at h))
      | inr (r, e) ↦ elim (Option-cases (find_row g old.pubkeys)) [
        | inl d ↦ absurd (failed (rw (other, absent, insert_edge, e, d) at h))
        | inr (s, d) ↦ inr (
          differ other,
          absent,
          (r, e),
          (s, d),
          holds (rw (other, absent, insert_edge, e, d) at h),
        )
      ]
    ]
  ]
]
  where
    failed : {e : StoreError} → Path (Result StoreError (Unit {0} × Db)) (err e) (ok (a, new)) → ⊥
    failed q = cc

    holds :
        {db : Db} → Path (Result StoreError (Unit {0} × Db)) (ok (tt, db)) (ok (a, new)) → db ≡ new
    holds q = cc

insert_edge-ok :
    (f g : ℕ) (old new : Db) (a : Unit {0})
    → insert_edge f g old ≡ ok (a, new)
    → (new.pubkeys ≡ old.pubkeys)
      × ((e : ℕ × ℕ) → Member e new.follows ↔ (Member e old.follows ⊎ (e ≡ (f, g))))
insert_edge-ok f g old new a h = elim (insert_edge_cases f g old new a h) [
  | inl (m, same) ↦ rw (← same) (
    refl,
    λ e. (
      (λ k. inl k),
      λ p. elim p [ inl k ↦ k | inr t ↦ subst (λ d. Member d old.follows) (sym t) m ],
    ),
  )
  | inr (_, _, _, _, same) ↦ rw (← same) (
    refl,
    λ e. (
      (λ k. elim (Member-append e old.follows ((f, g) ∷ []) k) [
        | inl l ↦ inl l
        | inr l ↦ inr (elim l [ inl t ↦ t | inr n ↦ absurd n ])
      ]),
      λ p. elim p [
        | inl k ↦ Member-append_left e old.follows ((f, g) ∷ []) k
        | inr t ↦ Member-append_right e old.follows ((f, g) ∷ []) (inl t)
      ],
    ),
  )
]

pub insert_all-IsInserted :
    (f : ℕ) (added : List ℕ) (w v : World)
    → insert_all f added w ≡ (ok tt, v)
    → IsInserted f added w.db v.db
unfolding insert_all
insert_all-IsInserted f [] w v h =
    let same : w ≡ v = cc in
    rw (← same) (record {
      rows = refl;
      edges = λ e. ((λ m. inl m), λ p. elim p [ inl k ↦ k | inr q ↦ absurd q.1 ]);
    })
insert_all-IsInserted f (x ∷ xs) w v h =
    let (a, u, first, rest) =
      bind-ok (statement (insert_edge f x)) (λ _. insert_all f xs) w tt v h in
    let ih = insert_all-IsInserted f xs u v rest in
    let (rows, one) = insert_edge-ok f x w.db u.db a (statement-ok (insert_edge f x) w a u first) in
    record {
      rows = ih.rows ∙ rows;
      edges = λ e. (
        (λ m. elim ((ih.edges e).0 m) [
          | inr q ↦ inr (q.0, inr q.1)
          | inl k ↦ elim ((one e).0 k) [
            | inl old ↦ inl old
            | inr t ↦ inr (ap (λ d. d.0) t, inl (ap (λ d. d.1) t))
          ]
        ]),
        λ p. elim p [
          | inl k ↦ (ih.edges e).1 (inl ((one e).1 (inl k)))
          | inr q ↦ elim q.1 [
            | inl s ↦ (ih.edges e).1 (inl ((one e).1 (inr (pair_eq e f x q.0 s))))
            | inr l ↦ (ih.edges e).1 (inr (q.0, l))
          ]
        ],
      );
    }
