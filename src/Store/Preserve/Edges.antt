-- ===== src/Store/Preserve/Edges.antt =====
-- src/store/follows.rs: the writer of edges keeps the invariant.
use wotcrawler.Prelude.{
  ℕ, ◌≡◌, ◌≢◌, inl, inr, refl, sym, subst, Bool, true, false, not, ◌||◌, List, [], ◌∷◌, ◌++◌,
  Option, Member, filter, is_empty, Bool-cases, arith, if◌then◌else◌, ℤ, pos, All-append,
  filter-IsDistinct,
}
use wotcrawler.Prelude.Results.{ok}
use wotcrawler.Store.{Row, Db, Sql, statement, done, ◌>>=◌, ◌>>◌, update_pubkeys, has_id}
use wotcrawler.Store.Rules.{Keeps, statement-Keeps, transaction-Keeps, bind-Keeps}
use wotcrawler.Store.WellFormed.{IsSound, WellFormed, ids, IsEdge}
use wotcrawler.Store.Preserve.{update-Keeps, done-Keeps}
use wotcrawler.Store.Finding.{snoc-IsDistinct, All-filter, find_row-Member}
use wotcrawler.Store.Follows.{
  select_applied, is_applied, confirm, new_set, difference, edge_is, has_edge, delete_edge,
  insert_edge, delete_all, insert_all, apply_event, apply_diff, select_followees, apply_follow_list,
}
use wotcrawler.Store.Follows.Edges.{edge_is_iff, insert_edge_cases}
use wotcrawler.Store.Follows.Applied.{selected, again, replace, resume}

delete_edge-Keeps : (f g : ℕ) → Keeps WellFormed (statement (delete_edge f g))
unfolding delete_edge
delete_edge-Keeps f g = statement-Keeps WellFormed (delete_edge f g) (λ old a db w h.
    let p : (e : ℕ × ℕ) → Bool = λ e. not (edge_is f g e) in
    let same : record old { follows = filter p old.follows } ≡ db = cc in
    subst WellFormed same (record {
      sound = w.sound;
      once = w.once;
      keyed = w.keyed;
      fresh = w.fresh;
      edges = All-filter (IsEdge (ids old.pubkeys)) p old.follows w.edges;
      edges_once = filter-IsDistinct p old.follows w.edges_once;
      relays = w.relays;
    }))

no_edge : (f g : ℕ) (es : List (ℕ × ℕ)) → has_edge f g es ≡ false → ¬ Member (f, g) es
no_edge f g [] h m = m
no_edge f g (e ∷ es) h m = elim (Bool-cases (edge_is f g e)) [
  | inl s ↦ cc
  | inr s ↦ elim m [
    | inl t ↦ let b = (edge_is_iff f g e).1 (sym t) in cc
    | inr k ↦ no_edge f g es (rw s at h) k
  ]
]

inserted-WellFormed :
    (f g : ℕ) (old : Db)
    → WellFormed old
    → f ≢ g
    → has_edge f g old.follows ≡ false
    → Member f (ids old.pubkeys)
    → Member g (ids old.pubkeys)
    → WellFormed (record old { follows = old.follows ++ (f, g) ∷ [] })
inserted-WellFormed f g old w differ absent mf mg = record {
  sound = w.sound;
  once = w.once;
  keyed = w.keyed;
  fresh = w.fresh;
  edges =
      All-append (IsEdge (ids old.pubkeys)) old.follows ((f, g) ∷ []) w.edges
        ((mf, mg, differ), tt);
  edges_once = snoc-IsDistinct (f, g) old.follows (no_edge f g old.follows absent) w.edges_once;
  relays = w.relays;
}

insert_edge-Keeps : (f g : ℕ) → Keeps WellFormed (statement (insert_edge f g))
insert_edge-Keeps f g = statement-Keeps WellFormed (insert_edge f g) (λ old a db w h.
    elim (insert_edge_cases f g old db a h) [
      | inl (_, same) ↦ subst WellFormed same w
      | inr (differ, absent, (r, e), (s, d), same) ↦ subst WellFormed same (
          inserted-WellFormed f g old w differ absent (find_row-Member f old.pubkeys r e)
            (find_row-Member g old.pubkeys s d))
    ])

delete_all-Keeps : (f : ℕ) (gs : List ℕ) → Keeps WellFormed (delete_all f gs)
unfolding delete_all
delete_all-Keeps f [] = done-Keeps tt
delete_all-Keeps f (g ∷ gs) =
    bind-Keeps WellFormed (statement (delete_edge f g)) (λ _. delete_all f gs)
      (delete_edge-Keeps f g) (λ _. delete_all-Keeps f gs)

insert_all-Keeps : (f : ℕ) (gs : List ℕ) → Keeps WellFormed (insert_all f gs)
unfolding insert_all
insert_all-Keeps f [] = done-Keeps tt
insert_all-Keeps f (g ∷ gs) =
    bind-Keeps WellFormed (statement (insert_edge f g)) (λ _. insert_all f gs)
      (insert_edge-Keeps f g) (λ _. insert_all-Keeps f gs)

confirm-Keeps : (f now : ℕ) → Keeps WellFormed (statement (update_pubkeys (has_id f) (confirm now)))
confirm-Keeps f now =
    update-Keeps (has_id f) (confirm now) (record { same_id = λ r. refl; same_key = λ r. refl })
      (λ r _ h. record {
        key = h.key;
        times = tt;
        churn = let c = h.churn in omega arith;
        changed = h.changed;
        attempts = h.attempts;
      })

apply_event-IsSound :
    (event_id : ℕ) (created_at : ℤ) (changed : Bool) (now : ℕ) (r : Row)
    → IsSound r
    → IsSound (apply_event event_id created_at changed now r)
apply_event-IsSound event_id created_at true now r h = record {
  key = h.key;
  times = tt;
  churn = let c = h.churn in omega arith;
  changed = λ p. tt;
  attempts = h.attempts;
}
apply_event-IsSound event_id created_at false now r h = record {
  key = h.key;
  times = tt;
  churn = let c = h.churn in omega arith;
  changed = λ p. h.changed (omega arith);
  attempts = h.attempts;
}

apply_diff-Keeps :
    (f event_id : ℕ) (created_at : ℤ) (added removed : List ℕ) (now : ℕ)
    → Keeps WellFormed (apply_diff f event_id created_at added removed now)
unfolding apply_diff
apply_diff-Keeps f event_id created_at added removed now =
    let changed = not (is_empty added) || not (is_empty removed) in
    let change : Row → Row = apply_event event_id created_at changed now in
    let set : Sql ℕ = statement (update_pubkeys (has_id f) change) in
    let set-keeps : Keeps WellFormed set =
      update-Keeps (has_id f) change (record { same_id = λ r. refl; same_key = λ r. refl })
        (λ r _ h. apply_event-IsSound event_id created_at changed now r h) in
    transaction-Keeps WellFormed (delete_all f removed >> insert_all f added >> set >> done tt) (
      bind-Keeps WellFormed (delete_all f removed >> insert_all f added >> set) (λ _. done tt)
        (bind-Keeps WellFormed (delete_all f removed >> insert_all f added) (λ _. set)
          (bind-Keeps WellFormed (delete_all f removed) (λ _. insert_all f added)
            (delete_all-Keeps f removed) (λ _. insert_all-Keeps f added))
          (λ _. set-keeps))
        (λ _. done-Keeps tt))

select_applied-Keeps : (f : ℕ) → Keeps WellFormed (statement (select_applied f))
select_applied-Keeps f =
    statement-Keeps WellFormed (select_applied f)
      (λ old current db w h. subst WellFormed (read old current db h) w)
  where
    read :
        (old : Db) (current : Option ℕ) (db : Db)
        → select_applied f old ≡ ok (current, db)
        → old ≡ db
    read old current db h = let (r, _, _, same) = selected f 0 (pos 0) 0 old db current h in same

select_followees-Keeps : (f : ℕ) → Keeps WellFormed (statement (select_followees f))
unfolding select_followees
select_followees-Keeps f =
    statement-Keeps WellFormed (select_followees f)
      (λ old current db w h. let same : old ≡ db = cc in subst WellFormed same w)

pub apply_follow_list-Keeps :
    (f event_id : ℕ) (created_at : ℤ) (followees : List ℕ) (now : ℕ)
    → Keeps WellFormed (apply_follow_list f event_id created_at followees now)
unfolding apply_follow_list
apply_follow_list-Keeps f event_id created_at followees now =
    bind-Keeps WellFormed (statement (select_applied f))
      (resume f event_id created_at now followees) (select_applied-Keeps f)
      (λ current. on (is_applied current event_id))
  where
    on :
        (old : Bool)
        → Keeps WellFormed (
            if old
            then again f event_id created_at now
            else statement (select_followees f) >>= replace f event_id created_at now followees)
    on true =
        bind-Keeps WellFormed (statement (update_pubkeys (has_id f) (confirm now)))
          (λ _. done false) (confirm-Keeps f now) (λ _. done-Keeps false)
    on false =
        bind-Keeps WellFormed (statement (select_followees f))
          (replace f event_id created_at now followees) (select_followees-Keeps f)
          (λ current.
            let added = difference (new_set f followees) current in
            let removed = difference current (new_set f followees) in
            bind-Keeps WellFormed (apply_diff f event_id created_at added removed now)
              (λ _. done true) (apply_diff-Keeps f event_id created_at added removed now)
              (λ _. done-Keeps true))
