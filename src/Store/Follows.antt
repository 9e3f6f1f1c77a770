-- ===== src/Store/Follows.antt =====
-- src/store/follows.rs: the writer of the edges of one follower. A `HashSet` is a list with no
-- repetition.
use wotcrawler.Prelude.{
  ℕ, ◌+◌, Bool, true, false, not, ◌&&◌, ◌||◌, List, [], ◌∷◌, ◌++◌, Option, none, some, ◌==◌,
  if◌then◌else◌, ℤ, contains, filter, is_empty,
}
use wotcrawler.Prelude.Results.{Result, ok, err}
use wotcrawler.Errors.{StoreError, sqlx}
use wotcrawler.Store.{
  Status, fetched, Row, Db, Sql, statement, refuse, done, transaction, ◌>>=◌, ◌>>◌, update_pubkeys,
  has_id, find_row,
}
pub mod Sets
pub mod Edges
pub mod Applied
pub mod Repeat
pub mod Graph
pub mod Tests

unfoldable pub select_applied : ℕ → Db → Result StoreError (Option ℕ × Db)
select_applied id db = elim (find_row id db.pubkeys) [
  | some r ↦ ok (r.applied_event_id, db)
  | none ↦ err sqlx
]

-- `current_event.as_deref() == Some(event_id)`.
abbrev pub is_applied : Option ℕ → ℕ → Bool
is_applied none event_id = false
is_applied (some e) event_id = e == event_id

abbrev pub confirm : ℕ → Row → Row
confirm now r = record r {
  status = fetched;
  last_fetched_at = some now;
  last_confirmed_at = some now;
  fetch_count = r.fetch_count + 1;
}

-- The incoming ids as a set, without the follower.
unfoldable pub new_set : ℕ → List ℕ → List ℕ
new_set follower_id [] = []
new_set follower_id (id ∷ ids) =
    let rest = new_set follower_id ids in
    if id == follower_id || contains rest id then rest else id ∷ rest

abbrev pub followees_of : ℕ → List (ℕ × ℕ) → List ℕ
followees_of follower_id [] = []
followees_of follower_id ((f, g) ∷ es) =
    let rest = followees_of follower_id es in if f == follower_id then g ∷ rest else rest

abbrev pub difference : List ℕ → List ℕ → List ℕ
difference xs ys = filter (λ x. not (contains ys x)) xs

abbrev pub edge_is : ℕ → ℕ → ℕ × ℕ → Bool
edge_is f g (a, b) = a == f && b == g

abbrev pub has_edge : ℕ → ℕ → List (ℕ × ℕ) → Bool
has_edge f g [] = false
has_edge f g (e ∷ es) = edge_is f g e || has_edge f g es

unfoldable pub delete_edge : ℕ → ℕ → Db → Result StoreError (Unit × Db)
delete_edge follower_id followee_id db =
    ok
      (tt, record db { follows = filter (λ e. not (edge_is follower_id followee_id e)) db.follows })

-- The insert, with the constraints of the table: no edge to oneself, none twice, both ends there.
unfoldable pub insert_edge : ℕ → ℕ → Db → Result StoreError (Unit × Db)
insert_edge follower_id followee_id db =
    if follower_id == followee_id
    then err sqlx
    else if has_edge follower_id followee_id db.follows
    then ok (tt, db)
    else elim (find_row follower_id db.pubkeys) [
      | none ↦ err sqlx
      | some _ ↦ elim (find_row followee_id db.pubkeys) [
        | none ↦ err sqlx
        | some _ ↦ ok (tt, record db { follows = db.follows ++ (follower_id, followee_id) ∷ [] })
      ]
    ]

unfoldable pub delete_all : ℕ → List ℕ → Sql Unit
unfolding delete_edge
delete_all follower_id [] = done tt
delete_all follower_id (id ∷ ids) =
    statement (delete_edge follower_id id) >> delete_all follower_id ids

unfoldable pub insert_all : ℕ → List ℕ → Sql Unit
unfolding insert_edge
insert_all follower_id [] = done tt
insert_all follower_id (id ∷ ids) =
    statement (insert_edge follower_id id) >> insert_all follower_id ids

abbrev pub apply_event : ℕ → ℤ → Bool → ℕ → Row → Row
apply_event event_id created_at changed now r = record r {
  status = fetched;
  applied_event_id = some event_id;
  applied_created_at = some created_at;
  last_fetched_at = some now;
  last_confirmed_at = some now;
  fetch_count = r.fetch_count + 1;
  last_changed_at = if changed then some now else r.last_changed_at;
  change_count = r.change_count + (if changed then 1 else 0);
}

-- The transaction, for the differences as computed before it.
unfoldable pub apply_diff : ℕ → ℕ → ℤ → List ℕ → List ℕ → ℕ → Sql Unit
unfolding delete_all insert_all
apply_diff follower_id event_id created_at added removed now =
    let changed = not (is_empty added) || not (is_empty removed) in
    transaction (
      delete_all follower_id removed
      >> insert_all follower_id added
      >> statement
          (update_pubkeys (has_id follower_id) (apply_event event_id created_at changed now))
      >> done tt)

unfoldable pub select_followees : ℕ → Db → Result StoreError (List ℕ × Db)
select_followees follower_id db = ok (followees_of follower_id db.follows, db)

-- `now` is the time of the database clock.
unfoldable pub apply_follow_list : ℕ → ℕ → ℤ → List ℕ → ℕ → Sql Bool
unfolding select_applied new_set select_followees apply_diff
apply_follow_list follower_id event_id created_at followee_ids now =
    statement (select_applied follower_id) >>= λ current_event.
    if is_applied current_event event_id
    then statement (update_pubkeys (has_id follower_id) (confirm now)) >> done false
    else (let fresh = new_set follower_id followee_ids in
        statement (select_followees follower_id) >>= λ current.
        apply_diff follower_id event_id created_at (difference fresh current)
          (difference current fresh) now
        >> done true)
