-- ===== src/Store.antt =====
-- src/store and the tables of migrations/: the database, and what is taken of PostgreSQL and sqlx. A
-- statement runs alone and whole; a transaction is undone unless its commit gets through; and a
-- connection is lost after any number of statements, the commit of a transaction included, of which
-- it then stays open whether it took effect. Reads and writes of other connections between the
-- statements of an operation are left out, except for the row locks that `claim_batch` skips.
--
-- An event id is a number, as in the gate; a time of the database clock is a number of microseconds,
-- one of an event an integral number of seconds. The 64-bit counters and ids are not bounded.
use Prim.Native.String.{String}
use wotcrawler.Prelude.{
  ℕ, zero, suc, Bool, List, [], ◌∷◌, Option, none, some, ℤ, if◌then◌else◌, length, filter, ◌==◌,
}
use wotcrawler.Prelude.Results.{Result, ok, err}
use wotcrawler.Errors.{StoreError, sqlx}
use wotcrawler.Ingest.RelayList.{Marker}
pub mod Rules
pub mod Pubkeys
pub mod Follows
pub mod Relays
pub mod RelayLists
pub mod StoredRelays
pub mod RoundTrip
pub mod WellFormed
pub mod Finding
pub mod Preserve
pub mod Succeeds
pub mod Tests

pub data Status : Type 0 where
  discovered in_progress fetched not_found failed : Status

-- A row of `pubkeys`.
pub record Row : Type 0 where
  pub id : ℕ
  pub pubkey : List ℕ
  pub status : Status
  pub last_fetched_at : Option ℕ
  pub last_confirmed_at : Option ℕ
  pub last_changed_at : Option ℕ
  pub fetch_count : ℕ
  pub change_count : ℕ
  pub applied_event_id : Option ℕ
  pub applied_created_at : Option ℤ
  pub claimed_at : Option ℕ
  pub fetch_attempts : ℕ

-- A row of `pubkey_relays`.
pub record RelayRow : Type 0 where
  pub pubkey_id : ℕ
  pub url : String
  pub marker : Marker
  pub seen_at : ℤ

-- The tables, a row of `follows` as the pair of its ids, and the next number of the identity column.
pub record Db : Type 0 where
  pub pubkeys : List Row
  pub follows : List (ℕ × ℕ)
  pub pubkey_relays : List RelayRow
  pub next_id : ℕ

-- The database, the number of statements that still get through, and whether a commit that is not
-- confirmed has taken effect.
pub record World : Type 0 where
  pub db : Db
  pub left : ℕ
  pub acts : Bool

abbrev pub Sql : Type 0 → Type 0
Sql A = World → Result StoreError A × World

abbrev pub and_then :
    {A B : Type 0} → Result StoreError A × World → (A → Sql B) → Result StoreError B × World
and_then (ok a, w) f = f a w
and_then (err e, w) f = (err e, w)

infixl 5 ◌>>=◌ ◌>>◌
abbrev pub ◌>>=◌ : {A B : Type 0} → Sql A → (A → Sql B) → Sql B
(m >>= f) w = and_then (m w) f

abbrev pub ◌>>◌ : {A B : Type 0} → Sql A → Sql B → Sql B
m >> k = m >>= λ _. k

abbrev pub done : {A : Type 0} → A → Sql A
done a w = (ok a, w)

abbrev pub refuse : {A : Type 0} → StoreError → Sql A
refuse e w = (err e, w)

-- A statement that fails changes nothing.
abbrev pub answer : {A : Type 0} → Result StoreError (A × Db) → World → Result StoreError A × World
answer (ok (a, db)) w = (ok a, record w { db = db })
answer (err e) w = (err e, w)

abbrev pub statement_within : {A : Type 0} → ℕ → (Db → Result StoreError (A × Db)) → Sql A
statement_within zero run w = (err sqlx, w)
statement_within (suc left) run w = answer (run w.db) (record w { left = left })

abbrev pub statement : {A : Type 0} → (Db → Result StoreError (A × Db)) → Sql A
statement run w = statement_within w.left run w

abbrev pub commit_within : {A : Type 0} → ℕ → Db → A → Sql A
commit_within zero old a w = (err sqlx, record w { db = if w.acts then w.db else old })
commit_within (suc left) old a w = (ok a, record w { left = left })

-- The end of a transaction that began at `old`: a commit, or a rollback after an error.
abbrev pub conclude : {A : Type 0} → Db → Result StoreError A × World → Result StoreError A × World
conclude old (ok a, w) = commit_within w.left old a w
conclude old (err e, w) = (err e, record w { db = old })

abbrev pub start_within : {A : Type 0} → ℕ → Sql A → Sql A
start_within zero body w = (err sqlx, w)
start_within (suc left) body w = conclude w.db (body (record w { left = left }))

-- `pool.begin()`, the statements of the body, and `tx.commit()`.
abbrev pub transaction : {A : Type 0} → Sql A → Sql A
transaction body w = start_within w.left body w

-- The rows of `pubkeys` that a condition selects, changed.
abbrev pub update_rows : (Row → Bool) → (Row → Row) → List Row → List Row
update_rows select change [] = []
update_rows select change (r ∷ rs) =
    (if select r then change r else r) ∷ update_rows select change rs

-- `UPDATE pubkeys SET .. WHERE ..`, with the number of rows affected.
abbrev pub update_pubkeys : (Row → Bool) → (Row → Row) → Db → Result StoreError (ℕ × Db)
update_pubkeys select change db = ok (
  length (filter select db.pubkeys),
  record db { pubkeys = update_rows select change db.pubkeys },
)

-- `WHERE id = $1`.
abbrev pub has_id : ℕ → Row → Bool
has_id id r = r.id == id

abbrev pub find_row : ℕ → List Row → Option Row
find_row id [] = none
find_row id (r ∷ rs) = let rest = find_row id rs in if has_id id r then some r else rest
