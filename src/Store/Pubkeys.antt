-- ===== src/Store/Pubkeys.antt =====
-- src/store/pubkeys.rs: the ids of pubkeys, and the status of a fetch.
use Prim.Native.String.{String}
use wotcrawler.Prelude.{
  ℕ, ◌+◌, Bool, true, false, ◌&&◌, List, [], ◌∷◌, ◌++◌, Option, none, some, ◌==◌, if◌then◌else◌,
  length,
}
use wotcrawler.Prelude.Maps.{string_eq}
use wotcrawler.Prelude.Results.{Result, ok, err}
use wotcrawler.Errors.{StoreError, sqlx, invalid_pubkey}
use wotcrawler.Store.{
  Status, discovered, in_progress, fetched, not_found, failed, Row, Db, Sql, statement, refuse,
  done, ◌>>◌, update_pubkeys, has_id, find_row,
}

abbrev pub pubkey_len : ℕ
pubkey_len = 32

abbrev pub bytes_eq : List ℕ → List ℕ → Bool
bytes_eq [] [] = true
bytes_eq [] (y ∷ ys) = false
bytes_eq (x ∷ xs) [] = false
bytes_eq (x ∷ xs) (y ∷ ys) = x == y && bytes_eq xs ys

abbrev pub find_pubkey : List ℕ → List Row → Option ℕ
find_pubkey pubkey [] = none
find_pubkey pubkey (r ∷ rs) =
    let rest = find_pubkey pubkey rs in if bytes_eq r.pubkey pubkey then some r.id else rest

-- A row as it is inserted.
abbrev pub new_row : ℕ → List ℕ → Row
new_row id pubkey = record {
  id = id;
  pubkey = pubkey;
  status = discovered;
  last_fetched_at = none;
  last_confirmed_at = none;
  last_changed_at = none;
  fetch_count = 0;
  change_count = 0;
  applied_event_id = none;
  applied_created_at = none;
  claimed_at = none;
  fetch_attempts = 0;
}

-- The insert that returns the id there is on a conflict. It takes a number either way.
unfoldable pub insert_pubkey : List ℕ → Db → Result StoreError (ℕ × Db)
insert_pubkey pubkey db = elim (find_pubkey pubkey db.pubkeys) [
  | some id ↦ ok (id, record db { next_id = db.next_id + 1 })
  | none ↦ ok (
    db.next_id,
    record db { pubkeys = db.pubkeys ++ new_row db.next_id pubkey ∷ []; next_id = db.next_id + 1 },
  )
]

unfoldable pub upsert_pubkey : List ℕ → Sql ℕ
unfolding insert_pubkey
upsert_pubkey pubkey =
    if length pubkey == pubkey_len
    then statement (insert_pubkey pubkey)
    else refuse (invalid_pubkey (length pubkey))

-- The texts that the constraint on `status` lets through.
unfoldable pub status_of : String → Option Status
status_of status =
    if string_eq.beq status "discovered"
    then some discovered
    else if string_eq.beq status "in_progress"
    then some in_progress
    else if string_eq.beq status "fetched"
    then some fetched
    else if string_eq.beq status "not_found"
    then some not_found
    else if string_eq.beq status "failed"
    then some failed
    else none

abbrev pub stamp_status : Status → ℕ → Row → Row
stamp_status status ts r = record r { status = status; last_fetched_at = some ts }

-- The update, if the constraint lets the text through; otherwise an error, if there is a row to set.
abbrev pub set_status : ℕ → Option Status → ℕ → Db → Result StoreError (ℕ × Db)
set_status id (some status) ts db = update_pubkeys (has_id id) (stamp_status status ts) db
set_status id none ts db = elim (find_row id db.pubkeys) [ some _ ↦ err sqlx | none ↦ ok (0, db) ]

-- The check of the status in debug builds is left out.
unfoldable pub set_fetch_status : ℕ → String → ℕ → Sql (Unit {0})
unfolding status_of
set_fetch_status id status ts = statement (set_status id (status_of status) ts) >> done tt
