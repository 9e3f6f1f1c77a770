-- ===== src/Store/Relays.antt =====
-- src/store/relays.rs: the advertised relays of a pubkey.
use Prim.Native.String.{String}
use wotcrawler.Prelude.{
  ℕ, Bool, true, false, not, ◌&&◌, ◌||◌, List, [], ◌∷◌, ◌++◌, none, some, ◌==◌, if◌then◌else◌, ℤ,
  filter, map,
}
use wotcrawler.Prelude.Maps.{string_eq}
use wotcrawler.Prelude.Results.{Result, ok, err}
use wotcrawler.Errors.{StoreError, sqlx}
use wotcrawler.Ingest.RelayList.{Marker, read, write, both}
use wotcrawler.Store.{RelayRow, Db, Sql, statement, done, transaction, ◌>>◌, find_row}

unfoldable pub delete_relays : ℕ → Db → Result StoreError (Unit × Db)
delete_relays pubkey_id db = ok (
  tt,
  record db { pubkey_relays = filter (λ r. not (r.pubkey_id == pubkey_id)) db.pubkey_relays },
)

abbrev pub has_relay : ℕ → String → List RelayRow → Bool
has_relay pubkey_id url [] = false
has_relay pubkey_id url (r ∷ rs) =
    (r.pubkey_id == pubkey_id && string_eq.beq r.url url) || has_relay pubkey_id url rs

-- The insert: nothing on a conflict, an error if the pubkey has no row.
unfoldable pub insert_relay : ℕ → String → Marker → ℤ → Db → Result StoreError (Unit × Db)
insert_relay pubkey_id url marker seen_at db =
    if has_relay pubkey_id url db.pubkey_relays
    then ok (tt, db)
    else elim (find_row pubkey_id db.pubkeys) [
      | none ↦ err sqlx
      | some _ ↦
          let row : RelayRow = record {
            pubkey_id = pubkey_id;
            url = url;
            marker = marker;
            seen_at = seen_at;
          } in
          ok (tt, record db { pubkey_relays = db.pubkey_relays ++ row ∷ [] })
    ]

unfoldable pub insert_relays : ℕ → List (String × Marker) → ℤ → Sql Unit
unfolding insert_relay
insert_relays pubkey_id [] seen_at = done tt
insert_relays pubkey_id ((url, marker) ∷ relays) seen_at =
    statement (insert_relay pubkey_id url marker seen_at) >> insert_relays pubkey_id relays seen_at

unfoldable pub apply_relay_list : ℕ → List (String × Marker) → ℤ → Sql Unit
unfolding delete_relays insert_relays
apply_relay_list pubkey_id relays seen_at =
    transaction (statement (delete_relays pubkey_id) >> insert_relays pubkey_id relays seen_at)

-- `marker IN ('write','both')`.
abbrev pub is_write : Marker → Bool
is_write read = false
is_write write = true
is_write both = true

unfoldable pub select_write_relays : ℕ → Db → Result StoreError (List String × Db)
select_write_relays pubkey_id db = ok (
  map (λ r. r.url) (filter (λ r. r.pubkey_id == pubkey_id && is_write r.marker) db.pubkey_relays),
  db,
)

unfoldable pub lookup_write_relays : ℕ → Sql (List String)
unfolding select_write_relays
lookup_write_relays pubkey_id = statement (select_write_relays pubkey_id)
