-- ===== src/Store/Preserve/Tables.antt =====
-- src/store/relays.rs: the writer of relays keeps the invariant.
use Prim.Native.String.{String}
use wotcrawler.Prelude.{
  ℕ, ◌≡◌, inl, inr, subst, Bool, not, List, [], ◌∷◌, ◌++◌, ◌==◌, Member, All, filter, Bool-cases,
  Option-cases, ℤ, All-append,
}
use wotcrawler.Prelude.Results.{Result, ok, err}
use wotcrawler.Errors.{StoreError}
use wotcrawler.Ingest.RelayList.{Marker}
use wotcrawler.Store.{RelayRow, Db, statement, ◌>>◌, find_row}
use wotcrawler.Store.Rules.{Keeps, statement-Keeps, transaction-Keeps, bind-Keeps}
use wotcrawler.Store.WellFormed.{WellFormed, ids}
use wotcrawler.Store.Preserve.{done-Keeps}
use wotcrawler.Store.Finding.{All-filter, find_row-Member}
use wotcrawler.Store.Relays.{
  delete_relays, has_relay, insert_relay, insert_relays, apply_relay_list,
}

with_relays :
    (old : Db) (relays : List RelayRow)
    → WellFormed old
    → All (λ r. Member r.pubkey_id (ids old.pubkeys)) relays
    → WellFormed (record old { pubkey_relays = relays })
with_relays old relays w there = record {
  sound = w.sound;
  once = w.once;
  keyed = w.keyed;
  fresh = w.fresh;
  edges = w.edges;
  edges_once = w.edges_once;
  relays = there;
}

delete_relays-Keeps : (id : ℕ) → Keeps WellFormed (statement (delete_relays id))
unfolding delete_relays
delete_relays-Keeps id = statement-Keeps WellFormed (delete_relays id) (λ old a db w h.
    let p : RelayRow → Bool = λ r. not (r.pubkey_id == id) in
    let same : record old { pubkey_relays = filter p old.pubkey_relays } ≡ db = cc in
    subst WellFormed same (
      with_relays old (filter p old.pubkey_relays) w
        (All-filter (λ r. Member r.pubkey_id (ids old.pubkeys)) p old.pubkey_relays w.relays)))

insert_relay-Keeps :
    (id : ℕ) (url : String) (marker : Marker) (seen_at : ℤ)
    → Keeps WellFormed (statement (insert_relay id url marker seen_at))
unfolding insert_relay
insert_relay-Keeps id url marker seen_at =
    statement-Keeps WellFormed (insert_relay id url marker seen_at) (λ old a db w h.
      elim (Bool-cases (has_relay id url old.pubkey_relays)) [
        | inl e ↦ subst WellFormed (holds db a (rw (insert_relay, e) at h)) w
        | inr e ↦ elim (Option-cases (find_row id old.pubkeys)) [
          | inl d ↦ absurd (failed db a (rw (insert_relay, e, d) at h))
          | inr (r, d) ↦ subst WellFormed (holds db a (rw (insert_relay, e, d) at h)) (
              with_relays old (old.pubkey_relays ++ row ∷ []) w (
                All-append (λ r. Member r.pubkey_id (ids old.pubkeys)) old.pubkey_relays (row ∷ [])
                  w.relays (find_row-Member id old.pubkeys r d, tt)))
        ]
      ])
  where
    row : RelayRow
    row = record { pubkey_id = id; url = url; marker = marker; seen_at = seen_at }

    failed :
        (db : Db) (a : Unit {0}) {e : StoreError}
        → Path (Result StoreError (Unit {0} × Db)) (err e) (ok (a, db))
        → ⊥
    failed db a q = cc

    holds :
        (db : Db) (a : Unit {0}) {old : Db}
        → Path (Result StoreError (Unit {0} × Db)) (ok (tt, old)) (ok (a, db))
        → old ≡ db
    holds db a q = cc

insert_relays-Keeps :
    (id : ℕ) (relays : List (String × Marker)) (seen_at : ℤ)
    → Keeps WellFormed (insert_relays id relays seen_at)
unfolding insert_relays
insert_relays-Keeps id [] seen_at = done-Keeps tt
insert_relays-Keeps id ((url, marker) ∷ relays) seen_at =
    bind-Keeps WellFormed (statement (insert_relay id url marker seen_at))
      (λ _. insert_relays id relays seen_at) (insert_relay-Keeps id url marker seen_at)
      (λ _. insert_relays-Keeps id relays seen_at)

pub apply_relay_list-Keeps :
    (id : ℕ) (relays : List (String × Marker)) (seen_at : ℤ)
    → Keeps WellFormed (apply_relay_list id relays seen_at)
unfolding apply_relay_list
apply_relay_list-Keeps id relays seen_at =
    transaction-Keeps WellFormed (statement (delete_relays id) >> insert_relays id relays seen_at) (
      bind-Keeps WellFormed (statement (delete_relays id)) (λ _. insert_relays id relays seen_at)
        (delete_relays-Keeps id) (λ _. insert_relays-Keeps id relays seen_at))
