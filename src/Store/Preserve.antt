-- ===== src/Store/Preserve.antt =====
-- src/store: the operations of the store keep the invariant of the tables.
pub mod Edges
pub mod Tables
use Prim.Native.String.{String}
use wotcrawler.Prelude.{
  ℕ, suc, ◌+◌, ◌≤◌, ◌<◌, ◌≡◌, ◌≢◌, ◌∙◌, ◌⊎◌, inl, inr, refl, sym, ap, subst, Bool, true, false, not,
  ◌&&◌, ◌||◌, List, [], ◌∷◌, ◌++◌, Option, none, some, ◌==◌, ==_iff, ==_refl, Member, All,
  IsDistinct, map, length, filter, contains, Bool-cases, Option-cases, arith, if◌then◌else◌, ℤ,
  All-imp, All-append, All-of_Member, All-member, Member-filter, Member-append, Member-append_left,
  filter-IsDistinct,
}
use wotcrawler.Prelude.Results.{Result, ok, err}
use wotcrawler.Errors.{StoreError, sqlx, invalid_pubkey}
use wotcrawler.Ingest.RelayList.{Marker}
use wotcrawler.Store.{
  Status, discovered, in_progress, fetched, not_found, failed, Row, RelayRow, Db, World, Sql,
  statement, done, refuse, transaction, ◌>>=◌, ◌>>◌, update_pubkeys, update_rows, has_id, find_row,
}
use wotcrawler.Store.Rules.{Keeps, statement-Keeps, transaction-Keeps, bind-Keeps}
use wotcrawler.Store.WellFormed.{
  IsSound, WellFormed, KeepsKeys, ids, keys, IsEdge, IsSome, HasTimes, IsSound-update,
  update-WellFormed,
}
use wotcrawler.Store.Pubkeys.{
  bytes_eq, find_pubkey, new_row, insert_pubkey, upsert_pubkey, status_of, stamp_status, set_status,
  set_fetch_status,
}
use wotcrawler.Store.Follows.{
  select_applied, is_applied, confirm, new_set, difference, edge_is, has_edge, delete_edge,
  insert_edge, delete_all, insert_all, apply_event, apply_diff, select_followees, apply_follow_list,
}
use wotcrawler.Store.Relays.{
  delete_relays, has_relay, insert_relay, insert_relays, apply_relay_list, select_write_relays,
  lookup_write_relays,
}
use wotcrawler.Store.Finding.{snoc-IsDistinct, map-append, find_pubkey-none}

grown-WellFormed :
    (db : Db) (n : ℕ) → WellFormed db → db.next_id ≤ n → WellFormed (record db { next_id = n })
grown-WellFormed db n w le = record {
  sound = w.sound;
  once = w.once;
  keyed = w.keyed;
  fresh = All-imp (λ i. i < db.next_id) (λ i. i < n) (ids db.pubkeys) (λ i h. omega arith) w.fresh;
  edges = w.edges;
  edges_once = w.edges_once;
  relays = w.relays;
}

new_row-IsSound : (id : ℕ) (pubkey : List ℕ) → length pubkey ≡ 32 → IsSound (new_row id pubkey)
new_row-IsSound id pubkey e = record {
  key = e;
  times = tt;
  churn = omega arith;
  changed = λ h. absurd (omega arith);
  attempts = omega arith;
}

module _ (pubkey : List ℕ) (size : length pubkey ≡ 32) where
  added-WellFormed :
      (db : Db)
      → WellFormed db
      → find_pubkey pubkey db.pubkeys ≡ none
      → WellFormed (record db {
        pubkeys = db.pubkeys ++ new_row db.next_id pubkey ∷ [];
        next_id = db.next_id + 1;
      })
  added-WellFormed db w new =
      let row : List Row = new_row db.next_id pubkey ∷ [] in
      let grown = map-append (λ r. r.id) db.pubkeys row in
      record {
        sound =
            All-append IsSound db.pubkeys row w.sound (new_row-IsSound db.next_id pubkey size, tt);
        once = rw grown (
            snoc-IsDistinct db.next_id (ids db.pubkeys)
              (λ m.
                let small =
                  All-member (λ i. i < db.next_id) db.next_id (ids db.pubkeys) w.fresh m in
                omega arith)
              w.once);
        keyed = rw (map-append (λ r. r.pubkey) db.pubkeys row) (
            snoc-IsDistinct pubkey (keys db.pubkeys) (find_pubkey-none pubkey db.pubkeys new)
              w.keyed);
        fresh = rw grown (
            All-append (λ i. i < db.next_id + 1) (ids db.pubkeys) (db.next_id ∷ [])
              (All-imp (λ i. i < db.next_id) (λ i. i < db.next_id + 1) (ids db.pubkeys)
                (λ i h. omega arith) w.fresh)
              (omega arith, tt));
        edges = rw grown (
            All-imp (IsEdge (ids db.pubkeys)) (IsEdge (ids db.pubkeys ++ db.next_id ∷ []))
              db.follows (λ e h. more e h) w.edges);
        edges_once = w.edges_once;
        relays = rw grown (
            All-imp (λ r. Member r.pubkey_id (ids db.pubkeys))
              (λ r. Member r.pubkey_id (ids db.pubkeys ++ db.next_id ∷ [])) db.pubkey_relays
              (λ r m. Member-append_left r.pubkey_id (ids db.pubkeys) (db.next_id ∷ []) m)
              w.relays);
      }
    where
      more : (e : ℕ × ℕ) → IsEdge (ids db.pubkeys) e → IsEdge (ids db.pubkeys ++ db.next_id ∷ []) e
      more (f, g) (mf, mg, differ) = (
        Member-append_left f (ids db.pubkeys) (db.next_id ∷ []) mf,
        Member-append_left g (ids db.pubkeys) (db.next_id ∷ []) mg,
        differ,
      )

  insert_pubkey-Keeps : Keeps WellFormed (statement (insert_pubkey pubkey))
  unfolding insert_pubkey
  insert_pubkey-Keeps = statement-Keeps WellFormed (insert_pubkey pubkey) step
    where
      step :
          (old : Db) (a : ℕ) (db : Db)
          → WellFormed old
          → insert_pubkey pubkey old ≡ ok (a, db)
          → WellFormed db
      step old a db w h = elim (Option-cases (find_pubkey pubkey old.pubkeys)) [
        | inr (i, e) ↦ known i (rw (insert_pubkey, e) at h)
        | inl e ↦ new e (rw (insert_pubkey, e) at h)
      ]
        where
          known :
              (i : ℕ)
              → Path
                  (Result StoreError (ℕ × Db))
                  (ok (i, record old { next_id = old.next_id + 1 }))
                  (ok (a, db))
              → WellFormed db
          known i q =
              let same : record old { next_id = old.next_id + 1 } ≡ db = cc in
              subst WellFormed same (grown-WellFormed old (old.next_id + 1) w (omega arith))

          new :
              find_pubkey pubkey old.pubkeys ≡ none
              → Path
                  (Result StoreError (ℕ × Db))
                  (ok (
                    old.next_id,
                    record old {
                      pubkeys = old.pubkeys ++ new_row old.next_id pubkey ∷ [];
                      next_id = old.next_id + 1;
                    },
                  ))
                  (ok (a, db))
              → WellFormed db
          new e q =
              let same : record old {
                pubkeys = old.pubkeys ++ new_row old.next_id pubkey ∷ [];
                next_id = old.next_id + 1;
              }
                  ≡ db =
                cc in
              subst WellFormed same (added-WellFormed old w e)

pub upsert_pubkey-Keeps : (pubkey : List ℕ) → Keeps WellFormed (upsert_pubkey pubkey)
unfolding upsert_pubkey
upsert_pubkey-Keeps pubkey w p = elim (Bool-cases (length pubkey == 32)) [
  | inl e ↦ rw (e, upsert_pubkey) (insert_pubkey-Keeps pubkey ((==_iff (length pubkey) 32).0 e) w p)
  | inr e ↦ rw (e, upsert_pubkey) p
]

pub update-Keeps :
    (select : Row → Bool) (change : Row → Row)
    → KeepsKeys change
    → ((r : Row) → select r ≡ true → IsSound r → IsSound (change r))
    → Keeps WellFormed (statement (update_pubkeys select change))
update-Keeps select change u f =
    statement-Keeps WellFormed (update_pubkeys select change) (λ old a db w h.
      let same : record old { pubkeys = update_rows select change old.pubkeys } ≡ db = cc in
      subst WellFormed same (
        update-WellFormed select change old u (IsSound-update select change f old.pubkeys w.sound)
          w))

-- The status is not that of a lease.
abbrev pub IsPlain : Option Status → Type 0
IsPlain s = s ≢ some in_progress

stamp-IsSound :
    (s : Status) (ts : ℕ) (r : Row) → IsPlain (some s) → IsSound r → IsSound (stamp_status s ts r)
stamp-IsSound s ts r plain h = record {
  key = h.key;
  times = times s plain;
  churn = h.churn;
  changed = h.changed;
  attempts = h.attempts;
}
  where
    times : (s : Status) → IsPlain (some s) → HasTimes s (some ts) r.claimed_at
    times discovered p = tt
    times in_progress p = absurd (p refl)
    times fetched p = tt
    times not_found p = tt
    times failed p = tt

set_status-Keeps :
    (id : ℕ) (status : Option Status) (ts : ℕ)
    → IsPlain status
    → Keeps WellFormed (statement (set_status id status ts))
set_status-Keeps id (some s) ts plain =
    update-Keeps (has_id id) (stamp_status s ts)
      (record { same_id = λ r. refl; same_key = λ r. refl }) (λ r _ h. stamp-IsSound s ts r plain h)
set_status-Keeps id none ts plain =
    statement-Keeps WellFormed (set_status id none ts) (λ old a db w h.
      elim (Option-cases (find_row id old.pubkeys)) [
        | inl e ↦ subst WellFormed (same old db a (rw (set_status, e) at h)) w
        | inr (r, e) ↦ absurd (failed old db a (rw (set_status, e) at h))
      ])
  where
    same :
        (old db : Db) (a : ℕ)
        → Path (Result StoreError (ℕ × Db)) (ok (0, old)) (ok (a, db))
        → old ≡ db
    same old db a q = cc

    failed :
        (old db : Db) (a : ℕ) {e : StoreError}
        → Path (Result StoreError (ℕ × Db)) (err e) (ok (a, db))
        → ⊥
    failed old db a q = cc

pub done-Keeps : {A : Type 0} (a : A) → Keeps WellFormed (done a)
done-Keeps a w p = p

pub set_fetch_status-Keeps :
    (id : ℕ) (status : String) (ts : ℕ)
    → IsPlain (status_of status)
    → Keeps WellFormed (set_fetch_status id status ts)
unfolding set_fetch_status
set_fetch_status-Keeps id status ts plain =
    bind-Keeps WellFormed (statement (set_status id (status_of status) ts)) (λ _. done tt)
      (set_status-Keeps id (status_of status) ts plain) (λ _. done-Keeps tt)
