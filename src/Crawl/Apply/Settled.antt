-- ===== src/Crawl/Apply/Settled.antt =====
-- src/crawl/apply.rs: the operations that a batch runs keep a row out of the lease, and keep the id
-- under which a key is known.
pub mod Writers
use Prim.Native.String.{String}
use wotcrawler.Prelude.{
  ℕ, ◌+◌, ◌≡◌, ◌≢◌, ◌∙◌, ◌⊎◌, inl, inr, refl, sym, ap, subst, Bool, true, false, not, ◌||◌, List,
  [], ◌∷◌, ◌++◌, Option, none, some, ◌==◌, ==_iff, Bool-cases, Option-cases, if◌then◌else◌, leb,
  length, ℤ, is_empty,
}
use wotcrawler.Prelude.Results.{Result, ok, err}
use wotcrawler.Errors.{StoreError}
use wotcrawler.Ingest.RelayList.{Marker}
use wotcrawler.Store.{
  Status, discovered, in_progress, fetched, not_found, failed, Row, Db, World, Sql, statement, done,
  refuse, transaction, ◌>>=◌, ◌>>◌, update_pubkeys, update_rows, has_id, find_row,
}
use wotcrawler.Store.Rules.{Keeps, statement-Keeps, transaction-Keeps, bind-Keeps, statement-ok}
use wotcrawler.Store.Pubkeys.{
  bytes_eq, find_pubkey, new_row, insert_pubkey, upsert_pubkey, stamp_status, set_status, status_of,
  set_fetch_status,
}
use wotcrawler.Store.Follows.{
  select_applied, select_followees, delete_edge, insert_edge, delete_all, insert_all, confirm,
  apply_event, new_set, difference, is_applied, apply_diff, apply_follow_list,
}
use wotcrawler.Store.Follows.Edges.{insert_edge_cases}
use wotcrawler.Store.Follows.Applied.{selected, resume, again, replace}
use wotcrawler.Store.Relays.{
  delete_relays, has_relay, insert_relay, insert_relays, apply_relay_list, select_write_relays,
  lookup_write_relays,
}
use wotcrawler.Crawl.Frontier.{
  is_in_progress, requeue, overflows, requeue_statement, requeue_or_fail,
}

-- A predicate of the rows that each kind of step of a batch keeps.
pub record IsStable (P : List Row → Type 0) : Type 0 where
  pub added : (rows : List Row) (id : ℕ) (key : List ℕ) → P rows → P (rows ++ new_row id key ∷ [])
  pub changed :
      (id : ℕ) (change : Row → Row) (rows : List Row)
      → ((r : Row) → (change r).id ≡ r.id)
      → ((r : Row) → (change r).pubkey ≡ r.pubkey)
      → ((r : Row) → is_in_progress (change r).status ≡ false)
      → P rows
      → P (update_rows (has_id id) change rows)

-- A predicate of the tables that each operation of a batch keeps.
pub record IsKept (R : Db → Type 0) : Type 0 where
  pub upserts : (key : List ℕ) → Keeps R (upsert_pubkey key)
  pub applies :
      (f event_id : ℕ) (created_at : ℤ) (followees : List ℕ) (now : ℕ)
      → Keeps R (apply_follow_list f event_id created_at followees now)
  pub applies_relays :
      (id : ℕ) (relays : List (String × Marker)) (seen_at : ℤ)
      → Keeps R (apply_relay_list id relays seen_at)
  pub looks_up : (id : ℕ) → Keeps R (lookup_write_relays id)
  pub stamps : (id ts : ℕ) → Keeps R (set_fetch_status id "not_found" ts)
  pub requeues : (id max_attempts now : ℕ) → Keeps R (requeue_or_fail id max_attempts now)

module _ (P : List Row → Type 0) (stable : IsStable P) where
  abbrev pub Q : Db → Type 0
  Q db = P db.pubkeys

  -- A statement that leaves the rows alone.
  pub same_rows :
      {A : Type 0} (run : Db → Result StoreError (A × Db))
      → ((old : Db) (a : A) (db : Db) → run old ≡ ok (a, db) → old.pubkeys ≡ db.pubkeys)
      → Keeps Q (statement run)
  same_rows run f = statement-Keeps Q run (λ old a db p h. subst P (f old a db h) p)

  pub changes :
      (id : ℕ) (change : Row → Row)
      → ((r : Row) → (change r).id ≡ r.id)
      → ((r : Row) → (change r).pubkey ≡ r.pubkey)
      → ((r : Row) → is_in_progress (change r).status ≡ false)
      → Keeps Q (statement (update_pubkeys (has_id id) change))
  changes id change i k s = statement-Keeps Q (update_pubkeys (has_id id) change) (λ old a db p h.
      let same : update_rows (has_id id) change old.pubkeys ≡ db.pubkeys = cc in
      subst P same (stable.changed id change old.pubkeys i k s p))

  pub upserts : (key : List ℕ) → Keeps Q (upsert_pubkey key)
  unfolding upsert_pubkey
  upserts key w p = elim (Bool-cases (length key == 32)) [
    | inr e ↦ rw (e, upsert_pubkey) p
    | inl e ↦ rw (e, upsert_pubkey) (statement-Keeps Q (insert_pubkey key) step w p)
  ]
    where
      step :
          (old : Db) (a : ℕ) (db : Db)
          → P old.pubkeys
          → insert_pubkey key old ≡ ok (a, db)
          → P db.pubkeys
      step old a db p h = elim (Option-cases (find_pubkey key old.pubkeys)) [
        | inr (i, e) ↦ subst P (same (rw (insert_pubkey, e) at h)) p
        | inl e ↦
            subst P (same (rw (insert_pubkey, e) at h)) (stable.added old.pubkeys old.next_id key p)
      ]
        where
          same :
              {i : ℕ} {d : Db}
              → Path (Result StoreError (ℕ × Db)) (ok (i, d)) (ok (a, db))
              → d.pubkeys ≡ db.pubkeys
          same q = cc

  -- `not_found` is the only status that a batch sets.
  pub stamps : (id ts : ℕ) → Keeps Q (set_fetch_status id "not_found" ts)
  unfolding set_fetch_status
  stamps id ts =
      bind-Keeps Q (statement (set_status id (some not_found) ts)) (λ _. done tt)
        (changes id (stamp_status not_found ts) (λ r. refl) (λ r. refl) (λ r. refl)) (λ _ w p. p)

  pub requeues : (id max_attempts now : ℕ) → Keeps Q (requeue_or_fail id max_attempts now)
  unfolding requeue_or_fail
  requeues id max_attempts now =
      bind-Keeps Q (statement (requeue_statement id max_attempts now)) (λ _. done tt)
        (statement-Keeps Q (requeue_statement id max_attempts now) (λ old n db p h.
          elim (Bool-cases (overflows id old.pubkeys)) [
            | inl e ↦ absurd (failed_not n db (rw (requeue_statement, e) at h))
            | inr e ↦ subst P (same n db (rw (requeue_statement, e) at h)) (
                stable.changed id (requeue max_attempts now) old.pubkeys (λ r. refl) (λ r. refl)
                  (λ r. free r) p)
          ]))
        (λ _ w p. p)
    where
      failed_not :
          (n : ℕ) (db : Db) {e : StoreError}
          → Path (Result StoreError (ℕ × Db)) (err e) (ok (n, db))
          → ⊥
      failed_not n db q = cc

      same :
          (n : ℕ) (db : Db) {m : ℕ} {d : Db}
          → Path (Result StoreError (ℕ × Db)) (ok (m, d)) (ok (n, db))
          → d.pubkeys ≡ db.pubkeys
      same n db q = cc

      free : (r : Row) → is_in_progress (requeue max_attempts now r).status ≡ false
      free r = elim (Bool-cases (leb max_attempts (r.fetch_attempts + 1))) [
        | inl e ↦ rw e refl
        | inr e ↦ rw e refl
      ]
