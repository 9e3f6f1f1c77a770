-- ===== src/Crawl/Frontier/Preserve.antt =====
-- src/store and src/crawl/frontier.rs: every run of their operations keeps the invariant.
use Prim.Native.String.{String}
use wotcrawler.Prelude.{
  ℕ, ◌+◌, ◌≡◌, refl, subst, Bool, false, ◌&&◌, List, [], ◌∷◌, All, map, contains, ltb, leb,
  Bool-cases, arith, ℤ, inl, inr,
}
use wotcrawler.Prelude.Results.{Result, ok, err}
use wotcrawler.Errors.{StoreError}
use wotcrawler.Ingest.RelayList.{Marker}
use wotcrawler.Store.{
  Row, Db, World, statement, done, transaction, update_pubkeys, update_rows, has_id,
}
use wotcrawler.Store.Rules.{Keeps, statement-Keeps, transaction-Keeps, bind-Keeps}
use wotcrawler.Store.WellFormed.{IsSound, WellFormed, update-WellFormed, IsSound-update}
use wotcrawler.Store.Pubkeys.{upsert_pubkey, set_fetch_status, status_of}
use wotcrawler.Store.Follows.{apply_follow_list}
use wotcrawler.Store.Relays.{apply_relay_list}
use wotcrawler.Store.Preserve.{
  upsert_pubkey-Keeps, update-Keeps, done-Keeps, IsPlain, set_fetch_status-Keeps,
}
use wotcrawler.Store.Preserve.Tables.{apply_relay_list-Keeps}
use wotcrawler.Store.Preserve.Edges.{apply_follow_list-Keeps}
use wotcrawler.Crawl.Frontier.{
  seed_anchor, claimable, lease, claim_statement, claimed_author, claim_batch, release,
  is_in_progress, is_terminal, is_older, reclaim_stale_on_startup, reclaim_stale_by_ttl,
  reclaim_in_progress_older_than, requeue, overflows, requeue_statement, requeue_or_fail,
}

lease-IsSound : (now : ℕ) (r : Row) → IsSound r → IsSound (lease now r)
lease-IsSound now r h = record {
  key = h.key;
  times = tt;
  churn = h.churn;
  changed = h.changed;
  attempts = h.attempts;
}

release-IsSound : (r : Row) → IsSound r → IsSound (release r)
release-IsSound r h = record {
  key = h.key;
  times = tt;
  churn = h.churn;
  changed = h.changed;
  attempts = omega arith;
}

requeue-IsSound :
    (max_attempts now : ℕ) (r : Row)
    → ltb 32767 (r.fetch_attempts + 1) ≡ false
    → IsSound r
    → IsSound (requeue max_attempts now r)
requeue-IsSound max_attempts now r fits h = record {
  key = h.key;
  times = elim (Bool-cases (leb max_attempts (r.fetch_attempts + 1))) [
    | inl e ↦ rw e tt
    | inr e ↦ rw e tt
  ];
  churn = h.churn;
  changed = h.changed;
  attempts = ground arith;
}

pub claim_batch-Keeps :
    (locked : List ℕ) (limit now : ℕ) → Keeps WellFormed (claim_batch locked limit now)
unfolding claim_batch
claim_batch-Keeps locked limit now =
    bind-Keeps WellFormed (transaction (statement (claim_statement locked limit now)))
      (λ rows. done (map claimed_author rows))
      (transaction-Keeps WellFormed (statement (claim_statement locked limit now))
        (statement-Keeps WellFormed (claim_statement locked limit now) (step)))
      (λ rows. done-Keeps (map claimed_author rows))
  where
    step :
        (old : Db) (rows : List Row) (db : Db)
        → WellFormed old
        → claim_statement locked limit now old ≡ ok (rows, db)
        → WellFormed db
    step old rows db w h =
        let ids : List ℕ = map (λ r. r.id) (claimable locked limit old.pubkeys) in
        let select : Row → Bool = λ r. contains ids r.id in
        let same : record old { pubkeys = update_rows select (lease now) old.pubkeys } ≡ db = cc in
        subst WellFormed same (
          update-WellFormed select (lease now) old
            (record { same_id = λ r. refl; same_key = λ r. refl })
            (IsSound-update select (lease now) (λ r _ s. lease-IsSound now r s) old.pubkeys w.sound)
            w)

requeued-IsSound :
    (id max_attempts now : ℕ) (rs : List Row)
    → overflows id rs ≡ false
    → All IsSound rs
    → All IsSound (update_rows (has_id id) (requeue max_attempts now) rs)
requeued-IsSound id max_attempts now [] fits h = tt
requeued-IsSound id max_attempts now (r ∷ rs) fits h =
    let split : ((has_id id r && ltb 32767 (r.fetch_attempts + 1)) ≡ false)
        × (overflows id rs ≡ false) =
      ground arith in
    let rest = requeued-IsSound id max_attempts now rs split.1 h.1 in
    elim (Bool-cases (has_id id r)) [
      | inl e ↦ rw e (requeue-IsSound max_attempts now r (rw e at split.0) h.0, rest)
      | inr e ↦ rw e (h.0, rest)
    ]

pub requeue_or_fail-Keeps :
    (id max_attempts now : ℕ) → Keeps WellFormed (requeue_or_fail id max_attempts now)
unfolding requeue_or_fail
requeue_or_fail-Keeps id max_attempts now =
    bind-Keeps WellFormed (statement (requeue_statement id max_attempts now)) (λ _. done tt)
      (statement-Keeps WellFormed (requeue_statement id max_attempts now) step) (λ _. done-Keeps tt)
  where
    step :
        (old : Db) (n : ℕ) (db : Db)
        → WellFormed old
        → requeue_statement id max_attempts now old ≡ ok (n, db)
        → WellFormed db
    step old n db w h = elim (Bool-cases (overflows id old.pubkeys)) [
      | inl e ↦ absurd (failed (rw (requeue_statement, e) at h))
      | inr e ↦ subst WellFormed (holds (rw (requeue_statement, e) at h)) (
          update-WellFormed (has_id id) (requeue max_attempts now) old
            (record { same_id = λ r. refl; same_key = λ r. refl })
            (requeued-IsSound id max_attempts now old.pubkeys e w.sound) w)
    ]
      where
        failed : {e : StoreError} → Path (Result StoreError (ℕ × Db)) (err e) (ok (n, db)) → ⊥
        failed q = cc

        holds :
            {m : ℕ} {d : Db} → Path (Result StoreError (ℕ × Db)) (ok (m, d)) (ok (n, db)) → d ≡ db
        holds q = cc

-- The operations on the tables, each with its arguments.
pub data Operation : Type 0 where
  seed : (pubkey : List ℕ) → Operation
  upsert : (pubkey : List ℕ) → Operation
  set_status : (id : ℕ) → (status : String) → (ts : ℕ) → Operation
  apply_follows :
      (id event_id : ℕ) → (created_at : ℤ) → (followees : List ℕ) → (now : ℕ) → Operation
  apply_relays : (id : ℕ) → (relays : List (String × Marker)) → (seen_at : ℤ) → Operation
  claim : (locked : List ℕ) → (limit now : ℕ) → Operation
  reclaim_startup : Operation
  reclaim_ttl : (secs now : ℕ) → Operation
  reclaim_lease : (secs now : ℕ) → Operation
  requeue_failed : (id max_attempts now : ℕ) → Operation

abbrev pub perform : Operation → World → Db
perform (seed pubkey) w = (seed_anchor pubkey w).1.db
perform (upsert pubkey) w = (upsert_pubkey pubkey w).1.db
perform (set_status id status ts) w = (set_fetch_status id status ts w).1.db
perform (apply_follows id event_id created_at followees now) w =
    (apply_follow_list id event_id created_at followees now w).1.db
perform (apply_relays id relays seen_at) w = (apply_relay_list id relays seen_at w).1.db
perform (claim locked limit now) w = (claim_batch locked limit now w).1.db
perform reclaim_startup w = (reclaim_stale_on_startup w).1.db
perform (reclaim_ttl secs now) w = (reclaim_stale_by_ttl secs now w).1.db
perform (reclaim_lease secs now) w = (reclaim_in_progress_older_than secs now w).1.db
perform (requeue_failed id max_attempts now) w = (requeue_or_fail id max_attempts now w).1.db

-- `set_fetch_status` is not called with the status of a lease.
abbrev pub IsLegal : Operation → Type 0
IsLegal (seed pubkey) = Unit
IsLegal (upsert pubkey) = Unit
IsLegal (set_status id status ts) = IsPlain (status_of status)
IsLegal (apply_follows id event_id created_at followees now) = Unit
IsLegal (apply_relays id relays seen_at) = Unit
IsLegal (claim locked limit now) = Unit
IsLegal reclaim_startup = Unit
IsLegal (reclaim_ttl secs now) = Unit
IsLegal (reclaim_lease secs now) = Unit
IsLegal (requeue_failed id max_attempts now) = Unit

pub release-Keeps :
    (select : Row → Bool) → Keeps WellFormed (statement (update_pubkeys select release))
release-Keeps select =
    update-Keeps select release (record { same_id = λ r. refl; same_key = λ r. refl })
      (λ r _ h. release-IsSound r h)

perform-WellFormed :
    (op : Operation) (w : World) → IsLegal op → WellFormed w.db → WellFormed (perform op w)
unfolding seed_anchor reclaim_stale_on_startup reclaim_stale_by_ttl reclaim_in_progress_older_than
perform-WellFormed (seed pubkey) w legal p = upsert_pubkey-Keeps pubkey w p
perform-WellFormed (upsert pubkey) w legal p = upsert_pubkey-Keeps pubkey w p
perform-WellFormed (set_status id status ts) w legal p =
    set_fetch_status-Keeps id status ts legal w p
perform-WellFormed (apply_follows id event_id created_at followees now) w legal p =
    apply_follow_list-Keeps id event_id created_at followees now w p
perform-WellFormed (apply_relays id relays seen_at) w legal p =
    apply_relay_list-Keeps id relays seen_at w p
perform-WellFormed (claim locked limit now) w legal p = claim_batch-Keeps locked limit now w p
perform-WellFormed reclaim_startup w legal p = release-Keeps (λ r. is_in_progress r.status) w p
perform-WellFormed (reclaim_ttl secs now) w legal p =
    release-Keeps (λ r. is_terminal r.status && is_older r.last_fetched_at secs now) w p
perform-WellFormed (reclaim_lease secs now) w legal p =
    release-Keeps (λ r. is_in_progress r.status && is_older r.claimed_at secs now) w p
perform-WellFormed (requeue_failed id max_attempts now) w legal p =
    requeue_or_fail-Keeps id max_attempts now w p

-- A run: operations one after the other, each with the number of statements that get through to it
-- and with what becomes of a commit that is not confirmed.
abbrev pub run_all : Db → List (Operation × ℕ × Bool) → Db
run_all db [] = db
run_all db ((op, left, acts) ∷ ops) =
    run_all (perform op (record { db = db; left = left; acts = acts })) ops

-- The invariant of the tables holds after every run of legal operations, wherever connections are
-- lost: ids and keys are unique, a row with a terminal status has the time of its fetch and a leased
-- one that of its lease, its changes are at most its fetches, edges are unique and join two different
-- rows that there are.
pub run_all-WellFormed :
    (db : Db) (ops : List (Operation × ℕ × Bool))
    → WellFormed db
    → All (λ step. IsLegal step.0) ops
    → WellFormed (run_all db ops)
run_all-WellFormed db [] p legal = p
run_all-WellFormed db ((op, left, acts) ∷ ops) p legal =
    let w : World = record { db = db; left = left; acts = acts } in
    run_all-WellFormed (perform op w) ops (perform-WellFormed op w legal.0 p) legal.1
