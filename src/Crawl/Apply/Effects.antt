-- ===== src/Crawl/Apply/Effects.antt =====
-- src/crawl/apply.rs: the operations of a batch that settle the row they are about.
use wotcrawler.Prelude.{
  ℕ, ◌+◌, ◌≡◌, ◌∙◌, inl, inr, refl, sym, ap, subst, Bool, true, false, List, some, ◌==◌, Bool-cases,
  leb, length, ℤ,
}
use wotcrawler.Prelude.Results.{Result, ok, err}
use wotcrawler.Prelude.Maps.{nat_eq}
use wotcrawler.Errors.{StoreError}
use wotcrawler.Store.{
  not_found, Row, Db, World, statement, done, update_pubkeys, update_rows, has_id,
}
use wotcrawler.Store.Rules.{bind-ok, statement-ok}
use wotcrawler.Store.Pubkeys.{
  insert_pubkey, upsert_pubkey, stamp_status, set_status, set_fetch_status,
}
use wotcrawler.Store.Follows.{apply_follow_list, confirm, apply_event}
use wotcrawler.Store.Follows.Applied.{Outcome, apply_follow_list-ok}
use wotcrawler.Crawl.Frontier.{
  is_in_progress, requeue, overflows, requeue_statement, requeue_or_fail,
}
use wotcrawler.Crawl.Apply.Rows.{IsSettled, settles, IsKnown}

pub stamps-settle :
    (id ts : ℕ) (w v : World)
    → set_fetch_status id "not_found" ts w ≡ (ok tt, v)
    → IsSettled id v.db.pubkeys
unfolding set_fetch_status
stamps-settle id ts w v h =
    let (n, t, setting, last) =
      bind-ok (statement (set_status id (some not_found) ts)) (λ _. done tt) w tt v h in
    let run = statement-ok (set_status id (some not_found) ts) w n t setting in
    let rows : update_rows (has_id id) (stamp_status not_found ts) w.db.pubkeys ≡ v.db.pubkeys =
      rows_of n t run ∙ ap (λ p. p.1.db.pubkeys) last in
    subst (IsSettled id) rows
      (settles id (stamp_status not_found ts) w.db.pubkeys (λ r. refl) (λ r. refl))
  where
    rows_of :
        (n : ℕ) (t : World)
        → update_pubkeys (has_id id) (stamp_status not_found ts) w.db ≡ ok (n, t.db)
        → update_rows (has_id id) (stamp_status not_found ts) w.db.pubkeys ≡ t.db.pubkeys
    rows_of n t q = cc

requeue-free :
    (max_attempts now : ℕ) (r : Row) → is_in_progress (requeue max_attempts now r).status ≡ false
requeue-free max_attempts now r = elim (Bool-cases (leb max_attempts (r.fetch_attempts + 1))) [
  | inl e ↦ rw e refl
  | inr e ↦ rw e refl
]

pub requeues-settle :
    (id max_attempts now : ℕ) (w v : World)
    → requeue_or_fail id max_attempts now w ≡ (ok tt, v)
    → IsSettled id v.db.pubkeys
unfolding requeue_or_fail
requeues-settle id max_attempts now w v h =
    let (n, t, setting, last) =
      bind-ok (statement (requeue_statement id max_attempts now)) (λ _. done tt) w tt v h in
    let run = statement-ok (requeue_statement id max_attempts now) w n t setting in
    let rows : update_rows (has_id id) (requeue max_attempts now) w.db.pubkeys ≡ v.db.pubkeys =
      rows_of n t run ∙ ap (λ p. p.1.db.pubkeys) last in
    subst (IsSettled id) rows (
      settles id (requeue max_attempts now) w.db.pubkeys (λ r. refl)
        (requeue-free max_attempts now))
  where
    failed :
        {n : ℕ} {d : Db} {e : StoreError}
        → Path (Result StoreError (ℕ × Db)) (err e) (ok (n, d))
        → ⊥
    failed q = cc

    rows_of :
        (n : ℕ) (t : World)
        → requeue_statement id max_attempts now w.db ≡ ok (n, t.db)
        → update_rows (has_id id) (requeue max_attempts now) w.db.pubkeys ≡ t.db.pubkeys
    rows_of n t q = elim (Bool-cases (overflows id w.db.pubkeys)) [
      | inl e ↦ absurd (failed (rw (requeue_statement, e) at q))
      | inr e ↦ same (rw (requeue_statement, e) at q)
    ]
      where
        same :
            update_pubkeys (has_id id) (requeue max_attempts now) w.db ≡ ok (n, t.db)
            → update_rows (has_id id) (requeue max_attempts now) w.db.pubkeys ≡ t.db.pubkeys
        same p = cc

pub applies-settle :
    (id event_id : ℕ) (created_at : ℤ) (ids : List ℕ) (now : ℕ) (w v : World) (b : Bool)
    → apply_follow_list id event_id created_at ids now w ≡ (ok b, v)
    → IsSettled id v.db.pubkeys
applies-settle id event_id created_at ids now w v b h =
    outcome b (apply_follow_list-ok id event_id created_at now ids w v b h)
  where
    outcome :
        (b : Bool) → Outcome id event_id created_at now ids b w.db v.db → IsSettled id v.db.pubkeys
    outcome true o =
        let (changed, rows) = o.row in
        subst (IsSettled id) (sym rows) (
          settles id (apply_event event_id created_at changed now) w.db.pubkeys (λ r. refl)
            (λ r. refl))
    outcome false o =
        let rows = o.row in
        subst (IsSettled id) (sym rows)
          (settles id (confirm now) w.db.pubkeys (λ r. refl) (λ r. refl))

-- The id of a known key.
pub upserts-known :
    (key : List ℕ) (i : ℕ) (w v : World) (j : ℕ)
    → IsKnown key i w.db.pubkeys
    → upsert_pubkey key w ≡ (ok j, v)
    → j ≡ i
unfolding upsert_pubkey insert_pubkey
upserts-known key i w v j known h = elim (Bool-cases (length key == 32)) [
  | inr e ↦ absurd (refused (rw (upsert_pubkey, e) at h))
  | inl e ↦ found (statement-ok (insert_pubkey key) w j v (rw (upsert_pubkey, e) at h))
]
  where
    refused : {e : StoreError} → Path (Result StoreError ℕ × World) (err e, w) (ok j, v) → ⊥
    refused q = cc

    same : {d : Db} → Path (Result StoreError (ℕ × Db)) (ok (i, d)) (ok (j, v.db)) → j ≡ i
    same q = cc

    found : insert_pubkey key w.db ≡ ok (j, v.db) → j ≡ i
    found q = same (rw (insert_pubkey, known) at q)
