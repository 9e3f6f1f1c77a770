-- ===== src/Crawl/Apply/Requeues.antt =====
-- src/crawl/apply.rs: a batch whose fetch failed is requeued to its end, if no count of attempts is
-- near its largest value.
use wotcrawler.Prelude.{
  ℕ, suc, ◌+◌, ◌≤◌, ◌≡◌, refl, Bool, true, false, ◌&&◌, ◌||◌, Bool-cases, List, [], ◌∷◌, All, inl,
  inr, length, filter, arith, ltb, ◌==◌,
}
use wotcrawler.Prelude.Maps.{nat_eq}
use wotcrawler.External.{External}
use wotcrawler.Store.{Row, Db, statement, done, update_rows, has_id}
use wotcrawler.Store.WellFormed.{ids-update}
use wotcrawler.Store.Succeeds.{Succeeds, Anything, done-Succeeds, statement-Succeeds, bind-Succeeds}
use wotcrawler.Crawl.Frontier.{
  ClaimedAuthor, requeue, overflows, requeue_statement, requeue_or_fail,
}
use wotcrawler.Crawl.Apply.{requeue_all}

-- No row is within `n` of the largest count of attempts.
abbrev pub HasRoom : ℕ → Db → Type 0
HasRoom n db = All (λ r. r.fetch_attempts + n ≤ 32767) db.pubkeys

overflows-room :
    (id n : ℕ) (rs : List Row)
    → All (λ r. r.fetch_attempts + suc n ≤ 32767) rs
    → overflows id rs ≡ false
overflows-room id n [] h = refl
overflows-room id n (r ∷ rs) h =
    let rest = overflows-room id n rs h.1 in
    let small : ltb 32767 (r.fetch_attempts + 1) ≡ false = not_less (h.0) in
    rw (small, rest) (no (r.id == id))
  where
    not_less : r.fetch_attempts + suc n ≤ 32767 → ltb 32767 (r.fetch_attempts + 1) ≡ false
    not_less le = ground arith

    no : (b : Bool) → b && false || false ≡ false
    no true = refl
    no false = refl

requeued-HasRoom :
    (id max_attempts now n : ℕ) (rs : List Row)
    → All (λ r. r.fetch_attempts + suc n ≤ 32767) rs
    → All
        (λ r. r.fetch_attempts + n ≤ 32767)
        (update_rows (has_id id) (requeue max_attempts now) rs)
requeued-HasRoom id max_attempts now n [] h = tt
requeued-HasRoom id max_attempts now n (r ∷ rs) h =
    let rest = requeued-HasRoom id max_attempts now n rs h.1 in
    let le = h.0 in
    elim (Bool-cases (has_id id r)) [
      | inl e ↦ rw e (omega arith, rest)
      | inr e ↦ rw e (omega arith, rest)
    ]

requeue_or_fail-Succeeds :
    (id max_attempts now n : ℕ) (db : Db)
    → HasRoom (suc n) db
    → Succeeds db (requeue_or_fail id max_attempts now) (λ _ new. HasRoom n new)
unfolding requeue_or_fail
requeue_or_fail-Succeeds id max_attempts now n db room =
    let free = overflows-room id n db.pubkeys room in
    bind-Succeeds (λ _ new. HasRoom n new) (λ _ new. HasRoom n new)
      (statement (requeue_statement id max_attempts now)) (λ _. done tt) db
      (statement-Succeeds (λ _ new. HasRoom n new) (requeue_statement id max_attempts now)
        (length (filter (has_id id) db.pubkeys)) db
        (record db { pubkeys = update_rows (has_id id) (requeue max_attempts now) db.pubkeys })
        (rw (free, requeue_statement) refl)
        (λ i m.
          rw
            (ids-update (has_id id) (requeue max_attempts now)
              (record { same_id = λ r. refl; same_key = λ r. refl }) db.pubkeys)
            m)
        (requeued-HasRoom id max_attempts now n db.pubkeys room))
      (λ _ new g h. done-Succeeds (λ _ new. HasRoom n new) tt new h)

pub requeue_all-Succeeds :
    (ext : External) (batch : List ClaimedAuthor) (max_attempts now : ℕ) (db : Db)
    → HasRoom (length batch) db
    → Succeeds db (requeue_all ext batch max_attempts now) Anything
unfolding requeue_all
requeue_all-Succeeds ext [] max_attempts now db room = done-Succeeds Anything tt db tt
requeue_all-Succeeds ext (c ∷ batch) max_attempts now db room =
    bind-Succeeds (λ _ new. HasRoom (length batch) new) Anything
      (requeue_or_fail c.id max_attempts now) (λ _. requeue_all ext batch max_attempts now) db
      (requeue_or_fail-Succeeds c.id max_attempts now (length batch) db room)
      (λ _ new g h. requeue_all-Succeeds ext batch max_attempts now new h)
