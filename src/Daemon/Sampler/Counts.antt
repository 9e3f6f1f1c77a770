-- ===== src/Daemon/Sampler/Counts.antt =====
-- src/daemon/sampler.rs: the counts are those of the rows of each status.
use wotcrawler.Prelude.{
  ℕ, zero, suc, ◌+◌, ◌≡◌, subst, refl, ◌∙◌, sym, ap, arith, Bool-cases, List, [], ◌∷◌,
  if◌then◌else◌, length, Member, IsDistinct, inl, inr,
}
use mathlib.Core.Option.{get_or}
use wotcrawler.Prelude.Maps.{lookup}
use wotcrawler.Store.{Status, discovered, in_progress, fetched, not_found, failed, Row, World}
use wotcrawler.Prelude.Results.{Result, ok, err}
use wotcrawler.Errors.{StoreError, sqlx}
use wotcrawler.Daemon.Sampler.{
  status_eq, FrontierCounts, no_counts, set_count, group_by_status, count_rows, frontier_counts,
}
use wotcrawler.Daemon.Sampler.Groups.{
  of_status, number, of_status-set, keys, sum, group_by_status-IsDistinct, group_by_status-sum,
  group_by_status-lookup, lookup-none,
}

count_rows-of :
    (groups : List (Status × ℕ)) (c : FrontierCounts) (status : Status)
    → IsDistinct (keys groups)
    → of_status status (count_rows c groups) ≡ get_or (lookup status groups) (of_status status c)
unfolding count_rows lookup
count_rows-of [] c status d = refl
count_rows-of ((k, n) ∷ groups) c status d =
    let next : FrontierCounts = record (set_count c k n) { total = c.total + n } in
    count_rows-of groups next status d.1
    ∙ ap (get_or (lookup status groups)) (of_status-set status k c n (c.total + n))
    ∙ elim (Bool-cases (status_eq.beq k status)) [
      | inl e ↦
          let absent = lookup-none status groups (λ m.
            d.0 (subst (λ j. Member j (keys groups)) (sym ((status_eq.beq_iff k status).0 e)) m)) in
          rw (e, absent) refl
      | inr e ↦ rw e refl
    ]

count_rows-total :
    (groups : List (Status × ℕ)) (c : FrontierCounts)
    → (count_rows c groups).total ≡ c.total + sum groups
unfolding count_rows
count_rows-total [] c = omega arith
count_rows-total ((k, n) ∷ groups) c =
    let ih = count_rows-total groups (record (set_count c k n) { total = c.total + n }) in
    omega arith

-- The counts of a table.
pub record AreCounted (rows : List Row) (c : FrontierCounts) : Type 0 where
  pub counted : (status : Status) → of_status status c ≡ number status rows
  pub total : c.total ≡ length rows
  pub sum_of_parts : c.total ≡ c.discovered + c.in_progress + c.fetched + c.not_found + c.failed

-- A row counts for its own status only.
abbrev one_if : Status → Status → ℕ
one_if status other = if status_eq.beq status other then 1 else 0

number-row :
    (status : Status) (r : Row) (rows : List Row)
    → number status (r ∷ rows) ≡ one_if r.status status + number status rows
number-row status r rows = elim (Bool-cases (status_eq.beq r.status status)) [
  | inl e ↦ rw e (omega arith)
  | inr e ↦ rw e (omega arith)
]

one_status :
    (s : Status)
    → one_if s discovered
        + one_if s in_progress
        + one_if s fetched
        + one_if s not_found
        + one_if s failed
      ≡ 1
one_status discovered = refl
one_status in_progress = refl
one_status fetched = refl
one_status not_found = refl
one_status failed = refl

rows_of_parts :
    (rows : List Row)
    → length rows
      ≡ number discovered rows
        + number in_progress rows
        + number fetched rows
        + number not_found rows
        + number failed rows
rows_of_parts [] = refl
rows_of_parts (r ∷ rows) =
    let ih = rows_of_parts rows in
    let one = one_status r.status in
    let a = number-row discovered r rows in
    let b = number-row in_progress r rows in
    let c = number-row fetched r rows in
    let d = number-row not_found r rows in let e = number-row failed r rows in omega arith

counted : (rows : List Row) → AreCounted rows (count_rows no_counts (group_by_status rows))
counted rows = record {
  counted = fields;
  total = all;
  sum_of_parts =
      let d = fields discovered in
      let i = fields in_progress in
      let f = fields fetched in
      let n = fields not_found in
      let x = fields failed in let whole = rows_of_parts rows in let t = all in omega arith;
}
  where
    c : FrontierCounts
    c = count_rows no_counts (group_by_status rows)

    zero_at : (status : Status) → of_status status no_counts ≡ 0
    zero_at discovered = refl
    zero_at in_progress = refl
    zero_at fetched = refl
    zero_at not_found = refl
    zero_at failed = refl

    fields : (status : Status) → of_status status c ≡ number status rows
    fields status =
        count_rows-of (group_by_status rows) no_counts status (group_by_status-IsDistinct rows)
        ∙ ap (get_or (lookup status (group_by_status rows))) (zero_at status)
        ∙ group_by_status-lookup rows status

    all : c.total ≡ length rows
    all =
        count_rows-total (group_by_status rows) no_counts
        ∙ ap (λ n. 0 + n) (group_by_status-sum rows)
        ∙ (omega arith)

-- The counts that the sampler reads are, for each status, the number of rows with it; the total is the
-- number of all rows, and the sum of the five.
pub frontier_counts-AreCounted :
    (w v : World) (c : FrontierCounts)
    → frontier_counts w ≡ (ok c, v)
    → AreCounted w.db.pubkeys c × (v.db ≡ w.db)
unfolding frontier_counts
frontier_counts-AreCounted w v c h = go w.left refl
  where
    failed_run : Path (Result StoreError FrontierCounts) (err sqlx) (ok c) → ⊥
    failed_run q = cc

    same : {a : FrontierCounts} → Path (Result StoreError FrontierCounts) (ok a) (ok c) → a ≡ c
    same q = cc

    go : (n : ℕ) → w.left ≡ n → AreCounted w.db.pubkeys c × (v.db ≡ w.db)
    go zero e = absurd (failed_run (ap (λ p. p.0) (rw e at h)))
    go (suc n) e =
        let q = rw e at h in
        (
          subst (AreCounted w.db.pubkeys) (same (ap (λ p. p.0) q)) (counted w.db.pubkeys),
          sym (ap (λ p. p.1.db) q),
        )
