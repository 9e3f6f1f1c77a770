-- ===== src/Daemon/Sampler.antt =====
-- src/daemon/sampler.rs: what the daemon's timers read of the tables and of the registries. The
-- counts are 64-bit in the source, and no table has as many rows.
use Prim.Native.String.{String}
use wotcrawler.Prelude.{
  ℕ, zero, suc, ◌+◌, ◌==◌, ==_iff, ◌≡◌, refl, ◌∙◌, sym, ap, max, Bool, true, false, List, [], ◌∷◌,
  Option, none, some, if◌then◌else◌, map,
}
use mathlib.Core.Option.{get_or}
use wotcrawler.Prelude.Maps.{Eq, lookup, insert}
use wotcrawler.Prelude.Results.{Result, ok, err}
use wotcrawler.Relay.RateLimit.{RateLimiterRegistry, failure_count}
use wotcrawler.Relay.Health.{Float}
use wotcrawler.Store.{
  Status, discovered, in_progress, fetched, not_found, failed, Row, Db, Sql, statement, done, ◌>>=◌,
}
pub mod Groups
pub mod Counts
pub mod Tests

abbrev pub status_code : Status → ℕ
status_code discovered = 0
status_code in_progress = 1
status_code fetched = 2
status_code not_found = 3
status_code failed = 4

abbrev pub status_at : ℕ → Status
status_at zero = discovered
status_at (suc zero) = in_progress
status_at (suc (suc zero)) = fetched
status_at (suc (suc (suc zero))) = not_found
status_at (suc (suc (suc (suc n)))) = failed

pub status_at_code : (s : Status) → status_at (status_code s) ≡ s
status_at_code discovered = refl
status_at_code in_progress = refl
status_at_code fetched = refl
status_at_code not_found = refl
status_at_code failed = refl

instance abbrev pub status_eq : Eq Status
status_eq = record {
  beq = λ a b. status_code a == status_code b;
  beq_iff = λ a b. (
    λ h.
        sym (status_at_code a)
        ∙ ap status_at ((==_iff (status_code a) (status_code b)).0 h)
        ∙ status_at_code b,
    λ e. (==_iff (status_code a) (status_code b)).1 (ap status_code e),
  );
}

pub record FrontierCounts : Type 0 where
  pub discovered : ℕ
  pub in_progress : ℕ
  pub fetched : ℕ
  pub not_found : ℕ
  pub failed : ℕ
  pub total : ℕ

abbrev pub no_counts : FrontierCounts
no_counts = record {
  discovered = 0;
  in_progress = 0;
  fetched = 0;
  not_found = 0;
  failed = 0;
  total = 0;
}

-- `fetched as f64 / total as f64`, or zero for an empty table.
unfoldable pub coverage : (float : Float) → FrontierCounts → float.F
coverage float c =
    if c.total == 0
    then float.of_nat 0
    else float.div (float.of_nat c.fetched) (float.of_nat c.total)

-- `SELECT status, COUNT(*) .. GROUP BY status`.
unfoldable pub group_by_status : List Row → List (Status × ℕ)
unfolding lookup insert
group_by_status [] = []
group_by_status (r ∷ rs) =
    let groups = group_by_status rs in
    insert r.status (get_or (lookup r.status groups) 0 + 1) groups

abbrev pub set_count : FrontierCounts → Status → ℕ → FrontierCounts
set_count c discovered n = record c { discovered = n }
set_count c in_progress n = record c { in_progress = n }
set_count c fetched n = record c { fetched = n }
set_count c not_found n = record c { not_found = n }
set_count c failed n = record c { failed = n }

unfoldable pub count_rows : FrontierCounts → List (Status × ℕ) → FrontierCounts
count_rows c [] = c
count_rows c ((status, n) ∷ rows) =
    count_rows (record (set_count c status n) { total = c.total + n }) rows

unfoldable pub frontier_counts : Sql FrontierCounts
unfolding group_by_status count_rows
frontier_counts = statement (λ db. ok (group_by_status db.pubkeys, db)) >>= λ rows.
    done (count_rows no_counts rows)

-- `iter().max()` over the relays, or zero.
unfoldable pub max_failures : RateLimiterRegistry → List String → ℕ
unfolding failure_count
max_failures registry [] = 0
max_failures registry (r ∷ relays) = max (failure_count registry r) (max_failures registry relays)
