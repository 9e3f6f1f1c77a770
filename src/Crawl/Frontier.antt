-- ===== src/Crawl/Frontier.antt =====
-- src/crawl/frontier.rs: the frontier is the status of the rows. An age in seconds is compared in
-- microseconds.
use wotcrawler.Prelude.{
  ℕ, zero, suc, ◌+◌, ◌*◌, Bool, true, false, not, ◌&&◌, ◌||◌, List, [], ◌∷◌, Option, none, some,
  ltb, leb, ◌==◌, if◌then◌else◌, contains, filter, map, take,
}
use wotcrawler.Prelude.Results.{Result, ok, err}
use wotcrawler.Errors.{StoreError, sqlx}
use wotcrawler.Store.{
  Status, discovered, in_progress, fetched, not_found, failed, Row, Db, Sql, statement, done,
  transaction, ◌>>=◌, ◌>>◌, update_pubkeys, update_rows, has_id, find_row,
}
use wotcrawler.Store.Pubkeys.{upsert_pubkey}
pub mod Order
pub mod Claims
pub mod Preserve
pub mod Reclaim
pub mod Tests

pub record ClaimedAuthor : Type 0 where
  pub id : ℕ
  pub pubkey : List ℕ

unfoldable pub seed_anchor : List ℕ → Sql ℕ
seed_anchor anchor_pubkey = upsert_pubkey anchor_pubkey

abbrev pub is_discovered : Status → Bool
is_discovered discovered = true
is_discovered in_progress = false
is_discovered fetched = false
is_discovered not_found = false
is_discovered failed = false

abbrev pub is_in_progress : Status → Bool
is_in_progress discovered = false
is_in_progress in_progress = true
is_in_progress fetched = false
is_in_progress not_found = false
is_in_progress failed = false

-- `status IN ('fetched','not_found','failed')`.
abbrev pub is_terminal : Status → Bool
is_terminal discovered = false
is_terminal in_progress = false
is_terminal fetched = true
is_terminal not_found = true
is_terminal failed = true

-- `ORDER BY id`.
unfoldable pub insert_by_id : Row → List Row → List Row
insert_by_id r [] = r ∷ []
insert_by_id r (s ∷ rs) =
    let rest = insert_by_id r rs in if leb r.id s.id then r ∷ s ∷ rs else s ∷ rest

unfoldable pub order_by_id : List Row → List Row
unfolding insert_by_id
order_by_id [] = []
order_by_id (r ∷ rs) = insert_by_id r (order_by_id rs)

-- The rows that a claim takes; `locked` are the ids that other transactions hold.
unfoldable pub claimable : List ℕ → ℕ → List Row → List Row
unfolding order_by_id
claimable locked limit rows =
    take limit
      (order_by_id (filter (λ r. is_discovered r.status && not (contains locked r.id)) rows))

abbrev pub lease : ℕ → Row → Row
lease now r = record r { status = in_progress; claimed_at = some now }

unfoldable pub claim_statement : List ℕ → ℕ → ℕ → Db → Result StoreError (List Row × Db)
unfolding claimable
claim_statement locked limit now db =
    let claimed = claimable locked limit db.pubkeys in
    let ids = map (λ r. r.id) claimed in
    ok
      (claimed, record db { pubkeys = update_rows (λ r. contains ids r.id) (lease now) db.pubkeys })

abbrev pub claimed_author : Row → ClaimedAuthor
claimed_author r = record { id = r.id; pubkey = r.pubkey }

unfoldable pub claim_batch : List ℕ → ℕ → ℕ → Sql (List ClaimedAuthor)
unfolding claim_statement
claim_batch locked limit now =
    transaction (statement (claim_statement locked limit now)) >>= λ rows.
    done (map claimed_author rows)

abbrev pub release : Row → Row
release r = record r { status = discovered; claimed_at = none; fetch_attempts = 0 }

unfoldable pub reclaim_stale_on_startup : Sql ℕ
reclaim_stale_on_startup = statement (update_pubkeys (λ r. is_in_progress r.status) release)

-- `t < now() - make_interval(secs => $1)`, which is not true of a missing time.
abbrev pub is_older : Option ℕ → ℕ → ℕ → Bool
is_older none secs now = false
is_older (some t) secs now = ltb (t + secs * 1_000_000) now

unfoldable pub reclaim_stale_by_ttl : ℕ → ℕ → Sql ℕ
reclaim_stale_by_ttl ttl_secs now =
    statement (
      update_pubkeys (λ r. is_terminal r.status && is_older r.last_fetched_at ttl_secs now) release)

unfoldable pub reclaim_in_progress_older_than : ℕ → ℕ → Sql ℕ
reclaim_in_progress_older_than age_secs now =
    statement
      (update_pubkeys (λ r. is_in_progress r.status && is_older r.claimed_at age_secs now) release)

abbrev pub requeue : ℕ → ℕ → Row → Row
requeue max_attempts now r = record r {
  fetch_attempts = r.fetch_attempts + 1;
  status = if leb max_attempts (r.fetch_attempts + 1) then failed else discovered;
  last_fetched_at = if leb max_attempts (r.fetch_attempts + 1) then some now else r.last_fetched_at;
  claimed_at = none;
}

abbrev pub overflows : ℕ → List Row → Bool
overflows id [] = false
overflows id (r ∷ rs) = (has_id id r && ltb 32767 (r.fetch_attempts + 1)) || overflows id rs

-- `fetch_attempts` is a `SMALLINT`: the statement fails if the sum does not fit.
unfoldable pub requeue_statement : ℕ → ℕ → ℕ → Db → Result StoreError (ℕ × Db)
requeue_statement id max_attempts now db =
    if overflows id db.pubkeys
    then err sqlx
    else update_pubkeys (has_id id) (requeue max_attempts now) db

unfoldable pub requeue_or_fail : ℕ → ℕ → ℕ → Sql (Unit {0})
unfolding requeue_statement
requeue_or_fail id max_attempts now = statement (requeue_statement id max_attempts now) >> done tt
