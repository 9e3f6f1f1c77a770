-- ===== src/Crawl/Apply/Tests.antt =====
-- A run of a batch, and the theorem on it at concrete inputs.
use Prim.Native.String.{String}
use wotcrawler.Prelude.{ℕ, ◌≡◌, refl, Bool, false, List, [], ◌∷◌, some, All, length, ◌+◌, arith}
use wotcrawler.Prelude.Results.{Result, ok, err}
use wotcrawler.Prelude.Maps.{lookup, insert}
use wotcrawler.Errors.{RelayError, client}
use wotcrawler.Ingest.Gate.{ingest_events}
use wotcrawler.Ingest.Verify.{accept}
use wotcrawler.Ingest.FollowList.{followee_pubkeys}
use wotcrawler.Ingest.Replaceable.{pick_winner}
use wotcrawler.Relay.Client.{acquire_validated_lists}
use wotcrawler.Relay.Health.{new_health}
use wotcrawler.Store.{in_progress, Row, Db, World}
use wotcrawler.Store.Pubkeys.{new_row, upsert_pubkey, set_fetch_status}
use wotcrawler.Store.Follows.{apply_follow_list}
use wotcrawler.Crawl.Frontier.{ClaimedAuthor}
use wotcrawler.Crawl.Apply.{Settings, process_batch}
use wotcrawler.Crawl.Apply.Rows.{IsSettled}
use wotcrawler.Crawl.Apply.Batches.{process_batch_settles}
use wotcrawler.Crawl.Apply.Completes.{process_batch_completes}
use wotcrawler.Crawl.Sample.{key, ext, ext-BindsId, round_trip, float, health}

program : Unit {0}
unfolding process_batch new_health acquire_validated_lists lookup ingest_events accept pick_winner
    followee_pubkeys insert upsert_pubkey apply_follow_list set_fetch_status
program = tt

abbrev settings : Settings ext float health
settings = record {
  want_kind = 3;
  now = 500;
  future_clamp_secs = 60;
  follow_cap = 10;
  max_attempts = 3;
  fallback_enabled = false;
  nip65_max_write_relays = 3;
  clock = 500_000_001;
}

abbrev leased : ℕ → Row
leased a = record (new_row a (key a)) { status = in_progress; claimed_at = some 400_000_000 }

abbrev batch : List ClaimedAuthor
batch = record { id = 1; pubkey = key 1 } ∷ record { id = 2; pubkey = key 2 } ∷ []

abbrev world : World
world = record {
  db = record { pubkeys = leased 1 ∷ leased 2 ∷ []; follows = []; pubkey_relays = []; next_id = 3 };
  left = 30;
  acts = false;
}

abbrev no_relays : ℕ → List String → Result RelayError (List ℕ)
no_relays author relays = err client

abbrev no_list : ℕ → Result RelayError (List ℕ)
no_list author = err client

abbrev after : World
unfolding program
after = (process_batch ext float health settings no_relays no_list batch (ok (100 ∷ [])) world).1

-- The first author has a list, and the second has none; the followee is discovered.
batch_edges : after.db.follows ≡ (1, 4) ∷ []
unfolding program
batch_edges = refl

process_batch_settles_example : All (λ c. IsSettled c.id after.db.pubkeys) batch
unfolding program
process_batch_settles_example =
    process_batch_settles ext ext-BindsId float health settings no_relays no_list round_trip batch
      (ok (100 ∷ [])) world after 1 (refl, (refl, tt)) refl

key_size : (k : ℕ) → length (key k) ≡ 32
key_size k = refl

-- The same batch, and one whose fetch failed.
process_batch_completes_example :
    (steps n : ℕ) × (last : Db) × All (λ c. IsSettled c.id last.pubkeys) batch
    × ((left : ℕ) (acts : Bool)
        → process_batch ext float health settings no_relays no_list batch
            (ok (100 ∷ []))
            (record { db = world.db; left = steps + left; acts = acts })
          ≡ (ok n, record { db = last; left = left; acts = acts }))
process_batch_completes_example =
    process_batch_completes ext key_size float health settings no_relays no_list ext-BindsId
      round_trip batch (ok (100 ∷ [])) world.db (refl, (refl, tt)) (omega arith, (omega arith, tt))
