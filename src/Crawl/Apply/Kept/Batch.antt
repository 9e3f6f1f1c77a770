-- ===== src/Crawl/Apply/Kept/Batch.antt =====
-- src/crawl/apply.rs: a whole batch keeps each predicate of the tables that its steps keep.
use Prim.Native.String.{String}
use wotcrawler.Prelude.{ℕ, List, [], ◌∷◌}
use wotcrawler.Prelude.Results.{Result, ok, err}
use wotcrawler.External.{External}
use wotcrawler.Errors.{RelayError}
use wotcrawler.Ingest.Gate.{ValidatedFollowList}
use wotcrawler.Relay.Client.{acquire_validated_lists}
use wotcrawler.Relay.Health.{Float, RelayHealthRegistry}
use wotcrawler.Store.{Db, done}
use wotcrawler.Store.Rules.{Keeps, bind-Keeps}
use wotcrawler.Crawl.Frontier.{ClaimedAuthor}
use wotcrawler.Crawl.Apply.{
  requeue_all, Settings, stamp, by_author_from, requested_of, process_validated, process_batch,
}
use wotcrawler.Crawl.Apply.Settled.{IsKept}
use wotcrawler.Crawl.Apply.Kept.{requeue_all-Keeps, resolve_all-Keeps}

module _ (ext : External) (R : Db → Type 0) (kept : IsKept R) (float : Float)
    (health : RelayHealthRegistry float) (s : Settings ext float health)
    (fallback_fetch : ℕ → List String → Result RelayError (List ext.Event))
    (relay_list_fetch : ℕ → Result RelayError (List ext.Event)) where
  open ext use {Event}

  pub process_batch-Keeps :
      (batch : List ClaimedAuthor) (union_fetch : Result RelayError (List Event))
      → Keeps R (process_batch ext float health s fallback_fetch relay_list_fetch batch union_fetch)
  unfolding process_batch process_validated
  process_batch-Keeps [] union_fetch = λ w p. p
  process_batch-Keeps (c ∷ batch) union_fetch = validated (
      acquire_validated_lists ext (requested_of ext (c ∷ batch)) s.want_kind s.now
        s.future_clamp_secs s.follow_cap union_fetch)
    where
      validated :
          (r : Result RelayError (List ValidatedFollowList))
          → Keeps R
              (process_validated ext float health s fallback_fetch relay_list_fetch (c ∷ batch) r)
      validated (err e) =
          let ts = stamp ext float health s fallback_fetch relay_list_fetch in
          bind-Keeps R (requeue_all ext (c ∷ batch) s.max_attempts ts) (λ _. done 0)
            (requeue_all-Keeps ext R kept (c ∷ batch) s.max_attempts ts) (λ _ w p. p)
      validated (ok lists) =
          resolve_all-Keeps ext R kept float health s fallback_fetch relay_list_fetch
            (by_author_from ext [] lists) (c ∷ batch)
