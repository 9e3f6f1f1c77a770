-- ===== src/Crawl/Apply.antt =====
-- src/crawl/apply.rs: a claimed batch, from its fetch to the status of its rows. The outcomes of the
-- fetches are arguments, as they are closures in the code. The health scores stay the same during a
-- batch. The stamp of a batch is its time in microseconds; that time is not before the epoch.
use Prim.Native.String.{String}
use wotcrawler.Prelude.{
  ℕ, ◌+◌, ◌*◌, Bool, true, false, List, [], ◌∷◌, Option, none, some, ℤ, pos, negsuc, if◌then◌else◌,
  is_empty, take, filter_map,
}
use wotcrawler.Prelude.Maps.{lookup, insert, nat_eq}
use wotcrawler.Prelude.Results.{Result, ok, err}
use wotcrawler.External.{External}
use wotcrawler.Errors.{StoreError, RelayError}
use wotcrawler.Ingest.Verify.{timestamp_to_datetime}
use wotcrawler.Ingest.Gate.{ValidatedFollowList}
use wotcrawler.Ingest.RelayList.{ValidatedRelayList, resolve_relay_list}
use wotcrawler.Relay.Client.{acquire_validated_lists}
use wotcrawler.Relay.Health.{Float, RelayHealthRegistry, score}
use wotcrawler.Store.{Sql, done, ◌>>=◌, ◌>>◌}
use wotcrawler.Store.Pubkeys.{upsert_pubkey, set_fetch_status}
use wotcrawler.Store.Follows.{apply_follow_list}
use wotcrawler.Store.Relays.{apply_relay_list, lookup_write_relays}
use wotcrawler.Crawl.Frontier.{ClaimedAuthor, requeue_or_fail}
pub mod Settled
pub mod Rows
pub mod Kept
pub mod Effects
pub mod Authors
pub mod Batches
pub mod Requeues
pub mod Completes
pub mod Tests

abbrev pub stamp_of : ℤ → ℕ
stamp_of (pos secs) = secs * 1_000_000
stamp_of (negsuc n) = 0

module _ (ext : External) where
  open ext use {Event, to_bytes, from_slice}

  unfoldable pub upsert_all : List ℕ → Sql (List ℕ)
  upsert_all [] = done []
  upsert_all (key ∷ keys) =
      upsert_pubkey (to_bytes key) >>= λ id. upsert_all keys >>= λ ids. done (id ∷ ids)

  -- `clock` is the time of the database.
  unfoldable pub apply_validated : ℕ → ValidatedFollowList → Sql Bool
  unfolding upsert_all
  apply_validated clock vfl = upsert_pubkey (to_bytes vfl.follower_pubkey) >>= λ follower_id.
      upsert_all vfl.followee_pubkeys >>= λ followee_ids.
      apply_follow_list follower_id vfl.event_id vfl.created_at followee_ids clock

  unfoldable pub requeue_all : List ClaimedAuthor → ℕ → ℕ → Sql (Unit {0})
  requeue_all [] max_attempts stamp = done tt
  requeue_all (claimed ∷ batch) max_attempts stamp =
      requeue_or_fail claimed.id max_attempts stamp >> requeue_all batch max_attempts stamp

  -- The map from authors to lists; a later list replaces an earlier one.
  unfoldable pub by_author_from :
      List (ℕ × ValidatedFollowList) → List ValidatedFollowList → List (ℕ × ValidatedFollowList)
  by_author_from m [] = m
  by_author_from m (vfl ∷ lists) = by_author_from (insert vfl.follower_pubkey vfl m) lists

  unfoldable pub requested_of : List ClaimedAuthor → List ℕ
  requested_of batch = filter_map (λ c. from_slice c.pubkey) batch

  module _ (float : Float) (health : RelayHealthRegistry float) where
    -- The stable sort by descending score.
    unfoldable pub insert_by_score : String → List String → List String
    insert_by_score relay [] = relay ∷ []
    insert_by_score relay (r ∷ rs) =
        let rest = insert_by_score relay rs in
        if float.ge (score float health relay) (score float health r)
        then relay ∷ r ∷ rs
        else r ∷ rest

    unfoldable pub sort_by_score : List String → List String
    unfolding insert_by_score
    sort_by_score [] = []
    sort_by_score (r ∷ rs) = insert_by_score r (sort_by_score rs)

    -- The settings of a batch.
    pub record Settings : Type 0 where
      pub want_kind : ℕ
      pub now : ℕ
      pub future_clamp_secs : ℕ
      pub follow_cap : ℕ
      pub max_attempts : ℕ
      pub fallback_enabled : Bool
      pub nip65_max_write_relays : ℕ
      pub clock : ℕ

    module _ (s : Settings) (fallback_fetch : ℕ → List String → Result RelayError (List Event))
        (relay_list_fetch : ℕ → Result RelayError (List Event)) where
      -- The write relays of the winner of a relay-list fetch, which is persisted first.
      unfoldable pub persist_winner : ℕ → Option ValidatedRelayList → Sql (List String)
      persist_winner author none = done []
      persist_winner author (some vrl) = upsert_pubkey (to_bytes author) >>= λ pubkey_id.
          apply_relay_list pubkey_id vrl.relays vrl.created_at >> lookup_write_relays pubkey_id

      unfoldable pub resolve_fetched : ℕ → Result RelayError (List Event) → Sql (List String)
      unfolding persist_winner
      resolve_fetched author (err _) = done []
      resolve_fetched author (ok raw) =
          persist_winner author (resolve_relay_list ext raw author s.now s.future_clamp_secs)

      unfoldable pub write_relays_of : ℕ → ℕ → Sql (List String)
      unfolding resolve_fetched
      write_relays_of id author = lookup_write_relays id >>= λ known.
          if is_empty known
          then (resolve_fetched author (relay_list_fetch author) >>= λ found.
              if is_empty found then lookup_write_relays id else done found)
          else done known

      -- `resolved.ok().and_then(|mut v| v.pop())`.
      abbrev pub last_list :
          Result RelayError (List ValidatedFollowList) → Option ValidatedFollowList
      last_list (err _) = none
      last_list (ok []) = none
      last_list (ok (v ∷ [])) = some v
      last_list (ok (v ∷ u ∷ vs)) = last_list (ok (u ∷ vs))

      unfoldable pub recovered_of : ℕ → Result RelayError (List Event) → Option ValidatedFollowList
      recovered_of author (err _) = none
      recovered_of author (ok raw) = last_list (
          acquire_validated_lists ext (author ∷ []) s.want_kind s.now s.future_clamp_secs
            s.follow_cap (ok raw))

      unfoldable pub recover_from : ℕ → List String → Option ValidatedFollowList
      unfolding sort_by_score recovered_of
      recover_from author write_relays =
          let selected = take s.nip65_max_write_relays (sort_by_score write_relays) in
          recovered_of author (fallback_fetch author selected)

      unfoldable pub fallback_recover : ℕ → ℕ → Sql (Option ValidatedFollowList)
      unfolding write_relays_of recover_from
      fallback_recover id author = write_relays_of id author >>= λ write_relays.
          done (if is_empty write_relays then none else recover_from author write_relays)

      abbrev pub stamp : ℕ
      stamp = stamp_of (timestamp_to_datetime ext s.now)

      -- A list found or recovered is applied, which counts; without one the author is not found.
      unfoldable pub settle : ℕ → Option ValidatedFollowList → Sql ℕ
      unfolding apply_validated
      settle id (some vfl) = apply_validated s.clock vfl >> done 1
      settle id none = set_fetch_status id "not_found" stamp >> done 0

      unfoldable pub resolve_author : List (ℕ × ValidatedFollowList) → ℕ → ℕ → Sql ℕ
      unfolding settle fallback_recover
      resolve_author by_author id author = elim (lookup author by_author) [
        | some vfl ↦ settle id (some vfl)
        | none ↦
            (if s.fallback_enabled then fallback_recover id author else done none) >>= λ recovered.
            settle id recovered
      ]

      unfoldable pub resolve_claimed : List (ℕ × ValidatedFollowList) → ClaimedAuthor → Sql ℕ
      unfolding resolve_author
      resolve_claimed by_author claimed = elim (from_slice claimed.pubkey) [
        | none ↦ settle claimed.id none
        | some author ↦ resolve_author by_author claimed.id author
      ]

      unfoldable pub resolve_all : List (ℕ × ValidatedFollowList) → List ClaimedAuthor → Sql ℕ
      unfolding resolve_claimed
      resolve_all by_author [] = done 0
      resolve_all by_author (claimed ∷ batch) = resolve_claimed by_author claimed >>= λ n.
          resolve_all by_author batch >>= λ m. done (n + m)

      unfoldable pub process_validated :
          List ClaimedAuthor → Result RelayError (List ValidatedFollowList) → Sql ℕ
      unfolding requeue_all by_author_from resolve_all
      process_validated batch (err _) = requeue_all batch s.max_attempts stamp >> done 0
      process_validated batch (ok lists) = resolve_all (by_author_from [] lists) batch

      unfoldable pub process_batch : List ClaimedAuthor → Result RelayError (List Event) → Sql ℕ
      unfolding requested_of process_validated
      process_batch batch union_fetch =
          if is_empty batch
          then done 0
          else process_validated batch (
              acquire_validated_lists ext (requested_of batch) s.want_kind s.now s.future_clamp_secs
                s.follow_cap union_fetch)
