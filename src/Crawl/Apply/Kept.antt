-- ===== src/Crawl/Apply/Kept.antt =====
-- src/crawl/apply.rs: the parts of a batch keep each predicate of the tables that its steps keep.
pub mod Batch
use Prim.Native.String.{String}
use wotcrawler.Prelude.{
  ℕ, ◌+◌, inl, inr, Bool, true, false, List, [], ◌∷◌, Option, none, some, Option-cases,
  if◌then◌else◌, is_empty,
}
use wotcrawler.Prelude.Results.{Result, ok, err}
use wotcrawler.Prelude.Maps.{lookup, nat_eq}
use wotcrawler.External.{External}
use wotcrawler.Errors.{RelayError}
use wotcrawler.Ingest.Gate.{ValidatedFollowList}
use wotcrawler.Ingest.RelayList.{ValidatedRelayList, resolve_relay_list}
use wotcrawler.Relay.Health.{Float, RelayHealthRegistry}
use wotcrawler.Store.{Row, Db, Sql, done, ◌>>=◌, ◌>>◌}
use wotcrawler.Store.Rules.{Keeps, bind-Keeps}
use wotcrawler.Store.Pubkeys.{upsert_pubkey, set_fetch_status}
use wotcrawler.Store.Follows.{apply_follow_list}
use wotcrawler.Store.Relays.{apply_relay_list, lookup_write_relays}
use wotcrawler.Crawl.Frontier.{ClaimedAuthor, requeue_or_fail}
use wotcrawler.Crawl.Apply.Settled.{IsKept}
use wotcrawler.Crawl.Apply.{
  upsert_all, apply_validated, requeue_all, Settings, persist_winner, resolve_fetched,
  write_relays_of, recover_from, fallback_recover, stamp, settle, resolve_author, resolve_claimed,
  resolve_all,
}

if-Keeps :
    {A : Type 0} (R : Db → Type 0) (b : Bool) (m n : Sql A)
    → Keeps R m
    → Keeps R n
    → Keeps R (if b then m else n)
if-Keeps R true m n p q = p
if-Keeps R false m n p q = q

module _ (ext : External) (R : Db → Type 0) (kept : IsKept R) where
  open ext use {Event, to_bytes, from_slice}

  pub upsert_all-Keeps : (keys : List ℕ) → Keeps R (upsert_all ext keys)
  unfolding upsert_all
  upsert_all-Keeps [] = λ w p. p
  upsert_all-Keeps (key ∷ keys) =
      bind-Keeps R (upsert_pubkey (to_bytes key))
        (λ id. upsert_all ext keys >>= λ ids. done (id ∷ ids)) (kept.upserts (to_bytes key))
        (λ id.
          bind-Keeps R (upsert_all ext keys) (λ ids. done (id ∷ ids)) (upsert_all-Keeps keys)
            (λ _ w p. p))

  apply_validated-Keeps :
      (clock : ℕ) (vfl : ValidatedFollowList) → Keeps R (apply_validated ext clock vfl)
  unfolding apply_validated
  apply_validated-Keeps clock vfl =
      bind-Keeps R (upsert_pubkey (to_bytes vfl.follower_pubkey))
        (λ follower_id. upsert_all ext vfl.followee_pubkeys >>= λ followee_ids.
          apply_follow_list follower_id vfl.event_id vfl.created_at followee_ids clock)
        (kept.upserts (to_bytes vfl.follower_pubkey))
        (λ follower_id.
          bind-Keeps R (upsert_all ext vfl.followee_pubkeys)
            (λ followee_ids.
              apply_follow_list follower_id vfl.event_id vfl.created_at followee_ids clock)
            (upsert_all-Keeps vfl.followee_pubkeys)
            (λ followee_ids.
              kept.applies follower_id vfl.event_id vfl.created_at followee_ids clock))

  pub requeue_all-Keeps :
      (batch : List ClaimedAuthor) (max_attempts now : ℕ)
      → Keeps R (requeue_all ext batch max_attempts now)
  unfolding requeue_all
  requeue_all-Keeps [] max_attempts now = λ w p. p
  requeue_all-Keeps (c ∷ batch) max_attempts now =
      bind-Keeps R (requeue_or_fail c.id max_attempts now)
        (λ _. requeue_all ext batch max_attempts now) (kept.requeues c.id max_attempts now)
        (λ _. requeue_all-Keeps batch max_attempts now)

  module _ (float : Float) (health : RelayHealthRegistry float) (s : Settings ext float health)
      (fallback_fetch : ℕ → List String → Result RelayError (List Event))
      (relay_list_fetch : ℕ → Result RelayError (List Event)) where
    persist-Keeps :
        (author : ℕ) (winner : Option ValidatedRelayList)
        → Keeps R (persist_winner ext float health s fallback_fetch relay_list_fetch author winner)
    unfolding persist_winner
    persist-Keeps author none = λ w p. p
    persist-Keeps author (some vrl) =
        bind-Keeps R (upsert_pubkey (to_bytes author))
          (λ id. apply_relay_list id vrl.relays vrl.created_at >> lookup_write_relays id)
          (kept.upserts (to_bytes author))
          (λ id.
            bind-Keeps R (apply_relay_list id vrl.relays vrl.created_at)
              (λ _. lookup_write_relays id) (kept.applies_relays id vrl.relays vrl.created_at)
              (λ _. kept.looks_up id))

    resolve_fetched-Keeps :
        (author : ℕ) (r : Result RelayError (List Event))
        → Keeps R (resolve_fetched ext float health s fallback_fetch relay_list_fetch author r)
    unfolding resolve_fetched
    resolve_fetched-Keeps author (err e) = λ w p. p
    resolve_fetched-Keeps author (ok raw) =
        persist-Keeps author (resolve_relay_list ext raw author s.now s.future_clamp_secs)

    write_relays-Keeps :
        (id author : ℕ)
        → Keeps R (write_relays_of ext float health s fallback_fetch relay_list_fetch id author)
    unfolding write_relays_of
    write_relays-Keeps id author =
        let fetched : Sql (List String) =
          resolve_fetched ext float health s fallback_fetch relay_list_fetch author
            (relay_list_fetch author) in
        let reread : List String → Sql (List String) =
          λ found. if is_empty found then lookup_write_relays id else done found in
        bind-Keeps R (lookup_write_relays id)
          (λ known. if is_empty known then (fetched >>= reread) else done known) (kept.looks_up id)
          (λ known.
            if-Keeps R (is_empty known) (fetched >>= reread) (done known)
              (bind-Keeps R fetched reread (resolve_fetched-Keeps author (relay_list_fetch author))
                (λ found.
                  if-Keeps R (is_empty found) (lookup_write_relays id) (done found)
                    (kept.looks_up id) (λ w p. p)))
              (λ w p. p))

    fallback-Keeps :
        (id author : ℕ)
        → Keeps R (fallback_recover ext float health s fallback_fetch relay_list_fetch id author)
    unfolding fallback_recover
    fallback-Keeps id author =
        bind-Keeps R (write_relays_of ext float health s fallback_fetch relay_list_fetch id author)
          (λ relays. done (
            if is_empty relays
            then none
            else recover_from ext float health s fallback_fetch relay_list_fetch author relays))
          (write_relays-Keeps id author) (λ _ w p. p)

    pub attempt-Keeps :
        (id author : ℕ)
        → Keeps R (
            if s.fallback_enabled
            then fallback_recover ext float health s fallback_fetch relay_list_fetch id author
            else done none)
    attempt-Keeps id author =
        if-Keeps R s.fallback_enabled
          (fallback_recover ext float health s fallback_fetch relay_list_fetch id author)
          (done none) (fallback-Keeps id author) (λ w p. p)

    settle-Keeps :
        (id : ℕ) (found : Option ValidatedFollowList)
        → Keeps R (settle ext float health s fallback_fetch relay_list_fetch id found)
    unfolding settle
    settle-Keeps id (some vfl) =
        bind-Keeps R (apply_validated ext s.clock vfl) (λ _. done 1)
          (apply_validated-Keeps s.clock vfl) (λ _ w p. p)
    settle-Keeps id none =
        let ts = stamp ext float health s fallback_fetch relay_list_fetch in
        bind-Keeps R (set_fetch_status id "not_found" ts) (λ _. done 0) (kept.stamps id ts)
          (λ _ w p. p)

    resolve_author-Keeps :
        (by_author : List (ℕ × ValidatedFollowList)) (id author : ℕ)
        → Keeps R
            (resolve_author ext float health s fallback_fetch relay_list_fetch by_author id author)
    unfolding resolve_author
    resolve_author-Keeps by_author id author w p = elim (Option-cases (lookup author by_author)) [
      | inr (vfl, e) ↦ rw (resolve_author, e) (settle-Keeps id (some vfl) w p)
      | inl e ↦
          rw (resolve_author, e)
            (bind-Keeps R
              (if s.fallback_enabled
                then fallback_recover ext float health s fallback_fetch relay_list_fetch id author
                else done none)
              (λ found. settle ext float health s fallback_fetch relay_list_fetch id found)
              (attempt-Keeps id author) (λ found. settle-Keeps id found) w p)
    ]

    pub resolve_claimed-Keeps :
        (by_author : List (ℕ × ValidatedFollowList)) (c : ClaimedAuthor)
        → Keeps R (resolve_claimed ext float health s fallback_fetch relay_list_fetch by_author c)
    unfolding resolve_claimed
    resolve_claimed-Keeps by_author c w p = elim (Option-cases (from_slice c.pubkey)) [
      | inl e ↦ rw (resolve_claimed, e) (settle-Keeps c.id none w p)
      | inr (author, e) ↦ rw (resolve_claimed, e) (resolve_author-Keeps by_author c.id author w p)
    ]

    pub resolve_all-Keeps :
        (by_author : List (ℕ × ValidatedFollowList)) (batch : List ClaimedAuthor)
        → Keeps R (resolve_all ext float health s fallback_fetch relay_list_fetch by_author batch)
    unfolding resolve_all
    resolve_all-Keeps by_author [] = λ w p. p
    resolve_all-Keeps by_author (c ∷ batch) =
        let rest : Sql ℕ =
          resolve_all ext float health s fallback_fetch relay_list_fetch by_author batch in
        bind-Keeps R
          (resolve_claimed ext float health s fallback_fetch relay_list_fetch by_author c)
          (λ n. rest >>= λ m. done (n + m)) (resolve_claimed-Keeps by_author c)
          (λ n.
            bind-Keeps R rest (λ m. done (n + m)) (resolve_all-Keeps by_author batch) (λ _ w p. p))
