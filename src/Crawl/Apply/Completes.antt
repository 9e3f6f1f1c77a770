-- ===== src/Crawl/Apply/Completes.antt =====
-- src/crawl/apply.rs: over a connection that lasts long enough, a batch is processed to its end,
-- whatever the relays answer.
use Prim.Native.String.{String}
use wotcrawler.Prelude.{
  ℕ, ◌+◌, ◌≡◌, refl, sym, subst, Bool, true, Bool-cases, List, [], ◌∷◌, Option, none, some,
  Option-cases, Member, All, inl, inr, length, is_empty, if◌then◌else◌,
}
use wotcrawler.Prelude.Maps.{lookup, nat_eq}
use wotcrawler.Prelude.Results.{Result, ok, err}
use wotcrawler.External.{External, BindsId}
use wotcrawler.Errors.{RelayError}
use wotcrawler.Ingest.Verify.{timestamp_to_datetime}
use wotcrawler.Ingest.Gate.{ValidatedFollowList}
use wotcrawler.Ingest.RelayList.{ValidatedRelayList, resolve_relay_list}
use wotcrawler.Relay.Client.{acquire_validated_lists}
use wotcrawler.Relay.Health.{Float, RelayHealthRegistry}
use wotcrawler.Store.{Db, done, ◌>>=◌, ◌>>◌}
use wotcrawler.Store.Pubkeys.{upsert_pubkey, set_fetch_status}
use wotcrawler.Store.Follows.{apply_follow_list}
use wotcrawler.Store.Relays.{apply_relay_list, lookup_write_relays}
use wotcrawler.Store.Succeeds.{Succeeds, Anything, done-Succeeds, bind-Succeeds}
use wotcrawler.Store.Succeeds.Writers.{
  apply_follow_list-Succeeds, apply_relay_list-Succeeds, lookup_write_relays-Succeeds,
}
use wotcrawler.Store.Succeeds.Rows.{IsThere, upsert_pubkey-Succeeds, set_fetch_status-Succeeds}
use wotcrawler.Crawl.Frontier.{ClaimedAuthor}
use wotcrawler.Crawl.Apply.Rows.{IsSettled, IsKnown}
use wotcrawler.Crawl.Apply.Batches.{process_batch_settles}
use wotcrawler.Crawl.Apply.Requeues.{HasRoom, requeue_all-Succeeds}
use wotcrawler.Crawl.Apply.{
  upsert_all, apply_validated, by_author_from, requested_of, Settings, persist_winner,
  resolve_fetched, write_relays_of, fallback_recover, settle, resolve_author, resolve_claimed,
  resolve_all, process_validated, process_batch, stamp_of,
}

module _ (ext : External) (sized : (k : ℕ) → length (ext.to_bytes k) ≡ 32) where
  open ext use {Event, to_bytes, from_slice}

  abbrev AllThere : List ℕ → Db → Type 0
  AllThere is db = (i : ℕ) → Member i is → IsThere i db

  upsert_all-Succeeds : (keys : List ℕ) (db : Db) → Succeeds db (upsert_all ext keys) AllThere
  unfolding upsert_all
  upsert_all-Succeeds [] db = done-Succeeds AllThere [] db (λ i m. absurd m)
  upsert_all-Succeeds (key ∷ keys) db =
      bind-Succeeds IsThere AllThere (upsert_pubkey (to_bytes key))
        (λ id. upsert_all ext keys >>= λ is. done (id ∷ is)) db
        (upsert_pubkey-Succeeds (to_bytes key) db (sized key))
        (λ id new grows m.
          bind-Succeeds AllThere AllThere (upsert_all ext keys) (λ is. done (id ∷ is)) new
            (upsert_all-Succeeds keys new)
            (λ is last more all. done-Succeeds AllThere (id ∷ is) last (λ i k. elim k [
              | inl e ↦ subst (λ j. IsThere j last) (sym e) (more id m)
              | inr h ↦ all i h
            ])))

  apply_validated-Succeeds :
      (clock : ℕ) (vfl : ValidatedFollowList) (db : Db)
      → Succeeds db (apply_validated ext clock vfl) Anything
  unfolding apply_validated
  apply_validated-Succeeds clock vfl db =
      bind-Succeeds IsThere Anything (upsert_pubkey (to_bytes vfl.follower_pubkey))
        (λ follower_id. upsert_all ext vfl.followee_pubkeys >>= λ followee_ids.
          apply_follow_list follower_id vfl.event_id vfl.created_at followee_ids clock)
        db (upsert_pubkey-Succeeds (to_bytes vfl.follower_pubkey) db (sized vfl.follower_pubkey))
        (λ f new grows m.
          bind-Succeeds AllThere Anything (upsert_all ext vfl.followee_pubkeys)
            (λ is. apply_follow_list f vfl.event_id vfl.created_at is clock) new
            (upsert_all-Succeeds vfl.followee_pubkeys new)
            (λ is last more all.
              apply_follow_list-Succeeds f vfl.event_id vfl.created_at is clock last (more f m)
                all))

  module _ (float : Float) (health : RelayHealthRegistry float) (s : Settings ext float health)
      (fallback_fetch : ℕ → List String → Result RelayError (List Event))
      (relay_list_fetch : ℕ → Result RelayError (List Event)) where
    persist_winner-Succeeds :
        (author : ℕ) (winner : Option ValidatedRelayList) (db : Db)
        → Succeeds db
            (persist_winner ext float health s fallback_fetch relay_list_fetch author winner)
            Anything
    unfolding persist_winner
    persist_winner-Succeeds author none db = done-Succeeds Anything [] db tt
    persist_winner-Succeeds author (some vrl) db =
        bind-Succeeds IsThere Anything (upsert_pubkey (to_bytes author))
          (λ id. apply_relay_list id vrl.relays vrl.created_at >> lookup_write_relays id) db
          (upsert_pubkey-Succeeds (to_bytes author) db (sized author))
          (λ id new grows m.
            bind-Succeeds Anything Anything (apply_relay_list id vrl.relays vrl.created_at)
              (λ _. lookup_write_relays id) new
              (apply_relay_list-Succeeds id vrl.relays vrl.created_at new m)
              (λ _ last g h. lookup_write_relays-Succeeds id last))

    resolve_fetched-Succeeds :
        (author : ℕ) (fetched : Result RelayError (List Event)) (db : Db)
        → Succeeds db
            (resolve_fetched ext float health s fallback_fetch relay_list_fetch author fetched)
            Anything
    unfolding resolve_fetched
    resolve_fetched-Succeeds author (err e) db = done-Succeeds Anything [] db tt
    resolve_fetched-Succeeds author (ok raw) db =
        persist_winner-Succeeds author (resolve_relay_list ext raw author s.now s.future_clamp_secs)
          db

    write_relays_of-Succeeds :
        (id author : ℕ) (db : Db)
        → Succeeds db
            (write_relays_of ext float health s fallback_fetch relay_list_fetch id author)
            Anything
    unfolding write_relays_of
    write_relays_of-Succeeds id author db =
        bind-Succeeds Anything Anything (lookup_write_relays id) _ db
          (lookup_write_relays-Succeeds id db)
          (λ known new g h. elim (Bool-cases (is_empty known)) [
            | inr e ↦ rw e (done-Succeeds Anything known new tt)
            | inl e ↦ rw e (
                bind-Succeeds Anything Anything _ _ new
                  (resolve_fetched-Succeeds author (relay_list_fetch author) new)
                  (λ found last g h. elim (Bool-cases (is_empty found)) [
                    | inl f ↦ rw f (lookup_write_relays-Succeeds id last)
                    | inr f ↦ rw f (done-Succeeds Anything found last tt)
                  ]))
          ])

    fallback_recover-Succeeds :
        (id author : ℕ) (db : Db)
        → Succeeds db
            (fallback_recover ext float health s fallback_fetch relay_list_fetch id author)
            Anything
    unfolding fallback_recover
    fallback_recover-Succeeds id author db =
        bind-Succeeds Anything Anything
          (write_relays_of ext float health s fallback_fetch relay_list_fetch id author) _ db
          (write_relays_of-Succeeds id author db)
          (λ relays new g h. done-Succeeds Anything _ new tt)

    settle-Succeeds :
        (id : ℕ) (found : Option ValidatedFollowList) (db : Db)
        → Succeeds db (settle ext float health s fallback_fetch relay_list_fetch id found) Anything
    unfolding settle
    settle-Succeeds id (some vfl) db =
        bind-Succeeds Anything Anything (apply_validated ext s.clock vfl) (λ _. done 1) db
          (apply_validated-Succeeds s.clock vfl db) (λ _ new g h. done-Succeeds Anything 1 new tt)
    settle-Succeeds id none db =
        bind-Succeeds Anything Anything
          (set_fetch_status id "not_found" (stamp_of (timestamp_to_datetime ext s.now)))
          (λ _. done 0) db
          (set_fetch_status-Succeeds id (stamp_of (timestamp_to_datetime ext s.now)) db)
          (λ _ new g h. done-Succeeds Anything 0 new tt)

    resolve_author-Succeeds :
        (lists : List (ℕ × ValidatedFollowList)) (id author : ℕ) (db : Db)
        → Succeeds db
            (resolve_author ext float health s fallback_fetch relay_list_fetch lists id author)
            Anything
    unfolding resolve_author
    resolve_author-Succeeds lists id author db = elim (Option-cases (lookup author lists)) [
      | inr (vfl, e) ↦ rw (e, resolve_author) (settle-Succeeds id (some vfl) db)
      | inl e ↦
          rw (e, resolve_author)
            (bind-Succeeds Anything Anything _
              (settle ext float health s fallback_fetch relay_list_fetch id) db (recovered)
              (λ found new g h. settle-Succeeds id found new))
    ]
      where
        recovered :
            Succeeds db
              (if s.fallback_enabled
                then fallback_recover ext float health s fallback_fetch relay_list_fetch id author
                else done none)
              Anything
        recovered = elim (Bool-cases s.fallback_enabled) [
          | inl e ↦ rw e (fallback_recover-Succeeds id author db)
          | inr e ↦ rw e (done-Succeeds Anything none db tt)
        ]

    resolve_all-Succeeds :
        (lists : List (ℕ × ValidatedFollowList)) (batch : List ClaimedAuthor) (db : Db)
        → Succeeds db
            (resolve_all ext float health s fallback_fetch relay_list_fetch lists batch)
            Anything
    unfolding resolve_all resolve_claimed
    resolve_all-Succeeds lists [] db = done-Succeeds Anything 0 db tt
    resolve_all-Succeeds lists (c ∷ batch) db =
        bind-Succeeds Anything Anything
          (resolve_claimed ext float health s fallback_fetch relay_list_fetch lists c) _ db one
          (λ n new g h.
            bind-Succeeds Anything Anything
              (resolve_all ext float health s fallback_fetch relay_list_fetch lists batch) _ new
              (resolve_all-Succeeds lists batch new)
              (λ m last k h. done-Succeeds Anything (n + m) last tt))
      where
        one :
            Succeeds db
              (resolve_claimed ext float health s fallback_fetch relay_list_fetch lists c)
              Anything
        one = elim (Option-cases (from_slice c.pubkey)) [
          | inl e ↦ rw (e, resolve_claimed) (settle-Succeeds c.id none db)
          | inr (author, e) ↦ rw (e, resolve_claimed) (resolve_author-Succeeds lists c.id author db)
        ]

    process_validated-Succeeds :
        (batch : List ClaimedAuthor) (lists : Result RelayError (List ValidatedFollowList))
        (db : Db)
        → HasRoom (length batch) db
        → Succeeds db
            (process_validated ext float health s fallback_fetch relay_list_fetch batch lists)
            Anything
    unfolding process_validated
    process_validated-Succeeds batch (err e) db room =
        bind-Succeeds Anything Anything _ (λ _. done 0) db
          (requeue_all-Succeeds ext batch s.max_attempts
            (stamp_of (timestamp_to_datetime ext s.now)) db room)
          (λ _ new g h. done-Succeeds Anything 0 new tt)
    process_validated-Succeeds batch (ok lists) db room =
        resolve_all-Succeeds (by_author_from ext [] lists) batch db

    process_batch-Succeeds :
        (batch : List ClaimedAuthor) (union_fetch : Result RelayError (List Event)) (db : Db)
        → HasRoom (length batch) db
        → Succeeds db
            (process_batch ext float health s fallback_fetch relay_list_fetch batch union_fetch)
            Anything
    unfolding process_batch
    process_batch-Succeeds [] union_fetch db room = done-Succeeds Anything 0 db tt
    process_batch-Succeeds (c ∷ batch) union_fetch db room =
        process_validated-Succeeds (c ∷ batch)
          (acquire_validated_lists ext (requested_of ext (c ∷ batch)) s.want_kind s.now
            s.future_clamp_secs s.follow_cap union_fetch)
          db room

    -- Over a connection that lasts long enough, a batch is processed to its end, and no row of it
    -- stays leased, whatever the relays answered. (A key has 32 bytes and is its own byte form; the
    -- ids of verified events bind their author and time; no count of attempts is near its largest
    -- value.)
    pub process_batch_completes :
        BindsId ext
        → ((b : List ℕ) (k : ℕ) → from_slice b ≡ some k → to_bytes k ≡ b)
        → (batch : List ClaimedAuthor) (union_fetch : Result RelayError (List Event)) (db : Db)
        → All (λ c. IsKnown c.pubkey c.id db.pubkeys) batch
        → HasRoom (length batch) db
        → (steps n : ℕ) × (after : Db) × All (λ c. IsSettled c.id after.pubkeys) batch
          × ((left : ℕ) (acts : Bool)
              → process_batch ext float health s fallback_fetch relay_list_fetch batch union_fetch
                  (record { db = db; left = steps + left; acts = acts })
                ≡ (ok n, record { db = after; left = left; acts = acts }))
    process_batch_completes bound round_trip batch union_fetch db known room =
        let done = process_batch-Succeeds batch union_fetch db room in
        let run : (left : ℕ) (acts : Bool)
            → process_batch ext float health s fallback_fetch relay_list_fetch batch union_fetch
                (record { db = db; left = done.steps + left; acts = acts })
              ≡ (ok done.result, record { db = done.after; left = left; acts = acts }) =
          λ left acts.
            done.runs (record { db = db; left = done.steps + left; acts = acts }) left refl refl in
        (
          done.steps,
          done.result,
          done.after,
          process_batch_settles ext bound float health s fallback_fetch relay_list_fetch round_trip
              batch union_fetch (record { db = db; left = done.steps + 0; acts = true })
              (record { db = done.after; left = 0; acts = true }) done.result known (run 0 true),
          run,
        )
