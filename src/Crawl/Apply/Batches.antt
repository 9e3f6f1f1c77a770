-- ===== src/Crawl/Apply/Batches.antt =====
-- src/crawl/apply.rs: after a batch no row of it is leased.
use Prim.Native.String.{String}
use wotcrawler.Prelude.{
  ℕ, ◌+◌, ◌≡◌, ◌∙◌, inl, inr, refl, sym, ap, subst, List, [], ◌∷◌, Option, none, some, Option-cases,
  All, All-imp,
}
use wotcrawler.Prelude.Results.{Result, ok, err}
use wotcrawler.Prelude.Maps.{lookup, nat_eq}
use wotcrawler.External.{External, BindsId}
use wotcrawler.Errors.{RelayError}
use wotcrawler.Ingest.Gate.{ValidatedFollowList}
use wotcrawler.Relay.Client.{acquire_validated_lists}
use wotcrawler.Relay.Health.{Float, RelayHealthRegistry}
use wotcrawler.Store.{Row, World, Sql, done, ◌>>=◌}
use wotcrawler.Store.Rules.{bind-ok}
use wotcrawler.Store.Pubkeys.{upsert_pubkey, set_fetch_status}
use wotcrawler.Store.Follows.{apply_follow_list}
use wotcrawler.Crawl.Frontier.{ClaimedAuthor, requeue_or_fail}
use wotcrawler.Crawl.Apply.Rows.{IsSettled, IsSettled-IsStable, IsKnown, IsKnown-IsStable}
use wotcrawler.Crawl.Apply.Settled.Writers.{IsStable-IsKept}
use wotcrawler.Crawl.Apply.Kept.{
  requeue_all-Keeps, attempt-Keeps, resolve_claimed-Keeps, resolve_all-Keeps,
}
use wotcrawler.Crawl.Apply.{
  upsert_all, apply_validated, requeue_all, by_author_from, Settings, stamp, settle, resolve_author,
  resolve_claimed, resolve_all, process_validated, process_batch, requested_of,
}
use wotcrawler.Crawl.Apply.Effects.{stamps-settle, requeues-settle, applies-settle, upserts-known}
use wotcrawler.Crawl.Apply.Authors.{by_author-filed, empty_lookup, attempt, attempt-author}

module _ (ext : External) (bound : BindsId ext) (float : Float) (health : RelayHealthRegistry float)
    (s : Settings ext float health)
    (fallback_fetch : ℕ → List String → Result RelayError (List ext.Event))
    (relay_list_fetch : ℕ → Result RelayError (List ext.Event)) where
  open ext use {Event, to_bytes, from_slice}

  missing-settles :
      (id : ℕ) (w v : World) (n : ℕ)
      → settle ext float health s fallback_fetch relay_list_fetch id none w ≡ (ok n, v)
      → IsSettled id v.db.pubkeys
  unfolding settle
  missing-settles id w v n h =
      let ts = stamp ext float health s fallback_fetch relay_list_fetch in
      let (a, t, stamping, last) =
        bind-ok (set_fetch_status id "not_found" ts) (λ _. done 0) w n v h in
      subst (λ d. IsSettled id d.pubkeys) (ap (λ p. p.1.db) last) (stamps-settle id ts w t stamping)

  -- A row that is settled with a list of its author, or with none, is no longer leased.
  settle-settles :
      (key : List ℕ) (id author : ℕ) (found : Option ValidatedFollowList) (w v : World) (n : ℕ)
      → to_bytes author ≡ key
      → ((u : ValidatedFollowList) → found ≡ some u → u.follower_pubkey ≡ author)
      → IsKnown key id w.db.pubkeys
      → settle ext float health s fallback_fetch relay_list_fetch id found w ≡ (ok n, v)
      → IsSettled id v.db.pubkeys
  unfolding settle apply_validated
  settle-settles key id author none w v n bytes own known h = missing-settles id w v n h
  settle-settles key id author (some vfl) w v n bytes own known h =
      let (b, t, applying, last) =
        bind-ok (apply_validated ext s.clock vfl) (λ _. done 1) w n v h in
      let (j, x, first, rest) =
        bind-ok (upsert_pubkey (to_bytes vfl.follower_pubkey))
          (λ follower_id. upsert_all ext vfl.followee_pubkeys >>= λ followee_ids.
            apply_follow_list follower_id vfl.event_id vfl.created_at followee_ids s.clock)
          w b t applying in
      let (ids, y, _, write) =
        bind-ok (upsert_all ext vfl.followee_pubkeys)
          (λ followee_ids. apply_follow_list j vfl.event_id vfl.created_at followee_ids s.clock) x b
          t rest in
      let here : j ≡ id =
        upserts-known (to_bytes vfl.follower_pubkey) id w x j
          (subst (λ k. IsKnown k id w.db.pubkeys) (sym (ap to_bytes (own vfl refl) ∙ bytes)) known)
          first in
      subst (λ d. IsSettled id d.pubkeys) (ap (λ p. p.1.db) last)
        (subst (λ i. IsSettled i t.db.pubkeys) here
          (applies-settle j vfl.event_id vfl.created_at ids s.clock y t b write))

  module _ (round_trip : (b : List ℕ) (k : ℕ) → from_slice b ≡ some k → to_bytes k ≡ b) where
    -- The lists are filed under their authors.
    abbrev IsFiled : List (ℕ × ValidatedFollowList) → Type 0
    IsFiled by_author =
        (j : ℕ) (u : ValidatedFollowList) → lookup j by_author ≡ some u → u.follower_pubkey ≡ j

    abbrev IsKnownAuthor : List Row → ClaimedAuthor → Type 0
    IsKnownAuthor rows c = IsKnown c.pubkey c.id rows

    author-settles :
        (by_author : List (ℕ × ValidatedFollowList)) (c : ClaimedAuthor) (author : ℕ) (w v : World)
        (n : ℕ)
        → IsFiled by_author
        → IsKnownAuthor w.db.pubkeys c
        → to_bytes author ≡ c.pubkey
        → resolve_author ext float health s fallback_fetch relay_list_fetch by_author c.id author w
          ≡ (ok n, v)
        → IsSettled c.id v.db.pubkeys
    unfolding resolve_author
    author-settles by_author c author w v n filed known bytes h =
        elim (Option-cases (lookup author by_author)) [
          | inr (vfl, e) ↦
              settle-settles c.pubkey c.id author (some vfl) w v n bytes
                (λ u q. filed author u (e ∙ q)) known (rw (resolve_author, e) at h)
          | inl e ↦
              let (found, t, trying, rest) =
                bind-ok
                  (attempt ext bound float health s fallback_fetch relay_list_fetch c.id author)
                  (λ found. settle ext float health s fallback_fetch relay_list_fetch c.id found) w
                  n v (rw (resolve_author, e) at h) in
              let kept : IsKnownAuthor t.db.pubkeys c =
                subst (λ p. IsKnownAuthor p.1.db.pubkeys c) trying
                  (attempt-Keeps ext (λ db. IsKnown c.pubkey c.id db.pubkeys)
                    (IsStable-IsKept (IsKnown c.pubkey c.id) (IsKnown-IsStable c.pubkey c.id)) float
                    health s fallback_fetch relay_list_fetch c.id author w known) in
              settle-settles c.pubkey c.id author found t v n bytes
                (λ u q.
                  attempt-author ext bound float health s fallback_fetch relay_list_fetch c.id
                    author w t u (trying ∙ ap (λ o. (ok o, t)) q))
                kept rest
        ]

    claimed-settles :
        (by_author : List (ℕ × ValidatedFollowList)) (c : ClaimedAuthor) (w v : World) (n : ℕ)
        → IsFiled by_author
        → IsKnownAuthor w.db.pubkeys c
        → resolve_claimed ext float health s fallback_fetch relay_list_fetch by_author c w
          ≡ (ok n, v)
        → IsSettled c.id v.db.pubkeys
    unfolding resolve_claimed
    claimed-settles by_author c w v n filed known h = elim (Option-cases (from_slice c.pubkey)) [
      | inl e ↦ missing-settles c.id w v n (rw (resolve_claimed, e) at h)
      | inr (author, e) ↦
          author-settles by_author c author w v n filed known (round_trip c.pubkey author e)
            (rw (resolve_claimed, e) at h)
    ]

    all-settle :
        (by_author : List (ℕ × ValidatedFollowList)) (batch : List ClaimedAuthor) (w v : World)
        (n : ℕ)
        → IsFiled by_author
        → All (IsKnownAuthor w.db.pubkeys) batch
        → resolve_all ext float health s fallback_fetch relay_list_fetch by_author batch w
          ≡ (ok n, v)
        → All (λ c. IsSettled c.id v.db.pubkeys) batch
    unfolding resolve_all
    all-settle by_author [] w v n filed known h = tt
    all-settle by_author (c ∷ batch) w v n filed known h =
        let one : Sql ℕ =
          resolve_claimed ext float health s fallback_fetch relay_list_fetch by_author c in
        let others : Sql ℕ =
          resolve_all ext float health s fallback_fetch relay_list_fetch by_author batch in
        let (a, t, first, rest) = bind-ok one (λ a. others >>= λ b. done (a + b)) w n v h in
        let (b, x, second, last) = bind-ok others (λ b. done (a + b)) t n v rest in
        let end : x.db.pubkeys ≡ v.db.pubkeys = ap (λ p. p.1.db.pubkeys) last in
        let known' : All (IsKnownAuthor t.db.pubkeys) batch =
          All-imp (IsKnownAuthor w.db.pubkeys) (IsKnownAuthor t.db.pubkeys) batch
            (λ d k.
              subst (λ p. IsKnownAuthor p.1.db.pubkeys d) first
                (resolve_claimed-Keeps ext (λ db. IsKnown d.pubkey d.id db.pubkeys)
                  (IsStable-IsKept (IsKnown d.pubkey d.id) (IsKnown-IsStable d.pubkey d.id)) float
                  health s fallback_fetch relay_list_fetch by_author c w k))
            known.1 in
        (
          subst (IsSettled c.id) end (
              subst (λ p. IsSettled c.id p.1.db.pubkeys) second
                (resolve_all-Keeps ext (λ db. IsSettled c.id db.pubkeys)
                  (IsStable-IsKept (IsSettled c.id) (IsSettled-IsStable c.id)) float health s
                  fallback_fetch relay_list_fetch by_author batch t
                  (claimed-settles by_author c w t a filed known.0 first))),
          subst (λ rows. All (λ d. IsSettled d.id rows) batch) end
              (all-settle by_author batch t x b filed known' second),
        )

    requeued-settle :
        (batch : List ClaimedAuthor) (max_attempts now : ℕ) (w v : World)
        → requeue_all ext batch max_attempts now w ≡ (ok tt, v)
        → All (λ c. IsSettled c.id v.db.pubkeys) batch
    unfolding requeue_all
    requeued-settle [] max_attempts now w v h = tt
    requeued-settle (c ∷ batch) max_attempts now w v h =
        let (a, t, first, rest) =
          bind-ok (requeue_or_fail c.id max_attempts now)
            (λ _. requeue_all ext batch max_attempts now) w tt v h in
        (
          subst (λ p. IsSettled c.id p.1.db.pubkeys) rest
              (requeue_all-Keeps ext (λ db. IsSettled c.id db.pubkeys)
                (IsStable-IsKept (IsSettled c.id) (IsSettled-IsStable c.id)) batch max_attempts now
                t (requeues-settle c.id max_attempts now w t first)),
          requeued-settle batch max_attempts now t v rest,
        )

    validated-settle :
        (batch : List ClaimedAuthor) (r : Result RelayError (List ValidatedFollowList))
        (w v : World) (n : ℕ)
        → All (IsKnownAuthor w.db.pubkeys) batch
        → process_validated ext float health s fallback_fetch relay_list_fetch batch r w ≡ (ok n, v)
        → All (λ c. IsSettled c.id v.db.pubkeys) batch
    unfolding process_validated
    validated-settle batch (err e) w v n known h =
        let ts = stamp ext float health s fallback_fetch relay_list_fetch in
        let (a, t, first, last) =
          bind-ok (requeue_all ext batch s.max_attempts ts) (λ _. done 0) w n v h in
        subst (λ rows. All (λ c. IsSettled c.id rows) batch) (ap (λ p. p.1.db.pubkeys) last)
          (requeued-settle batch s.max_attempts ts w t first)
    validated-settle batch (ok lists) w v n known h =
        all-settle (by_author_from ext [] lists) batch w v n
          (λ j u. by_author-filed ext lists [] j u (λ i x q. absurd (no_entry i x q))) known h
      where
        no_entry :
            (i : ℕ) (x : ValidatedFollowList) → lookup {V = ValidatedFollowList} i [] ≡ some x → ⊥
        no_entry i x q = empty_lookup i x q

    -- A batch that succeeds leaves no row of it leased, whatever the relays answered: each claimed row
    -- that its key is known by is fetched, not found, failed, or discovered for a retry. (The ids of
    -- verified events bind their author and time, and a key that parses is its own byte form.)
    pub process_batch_settles :
        (batch : List ClaimedAuthor) (union_fetch : Result RelayError (List Event)) (w v : World)
        (n : ℕ)
        → All (IsKnownAuthor w.db.pubkeys) batch
        → process_batch ext float health s fallback_fetch relay_list_fetch batch union_fetch w
          ≡ (ok n, v)
        → All (λ c. IsSettled c.id v.db.pubkeys) batch
    unfolding process_batch
    process_batch_settles [] union_fetch w v n known h = tt
    process_batch_settles (c ∷ batch) union_fetch w v n known h =
        validated-settle (c ∷ batch)
          (acquire_validated_lists ext (requested_of ext (c ∷ batch)) s.want_kind s.now
            s.future_clamp_secs s.follow_cap union_fetch)
          w v n known h
