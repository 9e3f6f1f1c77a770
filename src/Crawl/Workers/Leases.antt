-- ===== src/Crawl/Workers/Leases.antt =====
-- src/crawl/mod.rs and src/daemon/loop_.rs: which rows are leased while workers run.
pub mod Work
use Prim.Native.String.{String}
use wotcrawler.Prelude.{
  ℕ, ◌+◌, ◌≡◌, ◌∙◌, ◌⊎◌, inl, inr, refl, sym, ap, subst, Bool, true, false, List, [], ◌∷◌, ◌++◌,
  Option, some, none, Member, Member-append, Member-append_left, Member-append_right, Member-map,
  Member-map_of, All, All-member, All-of_Member, IsDistinct, map, contains, contains→member,
  member→contains, not-Member_of_contains, Bool-cases, if◌then◌else◌,
}
use wotcrawler.Prelude.Results.{Result, ok, err}
use wotcrawler.Store.{
  Status, not_found, in_progress, Row, Db, World, update_rows, statement, update_pubkeys,
}
use wotcrawler.Store.Rules.{Keeps, statement-Keeps, bind-ok}
use wotcrawler.Store.Pubkeys.{bytes_eq, find_pubkey, status_of}
use wotcrawler.Store.WellFormed.{WellFormed, keys}
use wotcrawler.Store.Preserve.{upsert_pubkey-Keeps, set_fetch_status-Keeps}
use wotcrawler.Store.Finding.{bytes_eq_refl, bytes_same}
use wotcrawler.Store.Preserve.Tables.{apply_relay_list-Keeps}
use wotcrawler.Store.Preserve.Edges.{apply_follow_list-Keeps}
use wotcrawler.Store.Relays.{select_write_relays, lookup_write_relays}
use wotcrawler.Crawl.Frontier.{
  ClaimedAuthor, claimed_author, claim_batch, lease, release, is_in_progress, seed_anchor,
  reclaim_stale_on_startup,
}
use wotcrawler.Crawl.Frontier.Claims.{claim_batch-IsClaim}
use wotcrawler.Crawl.Frontier.Preserve.{requeue_or_fail-Keeps, claim_batch-Keeps, release-Keeps}
use wotcrawler.Crawl.Apply.Rows.{
  IsSettled, IsSettled-changed, IsSettled-others, IsKnown, IsKnown-changed, IsKnown-IsStable,
  IsSettled-IsStable,
}
use wotcrawler.Crawl.Apply.Settled.{IsKept}
use wotcrawler.Crawl.Apply.Settled.Writers.{IsStable-IsKept}
use wotcrawler.Crawl.Apply.Kept.Batch.{process_batch-Keeps}
use wotcrawler.Crawl.Apply.Batches.{process_batch_settles}
use wotcrawler.Crawl.Workers.{start_up, Conditions, settings, run_worker}
use wotcrawler.External.{External, BindsId}
use wotcrawler.Errors.{StoreError, RelayError}
use wotcrawler.Relay.Health.{Float}
use wotcrawler.Crawl.Frontier.Reclaim.{reclaim_stale_on_startup-IsSwept}

abbrev pub author_ids : List ClaimedAuthor → List ℕ
author_ids held = map (λ c. c.id) held

-- Only the rows of `held` may be leased, and each of them is known by its key.
pub record IsHeld (held : List ClaimedAuthor) (db : Db) : Type 0 where
  pub formed : WellFormed db
  pub known : (c : ClaimedAuthor) → Member c held → IsKnown c.pubkey c.id db.pubkeys
  pub free : (i : ℕ) → ¬ Member i (author_ids held) → IsSettled i db.pubkeys

author_ids-Member :
    (held other : List ClaimedAuthor) (i : ℕ)
    → ((c : ClaimedAuthor) → Member c held → Member c other)
    → Member i (author_ids held)
    → Member i (author_ids other)
author_ids-Member held other i there m =
    let (c, at, e) = Member-map (λ c. c.id) i held m in
    subst (λ j. Member j (author_ids other)) (sym e)
      (Member-map_of (λ c. c.id) c other (there c at))

-- The order does not matter, nor how often an author stands in the list.
pub IsHeld-same :
    (held other : List ClaimedAuthor) (db : Db)
    → ((c : ClaimedAuthor) → Member c held → Member c other)
    → ((c : ClaimedAuthor) → Member c other → Member c held)
    → IsHeld held db
    → IsHeld other db
IsHeld-same held other db there back h = record {
  formed = h.formed;
  known = λ c m. h.known c (back c m);
  free = λ i n. h.free i (λ m. n (author_ids-Member held other i there m));
}

-- A key that stands in the tables is known by the id of its row.
IsKnown-key :
    (rows : List Row) (r : Row)
    → IsDistinct (keys rows)
    → Member r rows
    → IsKnown r.pubkey r.id rows
IsKnown-key [] r once m = absurd m
IsKnown-key (s ∷ rows) r once (inl e) =
    subst (λ x. IsKnown x.pubkey x.id (s ∷ rows)) (sym e) (rw (bytes_eq_refl s.pubkey) refl)
IsKnown-key (s ∷ rows) r once (inr m) = elim (Bool-cases (bytes_eq s.pubkey r.pubkey)) [
  | inr e ↦ rw e (IsKnown-key rows r once.1 m)
  | inl e ↦ absurd (
      once.0 (
        subst (λ k. Member k (keys rows)) (sym (bytes_same s.pubkey r.pubkey e))
          (Member-map_of (λ x. x.pubkey) r rows m)))
]

contains-absent : (xs : List ℕ) (i : ℕ) → ¬ Member i xs → contains xs i ≡ false
contains-absent xs i n = elim (Bool-cases (contains xs i)) [
  | inl e ↦ absurd (n (contains→member xs i e))
  | inr e ↦ e
]

pub WellFormed-IsKept : IsKept WellFormed
unfolding lookup_write_relays select_write_relays status_of
WellFormed-IsKept = record {
  upserts = upsert_pubkey-Keeps;
  applies = apply_follow_list-Keeps;
  applies_relays = apply_relay_list-Keeps;
  looks_up = λ id.
      statement-Keeps WellFormed (select_write_relays id)
        (λ old a db w h. subst WellFormed (same id old a db h) w);
  stamps = λ id ts. set_fetch_status-Keeps id "not_found" ts (λ q. not_leased q);
  requeues = requeue_or_fail-Keeps;
}
  where
    same :
        (id : ℕ) (old : Db) (a : List String) (db : Db)
        → select_write_relays id old ≡ ok (a, db)
        → old ≡ db
    same id old a db q = cc

    not_leased : Path (Option Status) (some not_found) (some in_progress) → ⊥
    not_leased q = cc

-- Leases that are taken back are held no more, and a list of holders stays one.
pub release-IsHeld :
    (held : List ClaimedAuthor) (select : Row → Bool)
    → Keeps (IsHeld held) (statement (update_pubkeys select release))
release-IsHeld held select w h = record {
  formed = release-Keeps select w h.formed;
  known = λ c m.
      statement-Keeps (λ db. IsKnown c.pubkey c.id db.pubkeys) (update_pubkeys select release)
        (λ old a db k e.
          subst (IsKnown c.pubkey c.id) (rows_of old a db e)
            (IsKnown-changed c.pubkey c.id select release old.pubkeys (λ r. refl) (λ r. refl) k))
        w (h.known c m);
  free = λ i n.
      statement-Keeps (λ db. IsSettled i db.pubkeys) (update_pubkeys select release)
        (λ old a db k e.
          subst (IsSettled i) (rows_of old a db e)
            (IsSettled-changed i select release old.pubkeys (λ r. refl) (λ r. refl) k))
        w (h.free i n);
}
  where
    rows_of :
        (old : Db) (a : ℕ) (db : Db)
        → update_pubkeys select release old ≡ ok (a, db)
        → update_rows select release old.pubkeys ≡ db.pubkeys
    rows_of old a db q = cc

-- A claim that succeeds adds its authors.
pub claim-IsHeld :
    (held : List ClaimedAuthor) (locked : List ℕ) (limit now : ℕ) (w v : World)
    (authors : List ClaimedAuthor)
    → claim_batch locked limit now w ≡ (ok authors, v)
    → IsHeld held w.db
    → IsHeld (authors ++ held) v.db
claim-IsHeld held locked limit now w v authors e h =
    let claim = claim_batch-IsClaim locked limit now w v authors e in
    let select : Row → Bool = λ r. contains (author_ids authors) r.id in
    let was_known : (c : ClaimedAuthor)
        → Member c (authors ++ held)
        → IsKnown c.pubkey c.id w.db.pubkeys =
      λ c m. elim (Member-append c authors held m) [
        | inr k ↦ h.known c k
        | inl k ↦
            let (r, mr, _, _, is) = claim.taken c k in
            subst (λ a. IsKnown a.pubkey a.id w.db.pubkeys) (sym is)
              (IsKnown-key w.db.pubkeys r h.formed.keyed mr)
      ] in
    record {
      formed =
          subst (λ (p : Result StoreError (List ClaimedAuthor) × World). WellFormed p.1.db) e
            (claim_batch-Keeps locked limit now w h.formed);
      known = λ c m. subst (IsKnown c.pubkey c.id) (sym claim.leased) (
          IsKnown-changed c.pubkey c.id select (lease now) w.db.pubkeys (λ r. refl) (λ r. refl)
            (was_known c m));
      free = λ i n. subst (IsSettled i) (sym claim.leased) (
          IsSettled-others i select (lease now) w.db.pubkeys
            (λ r q. contains-absent (author_ids authors) r.id (λ m. n (
              author_ids-Member authors (authors ++ held) i
                (λ c k. Member-append_left c authors held k)
                (subst (λ j. Member j (author_ids authors)) q m))))
            (λ r. refl)
            (h.free i (λ m. n (
              author_ids-Member held (authors ++ held) i
                (λ c k. Member-append_right c authors held k) m))));
    }

startup-Keeps : Keeps WellFormed reclaim_stale_on_startup
unfolding reclaim_stale_on_startup
startup-Keeps = release-Keeps (λ r. is_in_progress r.status)

-- After the start no row is leased.
pub start_up-IsHeld :
    (anchor_pubkey : List ℕ) (w v : World) (n : ℕ)
    → start_up anchor_pubkey w ≡ (ok n, v)
    → WellFormed w.db
    → IsHeld [] v.db
unfolding start_up seed_anchor
start_up-IsHeld anchor_pubkey w v n e p =
    let (id, t, seeding, reclaiming) =
      bind-ok (seed_anchor anchor_pubkey) (λ _. reclaim_stale_on_startup) w n v e in
    let seeded : WellFormed t.db =
      subst (λ (r : Result StoreError ℕ × World). WellFormed r.1.db) seeding
        (upsert_pubkey-Keeps anchor_pubkey w p) in
    record {
      formed =
          subst (λ (r : Result StoreError ℕ × World). WellFormed r.1.db) reclaiming
            (startup-Keeps t seeded);
      known = λ c m. absurd m;
      free = λ i _. all_free i v.db.pubkeys (reclaim_stale_on_startup-IsSwept t v n reclaiming).1;
    }
  where
    all_free :
        (i : ℕ) (rows : List Row)
        → ((x : Row) → Member x rows → is_in_progress x.status ≡ false)
        → IsSettled i rows
    all_free i [] h = tt
    all_free i (r ∷ rows) h = ((λ _. h r (inl refl)), all_free i rows (λ x m. h x (inr m)))

-- A row that is held by nobody is not leased.
pub IsHeld-none :
    (db : Db) (r : Row) → IsHeld [] db → Member r db.pubkeys → is_in_progress r.status ≡ false
IsHeld-none db r h m = row db.pubkeys m (h.free r.id (λ k. k))
  where
    row : (rows : List Row) → Member r rows → IsSettled r.id rows → is_in_progress r.status ≡ false
    row [] m s = absurd m
    row (x ∷ rows) (inl e) s =
        subst (λ y. is_in_progress y.status ≡ false) (sym e) (s.0 (ap (λ y. y.id) (sym e)))
    row (x ∷ rows) (inr m) s = row rows m s.1
