-- ===== src/Store/WellFormed.antt =====
-- src/store and src/crawl/frontier.rs: the invariant of the tables, kept by every operation.
use wotcrawler.Prelude.{
  ℕ, ◌≤◌, ◌<◌, ◌≡◌, ◌≢◌, inl, inr, refl, ap, Bool, true, List, [], ◌∷◌, Option, none, some, Member,
  All, IsDistinct, map, length, Bool-cases,
}
use wotcrawler.Store.{
  Status, discovered, in_progress, fetched, not_found, failed, Row, Db, update_rows,
}

abbrev pub IsSome {ℓ} : {A : Type ℓ} → Option A → Type 0
IsSome none = ⊥
IsSome (some a) = Unit

-- A terminal row has the time of its fetch; a leased one that of its lease.
abbrev pub HasTimes : Status → Option ℕ → Option ℕ → Type 0
HasTimes discovered fetched_at claimed_at = Unit
HasTimes in_progress fetched_at claimed_at = IsSome claimed_at
HasTimes fetched fetched_at claimed_at = IsSome fetched_at
HasTimes not_found fetched_at claimed_at = IsSome fetched_at
HasTimes failed fetched_at claimed_at = IsSome fetched_at

pub record IsSound (r : Row) : Type 0 where
  pub key : length r.pubkey ≡ 32
  pub times : HasTimes r.status r.last_fetched_at r.claimed_at
  pub churn : r.change_count ≤ r.fetch_count
  pub changed : 0 < r.change_count → IsSome r.last_changed_at
  pub attempts : r.fetch_attempts ≤ 32767

abbrev pub ids : List Row → List ℕ
ids rows = map (λ r. r.id) rows

abbrev pub keys : List Row → List (List ℕ)
keys rows = map (λ r. r.pubkey) rows

-- An edge between two different rows.
abbrev pub IsEdge : List ℕ → ℕ × ℕ → Type 0
IsEdge there (f, g) = Member f there × Member g there × (f ≢ g)

pub record WellFormed (db : Db) : Type 0 where
  pub sound : All IsSound db.pubkeys
  pub once : IsDistinct (ids db.pubkeys)
  pub keyed : IsDistinct (keys db.pubkeys)
  pub fresh : All (λ i. i < db.next_id) (ids db.pubkeys)
  pub edges : All (IsEdge (ids db.pubkeys)) db.follows
  pub edges_once : IsDistinct db.follows
  pub relays : All (λ r. Member r.pubkey_id (ids db.pubkeys)) db.pubkey_relays

-- A change of rows that leaves ids and keys alone.
pub record KeepsKeys (change : Row → Row) : Type 0 where
  pub same_id : (r : Row) → (change r).id ≡ r.id
  pub same_key : (r : Row) → (change r).pubkey ≡ r.pubkey

module _ (select : Row → Bool) (change : Row → Row) where
  pub ids-update : KeepsKeys change → (rs : List Row) → ids (update_rows select change rs) ≡ ids rs
  ids-update u [] = refl
  ids-update u (r ∷ rs) = elim (Bool-cases (select r)) [
    | inl e ↦ rw (e, u.same_id r) (ap (◌∷◌ r.id) (ids-update u rs))
    | inr e ↦ rw e (ap (◌∷◌ r.id) (ids-update u rs))
  ]

  keys-update : KeepsKeys change → (rs : List Row) → keys (update_rows select change rs) ≡ keys rs
  keys-update u [] = refl
  keys-update u (r ∷ rs) = elim (Bool-cases (select r)) [
    | inl e ↦ rw (e, u.same_key r) (ap (◌∷◌ r.pubkey) (keys-update u rs))
    | inr e ↦ rw e (ap (◌∷◌ r.pubkey) (keys-update u rs))
  ]

  pub IsSound-update :
      ((r : Row) → select r ≡ true → IsSound r → IsSound (change r))
      → (rs : List Row) → All IsSound rs
      → All IsSound (update_rows select change rs)
  IsSound-update f [] h = tt
  IsSound-update f (r ∷ rs) h = elim (Bool-cases (select r)) [
    | inl e ↦ rw e (f r e h.0, IsSound-update f rs h.1)
    | inr e ↦ rw e (h.0, IsSound-update f rs h.1)
  ]

  -- Such a change keeps the tables well-formed, if the rows are sound after it.
  pub update-WellFormed :
      (db : Db)
      → KeepsKeys change
      → All IsSound (update_rows select change db.pubkeys)
      → WellFormed db
      → WellFormed (record db { pubkeys = update_rows select change db.pubkeys })
  update-WellFormed db u sound w = record {
    sound = sound;
    once = rw (ids-update u db.pubkeys) w.once;
    keyed = rw (keys-update u db.pubkeys) w.keyed;
    fresh = rw (ids-update u db.pubkeys) w.fresh;
    edges = rw (ids-update u db.pubkeys) w.edges;
    edges_once = w.edges_once;
    relays = rw (ids-update u db.pubkeys) w.relays;
  }
