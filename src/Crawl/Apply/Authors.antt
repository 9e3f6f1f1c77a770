-- ===== src/Crawl/Apply/Authors.antt =====
-- src/crawl/apply.rs: the list that is found for an author is the author's, and so is one filed under it.
use Prim.Native.String.{String}
use wotcrawler.Prelude.{
  ℕ, ◌≡◌, ◌∙◌, inl, inr, sym, ap, true, List, [], ◌∷◌, Option, none, some, ◌==◌, ==_iff, Bool-cases,
  if◌then◌else◌, is_empty, Member, contains, contains→member, arith,
}
use wotcrawler.Prelude.Results.{Result, ok, err}
use wotcrawler.Prelude.Maps.{lookup, insert, nat_eq, lookup-insert}
use wotcrawler.External.{External, BindsId}
use wotcrawler.Errors.{StoreError, RelayError}
use wotcrawler.Ingest.Verify.{accept}
use wotcrawler.Ingest.Gate.{ValidatedFollowList, from_event, ingest_events}
use wotcrawler.Ingest.Lists.{ingest_events-IsLatest}
use wotcrawler.Relay.Client.{acquire_validated_lists}
use wotcrawler.Relay.Health.{Float, RelayHealthRegistry}
use wotcrawler.Store.{World, Sql, done}
use wotcrawler.Store.Rules.{bind-ok}
use wotcrawler.Crawl.Apply.{
  by_author_from, Settings, recover_from, recovered_of, fallback_recover, last_list,
  write_relays_of,
}

-- A list is filed under its author.
pub by_author-filed :
    (ext : External) (lists : List ValidatedFollowList) (m : List (ℕ × ValidatedFollowList)) (k : ℕ)
    (v : ValidatedFollowList)
    → ((j : ℕ) (u : ValidatedFollowList) → lookup j m ≡ some u → u.follower_pubkey ≡ j)
    → lookup k (by_author_from ext m lists) ≡ some v
    → v.follower_pubkey ≡ k
unfolding by_author_from
by_author-filed ext [] m k v filed h = filed k v h
by_author-filed ext (x ∷ lists) m k v filed h =
    by_author-filed ext lists (insert x.follower_pubkey x m) k v step h
  where
    step :
        (j : ℕ) (u : ValidatedFollowList)
        → lookup j (insert x.follower_pubkey x m) ≡ some u
        → u.follower_pubkey ≡ j
    step j u q = elim (Bool-cases (x.follower_pubkey == j)) [
      | inl e ↦
          let here : x ≡ u = inj (rw (lookup-insert, e) at q) in
          ap (λ y. y.follower_pubkey) (sym here) ∙ (==_iff x.follower_pubkey j).0 e
      | inr e ↦ filed j u (rw (lookup-insert, e) at q)
    ]
      where
        inj : Path (Option ValidatedFollowList) (some x) (some u) → x ≡ u
        inj p = cc

pub empty_lookup :
    (i : ℕ) (x : ValidatedFollowList) → lookup {V = ValidatedFollowList} i [] ≡ some x → ⊥
unfolding lookup
empty_lookup i x q = cc

accept-asked :
    (ext : External) (e : ext.Event) (kind : ℕ) (asked : List ℕ)
    → accept ext e kind asked ≡ true
    → contains asked (ext.pubkey e) ≡ true
unfolding accept
accept-asked ext e kind asked h = ground arith

module _ (ext : External) (bound : BindsId ext) (float : Float) (health : RelayHealthRegistry float)
    (s : Settings ext float health)
    (fallback_fetch : ℕ → List String → Result RelayError (List ext.Event))
    (relay_list_fetch : ℕ → Result RelayError (List ext.Event)) where
  open ext use {Event, to_bytes, from_slice}

  -- A list from a fetch for one author is that author's.
  emitted-author :
      (author : ℕ) (raw : List Event) (v : ValidatedFollowList)
      → Member v
          (ingest_events ext raw s.want_kind (author ∷ []) s.now s.future_clamp_secs s.follow_cap)
      → v.follower_pubkey ≡ author
  unfolding from_event
  emitted-author author raw v m =
      let (w, latest, (fs, _, made)) =
        ingest_events-IsLatest ext bound raw s.want_kind (author ∷ []) s.now s.future_clamp_secs
          s.follow_cap v m in
      let asked =
        contains→member (author ∷ []) (ext.pubkey w)
          (accept-asked ext w s.want_kind (author ∷ []) latest.accepted) in
      ap (λ y. y.follower_pubkey) made ∙ elim asked [ inl e ↦ e | inr n ↦ absurd n ]

  last-Member :
      (lists : List ValidatedFollowList) (v : ValidatedFollowList)
      → last_list ext float health s fallback_fetch relay_list_fetch (ok lists) ≡ some v
      → Member v lists
  last-Member [] v h = cc
  last-Member (x ∷ []) v h = inl (cc)
  last-Member (x ∷ y ∷ lists) v h = inr (last-Member (y ∷ lists) v h)

  recovered-author :
      (author : ℕ) (r : Result RelayError (List Event)) (v : ValidatedFollowList)
      → recovered_of ext float health s fallback_fetch relay_list_fetch author r ≡ some v
      → v.follower_pubkey ≡ author
  unfolding recovered_of acquire_validated_lists
  recovered-author author (err e) v h = cc
  recovered-author author (ok raw) v h = emitted-author author raw v (
      last-Member
        (ingest_events ext raw s.want_kind (author ∷ []) s.now s.future_clamp_secs s.follow_cap) v
        h)

  recover_from-author :
      (author : ℕ) (relays : List String) (v : ValidatedFollowList)
      → recover_from ext float health s fallback_fetch relay_list_fetch author relays ≡ some v
      → v.follower_pubkey ≡ author
  unfolding recover_from
  recover_from-author author relays v h = recovered-author author _ v h

  -- What an attempt to recover yields.
  abbrev pub attempt : ℕ → ℕ → Sql (Option ValidatedFollowList)
  attempt id author =
      if s.fallback_enabled
      then fallback_recover ext float health s fallback_fetch relay_list_fetch id author
      else done none

  pub attempt-author :
      (id author : ℕ) (w u : World) (v : ValidatedFollowList)
      → attempt id author w ≡ (ok (some v), u)
      → v.follower_pubkey ≡ author
  unfolding fallback_recover
  attempt-author id author w u v h = elim (Bool-cases s.fallback_enabled) [
    | inr e ↦ absurd (nothing (rw e at h))
    | inl e ↦ recover (rw (e, fallback_recover) at h)
  ]
    where
      nothing :
          Path
            (Result StoreError (Option ValidatedFollowList) × World)
            (ok none, w)
            (ok (some v), u)
          → ⊥
      nothing q = cc

      recover :
          fallback_recover ext float health s fallback_fetch relay_list_fetch id author w
            ≡ (ok (some v), u)
          → v.follower_pubkey ≡ author
      recover q =
          let from : List String → Option ValidatedFollowList = λ relays.
            if is_empty relays
            then none
            else recover_from ext float health s fallback_fetch relay_list_fetch author relays in
          let (relays, x, _, last) =
            bind-ok (write_relays_of ext float health s fallback_fetch relay_list_fetch id author)
              (λ relays. done (from relays)) w (some v) u q in
          elim (Bool-cases (is_empty relays)) [
            | inl e ↦ absurd (nothing' x (rw e at last))
            | inr e ↦ recover_from-author author relays v (found x (rw e at last))
          ]
        where
          nothing' :
              (x : World)
              → Path
                  (Result StoreError (Option ValidatedFollowList) × World)
                  (ok none, x)
                  (ok (some v), u)
              → ⊥
          nothing' x q = cc

          found :
              (x : World) {o : Option ValidatedFollowList}
              → Path
                  (Result StoreError (Option ValidatedFollowList) × World)
                  (ok o, x)
                  (ok (some v), u)
              → o ≡ some v
          found x q = cc
