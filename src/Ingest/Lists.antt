-- ===== src/Ingest/Lists.antt =====
-- src/ingest/mod.rs: what `ingest_events` emits.
use wotcrawler.Prelude.{
  ℕ, ◌≤◌, ◌<◌, ◌≡◌, refl, sym, ◌∙◌, ap, subst, inl, inr, true, List, [], ◌∷◌, Option, none, some,
  Option-cases, map, Member, IsDistinct, All-member, Member-filter_map, Member-filter_map_of,
  Member-map, Member-map_of, filter_map, arith,
}
use wotcrawler.External.{External, BindsId}
use wotcrawler.Ingest.Verify.{accept}
use wotcrawler.Ingest.Replaceable.{cutoff, pick_winner}
use wotcrawler.Ingest.FollowList.{followee_pubkeys}
use wotcrawler.Ingest.Gate.{
  ValidatedFollowList, empty_gate, gate, from_event, resolve_group, ingest_events,
}
use wotcrawler.Ingest.Groups.{Grouped, keys, Grouped_of_member, group_of, group_unique}
use wotcrawler.Ingest.Gathered.{Gathers, gate-empty-Gathers}
use wotcrawler.Ingest.Latest.{IsLatest, accept-verify, winner-IsLatest}
use wotcrawler.Ingest.Winner.{IsWinner, pick_winner-IsWinner}

-- `v` was made from `w`, and its followees are those extracted from `w`.
abbrev pub IsMadeFrom : (ext : External) → ℕ → ValidatedFollowList → ext.Event → Type 0
IsMadeFrom ext follow_cap v w =
    (followees : List ℕ) × (followee_pubkeys ext w follow_cap ≡ some followees)
    × (v ≡ from_event ext w followees)

module _ (ext : External) (bound : BindsId ext) (events : List ext.Event) (want_kind : ℕ)
    (requested : List ℕ) (now future_clamp_secs follow_cap : ℕ) where
  open ext use {Event, pubkey, created_at}

  abbrev Latest : Event → Type 0
  Latest = IsLatest ext events want_kind requested now future_clamp_secs

  abbrev groups : List (ℕ × List Event)
  groups = (gate ext want_kind requested empty_gate events).by_author

  gathers : Gathers ext want_kind requested events (gate ext want_kind requested empty_gate events)
  gathers = gate-empty-Gathers ext want_kind requested events

  newest_exists :
      (a : ℕ) (group : List Event) (w : Event)
      → Member (a, group) groups
      → ((x : Event) → Grouped a x groups → Member x group)
      → pick_winner ext group now future_clamp_secs ≡ some w
      → Latest w × (pubkey w ≡ a)
  newest_exists = winner-IsLatest ext bound events want_kind requested now future_clamp_secs

  resolve_group-some :
      (a : ℕ) (group : List Event) (v : ValidatedFollowList)
      → resolve_group ext now future_clamp_secs follow_cap (a, group) ≡ some v
      → (w : Event) × (pick_winner ext group now future_clamp_secs ≡ some w)
        × IsMadeFrom ext follow_cap v w
  unfolding resolve_group
  resolve_group-some a group v h =
      elim (Option-cases (pick_winner ext group now future_clamp_secs)) [
        | inl e ↦ absurd (nothing (rw (e, resolve_group) at h))
        | inr (w, e) ↦ elim (Option-cases (followee_pubkeys ext w follow_cap)) [
          | inl f ↦ absurd (nothing (rw (e, f, resolve_group) at h))
          | inr (fs, f) ↦ (w, e, (fs, f, made w fs (rw (e, f, resolve_group) at h)))
        ]
      ]
    where
      nothing : Path (Option ValidatedFollowList) none (some v) → ⊥
      nothing q = cc

      made :
          (w : Event) (fs : List ℕ) → some (from_event ext w fs) ≡ some v → v ≡ from_event ext w fs
      made w fs q = cc

  -- Every list that is emitted was made from the latest event of its author: an event that
  -- arrived, verified, was asked for and is within the clamp, and that no other such event of the
  -- author beats. (The ids of verified events bind their author and time.)
  pub ingest_events-IsLatest :
      (v : ValidatedFollowList)
      → Member v (ingest_events ext events want_kind requested now future_clamp_secs follow_cap)
      → (w : Event) × Latest w × IsMadeFrom ext follow_cap v w
  unfolding ingest_events
  ingest_events-IsLatest v m =
      let ((a, group), listed, e) =
        Member-filter_map (resolve_group ext now future_clamp_secs follow_cap) v groups m in
      let (w, won, made) = resolve_group-some a group v e in
      let won' : IsWinner ext group (cutoff now future_clamp_secs) (some w) =
        subst (IsWinner ext group (cutoff now future_clamp_secs)) won
          (pick_winner-IsWinner ext group now future_clamp_secs) in
      let at_w = Grouped_of_member a w group groups listed won'.0 in
      let (found, at_found, _, all) = group_of a w groups gathers.distinct at_w in
      (
        w,
        (newest_exists a group w listed
            (λ x gx.
              subst (Member x) (group_unique a found group groups gathers.distinct at_found listed)
                (all x gx))
            won).0,
        made,
      )

  verified : (e : Event) → accept ext e want_kind requested ≡ true → ext.verify e ≡ true
  verified e ok = accept-verify ext e want_kind requested ok

  resolve_group-eq :
      (a : ℕ) (group : List Event) (w : Event) (followees : List ℕ)
      → pick_winner ext group now future_clamp_secs ≡ some w
      → followee_pubkeys ext w follow_cap ≡ some followees
      → resolve_group ext now future_clamp_secs follow_cap (a, group)
        ≡ some (from_event ext w followees)
  unfolding resolve_group
  resolve_group-eq a group w followees e f = rw (e, f, resolve_group)

  -- An author with an accepted event within the clamp has a latest event, and its list is emitted
  -- unless the extraction refuses it for its size.
  pub ingest_events_complete :
      (e : Event)
      → Member e events
      → accept ext e want_kind requested ≡ true
      → created_at e ≤ cutoff now future_clamp_secs
      → (w : Event) × Latest w
        × (pubkey w ≡ pubkey e)
        × ((followees : List ℕ)
            → followee_pubkeys ext w follow_cap ≡ some followees
            → Member
                (from_event ext w followees)
                (ingest_events ext events want_kind requested now future_clamp_secs follow_cap))
  unfolding ingest_events
  ingest_events_complete e m ok early =
      let (d, same, at_d) = gathers.stands_in e m ok in
      let (_, okd, _) = gathers.grouped (pubkey d) d at_d in
      let key = bound.binds_author d e (verified d okd) (verified e ok) same in
      let time = bound.binds_time d e (verified d okd) (verified e ok) same in
      let (group, listed, in_group, all) = group_of (pubkey d) d groups gathers.distinct at_d in
      elim (Option-cases (pick_winner ext group now future_clamp_secs)) [
        | inl lost ↦
            let late : IsWinner ext group (cutoff now future_clamp_secs) none =
              subst (IsWinner ext group (cutoff now future_clamp_secs)) lost
                (pick_winner-IsWinner ext group now future_clamp_secs) in
            let beyond =
              All-member (λ x. cutoff now future_clamp_secs < created_at x) d group late in_group in
            absurd (omega arith)
        | inr (w, won) ↦
            let (latest, author) = newest_exists (pubkey d) group w listed all won in
            (
              w,
              latest,
              author ∙ key,
              λ fs f.
                  Member-filter_map_of (resolve_group ext now future_clamp_secs follow_cap)
                    (pubkey d, group) (from_event ext w fs) groups listed
                    (resolve_group-eq (pubkey d) group w fs won f),
            )
      ]

  -- The groups' keys are the authors of what they emit.
  resolve_group-author :
      (a : ℕ) (group : List Event) (v : ValidatedFollowList)
      → Member (a, group) groups
      → resolve_group ext now future_clamp_secs follow_cap (a, group) ≡ some v
      → v.follower_pubkey ≡ a
  unfolding from_event
  resolve_group-author a group v listed e =
      let (w, won, (fs, f, made)) = resolve_group-some a group v e in
      let won' : IsWinner ext group (cutoff now future_clamp_secs) (some w) =
        subst (IsWinner ext group (cutoff now future_clamp_secs)) won
          (pick_winner-IsWinner ext group now future_clamp_secs) in
      let (_, _, author) = gathers.grouped a w (Grouped_of_member a w group groups listed won'.0) in
      ap (λ (u : ValidatedFollowList). u.follower_pubkey) made ∙ author

  emitted-IsDistinct :
      (gs : List (ℕ × List Event))
      → ((p : ℕ × List Event) → Member p gs → Member p groups)
      → IsDistinct (keys gs)
      → IsDistinct (
          map
            (λ u. u.follower_pubkey)
            (filter_map (resolve_group ext now future_clamp_secs follow_cap) gs))
  emitted-IsDistinct [] sub d = tt
  emitted-IsDistinct ((a, group) ∷ gs) sub d =
      let step = resolve_group ext now future_clamp_secs follow_cap in
      let ih = emitted-IsDistinct gs (λ p m. sub p (inr m)) d.1 in
      elim (Option-cases (step (a, group))) [
        | inl e ↦ rw (e, filter_map) ih
        | inr (v, e) ↦
            rw (e, filter_map)
              (
                (λ m.
                    let (u, mu, same) =
                      Member-map (λ (x : ValidatedFollowList). x.follower_pubkey) v.follower_pubkey
                        (filter_map step gs) m in
                    let ((b, other), mb, eb) = Member-filter_map step u gs mu in
                    let author_u = resolve_group-author b other u (sub (b, other) (inr mb)) eb in
                    let author_v = resolve_group-author a group v (sub (a, group) (inl refl)) e in
                    d.0 (
                      subst (λ k. Member k (keys gs)) (sym author_u ∙ sym same ∙ author_v)
                        (Member-map_of (λ (p : ℕ × List Event). p.0) (b, other) gs mb))),
                ih,
              )
      ]

  -- No author is emitted twice.
  pub ingest_events-IsDistinct : IsDistinct (
      map
        (λ v. v.follower_pubkey)
        (ingest_events ext events want_kind requested now future_clamp_secs follow_cap))
  unfolding ingest_events
  ingest_events-IsDistinct = emitted-IsDistinct groups (λ p m. m) gathers.distinct
