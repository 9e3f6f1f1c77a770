-- ===== src/Ingest/Latest.antt =====
-- src/ingest/mod.rs: the winner of a group is the latest accepted event of the author.
use wotcrawler.Prelude.{
  ℕ, ◌≤◌, ◌<◌, ◌≡◌, ◌⊎◌, ◌∙◌, subst, true, List, some, Member, All-member, arith,
}
use wotcrawler.External.{External, BindsId}
use wotcrawler.Ingest.Verify.{accept}
use wotcrawler.Ingest.Replaceable.{cutoff, pick_winner}
use wotcrawler.Ingest.Gate.{empty_gate, gate}
use wotcrawler.Ingest.Groups.{Grouped, Grouped_of_member}
use wotcrawler.Ingest.Gathered.{Gathers, gate-empty-Gathers}
use wotcrawler.Ingest.Winner.{Beats, IsWinner, pick_winner-IsWinner}

module _ (ext : External) (events : List ext.Event) (want_kind : ℕ) (requested : List ℕ)
    (now future_clamp_secs : ℕ) where
  open ext use {Event, pubkey, created_at}

  -- `w` was accepted, is not dated beyond the clamp, and wins against every accepted event of its
  -- author that is not dated beyond the clamp.
  pub record IsLatest (w : Event) : Type 0 where
    pub arrived : Member w events
    pub accepted : accept ext w want_kind requested ≡ true
    pub current : created_at w ≤ cutoff now future_clamp_secs
    pub newest :
        (e : Event)
        → Member e events
        → accept ext e want_kind requested ≡ true
        → pubkey e ≡ pubkey w
        → (cutoff now future_clamp_secs < created_at e) ⊎ Beats ext w e

pub accept-verify :
    (ext : External) (e : ext.Event) (want_kind : ℕ) (requested : List ℕ)
    → accept ext e want_kind requested ≡ true
    → ext.verify e ≡ true
unfolding accept
accept-verify ext e want_kind requested h = ground arith

module _ (ext : External) (bound : BindsId ext) (events : List ext.Event) (want_kind : ℕ)
    (requested : List ℕ) (now future_clamp_secs : ℕ) where
  open ext use {Event, pubkey, created_at}

  abbrev Latest : Event → Type 0
  Latest = IsLatest ext events want_kind requested now future_clamp_secs

  abbrev groups : List (ℕ × List Event)
  groups = (gate ext want_kind requested empty_gate events).by_author

  gathers : Gathers ext want_kind requested events (gate ext want_kind requested empty_gate events)
  gathers = gate-empty-Gathers ext want_kind requested events

  -- The winner of a group is the latest event of the group's author.
  pub winner-IsLatest :
      (a : ℕ) (group : List Event) (w : Event)
      → Member (a, group) groups
      → ((x : Event) → Grouped a x groups → Member x group)
      → pick_winner ext group now future_clamp_secs ≡ some w
      → Latest w × (pubkey w ≡ a)
  winner-IsLatest a group w m all e =
      let won : IsWinner ext group (cutoff now future_clamp_secs) (some w) =
        subst (IsWinner ext group (cutoff now future_clamp_secs)) e
          (pick_winner-IsWinner ext group now future_clamp_secs) in
      let at_w = Grouped_of_member a w group groups m won.0 in
      let (listed, ok, author) = gathers.grouped a w at_w in
      (
        record {
          arrived = listed;
          accepted = ok;
          current = won.1;
          newest = λ x mx okx same.
              let (d, same_id, at_d) = gathers.stands_in x mx okx in
              let (_, okd, _) = gathers.grouped (pubkey d) d at_d in
              let vd = accept-verify ext d want_kind requested okd in
              let vx = accept-verify ext x want_kind requested okx in
              let key : pubkey d ≡ a = bound.binds_author d x vd vx same_id ∙ same ∙ author in
              let time = bound.binds_time d x vd vx same_id in
              let in_group = all d (subst (λ k. Grouped k d groups) key at_d) in
              let against =
                All-member (λ y. (cutoff now future_clamp_secs < created_at y) ⊎ Beats ext w y) d
                  group won.2 in_group in
              omega arith;
        },
        author,
      )
