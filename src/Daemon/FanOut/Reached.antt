-- ===== src/Daemon/FanOut/Reached.antt =====
-- src/daemon/mod.rs: a union holds what a relay that was asked has of the batch's authors.
use Prim.Native.String.{String}
use wotcrawler.Prelude.{
  ℕ, ◌+◌, ◌≤◌, ◌<◌, ◌≡◌, max, arith, Bool, true, false, List, [], ◌∷◌, ◌++◌, Member, length,
  is_empty, ap, inl, inr, refl, sym, ◌∙◌, Option, none, some,
}
use wotcrawler.Prelude.Results.{Result, ok}
use wotcrawler.External.{External}
use wotcrawler.Errors.{RelayError}
use wotcrawler.Relay.Nip11.{FromJson}
use wotcrawler.Relay.Health.{Float}
use wotcrawler.Relay.Fetch.Authors.{IsFaithful, fetch_complete_with_timeout-Covers}
use wotcrawler.Crawl.Frontier.{ClaimedAuthor}
use wotcrawler.Daemon.FanOut.{
  Shared, Visit, fetch_union, authors_of, want_kind, max_authors_per_req,
}
use wotcrawler.Daemon.FanOut.Turns.{
  after_turns, AllTurns-at, Contributes, routed, limits, outcome, turn-allowed,
}
use wotcrawler.Daemon.FanOut.Union.{fetch_union-IsCollected}

module _ (ext : External) (float : Float) (from_json : FromJson) (fetch_timeout : ℕ)
    (before : List String) (r : String) (after : List String) (threshold : float.F)
    (visits : ℕ → Visit ext float from_json) (batch : List ClaimedAuthor)
    (s : Shared ext float from_json) where
  open ext use {Event, id, pubkey, created_at}

  abbrev relays : List String
  relays = before ++ r ∷ after

  abbrev authors : List ℕ
  authors = authors_of ext float from_json batch

  -- The index of the turn of `r`, and the state in which it starts.
  abbrev pub index : ℕ
  index = 0 + length before

  abbrev pub at_turn : Shared ext float from_json
  at_turn = after_turns ext float from_json fetch_timeout relays threshold visits authors 0 before s

  -- The largest window that the relay is taken to answer.
  abbrev pub cap_of : ℕ
  cap_of =
      max
        (limits ext float from_json fetch_timeout relays threshold visits authors index r
          at_turn).max_limit
        1

  pub cap_positive : 0 < cap_of
  cap_positive =
      positive
        (limits ext float from_json fetch_timeout relays threshold visits authors index r
          at_turn).max_limit
    where
      positive : (n : ℕ) → 0 < max n 1
      positive n = omega arith

  abbrev pub asked : Bool
  asked =
      (routed ext float from_json fetch_timeout relays threshold visits authors index r at_turn).0

  contributed :
      (out : List Event)
      → asked ≡ true
      → Contributes ext float from_json fetch_timeout relays threshold visits authors out index r
          at_turn
      → (events : List Event) × (outcome ext float from_json fetch_timeout relays threshold visits
            authors index r at_turn
          ≡ ok events)
        × ((x : Event) → Member x events → Member x out)
  contributed out a (inl skipped) = absurd (
      not_skipped (
        sym (
          ap (λ p. p.0)
            (turn-allowed ext float from_json fetch_timeout relays threshold visits authors index r
              at_turn a))
        ∙ skipped))
    where
      not_skipped :
          {o : Result RelayError (List Event)}
          → Path (Option (Result RelayError (List Event))) (some o) none
          → ⊥
      not_skipped q = cc
  contributed out a (inr (events, e, all)) = (
    events,
    some_injective (
        sym (
          ap (λ p. p.0)
            (turn-allowed ext float from_json fetch_timeout relays threshold visits authors index r
              at_turn a))
        ∙ e),
    all,
  )
    where
      some_injective :
          {a b : Result RelayError (List Event)}
          → Path (Option (Result RelayError (List Event))) (some a) (some b)
          → a ≡ b
      some_injective q = cc

  -- Let the relay `r` be asked at its turn, the pool give then, before the deadline, what `store` has,
  -- newest first, and ids tell stored events of different times apart. Then a union that is returned
  -- holds, for every stored event of an author of the batch up to a time before the fetch, a stored
  -- event of its id.
  pub fetch_union-Covers :
      (store : List Event) (start : ℕ)
      → asked ≡ true
      → ((a b : Event)
          → Member a store
          → Member b store
          → id a ≡ id b
          → created_at a ≡ created_at b)
      → IsFaithful ext store cap_of fetch_timeout start cap_positive ((visits index).pool want_kind)
      → ((i : ℕ) → start ≤ (visits index).clock i)
      → (out : List Event) (t : Shared ext float from_json)
      → fetch_union ext float from_json fetch_timeout relays threshold visits batch s ≡ (ok out, t)
      → (x : Event) → Member x store
      → Member (pubkey x) authors
      → created_at x ≤ start
      → (y : Event) × Member y out × Member y store × (id y ≡ id x)
  fetch_union-Covers store start a binds faithful later out t h x stored author early =
      let union =
        fetch_union-IsCollected ext float from_json fetch_timeout relays threshold visits batch s t
          out (some_author authors author) h in
      let (events, e, all) = contributed out a (
        AllTurns-at ext float from_json fetch_timeout relays threshold visits authors
          (Contributes ext float from_json fetch_timeout relays threshold visits authors out) before
          0 r after s union.all) in
      let (y, m, own, same) =
        fetch_complete_with_timeout-Covers ext store cap_of fetch_timeout start cap_positive binds
          ((visits index).pool want_kind) faithful ((visits index).label r) authors
          (limits ext float from_json fetch_timeout relays threshold visits authors index r
            at_turn).max_limit
          max_authors_per_req (visits index).clock refl later events e x stored author early in
      (y, all y m, own, same)
    where
      some_author : (xs : List ℕ) → Member (pubkey x) xs → is_empty xs ≡ false
      some_author [] m = absurd m
      some_author (b ∷ xs) m = refl
