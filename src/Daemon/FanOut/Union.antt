-- ===== src/Daemon/FanOut/Union.antt =====
-- src/daemon/mod.rs: what `fetch_union` returns, in terms of the turns of its relays.
use Prim.Native.String.{String}
use wotcrawler.Prelude.{ℕ, ◌≡◌, false, Bool-cases, List, [], Member, is_empty, ap, subst, inl, inr}
use wotcrawler.Prelude.Results.{Result, ok, err}
use wotcrawler.External.{External}
use wotcrawler.Errors.{RelayError}
use wotcrawler.Relay.Nip11.{FromJson}
use wotcrawler.Relay.Health.{Float, RelayHealthRegistry}
use wotcrawler.Relay.Fetch.Chunks.{record_fetch_health}
use wotcrawler.Crawl.Frontier.{ClaimedAuthor}
use wotcrawler.Daemon.FanOut.{Shared, Visit, authors_of, fetch_union}
use wotcrawler.Daemon.FanOut.Turns.{IsCollected, FailsFirst, Good, run-Good, FailsFirst-recorded}

module _ (ext : External) (float : Float) (from_json : FromJson) (fetch_timeout : ℕ)
    (relays : List String) (threshold : float.F) (visits : ℕ → Visit ext float from_json)
    (batch : List ClaimedAuthor) (s t : Shared ext float from_json) where
  open ext use {Event}

  abbrev authors : List ℕ
  authors = authors_of ext float from_json batch

  abbrev fetched : Result RelayError (List Event) × Shared ext float from_json
  fetched = fetch_union ext float from_json fetch_timeout relays threshold visits batch s

  not_failed :
      {out : List Event} {e : RelayError}
      → Path (Result RelayError (List Event)) (ok out) (err e)
      → ⊥
  not_failed q = cc

  -- The union of a batch with an author, when it is returned, holds what each relay gave that was not
  -- skipped, and nothing else; no relay failed.
  pub fetch_union-IsCollected :
      (out : List Event)
      → is_empty authors ≡ false
      → fetched ≡ (ok out, t)
      → IsCollected ext float from_json fetch_timeout relays threshold visits authors 0 relays [] s
          out t
  unfolding fetch_union
  fetch_union-IsCollected out some_author h =
      subst (Good ext float from_json fetch_timeout relays threshold visits authors 0 relays [] s)
        (rw some_author at h)
        (run-Good ext float from_json fetch_timeout relays threshold visits authors relays 0 [] s)

  -- An error of the fan-out is that of the first turn whose fetch fails; the relays after it are not
  -- asked, and the failure of a relay is what the registry of health has recorded last.
  pub fetch_union-FailsFirst :
      (e : RelayError)
      → fetched ≡ (err e, t)
      → FailsFirst ext float from_json fetch_timeout relays threshold visits authors e t 0 relays s
        × ((r : String) × Member r relays
            × (latency : ℕ) × (h : RelayHealthRegistry float) × (t.health
                ≡ record_fetch_health {A = List Event} float h r latency (err e)))
  unfolding fetch_union
  fetch_union-FailsFirst e h = elim (Bool-cases (is_empty authors)) [
    | inl none_asked ↦ absurd (not_failed (ap (λ p. p.0) (rw none_asked at h)))
    | inr some_author ↦
        let failed : FailsFirst ext float from_json fetch_timeout relays threshold visits authors e
            t 0 relays s =
          subst
            (Good ext float from_json fetch_timeout relays threshold visits authors 0 relays [] s)
            (rw some_author at h)
            (run-Good ext float from_json fetch_timeout relays threshold visits authors relays 0 []
              s) in
        (
          failed,
          FailsFirst-recorded ext float from_json fetch_timeout relays threshold visits authors e t
              0 relays s failed,
        )
  ]
