-- ===== src/Daemon/FanOut/Pooled.antt =====
-- src/daemon/mod.rs: the fetches of the fallback ask the client's pool, not the relays that they are
-- given.
use Prim.Native.String.{String}
use wotcrawler.Prelude.{ℕ, ◌+◌, ◌≡◌, List, [], ◌∷◌, ◌++◌, refl, ap, inl, inr, sym, ◌∙◌, subst}
use wotcrawler.Prelude.Results.{Result, ok, err, Result-cases}
use wotcrawler.External.{External}
use wotcrawler.Errors.{RelayError}
use wotcrawler.Relay.Nip11.{FromJson}
use wotcrawler.Relay.Health.{Float}
use wotcrawler.Relay.Fetch.Chunks.{fetch_complete_with_timeout}
use wotcrawler.Relay.Fetch.Labels.{fetch_complete_with_timeout-label}
use wotcrawler.Daemon.FanOut.{
  Shared, Visit, fallback_fetch, fetch_each, fetch_of, limits_of, admitted, semaphore_for,
  want_kind, max_authors_per_req,
}

module _ (ext : External) (float : Float) (from_json : FromJson) (fetch_timeout : ℕ)
    (per_relay_concurrency : ℕ) (visits : ℕ → Visit ext float from_json) (author : ℕ) where
  open ext use {Event}

  abbrev Registries : Type 0
  Registries = Shared ext float from_json

  abbrev each :
      ℕ → List String → List Event → Registries → Result RelayError (List Event) × Registries
  each =
      fetch_each ext float from_json fetch_timeout per_relay_concurrency [] want_kind author visits

  abbrev limit_at : ℕ → String → Registries → ℕ
  limit_at index r s = (limits_of ext float from_json fetch_timeout r (visits index) s).0.max_limit

  abbrev after_turn : ℕ → String → Registries → Registries
  after_turn index r s = admitted ext float from_json fetch_timeout r (visits index) (
      semaphore_for ext float from_json fetch_timeout per_relay_concurrency [] r (record s {
        limit_cache = (limits_of ext float from_json fetch_timeout r (visits index) s).1;
      }))

  -- The limits that the turns of the relays work with.
  unfoldable pub limits_met : ℕ → List String → Registries → List ℕ
  limits_met index [] s = []
  limits_met index (r ∷ rest) s =
      limit_at index r s ∷ limits_met (index + 1) rest (after_turn index r s)

  abbrev asked : ℕ → String → Registries → Result RelayError (List Event)
  asked index r s =
      fetch_of ext float from_json fetch_timeout want_kind (author ∷ [])
        (limits_of ext float from_json fetch_timeout r (visits index) s).0 r (visits index)

  each-ok :
      (index : ℕ) (r : String) (rest : List String) (found events : List Event) (s : Registries)
      → asked index r s ≡ ok events
      → each index (r ∷ rest) found s
        ≡ each (index + 1) rest (found ++ events) (after_turn index r s)
  unfolding fetch_each
  each-ok index r rest found events s q = rw (q, fetch_each) refl

  each-err :
      (index : ℕ) (r : String) (rest : List String) (found : List Event) (s : Registries)
      (e : RelayError)
      → asked index r s ≡ err e
      → (each index (r ∷ rest) found s).0 ≡ err e
  unfolding fetch_each
  each-err index r rest found s e q = rw (q, fetch_each) refl

  -- What a turn gets depends on its relay through the limit only.
  asked-Pooled :
      (index : ℕ) (u w : String) (s t : Registries) (events : List Event)
      → limit_at index u s ≡ limit_at index w t
      → asked index u s ≡ ok events
      → asked index w t ≡ ok events
  asked-Pooled index u w s t events same q =
      let v = visits index in
      fetch_complete_with_timeout-label ext (v.pool want_kind) (v.label u) (v.label w) (author ∷ [])
        (limit_at index w t) max_authors_per_req fetch_timeout v.clock events
        (subst
          (λ m.
            fetch_complete_with_timeout ext (v.pool want_kind) (v.label u) (author ∷ []) m
              max_authors_per_req fetch_timeout v.clock
            ≡ ok events)
          same q)

  err_not_ok :
      {e : RelayError} {out : List Event}
      → Path (Result RelayError (List Event)) (err e) (ok out)
      → ⊥
  err_not_ok q = cc

  each-Pooled :
      (us ws : List String) (index : ℕ) (found out : List Event) (s t : Registries)
      → limits_met index us s ≡ limits_met index ws t
      → (each index us found s).0 ≡ ok out
      → (each index ws found t).0 ≡ ok out
  unfolding limits_met fetch_each
  each-Pooled [] [] index found out s t l h = h
  each-Pooled [] (w ∷ ws) index found out s t l h = cc
  each-Pooled (u ∷ us) [] index found out s t l h = cc
  each-Pooled (u ∷ us) (w ∷ ws) index found out s t l h = elim (Result-cases (asked index u s)) [
    | inr (e, q) ↦ absurd (err_not_ok (sym (each-err index u us found s e q) ∙ h))
    | inl (events, q) ↦
        let (same, rest) = ∷_injective l in
        ap (λ p. p.0) (each-ok index w ws found events t (asked-Pooled index u w s t events same q))
        ∙ each-Pooled us ws (index + 1) (found ++ events) out (after_turn index u s)
            (after_turn index w t) rest
            (sym (ap (λ p. p.0) (each-ok index u us found events s q)) ∙ h)
  ]
    where
      ∷_injective :
          {a b : ℕ} {xs ys : List ℕ} → Path (List ℕ) (a ∷ xs) (b ∷ ys) → (a ≡ b) × (xs ≡ ys)
      ∷_injective p = (cc, cc)

  -- Two lists of write relays that work with the same limits, turn by turn, get the same events: the
  -- pool that is asked is that of the client, whatever the relays.
  pub fallback_fetch-Pooled :
      (us ws : List String) (out : List Event) (s t : Registries)
      → limits_met 0 us s ≡ limits_met 0 ws t
      → (fallback_fetch ext float from_json fetch_timeout per_relay_concurrency visits author us
          s).0
        ≡ ok out
      → (fallback_fetch ext float from_json fetch_timeout per_relay_concurrency visits author ws
          t).0
        ≡ ok out
  unfolding fallback_fetch fetch_each
  fallback_fetch-Pooled us ws out s t l h = each-Pooled us ws 0 [] out s t l h
