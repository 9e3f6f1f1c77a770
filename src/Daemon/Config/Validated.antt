-- ===== src/Daemon/Config/Validated.antt =====
-- src/daemon/config.rs: the settings that `validate` accepts.
use wotcrawler.Prelude.{
  ℕ, ◌<◌, ◌≡◌, ◌↔◌, ◌≢◌, refl, sym, subst, Bool, true, false, not, ◌&&◌, List, [], ◌∷◌, ◌++◌,
  Option, none, some, ℤ, pos, negsuc, ltb, is_empty, arith,
}
use wotcrawler.Prelude.Results.{Result, ok, err, ◌>>◌}
use wotcrawler.Relay.RateLimit.{codes, trim}
use wotcrawler.Relay.Health.{Float}
use wotcrawler.Daemon.Config.{
  Config, Refusal, ensure, validate, parses, contains_text, is_positive, is_threshold, is_alpha,
  invalid_anchor_pubkey, no_relays, zero_ttl, no_database_url, not_a_url, zero_concurrency,
  zero_batch_size, zero_reqs_per_second, zero_nip65_max_write_relays, zero_per_relay_concurrency,
  relay_health_threshold_range, health_alpha_range,
}
use wotcrawler.Daemon.Config.Texts.{IsInk, contains_text_iff, trim_iff}

module _ (float : Float) (parse : List ℕ → Option ℕ) where
  open float use {F, of_nat, ge}

  -- The settings that the daemon can start with.
  pub record IsValid (c : Config float) : Type 0 where
    pub anchor : (key : ℕ) × (parse c.anchor_pubkey ≡ some key)
    pub some_relay : c.relays ≢ []
    pub ttl : 0 < c.ttl
    pub some_url : IsInk c.database_url
    pub scheme : (before after : List ℕ) × (c.database_url ≡ before ++ codes "://" ++ after)
    pub concurrency : 0 < c.concurrency
    pub batch_size : (n : ℕ) × (c.batch_size ≡ pos n) × (0 < n)
    pub reqs_per_second : 0 < c.reqs_per_second
    pub nip65_max_write_relays : 0 < c.nip65_max_write_relays
    pub per_relay_concurrency : 0 < c.per_relay_concurrency
    pub threshold_low : ge c.relay_health_threshold (of_nat 0) ≡ true
    pub threshold_high : ge (of_nat 1) c.relay_health_threshold ≡ true
    pub alpha_low : ge c.health_alpha (of_nat 0) ≡ true
    pub alpha_not_zero : ge (of_nat 0) c.health_alpha ≡ false
    pub alpha_high : ge (of_nat 1) c.health_alpha ≡ true

  abbrev Passes : Result Refusal Unit → Type 0
  Passes r = r ≡ ok tt

  Passes-then : (m k : Result Refusal Unit) → Passes (m >> k) ↔ (Passes m × Passes k)
  Passes-then (ok tt) k = (λ h. (refl, h), λ h. h.1)
  Passes-then (err e) k = (λ h. cc, λ h. cc)

  Passes-ensure : (b : Bool) (e : Refusal) → Passes (ensure b e) ↔ (b ≡ true)
  Passes-ensure true e = (λ h. refl, λ h. refl)
  Passes-ensure false e = (λ h. cc, λ h. cc)

  -- One more check at the end.
  one_more :
      {m : Result Refusal Unit} {A B : Type 0} (b : Bool) (e : Refusal)
      → Passes m ↔ A
      → (b ≡ true) ↔ B
      → Passes (m >> ensure b e) ↔ (A × B)
  one_more b e first last = (
    λ h.
        let (p, q) = (Passes-then _ (ensure b e)).0 h in
        (first.0 p, last.0 ((Passes-ensure b e).0 q)),
    λ h. (Passes-then _ (ensure b e)).1 (first.1 h.0, (Passes-ensure b e).1 (last.1 h.1)),
  )

  not_iff : (b : Bool) → (not b ≡ true) ↔ (b ≡ false)
  not_iff true = (λ h. cc, λ h. cc)
  not_iff false = (λ h. refl, λ h. refl)

  parses_iff : (o : Option ℕ) → (parses float o ≡ true) ↔ ((key : ℕ) × (o ≡ some key))
  parses_iff none = (λ h. cc, λ h. cc)
  parses_iff (some key) = (λ h. (key, refl), λ h. refl)

  positive_iff : (n : ℕ) → (ltb 0 n ≡ true) ↔ (0 < n)
  positive_iff n = (λ h. ground arith, λ h. ground arith)

  batch_iff : (z : ℤ) → (is_positive z ≡ true) ↔ ((n : ℕ) × (z ≡ pos n) × (0 < n))
  batch_iff (pos n) = (
    λ h. (n, refl, ground arith),
    λ (m, e, p). (positive_iff n).1 (subst (λ k. 0 < k) (sym (same e)) p),
  )
    where
      same : {m : ℕ} → Path ℤ (pos n) (pos m) → n ≡ m
      same q = cc
  batch_iff (negsuc n) = (λ h. cc, λ h. cc)

  none_iff : (rs : List (List ℕ)) → (not (is_empty rs) ≡ true) ↔ (rs ≢ [])
  none_iff [] = (λ h. cc, λ h. absurd (h refl))
  none_iff (r ∷ rs) = (λ h q. cc, λ h. refl)

  same_iff : (b : Bool) → (b ≡ true) ↔ (b ≡ true)
  same_iff b = (λ h. h, λ h. h)

  and_iff :
      {a b : Bool} {A B : Type 0} → (a ≡ true) ↔ A → (b ≡ true) ↔ B → (a && b ≡ true) ↔ (A × B)
  and_iff {a = true} p q = (λ h. (p.0 refl, q.0 h), λ h. q.1 h.1)
  and_iff {a = false} p q = (λ h. absurd (clash h), λ h. p.1 h.0)
    where
      clash : Path Bool false true → ⊥
      clash h = cc

  then_iff : {A B C : Type 0} → A ↔ B → B ↔ C → A ↔ C
  then_iff p q = (λ a. q.0 (p.0 a), λ c. p.1 (q.1 c))

  -- `validate` accepts the settings exactly if they are valid.
  pub validate-IsValid : (c : Config float) → (validate float parse c ≡ ok tt) ↔ IsValid c
  unfolding validate
  validate-IsValid c =
      then_iff
        (one_more (is_alpha float c.health_alpha) health_alpha_range
          (one_more (is_threshold float c.relay_health_threshold) relay_health_threshold_range
            (one_more (ltb 0 c.per_relay_concurrency) zero_per_relay_concurrency
              (one_more (ltb 0 c.nip65_max_write_relays) zero_nip65_max_write_relays
                (one_more (ltb 0 c.reqs_per_second) zero_reqs_per_second
                  (one_more (is_positive c.batch_size) zero_batch_size
                    (one_more (ltb 0 c.concurrency) zero_concurrency
                      (one_more (contains_text (codes "://") c.database_url) not_a_url
                        (one_more (not (is_empty (trim c.database_url))) no_database_url
                          (one_more (ltb 0 c.ttl) zero_ttl
                            (one_more (not (is_empty c.relays)) no_relays
                              (then_iff
                                (Passes-ensure (parses float (parse c.anchor_pubkey))
                                  invalid_anchor_pubkey)
                                (parses_iff (parse c.anchor_pubkey)))
                              (none_iff c.relays))
                            (positive_iff c.ttl))
                          (then_iff (not_iff (is_empty (trim c.database_url)))
                            (trim_iff c.database_url)))
                        (contains_text_iff _ _ c.database_url))
                      (positive_iff c.concurrency))
                    (batch_iff c.batch_size))
                  (positive_iff c.reqs_per_second))
                (positive_iff c.nip65_max_write_relays))
              (positive_iff c.per_relay_concurrency))
            (and_iff (same_iff _) (same_iff _)))
          (and_iff (and_iff (same_iff _) (not_iff _)) (same_iff _)))
        (
          λ (((((((((((a, r), t), d), u), n), b), q), w), p), (x, y)), ((l, k), h)). record {
            anchor = a;
            some_relay = r;
            ttl = t;
            some_url = d;
            scheme = u;
            concurrency = n;
            batch_size = b;
            reqs_per_second = q;
            nip65_max_write_relays = w;
            per_relay_concurrency = p;
            threshold_low = x;
            threshold_high = y;
            alpha_low = l;
            alpha_not_zero = k;
            alpha_high = h;
          },
          λ v. (
            (
              (
                (
                  (
                    (
                      (((((v.anchor, v.some_relay), v.ttl), v.some_url), v.scheme), v.concurrency),
                      v.batch_size,
                    ),
                    v.reqs_per_second,
                  ),
                  v.nip65_max_write_relays,
                ),
                v.per_relay_concurrency,
              ),
              (v.threshold_low, v.threshold_high),
            ),
            ((v.alpha_low, v.alpha_not_zero), v.alpha_high),
          ),
        )
