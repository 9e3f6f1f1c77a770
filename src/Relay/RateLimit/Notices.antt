-- ===== src/Relay/RateLimit/Notices.antt =====
-- src/relay/rate_limit.rs: how notices are read, and how they escalate.
use Prim.Native.String.{String}
use wotcrawler.Prelude.{
  inl, inr, ℕ, zero, suc, ◌+◌, ◌-◌, ◌^◌, ◌≤◌, ◌<◌, min, ◌≡◌, refl, ◌∙◌, false, List, [], ◌∷◌, ◌++◌,
  some, arith, Bool-cases, if◌then◌else◌,
}
use wotcrawler.Prelude.Maps.{lookup-insert, lookup-remove, string_eq, beq_refl}
use wotcrawler.Relay.RateLimit.{
  rate_limited, blocked, before_colon, classify_notice, RateLimiterRegistry, failure_count,
  record_notice, reset, backoff_delay,
}

before_colon-append :
    (prefix rest : List ℕ) → before_colon (prefix ++ b':' ∷ rest) ≡ before_colon prefix
unfolding before_colon
before_colon-append [] rest = refl
before_colon-append (c ∷ cs) rest = ground (arith, before_colon-append cs rest)

-- What follows the first colon of a message does not matter to its class.
pub classify_notice_prefix :
    (prefix rest : List ℕ) → classify_notice (prefix ++ b':' ∷ rest) ≡ classify_notice prefix
unfolding classify_notice
classify_notice_prefix prefix rest = rw (before_colon-append prefix rest)

module _ (draw : ℕ → ℕ) where
  -- The state after `n` notices with the text `message`.
  abbrev pub notices : ℕ → RateLimiterRegistry → String → List ℕ → RateLimiterRegistry
  notices zero r relay_url message = r
  notices (suc n) r relay_url message =
      (record_notice draw (notices n r relay_url message) relay_url message).0

  pub record_notice-count :
      (r : RateLimiterRegistry) (relay_url : String) (message : List ℕ) (j : String)
      → classify_notice message ≡ rate_limited
      → failure_count (record_notice draw r relay_url message).0 j ≡ (
          if string_eq.beq relay_url j
          then min (failure_count r relay_url + 1) (2 ^ 32 - 1)
          else failure_count r j)
  unfolding record_notice failure_count
  record_notice-count r relay_url message j h = elim (Bool-cases (string_eq.beq relay_url j)) [
    | inl e ↦ rw (h, record_notice, lookup-insert, e) refl
    | inr e ↦ rw (h, record_notice, lookup-insert, e) refl
  ]

  -- A relay that blocks is not escalated: the caller stops instead.
  pub record_notice-blocked :
      (r : RateLimiterRegistry) (relay_url : String) (message : List ℕ)
      → classify_notice message ≡ blocked
      → (record_notice draw r relay_url message).0 ≡ r
  unfolding record_notice
  record_notice-blocked r relay_url message h = rw (record_notice, h) refl

  record_notice-delay :
      (r : RateLimiterRegistry) (relay_url : String) (message : List ℕ)
      → classify_notice message ≡ rate_limited
      → (record_notice draw r relay_url message).1
        ≡ some
            (backoff_delay draw (min (failure_count r relay_url + 1) (2 ^ 32 - 1) - 1) r.base r.cap)
  unfolding record_notice
  record_notice-delay r relay_url message h = rw (h, record_notice)

  record_notice-params :
      (r : RateLimiterRegistry) (relay_url : String) (message : List ℕ)
      → classify_notice message ≡ rate_limited
      → ((record_notice draw r relay_url message).0.base ≡ r.base)
        × ((record_notice draw r relay_url message).0.cap ≡ r.cap)
  unfolding record_notice
  record_notice-params r relay_url message h = (rw (h, record_notice), rw (h, record_notice))

  notices-params :
      (n : ℕ) (r : RateLimiterRegistry) (relay_url : String) (message : List ℕ)
      → classify_notice message ≡ rate_limited
      → ((notices n r relay_url message).base ≡ r.base)
        × ((notices n r relay_url message).cap ≡ r.cap)
  notices-params zero r relay_url message h = (refl, refl)
  notices-params (suc n) r relay_url message h =
      let step = record_notice-params (notices n r relay_url message) relay_url message h in
      let ih = notices-params n r relay_url message h in (step.0 ∙ ih.0, step.1 ∙ ih.1)

  notices-count :
      (n : ℕ) (r : RateLimiterRegistry) (relay_url : String) (message : List ℕ)
      → classify_notice message ≡ rate_limited
      → failure_count r relay_url ≤ 2 ^ 32 - 1
      → failure_count (notices n r relay_url message) relay_url
        ≡ min (failure_count r relay_url + n) (2 ^ 32 - 1)
  notices-count zero r relay_url message h small = omega arith
  notices-count (suc n) r relay_url message h small =
      let ih = notices-count n r relay_url message h small in
      rw
        (
          record_notice-count (notices n r relay_url message) relay_url message relay_url h,
          beq_refl relay_url,
          ih,
        )
        (omega arith)

  notices-others :
      (n : ℕ) (r : RateLimiterRegistry) (relay_url : String) (message : List ℕ) (j : String)
      → classify_notice message ≡ rate_limited
      → string_eq.beq relay_url j ≡ false
      → failure_count (notices n r relay_url message) j ≡ failure_count r j
  notices-others zero r relay_url message j h differ = refl
  notices-others (suc n) r relay_url message j h differ =
      rw (record_notice-count (notices n r relay_url message) relay_url message j h, differ)
        (notices-others n r relay_url message j h differ)

  failure_count-reset :
      (r : RateLimiterRegistry) (relay_url j : String)
      → failure_count (reset r relay_url) j
        ≡ (if string_eq.beq relay_url j then 0 else failure_count r j)
  unfolding failure_count reset
  failure_count-reset r relay_url j = elim (Bool-cases (string_eq.beq relay_url j)) [
    | inl e ↦ rw (lookup-remove, e) refl
    | inr e ↦ rw (lookup-remove, e) refl
  ]

  -- Notices that classify as rate limiting escalate: the one that follows `n` of them after a reset
  -- of the relay sleeps for the delay of `n` failures (for `n` below 2^32 - 1), and `n + 1` are
  -- counted after it. The count of no other relay changes.
  pub record_notice_escalates :
      (r : RateLimiterRegistry) (relay_url : String) (message : List ℕ) (n : ℕ)
      → classify_notice message ≡ rate_limited
      → n < 2 ^ 32 - 1
      → ((record_notice draw (notices n (reset r relay_url) relay_url message) relay_url message).1
          ≡ some (backoff_delay draw n r.base r.cap))
        × (failure_count (notices (suc n) (reset r relay_url) relay_url message) relay_url ≡ n + 1)
        × ((j : String)
            → string_eq.beq relay_url j ≡ false
            → failure_count (notices (suc n) (reset r relay_url) relay_url message) j
              ≡ failure_count r j)
  unfolding reset
  record_notice_escalates r relay_url message n h small =
      let start : failure_count (reset r relay_url) relay_url ≡ 0 =
        rw (failure_count-reset r relay_url relay_url, beq_refl relay_url) refl in
      let count = notices-count n (reset r relay_url) relay_url message h (omega arith) in
      let next = notices-count (suc n) (reset r relay_url) relay_url message h (omega arith) in
      let same = notices-params n (reset r relay_url) relay_url message h in
      let as_n : min (failure_count (notices n (reset r relay_url) relay_url message) relay_url + 1)
              (2 ^ 32 - 1)
            - 1
          ≡ n =
        omega arith in
      (
        rw
            (
              record_notice-delay (notices n (reset r relay_url) relay_url message) relay_url
                  message h,
              as_n,
              same.0,
              same.1,
            )
            refl,
        omega arith,
        λ j differ.
            notices-others (suc n) (reset r relay_url) relay_url message j h differ
            ∙ rw (failure_count-reset r relay_url j, differ) refl,
      )
