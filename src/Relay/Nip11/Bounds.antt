-- ===== src/Relay/Nip11/Bounds.antt =====
-- src/relay/nip11.rs: the bounds on the limits and on the body, and the cache.
use Prim.Native.String.{String}
use wotcrawler.Prelude.{
  ℕ, ◌+◌, ◌≤◌, ◌<◌, ◌≡◌, inl, inr, refl, true, false, List, [], ◌++◌, Option, none, some, ltb,
  if◌then◌else◌, length, ℤ, pos, negsuc, arith, Option-cases, Bool-cases, append-nil, append_assoc,
  length-append, sym, subst,
}
use wotcrawler.Prelude.Maps.{lookup, insert, string_eq, lookup-insert, lookup-insert_self}
use wotcrawler.Prelude.Results.{Result, ok, err}
use wotcrawler.Errors.{RelayError, nip11_fetch}
use wotcrawler.Relay.Nip11.{
  max_nip11_bytes, max_advertised_limit, RelayLimits, RelayInformationDocument, clamp_limit,
  limits_from_doc, defaults, FromJson, limits_from_json, limits_from_bytes, Response, chunk,
  body_end, unreachable_host, broken, read_body, fetch_limits, LimitCache, get_or_fetch, cache_get,
  unwrap_or,
}

-- Limits that the planner can use: a request for at least one event and at most 5000 of them, and
-- at least one subscription and one filter.
pub record IsUsable (l : RelayLimits) : Type 0 where
  pub some_events : 0 < l.max_limit
  pub bounded : l.max_limit ≤ max_advertised_limit
  pub some_subscriptions : 0 < l.max_subscriptions
  pub some_filters : 0 < l.max_filters

clamp_limit-positive :
    (advertised : Option ℤ) (default : ℕ) → 0 < default → 0 < clamp_limit advertised default
unfolding clamp_limit
clamp_limit-positive none default p = p
clamp_limit-positive (some (pos n)) default p = ground arith
clamp_limit-positive (some (negsuc n)) default p = p

defaults-IsUsable : IsUsable defaults
unfolding defaults
defaults-IsUsable = record {
  some_events = omega arith;
  bounded = omega arith;
  some_subscriptions = omega arith;
  some_filters = omega arith;
}

limits_from_doc-IsUsable : (doc : RelayInformationDocument) → IsUsable (limits_from_doc doc)
unfolding limits_from_doc
limits_from_doc-IsUsable doc = elim (Option-cases doc.limitation) [
  | inl e ↦ rw (e, limits_from_doc) defaults-IsUsable
  | inr (lim, e) ↦
      rw (e, limits_from_doc)
        (record {
          some_events = let p = clamp_limit-positive lim.max_limit 500 (omega arith) in omega arith;
          bounded = omega arith;
          some_subscriptions = clamp_limit-positive lim.max_subscriptions 20 (omega arith);
          some_filters = clamp_limit-positive lim.max_filters 10 (omega arith);
        })
]

-- The body that a response carries, unless it is broken off.
abbrev pub body_of : Response → Option (List ℕ)
body_of unreachable_host = none
body_of broken = none
body_of body_end = some []
body_of (chunk bytes rest) = elim (body_of rest) [ none ↦ none | some more ↦ some (bytes ++ more) ]

-- What the loop makes of a response when it already holds `body`.
abbrev whole : String → List ℕ → Option (List ℕ) → Result RelayError (List ℕ)
whole relay_url body none = err (nip11_fetch relay_url)
whole relay_url body (some rest) =
    if ltb max_nip11_bytes (length (body ++ rest))
    then err (nip11_fetch relay_url)
    else ok (body ++ rest)

whole-over :
    (relay_url : String) (body : List ℕ) (rest : Option (List ℕ))
    → max_nip11_bytes < length body
    → whole relay_url body rest ≡ err (nip11_fetch relay_url)
whole-over relay_url body none over = refl
whole-over relay_url body (some rest) over = ground (arith, length-append body rest)

whole-chunk :
    (relay_url : String) (body bytes : List ℕ) (rest : Option (List ℕ))
    → whole relay_url (body ++ bytes) rest
      ≡ whole relay_url body (elim rest [ none ↦ none | some more ↦ some (bytes ++ more) ])
whole-chunk relay_url body bytes none = refl
whole-chunk relay_url body bytes (some rest) = rw (append_assoc body bytes rest)

read_body-eq :
    (relay_url : String) (body : List ℕ) (response : Response)
    → length body ≤ max_nip11_bytes
    → read_body relay_url body response ≡ whole relay_url body (body_of response)
unfolding read_body
read_body-eq relay_url body unreachable_host small = refl
read_body-eq relay_url body broken small = refl
read_body-eq relay_url body body_end small = rw (append-nil) (ground arith)
read_body-eq relay_url body (chunk bytes rest) small =
    elim (Bool-cases (ltb max_nip11_bytes (length body + length bytes))) [
      | inl over ↦
          rw (over, sym (whole-chunk relay_url body bytes (body_of rest)))
            (sym (
              whole-over relay_url (body ++ bytes) (body_of rest)
                (ground (arith, length-append body bytes))))
      | inr fits ↦
          rw (fits, sym (whole-chunk relay_url body bytes (body_of rest)))
            (read_body-eq relay_url (body ++ bytes) rest (ground (arith, length-append body bytes)))
    ]

some_inj : {A : Type 0} {a b : A} → some a ≡ some b → a ≡ b
some_inj h = cc

module _ (from_json : FromJson) where
  -- The limits that a whole body gives.
  abbrev pub limits_of_body : String → Option (List ℕ) → Result RelayError RelayLimits
  limits_of_body relay_url none = err (nip11_fetch relay_url)
  limits_of_body relay_url (some body) =
      if ltb max_nip11_bytes (length body)
      then err (nip11_fetch relay_url)
      else elim (from_json body) [
        | none ↦ err (nip11_fetch relay_url)
        | some doc ↦ ok (limits_from_doc doc)
      ]

  -- `map_err` to an error that names the relay.
  abbrev relabel : String → Result RelayError RelayLimits → Result RelayError RelayLimits
  relabel relay_url (ok limits) = ok limits
  relabel relay_url (err _) = err (nip11_fetch relay_url)

  relabel-eq :
      (relay_url : String) (body : List ℕ)
      → relabel relay_url (limits_from_bytes from_json relay_url body)
        ≡ limits_of_body relay_url (some body)
  unfolding limits_from_bytes limits_from_json
  relabel-eq relay_url body = elim (Bool-cases (ltb max_nip11_bytes (length body))) [
    | inl over ↦ rw over refl
    | inr fits ↦ rw fits (elim (Option-cases (from_json body)) [
      | inl f ↦ rw (limits_from_json, f) refl
      | inr (doc, f) ↦ rw (limits_from_json, f) refl
    ])
  ]

  parse-eq :
      (relay_url : String) (body : Option (List ℕ))
      → elim (whole relay_url [] body) [
        | err e ↦ err e
        | ok bytes ↦ elim (limits_from_bytes from_json relay_url bytes) [
          | ok limits ↦ ok limits
          | err _ ↦ err (nip11_fetch relay_url)
        ]
      ]
        ≡ limits_of_body relay_url body
  parse-eq relay_url none = refl
  parse-eq relay_url (some body) = elim (Bool-cases (ltb max_nip11_bytes (length body))) [
    | inl over ↦ rw over refl
    | inr fits ↦ let h = relabel-eq relay_url body in rw fits (rw fits at h)
  ]

  -- However the relay cuts its document into chunks: the limits are those of the whole body if it
  -- ends, is at most 65536 bytes long and parses, and are an error otherwise.
  pub fetch_limits-eq :
      (relay_url : String) (response : Response)
      → fetch_limits from_json relay_url response ≡ limits_of_body relay_url (body_of response)
  unfolding fetch_limits
  fetch_limits-eq relay_url response =
      rw (fetch_limits, read_body-eq relay_url [] response (omega arith))
        (parse-eq relay_url (body_of response))

  -- Limits that the cache holds are usable.
  abbrev pub AreUsable : LimitCache → Type 0
  AreUsable cache =
      (relay_url : String) (limits : RelayLimits)
      → cache_get cache relay_url ≡ some limits
      → IsUsable limits

  body-IsUsable :
      (relay_url : String) (body : Option (List ℕ))
      → IsUsable (unwrap_or (limits_of_body relay_url body) defaults)
  body-IsUsable relay_url none = defaults-IsUsable
  body-IsUsable relay_url (some body) = elim (Bool-cases (ltb max_nip11_bytes (length body))) [
    | inl over ↦ rw over defaults-IsUsable
    | inr fits ↦ elim (Option-cases (from_json body)) [
      | inl f ↦ rw (fits, f) defaults-IsUsable
      | inr (doc, f) ↦ rw (fits, f) (limits_from_doc-IsUsable doc)
    ]
  ]

  fetched-IsUsable :
      (relay_url : String) (response : Response)
      → IsUsable (unwrap_or (fetch_limits from_json relay_url response) defaults)
  fetched-IsUsable relay_url response =
      rw (fetch_limits-eq relay_url response) (body-IsUsable relay_url (body_of response))

  get_or_fetch-hit :
      (cache : LimitCache) (relay_url : String) (response : Response) (limits : RelayLimits)
      → lookup relay_url cache ≡ some limits
      → get_or_fetch from_json cache relay_url response ≡ (limits, cache, false)
  unfolding get_or_fetch
  get_or_fetch-hit cache relay_url response limits e = rw (e, get_or_fetch)

  get_or_fetch-miss :
      (cache : LimitCache) (relay_url : String) (response : Response)
      → lookup relay_url cache ≡ none
      → let limits = unwrap_or (fetch_limits from_json relay_url response) defaults in
        get_or_fetch from_json cache relay_url response
        ≡ (limits, insert relay_url limits cache, true)
  unfolding get_or_fetch
  get_or_fetch-miss cache relay_url response e = rw (e, get_or_fetch)

  -- If all limits in the cache are usable, then whatever the relay answers, the limits returned are
  -- usable, and so are all limits in the cache afterwards.
  pub get_or_fetch-IsUsable :
      (cache : LimitCache) (relay_url : String) (response : Response)
      → AreUsable cache
      → IsUsable (get_or_fetch from_json cache relay_url response).0
        × AreUsable (get_or_fetch from_json cache relay_url response).1
  unfolding cache_get
  get_or_fetch-IsUsable cache relay_url response usable =
      elim (Option-cases (lookup relay_url cache)) [
        | inr (limits, e) ↦
            rw (get_or_fetch-hit cache relay_url response limits e)
              (usable relay_url limits e, usable)
        | inl e ↦ rw (get_or_fetch-miss cache relay_url response e) (
          fetched-IsUsable relay_url response,
          λ j limits h. elim (Bool-cases (string_eq.beq relay_url j)) [
            | inl s ↦
                let same : unwrap_or (fetch_limits from_json relay_url response) defaults ≡ limits =
                  some_inj (rw (lookup-insert, s) at h) in
                subst IsUsable same (fetched-IsUsable relay_url response)
            | inr s ↦ usable j limits (rw (lookup-insert, s) at h)
          ],
        )
      ]

  -- Once the limits of a relay were asked for, they stay: a second call returns them without a
  -- request and without a change to the cache, whatever the relay would answer, and no other
  -- relay's entry was changed by the first.
  pub get_or_fetch_once :
      (cache : LimitCache) (relay_url : String) (response again : Response)
      → let (limits, cached, asked) = get_or_fetch from_json cache relay_url response in
        (get_or_fetch from_json cached relay_url again ≡ (limits, cached, false))
        × ((j : String)
            → string_eq.beq relay_url j ≡ false
            → cache_get cached j ≡ cache_get cache j)
  unfolding cache_get
  get_or_fetch_once cache relay_url response again = elim (Option-cases (lookup relay_url cache)) [
    | inr (limits, e) ↦
        rw (get_or_fetch-hit cache relay_url response limits e)
          (get_or_fetch-hit cache relay_url again limits e, λ j s. refl)
    | inl e ↦
        let limits = unwrap_or (fetch_limits from_json relay_url response) defaults in
        rw (get_or_fetch-miss cache relay_url response e) (
          get_or_fetch-hit (insert relay_url limits cache) relay_url again limits
              (lookup-insert_self relay_url limits cache),
          λ j s. rw (lookup-insert, s) refl,
        )
  ]
