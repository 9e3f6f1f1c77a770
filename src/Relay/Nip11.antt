-- ===== src/Relay/Nip11.antt =====
-- src/relay/nip11.rs: the limits that a relay announces, the bound on the document that announces
-- them, and the cache of limits per relay. The HTTP client and the JSON parser are third-party: a
-- response is a list of chunks, ended or broken off, and the parser is an argument.
use Prim.Native.String.{String}
use wotcrawler.Prelude.{
  ℕ, ◌+◌, ◌*◌, min, Bool, true, false, List, [], ◌∷◌, ◌++◌, Option, none, some, ltb, if◌then◌else◌,
  length, ℤ, pos, negsuc, ◌==◌,
}
use wotcrawler.Prelude.Maps.{lookup, insert, string_eq}
use wotcrawler.Prelude.Results.{Result, ok, err, ◌>>=◌}
use wotcrawler.Relay.RateLimit.{codes}
use wotcrawler.Errors.{RelayError, nip11_fetch}
pub mod Bounds
pub mod Tests

abbrev pub max_nip11_bytes : ℕ
max_nip11_bytes = 64 * 1024

abbrev pub default_max_limit : ℕ
default_max_limit = 500

abbrev pub default_max_subscriptions : ℕ
default_max_subscriptions = 20

abbrev pub default_max_filters : ℕ
default_max_filters = 10

abbrev pub max_advertised_limit : ℕ
max_advertised_limit = 5000

pub record RelayLimits : Type 0 where
  pub max_limit : ℕ
  pub max_subscriptions : ℕ
  pub max_filters : ℕ

unfoldable pub defaults : RelayLimits
defaults = record {
  max_limit = default_max_limit;
  max_subscriptions = default_max_subscriptions;
  max_filters = default_max_filters;
}

-- The fields that are read of a parsed document, an `i32` each.
pub record Limitation : Type 0 where
  pub max_limit : Option ℤ
  pub max_subscriptions : Option ℤ
  pub max_filters : Option ℤ

pub record RelayInformationDocument : Type 0 where
  pub limitation : Option Limitation

unfoldable pub clamp_limit : Option ℤ → ℕ → ℕ
clamp_limit none default = default
clamp_limit (some (pos n)) default = if ltb 0 n then n else default
clamp_limit (some (negsuc n)) default = default

unfoldable pub clamp_max_limit : Option ℤ → ℕ
unfolding clamp_limit
clamp_max_limit advertised = min (clamp_limit advertised default_max_limit) max_advertised_limit

unfoldable pub limits_from_doc : RelayInformationDocument → RelayLimits
unfolding defaults clamp_max_limit
limits_from_doc doc = elim (doc.limitation) [
  | none ↦ defaults
  | some lim ↦ record {
    max_limit = clamp_max_limit lim.max_limit;
    max_subscriptions = clamp_limit lim.max_subscriptions default_max_subscriptions;
    max_filters = clamp_limit lim.max_filters default_max_filters;
  }
]

-- What the JSON parser makes of a body, after the lossy decoding to text.
abbrev pub FromJson : Type 0
FromJson = List ℕ → Option RelayInformationDocument

unfoldable pub limits_from_json : FromJson → List ℕ → Result RelayError RelayLimits
unfolding limits_from_doc
limits_from_json from_json body = elim (from_json body) [
  | none ↦ err (nip11_fetch "<json>")
  | some doc ↦ ok (limits_from_doc doc)
]

unfoldable pub limits_from_bytes : FromJson → String → List ℕ → Result RelayError RelayLimits
unfolding limits_from_json
limits_from_bytes from_json relay_url body =
    if ltb max_nip11_bytes (length body)
    then err (nip11_fetch relay_url)
    else limits_from_json from_json body

-- The outcome of a request: no response, or chunks followed by the end of the body or by an error.
pub data Response : Type 0 where
  unreachable_host : Response
  chunk : List ℕ → Response → Response
  body_end broken : Response

-- The loop that reads the body, and the bytes that it holds in the end.
unfoldable pub read_body : String → List ℕ → Response → Result RelayError (List ℕ)
read_body relay_url body unreachable_host = err (nip11_fetch relay_url)
read_body relay_url body broken = err (nip11_fetch relay_url)
read_body relay_url body body_end = ok body
read_body relay_url body (chunk bytes rest) =
    let more = read_body relay_url (body ++ bytes) rest in
    if ltb max_nip11_bytes (length body + length bytes) then err (nip11_fetch relay_url) else more

unfoldable pub fetch_limits : FromJson → String → Response → Result RelayError RelayLimits
unfolding read_body limits_from_bytes
fetch_limits from_json relay_url response = elim (read_body relay_url [] response) [
  | err e ↦ err e
  | ok body ↦ elim (limits_from_bytes from_json relay_url body) [
    | ok limits ↦ ok limits
    | err _ ↦ err (nip11_fetch relay_url)
  ]
]

-- The cache, as the table of its entries.
abbrev pub LimitCache : Type 0
LimitCache = List (String × RelayLimits)

-- `unwrap_or_else(|_| default)`.
abbrev pub unwrap_or : Result RelayError RelayLimits → RelayLimits → RelayLimits
unwrap_or (ok limits) default = limits
unwrap_or (err _) default = default

-- The limits, the cache afterwards, and whether the relay was asked. `response` is what the relay
-- answers if it is asked.
unfoldable pub get_or_fetch :
    FromJson → LimitCache → String → Response → RelayLimits × LimitCache × Bool
unfolding fetch_limits
get_or_fetch from_json cache relay_url response = elim (lookup relay_url cache) [
  | some limits ↦ (limits, cache, false)
  | none ↦
      let limits = unwrap_or (fetch_limits from_json relay_url response) defaults in
      (limits, insert relay_url limits cache, true)
]

unfoldable pub cache_insert : LimitCache → String → RelayLimits → Option RelayLimits × LimitCache
cache_insert cache relay_url limits = (lookup relay_url cache, insert relay_url limits cache)

unfoldable pub cache_get : LimitCache → String → Option RelayLimits
cache_get cache relay_url = lookup relay_url cache

-- `strip_prefix`, on lists of code points.
unfoldable pub strip_prefix : List ℕ → List ℕ → Option (List ℕ)
strip_prefix [] s = some s
strip_prefix (c ∷ p) [] = none
strip_prefix (c ∷ p) (d ∷ s) = let rest = strip_prefix p s in if c == d then rest else none

unfoldable pub nip11_http_url : List ℕ → List ℕ
unfolding strip_prefix
nip11_http_url relay_url = elim (strip_prefix (codes "wss://") relay_url) [
  | some rest ↦ codes "https://" ++ rest
  | none ↦ elim (strip_prefix (codes "ws://") relay_url) [
    | some rest ↦ codes "http://" ++ rest
    | none ↦ relay_url
  ]
]
