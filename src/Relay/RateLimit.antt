-- ===== src/Relay/RateLimit.antt =====
-- src/relay/rate_limit.rs: notices, the backoff schedule and the registry of relays. A duration is
-- a number of nanoseconds. The GCRA limiters and the random generator are third-party: of a limiter
-- only its key is kept, and the draw is an argument. A text is a list of code points where it is
-- taken apart.
use Prim.Native.Char.{code}
use Prim.Native.String.{String}
use wotcrawler.Prelude.{
  ℕ, ◌+◌, ◌-◌, ◌*◌, ◌/◌, ◌%◌, ◌^◌, min, Bool, true, false, ◌||◌, ◌&&◌, List, [], ◌∷◌, Option, none,
  some, ltb, leb, ◌==◌, if◌then◌else◌, length,
}
use wotcrawler.Prelude.Maps.{lookup, insert, remove, string_eq}
use mathlib.Core.List.{reverse}
use mathlib.Core.Option.{get_or}
pub mod Backoff
pub mod Notices
pub mod Tests

abbrev pub second : ℕ
second = 1_000_000_000

abbrev pub default_reqs_per_second : ℕ
default_reqs_per_second = 4

abbrev pub default_backoff_base : ℕ
default_backoff_base = 1 * second

abbrev pub default_backoff_cap : ℕ
default_backoff_cap = 300 * second

pub data NoticeKind : Type 0 where
  rate_limited blocked other : NoticeKind

abbrev pub codes : String → List ℕ
codes String.[] = []
codes (String.◌∷◌ c s) = code c ∷ codes s

-- `char::is_whitespace`: the code points with the property White_Space.
unfoldable pub is_whitespace : ℕ → Bool
is_whitespace c =
    leb 9 c && leb c 13
    || c == 32
    || c == 0x85
    || c == 0xa0
    || c == 0x1680
    || leb 0x2000 c && leb c 0x200a
    || c == 0x2028
    || c == 0x2029
    || c == 0x202f
    || c == 0x205f
    || c == 0x3000

unfoldable pub trim_start : List ℕ → List ℕ
unfolding is_whitespace
trim_start [] = []
trim_start (c ∷ cs) = let rest = trim_start cs in if is_whitespace c then rest else c ∷ cs

unfoldable pub trim : List ℕ → List ℕ
unfolding trim_start
trim text = reverse (trim_start (reverse (trim_start text)))

-- `split(':').next()`.
unfoldable pub before_colon : List ℕ → List ℕ
before_colon [] = []
before_colon (c ∷ cs) = let rest = before_colon cs in if c == b':' then [] else c ∷ rest

abbrev pub text_eq : List ℕ → List ℕ → Bool
text_eq [] [] = true
text_eq [] (y ∷ ys) = false
text_eq (x ∷ xs) [] = false
text_eq (x ∷ xs) (y ∷ ys) = x == y && text_eq xs ys

unfoldable pub classify_notice : List ℕ → NoticeKind
unfolding trim before_colon
classify_notice message =
    let prefix = trim (before_colon message) in
    if text_eq prefix (codes "rate-limited")
    then rate_limited
    else if text_eq prefix (codes "blocked") || text_eq prefix (codes "restricted")
    then blocked
    else other

-- `u128::checked_shl`: bits shifted out at the top are lost without notice.
unfoldable pub checked_shl : ℕ → ℕ → Option ℕ
checked_shl x n = if ltb n 128 then some (x * 2 ^ n % 2 ^ 128) else none

unfoldable pub backoff_delay_unjittered : ℕ → ℕ → ℕ → ℕ
unfolding checked_shl
backoff_delay_unjittered failures base cap =
    if leb 64 failures
    then cap
    else let scaled = min (get_or (checked_shl base failures) (2 ^ 128 - 1)) cap in
      min (min scaled (2 ^ 64 - 1)) cap

-- `draw n` is the number drawn from `0..=n`.
unfoldable pub backoff_delay : (ℕ → ℕ) → ℕ → ℕ → ℕ → ℕ
unfolding backoff_delay_unjittered
backoff_delay draw failures base cap =
    let capped = backoff_delay_unjittered failures base cap in
    let half = capped / 2 in
    let span = capped - half in half + (if span == 0 then 0 else draw (span % 2 ^ 64))

pub record RateLimiterRegistry : Type 0 where
  pub reqs_per_second : ℕ
  pub base : ℕ
  pub cap : ℕ
  pub limiters : List (String × ℕ)
  pub failures : List (String × ℕ)

unfoldable pub with_params : ℕ → ℕ → ℕ → RateLimiterRegistry
with_params reqs_per_second base cap = record {
  reqs_per_second = reqs_per_second;
  base = base;
  cap = cap;
  limiters = [];
  failures = [];
}

unfoldable pub new_registry : RateLimiterRegistry
unfolding with_params
new_registry = with_params default_reqs_per_second default_backoff_base default_backoff_cap

-- The limiter of a relay is made on first use, with the registry's quota, and never removed. The
-- wait for its token is left out.
unfoldable pub acquire : RateLimiterRegistry → String → RateLimiterRegistry
acquire r relay_url = elim (lookup relay_url r.limiters) [
  | some quota ↦ r
  | none ↦ record r { limiters = insert relay_url r.reqs_per_second r.limiters }
]

unfoldable pub failure_count : RateLimiterRegistry → String → ℕ
failure_count r relay_url = get_or (lookup relay_url r.failures) 0

-- The state after a notice, and the delay to sleep.
unfoldable pub record_notice :
    (ℕ → ℕ) → RateLimiterRegistry → String → List ℕ → RateLimiterRegistry × Option ℕ
unfolding failure_count
record_notice draw r relay_url message = elim (classify_notice message) [
  | rate_limited ↦
      let failures = min (failure_count r relay_url + 1) (2 ^ 32 - 1) in
      (
        record r { failures = insert relay_url failures r.failures },
        some (backoff_delay draw (failures - 1) r.base r.cap),
      )
  | blocked ↦ (r, none)
  | other ↦ (r, none)
]

unfoldable pub reset : RateLimiterRegistry → String → RateLimiterRegistry
reset r relay_url = record r { failures = remove relay_url r.failures }

unfoldable pub active_relay_count : RateLimiterRegistry → ℕ
active_relay_count r = length r.limiters

unfoldable pub has_limiter : RateLimiterRegistry → String → Bool
has_limiter r relay_url = elim (lookup relay_url r.limiters) [ some _ ↦ true | none ↦ false ]
