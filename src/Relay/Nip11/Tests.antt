-- ===== src/Relay/Nip11/Tests.antt =====
-- Runs of the limits and the cache, and the theorems on them at concrete inputs.
use Prim.Native.String.{String}
use wotcrawler.Prelude.{◌*◌, ◌≡◌, refl, [], ◌∷◌, none, some, pos, negsuc}
use wotcrawler.Prelude.Maps.{lookup, insert, string_eq}
use wotcrawler.Prelude.Results.{ok, err}
use wotcrawler.Errors.{nip11_fetch}
use wotcrawler.Relay.RateLimit.{codes}
use wotcrawler.Relay.Nip11.{
  RelayLimits, FromJson, Response, chunk, body_end, broken, fetch_limits, get_or_fetch,
  cache_insert, cache_get, nip11_http_url,
}
use wotcrawler.Relay.Nip11.Bounds.{
  IsUsable, AreUsable, limits_of_body, body_of, fetch_limits-eq, get_or_fetch-IsUsable,
}

program : Unit {0}
unfolding fetch_limits get_or_fetch cache_insert cache_get nip11_http_url lookup insert
program = tt

abbrev relay : String
relay = "wss://relay.example"

-- A parser that takes the first byte for `max_limit`, and a body with none for no document.
abbrev from_json : FromJson
from_json [] = none
from_json (b ∷ bs) = some (record {
  limitation = some (record {
    max_limit = some (pos (1000 * b));
    max_subscriptions = some (negsuc 0);
    max_filters = none;
  });
})

abbrev response : Response
response = chunk (7 ∷ []) (chunk (1 ∷ 2 ∷ []) body_end)

abbrev announced : RelayLimits
announced = record { max_limit = 5000; max_subscriptions = 20; max_filters = 10 }

fetch_limits_run : fetch_limits from_json relay response ≡ ok announced
unfolding program
fetch_limits_run = refl

fetch_limits_broken : fetch_limits from_json relay (chunk (7 ∷ []) broken) ≡ err (nip11_fetch relay)
unfolding program
fetch_limits_broken = refl

nip11_http_url_run : nip11_http_url (codes "wss://relay.example") ≡ codes "https://relay.example"
unfolding program
nip11_http_url_run = refl

fetch_limits-eq_example :
    fetch_limits from_json relay response ≡ limits_of_body from_json relay (body_of response)
fetch_limits-eq_example = fetch_limits-eq from_json relay response

empty-AreUsable : AreUsable from_json []
unfolding program
empty-AreUsable relay_url limits h = cc

get_or_fetch-IsUsable_example :
    IsUsable (get_or_fetch from_json [] relay response).0
    × AreUsable from_json (get_or_fetch from_json [] relay response).1
get_or_fetch-IsUsable_example = get_or_fetch-IsUsable from_json [] relay response empty-AreUsable
