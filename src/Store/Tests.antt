-- ===== src/Store/Tests.antt =====
-- A relay list that replaces an older one, and the theorem on it at concrete inputs.
use Prim.Native.String.{String}
use wotcrawler.Prelude.{◌≡◌, ◌↔◌, refl, true, false, List, [], ◌∷◌, pos, Member, some}
use wotcrawler.Prelude.Maps.{lookup, string_eq}
use wotcrawler.Prelude.Results.{ok}
use wotcrawler.Ingest.RelayList.{Marker, read, write, both}
use wotcrawler.Store.{World}
use wotcrawler.Store.Pubkeys.{new_row}
use wotcrawler.Store.Relays.{apply_relay_list, lookup_write_relays, is_write}
use wotcrawler.Store.RoundTrip.{apply_relay_list-lookup}

abbrev world : World
world = record {
  db = record {
    pubkeys = new_row 1 (7 ∷ []) ∷ [];
    follows = [];
    pubkey_relays =
        record { pubkey_id = 1; url = "wss://old"; marker = both; seen_at = pos 3 } ∷ [];
    next_id = 2;
  };
  left = 10;
  acts = false;
}

abbrev relays : List (String × Marker)
relays = ("wss://a", read) ∷ ("wss://b", both) ∷ ("wss://a", write) ∷ []

abbrev second : String
second = "wss://b"

abbrev found : List String
found = second ∷ []

program : Unit {0}
unfolding apply_relay_list lookup_write_relays lookup
program = tt

abbrev written : World
unfolding program
written = (apply_relay_list 1 relays (pos 9) world).1

write_relays : (lookup_write_relays 1 written).0 ≡ ok found
unfolding program
write_relays = refl

apply_relay_list-lookup_example :
    Member second found ↔ ((m : Marker) × (lookup second relays ≡ some m) × (is_write m ≡ true))
unfolding program
apply_relay_list-lookup_example =
    apply_relay_list-lookup 1 relays (pos 9) world written (lookup_write_relays 1 written).1 found
      refl refl second
