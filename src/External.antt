-- ===== src/External.antt =====
-- What the crawler takes from third-party crates: from nostr-sdk an event with its fields, the
-- check of an id and a signature, the parsed tags and the byte form of public keys; from chrono
-- the range of representable times. None of it is in the repository, so a value of this record is
-- an argument of the definitions that use it.
use Prim.Native.String.{String}
use wotcrawler.Prelude.{ℕ, ◌≡◌, Bool, true, List, Option, ℤ}

-- The two markers of an `r` tag; a bare tag has none.
pub data RelayMetadata : Type 0 where
  read write : RelayMetadata

-- A public key is a 32-byte value and an event id is 32 bytes compared big-endian, so both are
-- numbers. A byte string is a list of numbers. `extract_relay_list` gives the urls with no
-- trailing slash.
pub record External : Type 1 where
  pub Event : Type 0
  pub id : Event → ℕ
  pub pubkey : Event → ℕ
  pub created_at : Event → ℕ
  pub kind : Event → ℕ
  pub verify : Event → Bool
  pub public_keys : Event → List ℕ
  pub extract_relay_list : Event → List (String × Option RelayMetadata)
  pub from_slice : List ℕ → Option ℕ
  pub to_bytes : ℕ → List ℕ
  pub in_range : ℤ → Bool

-- The id of a verified event is the hash of its author, time and content, so two verified events
-- with one id agree on these.
pub record BindsId (ext : External) : Type 0 where
  pub binds_time :
      (a b : ext.Event)
      → ext.verify a ≡ true
      → ext.verify b ≡ true
      → ext.id a ≡ ext.id b
      → ext.created_at a ≡ ext.created_at b
  pub binds_author :
      (a b : ext.Event)
      → ext.verify a ≡ true
      → ext.verify b ≡ true
      → ext.id a ≡ ext.id b
      → ext.pubkey a ≡ ext.pubkey b
