-- ===== src/Ingest/Verify.antt =====
-- src/ingest/verify.rs, and the time conversion of src/ingest/mod.rs. Metric counters are left out.
use wotcrawler.Prelude.{
  ℕ, ◌^◌, ◌-◌, Bool, true, false, not, ◌||◌, List, ltb, ◌==◌, if◌then◌else◌, contains, ℤ, pos,
  negsuc,
}
use wotcrawler.External.{External}

-- `as_secs() as i64`: the bit pattern of a `u64`, read as two's complement.
unfoldable pub as_i64 : ℕ → ℤ
as_i64 n = if ltb n (2 ^ 63) then pos n else negsuc (2 ^ 64 - 1 - n)

module _ (ext : External) where
  open ext use {Event, pubkey, kind, verify, in_range}

  -- The gate on a single event: it verifies, and it is of the kind and by an author asked for.
  unfoldable pub accept : Event → ℕ → List ℕ → Bool
  accept event want_kind requested =
      if not (verify event)
      then false
      else if not (kind event == want_kind) || not (contains requested (pubkey event))
      then false
      else true

  -- A time that chrono cannot represent becomes the epoch.
  unfoldable pub timestamp_to_datetime : ℕ → ℤ
  unfolding as_i64
  timestamp_to_datetime ts = if in_range (as_i64 ts) then as_i64 ts else pos 0
