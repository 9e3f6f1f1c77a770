-- ===== src/Errors.antt =====
-- src/error.rs. The texts of the errors are left out; where one kind of error is raised for several
-- reasons, the reason is kept in their place.
use Prim.Native.String.{String}
use wotcrawler.Prelude.{ℕ}

-- Why a fetch counts as timed out: the page budget of a chunk, a second that cannot be paged
-- through, or the deadline of a window of the named relay.
pub data TimeoutCause : Type 0 where
  page_budget : TimeoutCause
  boundary_stall : (until : ℕ) → TimeoutCause
  deadline : (relay : String) → TimeoutCause

pub data RelayError : Type 0 where
  client : RelayError
  relay_not_found : (relay : String) → RelayError
  nip11_fetch : (relay : String) → RelayError
  fetch_timeout : TimeoutCause → RelayError

-- The variants of `StoreError` that the modelled queries raise: an error of the database (a lost
-- connection, a missing row, a violated constraint), a failed migration, a key of a wrong length.
pub data StoreError : Type 0 where
  sqlx : StoreError
  migrate : StoreError
  invalid_pubkey : (len : ℕ) → StoreError
