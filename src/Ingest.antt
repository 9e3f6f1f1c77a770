-- ===== src/Ingest.antt =====
-- src/ingest: the validation gate between raw relay events and the store.
pub mod Verify
pub mod Replaceable
pub mod FollowList
pub mod Gate
pub mod RelayList
pub mod Groups
pub mod Gathered
pub mod Winner
pub mod Followees
pub mod Latest
pub mod Lists
pub mod Forgery
pub mod Outbox
mod Tests
