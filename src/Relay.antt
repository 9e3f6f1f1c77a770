-- ===== src/Relay.antt =====
-- src/relay: acquiring events from relays.
pub mod Fetch
pub mod RateLimit
pub mod Nip11
pub mod Health
pub mod Client
