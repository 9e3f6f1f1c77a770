-- ===== src/Daemon.antt =====
-- src/daemon: the long-running crawler around the library.
pub mod Loop
pub mod FanOut
pub mod Config
pub mod Sampler
pub mod Observe
