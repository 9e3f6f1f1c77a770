-- ===== src/Crawl.antt =====
-- src/crawl: the frontier, and the batches that drain it.
pub mod Frontier
pub mod Apply
pub mod Sample
pub mod Workers
