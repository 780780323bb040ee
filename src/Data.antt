-- ===== src/Data.antt =====
-- Market data in memory (src/data/stream_cache.py).
pub mod StreamCache
pub mod SymbolCache
pub mod Sync
pub mod Aggregator
mod Tests
