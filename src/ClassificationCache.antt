-- ===== src/ClassificationCache.antt =====
-- classification_cache.py: how hard a prompt is, as a model said, for prompts that stand alone.
pub mod Key
pub mod State
pub mod Cache
pub mod Entries
pub mod Invariant
pub mod Methods
pub mod Calls
pub mod Clearing
pub mod Results
pub mod Publishing
pub mod Tests
