-- ===== src/HistoryCache.antt =====
-- nonebot_plugin_moellmchats/history_hot_cache.py: the recent messages of conversations, kept in memory
-- in front of the database.
pub mod Window
pub mod Cache
pub mod Entries
pub mod Kept
pub mod Freshness
pub mod Serving
pub mod Publishing
mod Tests
