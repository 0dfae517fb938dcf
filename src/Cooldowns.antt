-- ===== src/Cooldowns.antt =====
-- nonebot_plugin_moellmchats/cooldowns.py: how long a user waits between two requests.
pub mod Claims
pub mod Memory
pub mod Calls
mod Held
pub mod Blocking
pub mod Retry
mod Tests
