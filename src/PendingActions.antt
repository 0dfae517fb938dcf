-- ===== src/PendingActions.antt =====
-- nonebot_plugin_moellmchats/pending_actions.py: the one-shot store of operations that wait for the
-- user's confirmation code.
pub mod Action
pub mod Failures
pub mod Store
pub mod Calls
mod Absence
pub mod OneShot
mod Windows
mod Supersede
mod Entries
mod Requests
pub mod Lifecycle
pub mod Budget
mod Tests
