-- ===== src/BatchQueue.antt =====
-- nonebot_plugin_moellmchats/usage_batch.py and audit_batch.py: the bounded lease queue in front of
-- the database, once for both (the files differ in the type of the records and in which records may
-- enter).
pub mod Queue
pub mod Methods
mod Triples
pub mod Trace
pub mod Invariant
mod Bodies
pub mod Preserved
mod Configuration
pub mod Delivery
pub mod Unknown
pub mod Audit
mod Tests
