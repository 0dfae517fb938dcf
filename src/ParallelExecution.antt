-- ===== src/ParallelExecution.antt =====
-- nonebot_plugin_moellmchats/parallel_execution.py: read-only tools run batch by batch, each with the
-- results of what it depends on.
pub mod Executor
pub mod Dataflow
pub mod Execution
pub mod Agreement
pub mod Completeness
mod Tests
