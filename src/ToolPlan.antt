-- ===== src/ToolPlan.antt =====
-- nonebot_plugin_moellmchats/tool_graph.py, tool_conflicts.py and tool_scheduler.py: which tools may run
-- together, and in what order.
pub mod Graph
pub mod Order
pub mod Scheduler
pub mod Batches
pub mod Schedule
pub mod Termination
pub mod Plan
pub mod Safety
pub mod Conflicts
pub mod Resolution
pub mod Settlement
pub mod Dropped
pub mod Fuel
pub mod Closure
pub mod Counting
pub mod Kahn
pub mod Relaxing
pub mod Sorted
pub mod Topological
pub mod Validation
pub mod Consistency
pub mod Ready
pub mod Completion
mod Tests
