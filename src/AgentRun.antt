-- ===== src/AgentRun.antt =====
-- nonebot_plugin_moellmchats/agent_runtime.py: the states of an agent run and `AgentStateMachine`.
pub mod Machine
pub mod Order
mod Tests
