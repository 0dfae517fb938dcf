-- ===== src/Lib.antt =====
-- nonebot-plugin-moellmchats: a chat plugin that calls language models and tools for the users of a
-- bot. This library models the parts that decide who may go on, what may be repeated and in what
-- order things happen. Paths are from the repository's root, below nonebot_plugin_moellmchats/.
--
-- * Admission (admission.py, with counters of runtime_metrics.py). `Controller` is the state of
--   `AdmissionController`; `reserve`, `release`, `unreserve`, `can_activate` and `activate` are its
--   methods and the middle of `slot`. A method's body runs under one lock, so a schedule of tasks is
--   a sequence of steps: Admission.Steps gives the steps of `slot` (enter, be refused, start,
--   finish, be cancelled while waiting) and the states they reach. Keys are of any type with a
--   decided equality.
-- * PendingActions (pending_actions.py): the one-shot store of confirmations.
--   PendingActions.Action has the data, PendingActions.Failures the table of failed attempts,
--   PendingActions.Store the operations `create`, `consume`, `cancel`, `clear` and `size`,
--   PendingActions.Calls any sequence of calls of them, and PendingActions.Absence follows a code
--   through such a sequence. What the code takes from json, hashlib and Python's tables of
--   characters is a parameter, `Codec`; random numbers and the clock are arguments.
--   `_new_nonce_locked` has the source's 32 attempts.
-- * BatchQueue (usage_batch.py, and audit_batch.py, which differs in which records may enter): the
--   queue of records for the database. BatchQueue.Queue has the state, BatchQueue.Methods the
--   methods up to their return or their first wait, BatchQueue.Trace any sequence of calls, with the
--   records that went in and those that were acknowledged. Times are whole milliseconds.
-- * ToolPlan (tool_graph.py, tool_conflicts.py, tool_scheduler.py): ToolPlan.Graph has the graph
--   and its queries, ToolPlan.Validation the checks by which a graph is made, after the patterns of
--   the names, ToolPlan.Order the topological order and the transitive dependencies,
--   ToolPlan.Conflicts the policy that drops or rejects tools that conflict, ToolPlan.Scheduler the
--   plan of batches. The conflict policy's result is the scheduler's input; ToolPlan.Settlement is
--   about whether it fits, ToolPlan.Dropped about why it leaves a tool out. The loops run on fuel:
--   the number of tools for the topological order and for the batches, and the number of
--   dependencies for the transitive closure; ToolPlan.Termination, ToolPlan.Safety and ToolPlan.Fuel
--   are about its being enough. ToolPlan.Counting, Kahn, Relaxing, Sorted and Topological are about
--   the topological order, ToolPlan.Ready and ToolPlan.Completion about the plan that it leads to.
-- * Cooldowns (cooldowns.py): Cooldowns.Claims has leases and the checks of identifiers and
--   tokens, Cooldowns.Memory the operations of `MemoryCooldownStore`, Cooldowns.Calls any sequence
--   of calls of them, and Cooldowns.Held follows a granted claim through such a sequence. Times are
--   whole milliseconds, `_new_token` has the source's 32 attempts, and the text of a user identifier
--   is a parameter.
-- * AgentRun (agent_runtime.py): AgentRun.Machine has the states of a run and `AgentStateMachine`,
--   AgentRun.Order any sequence of its transitions.
-- * HistoryCache (history_hot_cache.py, with records of chat_history.py): HistoryCache.Window has
--   messages and windows, HistoryCache.Cache the operations of `MemoryHistoryHotCache` and any
--   sequence of calls; HistoryCache.Entries and Kept are what every call keeps. The clock, the owner
--   and the factory of generations are read from the call's `Input`, SHA-256, str.strip and the size
--   of the JSON from a `Codec`. Times are whole milliseconds, `_new_generation` has the source's 32
--   attempts.
-- * ClassificationCache (classification_cache.py): ClassificationCache.Key has keys and records,
--   ClassificationCache.State the state of `MemoryClassificationCache` and what a method does first,
--   ClassificationCache.Cache its methods, with the tasks that build a record for all who ask for
--   its key, and any sequence of calls. A task ends in one step, from when its builder returns: no
--   method waits while it holds the lock, so that a task never finds it taken.
--   ClassificationCache.Invariant, Methods and Calls are what every call keeps.
-- * TokenUsage (token_usage_formatter.py): TokenUsage.Range is the choice of the records that the
--   command about token usage shows; what Python knows of digits, and the most digits that its `int`
--   reads, are a parameter.
-- * ParallelExecution (parallel_execution.py): runs a plan of ToolPlan.Scheduler. The wake-ups of
--   asyncio.wait, the deadline and cancellations are an argument, a list of `Wake`, so that every
--   order in which the tasks finish is covered; an invocation is a function of the results it is
--   given.
--
-- Sets are lists whose order means nothing, dictionaries association lists in the source's order of
-- insertion. Numbers that the source checks to be positive integers are natural numbers. A check of a
-- Python type is the type here.
--
-- Not modelled: tasks and their wake-ups beyond the sequences of calls above, the checks that a
-- result object makes of itself after the code has built it, printing and metrics, the backends for
-- Redis and PostgreSQL, and the parts listed as such in PROJECT.json.
mod Prelude
pub mod Admission
pub mod PendingActions
pub mod BatchQueue
pub mod ToolPlan
pub mod TokenUsage
pub mod ClassificationCache
pub mod Cooldowns
pub mod AgentRun
pub mod HistoryCache
pub mod ParallelExecution
