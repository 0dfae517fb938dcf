-- ===== src/ParallelExecution/Tests.antt =====
-- Three tools, of which the third adds the results of the others.
use nonebot_plugin_moellmcha.Prelude.{
  ℕ, ◌+◌, ◌≡◌, ◌≢◌, refl, arith, true, false, none, some, List, [], ◌∷◌, String, String-discrete,
  contains, add, discard, lookup, insert,
}
use nonebot_plugin_moellmcha.ToolPlan.Graph.{depends_on, parallel_with, ToolGraph}
use nonebot_plugin_moellmcha.ToolPlan.Scheduler.{read_only, Effects}
use nonebot_plugin_moellmcha.ParallelExecution.Executor.{
  returned, raised, Results, Ports, invocation_failed, dependencies_incomplete, report_mismatch,
  done, failed, Wake, finished, execute,
}
use nonebot_plugin_moellmcha.ParallelExecution.Dataflow.{IsAnswer}
use nonebot_plugin_moellmcha.ParallelExecution.Execution.{execute_answers}
use nonebot_plugin_moellmcha.ParallelExecution.Agreement.{executions_agree}
use nonebot_plugin_moellmcha.ParallelExecution.Completeness.{execute_is_complete}

abbrev graph : ToolGraph
graph = record {
  tools = "fetch" ∷ "search" ∷ "sum" ∷ [];
  edges =
      record { source = "sum"; target = "fetch"; relation = depends_on }
      ∷ record { source = "sum"; target = "search"; relation = depends_on }
      ∷ record { source = "fetch"; target = "search"; relation = parallel_with }
      ∷ [];
  requires_confirmation = [];
  requires_capability = [];
}

abbrev effects : Effects
effects = ("fetch", read_only) ∷ ("search", read_only) ∷ ("sum", read_only) ∷ []

abbrev selected : List String
selected = "sum" ∷ "search" ∷ "fetch" ∷ []

abbrev total : Results ℕ → ℕ
total [] = 0
total ((t, n) ∷ rest) = n + total rest

abbrev ports : Ports ℕ
ports =
    ("fetch", record { is_async = true; invoke = λ d. returned 30 })
    ∷ ("search", record { is_async = true; invoke = λ d. returned 12 })
    ∷ ("sum", record { is_async = true; invoke = λ d. returned (total d) })
    ∷ []

-- "search" is done before "fetch".
abbrev wakes : List Wake
wakes = finished ("search" ∷ []) ∷ finished ("fetch" ∷ []) ∷ finished ("sum" ∷ []) ∷ []

abbrev one_by_one : List Wake
one_by_one = finished ("fetch" ∷ []) ∷ finished ("search" ∷ []) ∷ finished ("sum" ∷ []) ∷ []

abbrev results : Results ℕ
results = ("fetch", 30) ∷ ("search", 12) ∷ ("sum", 42) ∷ []

executes : execute 4 graph selected effects ports 5_000 wakes ≡ done results
unfolding execute contains String-discrete add discard lookup insert
executes = refl

executes_serially : execute 1 graph selected effects ports 9_000 one_by_one ≡ done results
unfolding execute contains String-discrete add discard lookup insert
executes_serially = refl

fails_with_tool :
    execute 4 graph selected effects
      (("fetch", record { is_async = true; invoke = λ d. raised }) ∷ ports)
      5_000
      wakes
    ≡ failed (invocation_failed "fetch")
unfolding execute contains String-discrete add discard lookup insert
fails_with_tool = refl

execute_answers_example :
    (contains String-discrete "sum" selected ≡ true
      → (v : ℕ) × (lookup String-discrete "sum" results ≡ some v)
        × IsAnswer graph ports results "sum" v)
    × (contains String-discrete "sum" selected ≡ false
        → lookup String-discrete "sum" results ≡ none)
execute_answers_example =
    execute_answers 4 graph effects ports selected 5_000 wakes results "sum" (omega arith) executes

executions_agree_example :
    lookup String-discrete "sum" results ≡ lookup String-discrete "sum" results
executions_agree_example =
    executions_agree graph ports 4 1 effects selected 5_000 9_000 wakes one_by_one results results
      "sum" (omega arith) (omega arith) executes executes_serially

execute_is_complete_example :
    (execute 4 graph selected effects ports 5_000 wakes ≢ failed dependencies_incomplete)
    × (execute 4 graph selected effects ports 5_000 wakes ≢ failed report_mismatch)
execute_is_complete_example =
    execute_is_complete 4 graph effects ports selected 5_000 wakes (omega arith)
