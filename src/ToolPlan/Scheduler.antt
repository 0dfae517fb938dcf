-- ===== src/ToolPlan/Scheduler.antt =====
-- `ReadOnlyParallelToolScheduler.plan` of tool_scheduler.py.
use nonebot_plugin_moellmcha.Prelude.{
  ℕ, zero, suc, Bool, true, false, not, ◌&&◌, Option, some, List, [], ◌∷◌, ◌++◌, String,
  String-discrete, if◌then◌else◌, ltb, leb, length, contains, discard, lookup,
}
use nonebot_plugin_moellmcha.ToolPlan.Graph.{
  ToolGraph, sort, dependencies_for, parallel_tools_for, conflicts_for, confirmation_required_for,
}
use nonebot_plugin_moellmcha.ToolPlan.Order.{
  repeated_tool, unknown_tool, effects_mismatch, missing_dependency, unresolved_conflict,
  no_ready_tool, out_of_fuel, Planned, ok, fail, is_empty, topological_order,
  transitive_dependencies_for, kept_in,
}

pub data Mode : Type 0 where
  serial parallel : Mode

pub record Batch : Type 0 where
  pub tools : List String
  pub mode : Mode

pub data ToolEffect : Type 0 where
  read_only mutating : ToolEffect

unfoldable pub is_read_only : Option ToolEffect → Bool
is_read_only (some read_only) = true
is_read_only _ = false

abbrev pub Effects : Type 0
Effects = List (String × ToolEffect)

-- `first <= second` on sets
unfoldable pub all_in : List String → List String → Bool
all_in [] set = true
all_in (x ∷ xs) set = contains String-discrete x set && all_in xs set

unfoldable pub is_distinct : List String → Bool
is_distinct [] = true
is_distinct (x ∷ xs) = not (contains String-discrete x xs) && is_distinct xs

unfoldable pub names_of : Effects → List String
names_of [] = []
names_of ((tool, effect) ∷ rest) = tool ∷ names_of rest

-- `difference_update`
unfoldable pub minus : List String → List String → List String
minus set [] = set
minus set (x ∷ xs) = discard String-discrete x (minus set xs)

unfoldable pub prepend : Batch → Planned (List Batch) → Planned (List Batch)
prepend batch (ok batches) = ok (batch ∷ batches)
prepend batch (fail e) = fail e

unfoldable pub and_then : {A B : Type 0} → Planned A → (A → Planned B) → Planned B
and_then (ok a) f = f a
and_then (fail e) f = fail e

module _ (max_parallelism : ℕ) (graph : ToolGraph) (effects : Effects) where
  -- `_parallel_eligible`
  unfoldable pub parallel_eligible : String → Bool
  unfolding is_read_only confirmation_required_for
  parallel_eligible tool =
      is_read_only (lookup String-discrete tool effects)
      && not (confirmation_required_for graph tool)

  -- `candidate in parallel_neighbors[scheduled]` for all of them
  unfoldable pub joins : List String → String → List String → Bool
  unfolding parallel_tools_for
  joins selected candidate [] = true
  joins selected candidate (scheduled ∷ rest) =
      contains String-discrete candidate (parallel_tools_for graph scheduled)
      && contains String-discrete candidate selected
      && joins selected candidate rest

  -- the loop over the other ready tools
  unfoldable pub fill : List String → List String → List String → List String
  unfolding parallel_eligible joins
  fill selected batch [] = batch
  fill selected batch (candidate ∷ ready) =
      let more = fill selected (batch ++ candidate ∷ []) ready in
      let skip = fill selected batch ready in
      if leb max_parallelism (length batch)
      then batch
      else if not (parallel_eligible candidate)
      then skip
      else if joins selected candidate batch
      then more
      else skip

  unfoldable pub is_ready : List String → List String → String → Bool
  unfolding dependencies_for all_in
  is_ready remaining completed tool =
      contains String-discrete tool remaining && all_in (dependencies_for graph tool) completed

  unfoldable pub ready_tools : List String → List String → List String → List String
  unfolding is_ready
  ready_tools remaining completed [] = []
  ready_tools remaining completed (tool ∷ order) =
      let rest = ready_tools remaining completed order in
      if is_ready remaining completed tool then tool ∷ rest else rest

  unfoldable pub batch_tools : List String → String → List String → List String
  unfolding parallel_eligible fill
  batch_tools selected first others =
      if parallel_eligible first then fill selected (first ∷ []) others else first ∷ []

  unfoldable pub make_batch : List String → Batch
  unfolding sort
  make_batch tools = record {
    tools = sort tools;
    mode = if ltb 1 (length tools) then parallel else serial;
  }

  -- the main loop
  unfoldable pub plan_batches :
      ℕ → List String → List String → List String → List String → Planned (List Batch)
  unfolding ready_tools batch_tools make_batch minus prepend
  plan_batches fuel selected order [] completed = ok []
  plan_batches zero selected order (x ∷ remaining) completed = fail out_of_fuel
  plan_batches (suc fuel) selected order (x ∷ remaining) completed =
      elim (ready_tools (x ∷ remaining) completed order) [
        | [] ↦ fail no_ready_tool
        | first ∷ others ↦
            let batch = make_batch (batch_tools selected first others) in
            prepend batch (
              plan_batches fuel selected order (minus (x ∷ remaining) batch.tools)
                (batch.tools ++ completed))
      ]

  -- the check that `selected` holds what its tools depend on
  unfoldable pub closure_check : List String → List String → Planned (Unit {0})
  unfolding transitive_dependencies_for all_in
  closure_check selected [] = ok tt
  closure_check selected (tool ∷ tools) = elim (transitive_dependencies_for graph tool) [
    | fail e ↦ fail e
    | ok needed ↦ elim (all_in needed selected) [
      | true ↦ closure_check selected tools
      | false ↦ fail missing_dependency
    ]
  ]

  -- `_reject_unresolved_conflicts`
  unfoldable pub conflict_check : List String → List String → Planned (Unit {0})
  unfolding conflicts_for kept_in is_empty
  conflict_check selected [] = ok tt
  conflict_check selected (tool ∷ tools) =
      let rest = conflict_check selected tools in
      if is_empty (kept_in (conflicts_for graph tool) selected)
      then rest
      else fail unresolved_conflict

  -- `_validate_selected_tools` and `_validate_effects`
  unfoldable pub input_check : List String → Planned (Unit {0})
  unfolding is_distinct all_in names_of
  input_check selected =
      if not (is_distinct selected)
      then fail repeated_tool
      else if not (all_in selected graph.tools)
      then fail unknown_tool
      else if not (all_in selected (names_of effects) && all_in (names_of effects) selected)
      then fail effects_mismatch
      else ok tt

  -- `plan`, once it has looked at its arguments
  unfoldable pub plan_checked : List String → Planned (List Batch)
  unfolding closure_check conflict_check and_then topological_order kept_in plan_batches sort
  plan_checked selected = and_then (closure_check selected (sort selected)) (λ _.
      and_then (conflict_check selected (sort selected)) (λ _.
        and_then (topological_order graph.tools graph.edges)
          (λ order. plan_batches (length selected) selected (kept_in selected order) selected [])))

  unfoldable pub plan : List String → Planned (List Batch)
  unfolding input_check and_then plan_checked is_empty
  plan selected =
      and_then (input_check selected)
        (λ _. if is_empty selected then ok [] else plan_checked selected)
