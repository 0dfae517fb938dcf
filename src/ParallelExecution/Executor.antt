-- ===== src/ParallelExecution/Executor.antt =====
-- `ReadOnlyParallelToolExecutor`. What an invocation answers is a function of the results that it is
-- given; when the tasks of a batch finish is a schedule of wake-ups.
use nonebot_plugin_moellmcha.Prelude.{
  ℕ, Bool, true, false, not, ◌&&◌, Option, none, some, List, [], ◌∷◌, ◌++◌, String, String-discrete,
  if◌then◌else◌, ◌==◌, contains, lookup, insert,
}
use nonebot_plugin_moellmcha.ToolPlan.Graph.{ToolGraph, confirmation_required_for}
use nonebot_plugin_moellmcha.ToolPlan.Order.{
  PlanError, Planned, ok, fail, is_empty, transitive_dependencies_for,
}
use nonebot_plugin_moellmcha.ToolPlan.Scheduler.{Batch, Effects, is_read_only, all_in, minus, plan}

-- How the task of an invocation ends.
pub data Answer (V : Type 0) : Type 0 where
  returned : V → Answer V
  raised cancelled : Answer V

abbrev pub Results : Type 0 → Type 0
Results V = List (String × V)

-- An invocation: whether it is an asynchronous callable of one argument, and what it answers.
pub record Port (V : Type 0) : Type 0 where
  pub is_async : Bool
  pub invoke : Results V → Answer V

abbrev pub Ports : Type 0 → Type 0
Ports V = List (String × Port V)

pub data Failure : Type 0 where
  planning : PlanError → Failure
  not_read_only needs_confirmation ports_mismatch port_invalid dependencies_incomplete : Failure
  invocation_failed : String → Failure
  invocation_cancelled timed_out interrupted report_mismatch still_waiting : Failure

pub data Run (A : Type 0) : Type 0 where
  done : A → Run A
  failed : Failure → Run A

infixl 5 ◌>>=◌
abbrev pub ◌>>=◌ : {A B : Type 0} → Run A → (A → Run B) → Run B
done a >>= f = f a
failed e >>= f = failed e

unfoldable pub planned : {A : Type 0} → Planned A → Run A
planned (ok a) = done a
planned (fail e) = failed (planning e)

-- What ends a wait for the tasks of a batch: some are done, the deadline, or a cancellation of the caller.
pub data Wake : Type 0 where
  finished : List String → Wake
  deadline_over caller_cancelled : Wake

-- `ToolSchedule.tools`
unfoldable pub tools_of : List Batch → List String
tools_of [] = []
tools_of (b ∷ bs) = b.tools ++ tools_of bs

unfoldable pub keys_of : {V : Type 0} → List (String × V) → List String
keys_of [] = []
keys_of ((k, v) ∷ d) = k ∷ keys_of d

unfoldable pub same_set : List String → List String → Bool
unfolding all_in
same_set a b = all_in a b && all_in b a

unfoldable pub all_read_only : Effects → List String → Bool
unfolding is_read_only
all_read_only effects [] = true
all_read_only effects (t ∷ ts) =
    is_read_only (lookup String-discrete t effects) && all_read_only effects ts

unfoldable pub any_confirmation : ToolGraph → List String → Bool
unfolding confirmation_required_for
any_confirmation graph [] = false
any_confirmation graph (t ∷ ts) =
    let rest = any_confirmation graph ts in if confirmation_required_for graph t then true else rest

module _ {V : Type 0} where
  -- the entries of some names, in their order
  unfoldable pub pick : Failure → Results V → List String → Run (Results V)
  pick missing completed [] = done []
  pick missing completed (n ∷ ns) = elim (lookup String-discrete n completed) [
    | none ↦ failed missing
    | some v ↦ pick missing completed ns >>= λ rest. done ((n, v) ∷ rest)
  ]

  unfoldable pub all_async : Ports V → List String → Bool
  all_async ports [] = true
  all_async ports (t ∷ ts) = elim (lookup String-discrete t ports) [
    | none ↦ false
    | some port ↦ port.is_async && all_async ports ts
  ]

  -- `_validate_invocations`
  unfoldable pub validate_ports : List String → Ports V → Run (Unit {0})
  unfolding same_set keys_of all_async
  validate_ports tools ports =
      if not (same_set (keys_of ports) tools)
      then failed ports_mismatch
      else if not (all_async ports tools)
      then failed port_invalid
      else done tt

  -- `_dependency_results`
  unfoldable pub dependency_results : ToolGraph → Results V → String → Run (Results V)
  unfolding planned pick
  dependency_results graph completed tool =
      planned (transitive_dependencies_for graph tool) >>= pick dependencies_incomplete completed

  -- the tasks that `_execute_batch` creates
  unfoldable pub create_tasks :
      ToolGraph → Ports V → Results V → List String → Run (List (String × Answer V))
  unfolding dependency_results
  create_tasks graph ports completed [] = done []
  create_tasks graph ports completed (t ∷ ts) =
      dependency_results graph completed t >>= λ dependencies.
      elim (lookup String-discrete t ports) [
        | none ↦ failed ports_mismatch
        | some port ↦ create_tasks graph ports completed ts >>= λ rest.
            done ((t, port.invoke dependencies) ∷ rest)
      ]

  -- the first bad task among those that are done, in the order of creation
  unfoldable pub first_error : List String → List (String × Answer V) → Option Failure
  first_error names [] = none
  first_error names ((t, cancelled) ∷ tasks) =
      let rest = first_error names tasks in
      if contains String-discrete t names then some invocation_cancelled else rest
  first_error names ((t, raised) ∷ tasks) =
      let rest = first_error names tasks in
      if contains String-discrete t names then some (invocation_failed t) else rest
  first_error names ((t, returned v) ∷ tasks) = first_error names tasks

  -- the loop of `_execute_batch`, with the wake-ups that are left
  unfoldable pub await_tasks : List (String × Answer V) → List String → List Wake → Run (List Wake)
  unfolding first_error minus
  await_tasks tasks [] wakes = done wakes
  await_tasks tasks (p ∷ pending) [] = failed still_waiting
  await_tasks tasks (p ∷ pending) (deadline_over ∷ wakes) = failed timed_out
  await_tasks tasks (p ∷ pending) (caller_cancelled ∷ wakes) = failed interrupted
  await_tasks tasks (p ∷ pending) (finished names ∷ wakes) = elim (first_error names tasks) [
    | some e ↦ failed e
    | none ↦ await_tasks tasks (minus (p ∷ pending) names) wakes
  ]

  -- `task.result()` of every task
  unfoldable pub results_of : List (String × Answer V) → Run (Results V)
  results_of [] = done []
  results_of ((t, returned v) ∷ tasks) = results_of tasks >>= λ rest. done ((t, v) ∷ rest)
  results_of ((t, raised) ∷ tasks) = failed (invocation_failed t)
  results_of ((t, cancelled) ∷ tasks) = failed invocation_cancelled

  -- `_execute_batch`
  unfoldable pub execute_batch :
      ToolGraph → Ports V → List String → Results V → List Wake → Run (Results V × List Wake)
  unfolding create_tasks await_tasks results_of
  execute_batch graph ports tools completed wakes =
      create_tasks graph ports completed tools >>= λ tasks.
      (await_tasks tasks tools wakes >>= λ left.
      (results_of tasks >>= λ results. done (results, left)))

  -- `results.update(batch_results)`
  unfoldable pub update : Results V → Results V → Results V
  update results [] = results
  update results ((t, v) ∷ more) = update (insert String-discrete t v results) more

  unfoldable pub execute_batches :
      ToolGraph → Ports V → List Batch → Results V → List Wake → Run (Results V)
  unfolding execute_batch update
  execute_batches graph ports [] results wakes = done results
  execute_batches graph ports (b ∷ bs) results wakes =
      execute_batch graph ports b.tools results wakes >>= λ r.
      execute_batches graph ports bs (update results r.0) r.1

  -- `ReadOnlyParallelExecutionReport.__post_init__`
  unfoldable pub report : List String → Results V → Run (Results V)
  unfolding same_set keys_of pick
  report tools results =
      if not (same_set (keys_of results) tools)
      then failed report_mismatch
      else pick report_mismatch results tools

  -- the end of `execute`, after its checks
  unfoldable pub execute_valid : ToolGraph → Ports V → ℕ → List Wake → List Batch → Run (Results V)
  unfolding tools_of execute_batches report is_empty
  execute_valid graph ports remaining wakes batches =
      if is_empty (tools_of batches)
      then report (tools_of batches) []
      else if remaining == 0
      then failed timed_out
      else execute_batches graph ports batches [] wakes >>= report (tools_of batches)

  -- `execute`, once it has its schedule
  unfoldable pub execute_schedule :
      ToolGraph → Effects → Ports V → ℕ → List Wake → List Batch → Run (Results V)
  unfolding all_read_only tools_of any_confirmation validate_ports execute_valid
  execute_schedule graph effects ports remaining wakes batches =
      if not (all_read_only effects (tools_of batches))
      then failed not_read_only
      else if any_confirmation graph (tools_of batches)
      then failed needs_confirmation
      else validate_ports (tools_of batches) ports >>= λ _.
          execute_valid graph ports remaining wakes batches

  unfoldable pub execute :
      ℕ → ToolGraph → List String → Effects → Ports V → ℕ → List Wake → Run (Results V)
  unfolding planned plan execute_schedule
  execute max_parallelism graph selected effects ports remaining wakes =
      planned (plan max_parallelism graph effects selected)
      >>= execute_schedule graph effects ports remaining wakes
