-- ===== src/ToolPlan/Tests.antt =====
-- Runs of the scheduler and of the conflict policy on a small graph.
use nonebot_plugin_moellmcha.Prelude.{
  ◌≡◌, ◌≢◌, refl, subst, arith, true, false, none, some, List, [], ◌∷◌, String, String-discrete,
  if◌then◌else◌, contains, add, discard, lookup,
}
use nonebot_plugin_moellmcha.ToolPlan.Graph.{
  depends_on, parallel_with, conflicts_with, Edge, ToolGraph, sort, dependencies_for, conflicts_for,
}
use nonebot_plugin_moellmcha.ToolPlan.Order.{
  out_of_fuel, missing_dependency, contradictory_relations, ok, fail, topological_order,
}
use nonebot_plugin_moellmcha.ToolPlan.Scheduler.{
  serial, parallel, Batch, read_only, mutating, Effects, all_in, is_distinct, names_of,
  closure_check, conflict_check, plan,
}
use nonebot_plugin_moellmcha.ToolPlan.Safety.{
  plan_terminates, plan_schedules_safely, plan-runs_each_once, plan_has_no_conflict, runs,
}
use nonebot_plugin_moellmcha.ToolPlan.Validation.{make_graph}
use nonebot_plugin_moellmcha.ToolPlan.Consistency.{IsValidated, make_graph-IsValidated}
use nonebot_plugin_moellmcha.ToolPlan.Completion.{IsPlannable, plan_completes}
use nonebot_plugin_moellmcha.ToolPlan.Batches.{Has}
use nonebot_plugin_moellmcha.ToolPlan.Schedule.{IsSchedule}
use nonebot_plugin_moellmcha.ToolPlan.Conflicts.{
  Rule, prefer, reject, not_preferred, allowed, rejected, Resolved, resolve,
}
use nonebot_plugin_moellmcha.ToolPlan.Settlement.{
  resolve_settles, resolved_tools_pass_checks, IsSettled,
}

-- "fetch" and "search" may run together, "write" needs both, and "wipe" conflicts with "write".
abbrev edges : List Edge
edges =
    record { source = "write"; target = "fetch"; relation = depends_on }
    ∷ record { source = "write"; target = "search"; relation = depends_on }
    ∷ record { source = "fetch"; target = "search"; relation = parallel_with }
    ∷ record { source = "wipe"; target = "write"; relation = conflicts_with }
    ∷ []

abbrev graph : ToolGraph
graph = record {
  tools = "fetch" ∷ "search" ∷ "wipe" ∷ "write" ∷ [];
  edges = edges;
  requires_confirmation = "wipe" ∷ [];
  requires_capability = [];
}

abbrev selected : List String
selected = "write" ∷ "search" ∷ "fetch" ∷ []

abbrev effects : Effects
effects = ("write", mutating) ∷ ("search", read_only) ∷ ("fetch", read_only) ∷ []

abbrev batches : List Batch
batches =
    record { tools = "fetch" ∷ "search" ∷ []; mode = parallel }
    ∷ record { tools = "write" ∷ []; mode = serial }
    ∷ []

sorts_by_dependency :
    topological_order graph.tools edges ≡ ok ("fetch" ∷ "search" ∷ "wipe" ∷ "write" ∷ [])
unfolding topological_order String-discrete add discard
sorts_by_dependency = refl

plans_selected : plan 4 graph effects selected ≡ ok batches
unfolding plan contains String-discrete add discard lookup
plans_selected = refl

plan_terminates_example : plan 4 graph effects selected ≢ fail out_of_fuel
plan_terminates_example = plan_terminates 4 graph effects selected (omega arith)

plan_schedules_safely_example : IsSchedule 4 graph effects [] selected batches
plan_schedules_safely_example =
    plan_schedules_safely 4 graph effects selected batches (omega arith) plans_selected

plan-runs_each_once_example :
    runs "fetch" batches ≡ (if contains String-discrete "fetch" selected then 1 else 0)
plan-runs_each_once_example =
    plan-runs_each_once 4 graph effects selected batches "fetch" (omega arith) plans_selected

has_fetch : contains String-discrete "fetch" selected ≡ true
unfolding contains String-discrete
has_fetch = refl

has_write : contains String-discrete "write" selected ≡ true
unfolding contains String-discrete
has_write = refl

plan_has_no_conflict_example :
    contains String-discrete "write" (conflicts_for graph "fetch") ≡ false
plan_has_no_conflict_example =
    plan_has_no_conflict 4 graph effects selected batches "fetch" "write" (omega arith)
      plans_selected has_fetch has_write

-- Without "search", "write" may not run.
rejects_missing : plan 4 graph (("write", mutating) ∷ []) ("write" ∷ []) ≡ fail missing_dependency
unfolding plan contains String-discrete add discard lookup
rejects_missing = refl

abbrev rules : List Rule
rules = record { pair = ("wipe", "write"); action = prefer; winner = some "write" } ∷ []

abbrev requested : List String
requested = "wipe" ∷ selected

abbrev resolved : Resolved
resolved = record {
  status = allowed;
  requested_tools = "fetch" ∷ "search" ∷ "wipe" ∷ "write" ∷ [];
  selected_tools = "fetch" ∷ "search" ∷ "write" ∷ [];
  dropped_tools = "wipe" ∷ [];
  decisions =
      record {
        tools = ("wipe", "write");
        action = prefer;
        winner = some "write";
        loser = some "wipe";
        explicit_rule = true;
      }
      ∷ [];
}

resolves_requested : resolve rules graph requested ≡ ok resolved
unfolding resolve contains String-discrete add discard
resolves_requested = refl

abbrev refused : Resolved
refused = record {
  status = rejected not_preferred;
  requested_tools = "fetch" ∷ "search" ∷ "wipe" ∷ "write" ∷ [];
  selected_tools = [];
  dropped_tools = [];
  decisions =
      record {
        tools = ("wipe", "write");
        action = reject;
        winner = none;
        loser = none;
        explicit_rule = false;
      }
      ∷ [];
}

refuses_without_rule : resolve [] graph requested ≡ ok refused
unfolding resolve contains String-discrete add discard
refuses_without_rule = refl

resolve_settles_example : IsSettled graph requested resolved
resolve_settles_example = resolve_settles rules graph requested resolved resolves_requested refl

resolved_tools_pass_checks_example :
    (closure_check 4 graph effects resolved.selected_tools (sort resolved.selected_tools) ≡ ok tt)
    × (conflict_check 4 graph effects resolved.selected_tools (sort resolved.selected_tools)
        ≡ ok tt)
resolved_tools_pass_checks_example =
    resolved_tools_pass_checks 4 graph effects rules requested resolved resolves_requested refl

abbrev validated : ToolGraph
validated = record {
  tools = "fetch" ∷ "search" ∷ "wipe" ∷ "write" ∷ [];
  edges =
      record { source = "wipe"; target = "write"; relation = conflicts_with }
      ∷ record { source = "write"; target = "fetch"; relation = depends_on }
      ∷ record { source = "write"; target = "search"; relation = depends_on }
      ∷ record { source = "fetch"; target = "search"; relation = parallel_with }
      ∷ [];
  requires_confirmation = "wipe" ∷ [];
  requires_capability = ("write", "disk" ∷ "quota" ∷ []) ∷ [];
}

abbrev given_tools : List String
given_tools = "write" ∷ "wipe" ∷ "search" ∷ "fetch" ∷ []

abbrev given_capabilities : List (String × List String)
given_capabilities = ("write", "quota" ∷ "disk" ∷ []) ∷ []

makes_validated : make_graph given_tools edges ("wipe" ∷ []) given_capabilities ≡ ok validated
unfolding make_graph String-discrete add discard
makes_validated = refl

refuses_contradiction :
    make_graph given_tools
      (record { source = "fetch"; target = "search"; relation = conflicts_with } ∷ edges)
      []
      []
    ≡ fail contradictory_relations
unfolding make_graph String-discrete add discard
refuses_contradiction = refl

make_graph-IsValidated_example : IsValidated validated
make_graph-IsValidated_example =
    make_graph-IsValidated given_tools edges ("wipe" ∷ []) given_capabilities validated
      makes_validated

-- a statement about each selected tool, from the three
selected_cases :
    (P : String → Type 0) → P "write" → P "search" → P "fetch" → (t : String) → Has selected t → P t
unfolding contains
selected_cases P w s f t k = elim (String-discrete "write" t) [
  | yes e ↦ subst P e w
  | no n ↦ elim (String-discrete "search" t) [
    | yes e ↦ subst P e s
    | no m ↦ elim (String-discrete "fetch" t) [
      | yes e ↦ subst P e f
      | no o ↦ absurd (ground (arith, k, n, m, o))
    ]
  ]
]

plannable : IsPlannable validated effects selected
unfolding is_distinct all_in contains dependencies_for conflicts_for names_of String-discrete
plannable = record {
  listed_once = refl;
  all_known = refl;
  effects_known = refl;
  effects_selected = refl;
  dependencies_selected =
      selected_cases (λ t. all_in (dependencies_for validated t) selected ≡ true) refl refl refl;
  no_conflict = λ s t hs ht.
      selected_cases (λ x. contains String-discrete t (conflicts_for validated x) ≡ false)
        (selected_cases (λ y. contains String-discrete y (conflicts_for validated "write") ≡ false)
          refl refl refl t ht)
        refl refl s hs;
}

plan_completes_example : (planned : List Batch) × (plan 4 validated effects selected ≡ ok planned)
plan_completes_example =
    plan_completes 4 given_tools edges ("wipe" ∷ []) given_capabilities validated effects selected
      makes_validated (omega arith) plannable
