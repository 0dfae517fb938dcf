-- ===== src/ToolPlan/Order.antt =====
-- `_topological_order`, and the queries of `ToolGraph` that need it.
use nonebot_plugin_moellmcha.Prelude.{
  ℕ, zero, suc, ◌+◌, Bool, true, false, ◌==◌, Option, none, some, List, [], ◌∷◌, ◌++◌, String,
  String-discrete, if◌then◌else◌, length, reverse, contains, discard, add,
}
use nonebot_plugin_moellmcha.ToolPlan.Graph.{
  Edge, ToolGraph, text_lt, is, sort, targets_of, sources_of, is_member, dependencies_for,
}

pub data PlanError : Type 0 where
  unknown_tool key_error cyclic out_of_fuel : PlanError
  repeated_tool effects_mismatch missing_dependency unresolved_conflict no_ready_tool : PlanError
  unknown_rule_tool rule_mismatch missing_winner : PlanError
  repeated_edge contradictory_relations capability_invalid : PlanError

pub data Planned (A : Type 0) : Type 0 where
  ok : A → Planned A
  fail : PlanError → Planned A

-- The dictionary from each tool to the set of those it still waits for.
abbrev pub Rows : Type 0
Rows = List (String × List String)

unfoldable pub to_set : List String → List String
to_set [] = []
to_set (x ∷ xs) = add String-discrete x (to_set xs)

unfoldable pub rows_of : List Edge → List String → Rows
unfolding to_set targets_of
rows_of edges [] = []
rows_of edges (tool ∷ tools) = (tool, to_set (targets_of tool edges)) ∷ rows_of edges tools

unfoldable pub is_empty : List String → Bool
is_empty [] = true
is_empty _ = false

unfoldable pub without_rows : Rows → List String
unfolding is_empty
without_rows [] = []
without_rows ((tool, row) ∷ rows) =
    let rest = without_rows rows in if is_empty row then tool ∷ rest else rest

-- `dependencies[dependent].remove(current)`, and whether the set is empty now
unfoldable pub remove : String → String → Rows → Option (Rows × Bool)
unfolding is is_empty
remove current dependent [] = none
remove current dependent ((tool, row) ∷ rows) =
    if is tool dependent
    then if contains String-discrete current row
      then some (
        (tool, discard String-discrete current row) ∷ rows,
        is_empty (discard String-discrete current row),
      )
      else none
    else (elim (remove current dependent rows) [
      | none ↦ none
      | some r ↦ some ((tool, row) ∷ r.0, r.1)
    ])

-- the inner loop, over the dependents of the tool that was taken
unfoldable pub relax : String → List String → Rows → List String → Planned (Rows × List String)
unfolding remove
relax current [] rows ready = ok (rows, ready)
relax current (d ∷ ds) rows ready = elim (remove current d rows) [
  | none ↦ fail key_error
  | some r ↦ relax current ds r.0 (if r.1 then d ∷ ready else ready)
]

-- `heappop`: the smallest of the ready tools, and the others
unfoldable pub pop_min : String → List String → String × List String
pop_min x [] = (x, [])
pop_min x (y ∷ ys) = let m = pop_min y ys in if text_lt m.0 x then (m.0, x ∷ m.1) else (x, y ∷ ys)

-- the outer loop
unfoldable pub take_ready : ℕ → List Edge → Rows → List String → List String → Planned (List String)
unfolding relax pop_min to_set sources_of sort
take_ready fuel edges rows [] ordered = ok ordered
take_ready zero edges rows (x ∷ ready) ordered = fail out_of_fuel
take_ready (suc fuel) edges rows (x ∷ ready) ordered =
    let m = pop_min x ready in
    elim (relax m.0 (sort (to_set (sources_of m.0 edges))) rows m.1) [
      | fail e ↦ fail e
      | ok r ↦ take_ready fuel edges r.0 r.1 (ordered ++ m.0 ∷ [])
    ]

unfoldable pub all_ordered : List String → Planned (List String) → Planned (List String)
all_ordered tools (fail e) = fail e
all_ordered tools (ok ordered) = if length ordered == length tools then ok ordered else fail cyclic

unfoldable pub topological_order : List String → List Edge → Planned (List String)
unfolding rows_of without_rows take_ready all_ordered
topological_order tools edges =
    let rows = rows_of edges tools in
    all_ordered tools (take_ready (length tools) edges rows (without_rows rows) [])

-- the loop of `transitive_dependencies_for`: `pending` with its last element first
unfoldable pub close_over : ℕ → ToolGraph → List String → List String → Planned (List String)
unfolding dependencies_for is_member reverse
close_over fuel g seen [] = ok seen
close_over zero g seen (d ∷ pending) = fail out_of_fuel
close_over (suc fuel) g seen (d ∷ pending) = elim (contains String-discrete d seen) [
  | true ↦ close_over fuel g seen pending
  | false ↦ elim (is_member d g) [
    | false ↦ fail unknown_tool
    | true ↦ close_over fuel g (d ∷ seen) (reverse (dependencies_for g d) ++ pending)
  ]
]

unfoldable pub work : ToolGraph → List String → List String → ℕ
unfolding dependencies_for
work g seen [] = 0
work g seen (tool ∷ tools) =
    (if contains String-discrete tool seen then 0 else length (dependencies_for g tool))
    + work g seen tools

unfoldable pub kept_in : List String → List String → List String
kept_in seen [] = []
kept_in seen (x ∷ xs) =
    let rest = kept_in seen xs in if contains String-discrete x seen then x ∷ rest else rest

unfoldable pub in_order : ToolGraph → Planned (List String) → Planned (List String)
unfolding topological_order kept_in
in_order g (fail e) = fail e
in_order g (ok seen) = elim (topological_order g.tools g.edges) [
  | fail e ↦ fail e
  | ok ordered ↦ ok (kept_in seen ordered)
]

-- The fuel is the number of dependencies that the loop can still add, and those it starts with.
unfoldable pub transitive_dependencies_for : ToolGraph → String → Planned (List String)
unfolding is_member dependencies_for close_over work in_order reverse
transitive_dependencies_for g tool =
    if is_member tool g
    then in_order g (
        close_over (length (dependencies_for g tool) + work g [] g.tools) g []
          (reverse (dependencies_for g tool)))
    else fail unknown_tool
