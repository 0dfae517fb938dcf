-- ===== src/ToolPlan/Conflicts.antt =====
-- `ToolConflictPolicy` of tool_conflicts.py: which of the selected tools that conflict may run.
use nonebot_plugin_moellmcha.Prelude.{
  Bool, true, false, not, ◌&&◌, ◌||◌, Option, none, some, List, [], ◌∷◌, String, String-discrete,
  if◌then◌else◌, contains, add,
}
use nonebot_plugin_moellmcha.ToolPlan.Graph.{ToolGraph, text_lt, is, sort, conflicts_for}
use nonebot_plugin_moellmcha.ToolPlan.Order.{
  repeated_tool, unknown_tool, unknown_rule_tool, rule_mismatch, missing_winner, Planned, ok, fail,
  is_empty, transitive_dependencies_for, kept_in,
}
use nonebot_plugin_moellmcha.ToolPlan.Scheduler.{all_in, is_distinct, minus, and_then}

pub data Action : Type 0 where
  reject prefer : Action

abbrev pub Pair : Type 0
Pair = String × String

unfoldable pub canonical_pair : String → String → Pair
canonical_pair a b = if text_lt a b then (a, b) else (b, a)

unfoldable pub same_pair : Pair → Pair → Bool
unfolding is
same_pair p q = is p.0 q.0 && is p.1 q.1

pub record Rule : Type 0 where
  pub pair : Pair
  pub action : Action
  pub winner : Option String

-- `ToolConflictRule.__post_init__`
unfoldable pub make_rule : String → String → Action → Option String → Option Rule
unfolding is canonical_pair
make_rule first second action winner = if is first second then none else (elim action [
  | reject ↦ elim winner [
    | none ↦ some (record { pair = canonical_pair first second; action = reject; winner = none })
    | some w ↦ none
  ]
  | prefer ↦ elim winner [
    | none ↦ none
    | some w ↦
        if is w first || is w second
        then some (record { pair = canonical_pair first second; action = prefer; winner = some w })
        else none
  ]
])

pub record Decision : Type 0 where
  pub tools : Pair
  pub action : Action
  pub winner : Option String
  pub loser : Option String
  pub explicit_rule : Bool

pub data Denial : Type 0 where
  not_preferred all_removed : Denial
  broken_closure : String → Denial

pub data Status : Type 0 where
  allowed : Status
  rejected : Denial → Status

pub record Resolved : Type 0 where
  pub status : Status
  pub requested_tools : List String
  pub selected_tools : List String
  pub dropped_tools : List String
  pub decisions : List Decision

unfoldable pub has_pair : Pair → List Pair → Bool
unfolding same_pair
has_pair p [] = false
has_pair p (q ∷ qs) = same_pair q p || has_pair p qs

unfoldable pub pair_lt : Pair → Pair → Bool
unfolding is
pair_lt p q = text_lt p.0 q.0 || (is p.0 q.0 && text_lt p.1 q.1)

-- a sorted set of pairs
unfoldable pub add_pair : Pair → List Pair → List Pair
unfolding same_pair pair_lt
add_pair p [] = p ∷ []
add_pair p (q ∷ qs) =
    let rest = add_pair p qs in
    if same_pair q p then q ∷ qs else if pair_lt q p then q ∷ rest else p ∷ q ∷ qs

unfoldable pub pairs_with : String → List String → List Pair → List Pair
unfolding canonical_pair add_pair
pairs_with tool [] pairs = pairs
pairs_with tool (other ∷ others) pairs =
    add_pair (canonical_pair tool other) (pairs_with tool others pairs)

-- `_selected_conflict_pairs`
unfoldable pub conflict_pairs : ToolGraph → List String → List String → List Pair
unfolding pairs_with kept_in conflicts_for
conflict_pairs graph selected [] = []
conflict_pairs graph selected (tool ∷ tools) =
    pairs_with tool (kept_in selected (conflicts_for graph tool))
      (conflict_pairs graph selected tools)

unfoldable pub find_rule : Pair → List Rule → Option Rule
unfolding same_pair
find_rule p [] = none
find_rule p (r ∷ rs) = let rest = find_rule p rs in if same_pair r.pair p then some r else rest

unfoldable pub decide_by : Pair → Option Rule → Planned Decision
unfolding is
decide_by p none =
    ok (record { tools = p; action = reject; winner = none; loser = none; explicit_rule = false })
decide_by p (some r) = elim r.action [
  | reject ↦
      ok (record { tools = p; action = reject; winner = none; loser = none; explicit_rule = true })
  | prefer ↦ elim r.winner [
    | none ↦ fail missing_winner
    | some w ↦ ok (record {
      tools = p;
      action = prefer;
      winner = some w;
      loser = some (if is w p.0 then p.1 else p.0);
      explicit_rule = true;
    })
  ]
]

unfoldable pub decide_all : List Rule → List Pair → Planned (List Decision)
unfolding find_rule decide_by and_then
decide_all rules [] = ok []
decide_all rules (p ∷ ps) =
    and_then (decide_by p (find_rule p rules))
      (λ d. and_then (decide_all rules ps) (λ ds. ok (d ∷ ds)))

unfoldable pub is_reject : Action → Bool
is_reject reject = true
is_reject prefer = false

unfoldable pub any_reject : List Decision → Bool
unfolding is_reject
any_reject [] = false
any_reject (d ∷ ds) = is_reject d.action || any_reject ds

unfoldable pub losers : List Decision → List String
losers [] = []
losers (d ∷ ds) = elim d.loser [ none ↦ losers ds | some l ↦ add String-discrete l (losers ds) ]

-- the first tool whose transitive dependencies are not all among the survivors
unfoldable pub first_broken : ToolGraph → List String → List String → Planned (Option String)
unfolding transitive_dependencies_for all_in
first_broken graph survivors [] = ok none
first_broken graph survivors (tool ∷ tools) = elim (transitive_dependencies_for graph tool) [
  | fail e ↦ fail e
  | ok needed ↦ elim (all_in needed survivors) [
    | true ↦ first_broken graph survivors tools
    | false ↦ ok (some tool)
  ]
]

-- `_rejected`
unfoldable pub rejection : List String → List Decision → Denial → Resolved
rejection requested decisions reason = record {
  status = rejected reason;
  requested_tools = requested;
  selected_tools = [];
  dropped_tools = [];
  decisions = decisions;
}

unfoldable pub unless_broken : List String → List String → List Decision → Option String → Resolved
unfolding rejection sort minus losers
unless_broken selected survivors decisions none = record {
  status = allowed;
  requested_tools = sort selected;
  selected_tools = sort survivors;
  dropped_tools = sort (losers decisions);
  decisions = decisions;
}
unless_broken selected survivors decisions (some tool) =
    rejection (sort selected) decisions (broken_closure tool)

unfoldable pub settle : ToolGraph → List String → List Decision → Planned Resolved
unfolding any_reject losers minus first_broken rejection unless_broken sort is_empty and_then
settle graph selected decisions =
    let survivors = minus selected (losers decisions) in
    if any_reject decisions
    then ok (rejection (sort selected) decisions not_preferred)
    else if not (is_empty selected) && is_empty survivors
    then ok (rejection (sort selected) decisions all_removed)
    else and_then (first_broken graph survivors (sort survivors))
        (λ broken. ok (unless_broken selected survivors decisions broken))

-- `_validate_rules_for_graph`
unfoldable pub check_rules : ToolGraph → List Rule → Planned (Unit {0})
unfolding conflicts_for
check_rules graph [] = ok tt
check_rules graph (r ∷ rs) =
    let rest = check_rules graph rs in
    if not (
      contains String-discrete r.pair.0 graph.tools
      && contains String-discrete r.pair.1 graph.tools)
    then fail unknown_rule_tool
    else if not (contains String-discrete r.pair.1 (conflicts_for graph r.pair.0))
    then fail rule_mismatch
    else rest

-- `_validate_selected_tools`
unfoldable pub check_selected : ToolGraph → List String → Planned (Unit {0})
unfolding is_distinct all_in
check_selected graph selected =
    if not (is_distinct selected)
    then fail repeated_tool
    else if not (all_in selected graph.tools)
    then fail unknown_tool
    else ok tt

unfoldable pub resolve : List Rule → ToolGraph → List String → Planned Resolved
unfolding check_rules check_selected conflict_pairs decide_all settle and_then
resolve rules graph selected = and_then (check_rules graph rules) (λ _.
    and_then (check_selected graph selected) (λ _.
      and_then (decide_all rules (conflict_pairs graph selected selected)) (settle graph selected)))
