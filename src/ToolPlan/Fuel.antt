-- ===== src/ToolPlan/Fuel.antt =====
-- The fuel of `resolve` is enough.
use nonebot_plugin_moellmcha.Prelude.{
  ◌≢◌, inl, inr, arith, not, ◌&&◌, Option, none, some, List, [], ◌∷◌, String, Bool-cases,
}
use nonebot_plugin_moellmcha.ToolPlan.Graph.{ToolGraph, sort}
use nonebot_plugin_moellmcha.ToolPlan.Order.{
  out_of_fuel, ok, fail, is_empty, transitive_dependencies_for,
}
use nonebot_plugin_moellmcha.ToolPlan.Scheduler.{minus, and_then}
use nonebot_plugin_moellmcha.ToolPlan.Termination.{Planned-cases, transitive_dependencies_terminate}
use nonebot_plugin_moellmcha.ToolPlan.Safety.{and_then-fuel}
use nonebot_plugin_moellmcha.ToolPlan.Conflicts.{
  Pair, Rule, Decision, conflict_pairs, find_rule, decide_by, decide_all, any_reject, losers,
  first_broken, unless_broken, settle, check_rules, check_selected, resolve,
}

first_broken-fuel :
    (graph : ToolGraph) (set tools : List String) → first_broken graph set tools ≢ fail out_of_fuel
unfolding first_broken
first_broken-fuel graph set [] e = ground (arith, e)
first_broken-fuel graph set (t ∷ tools) e =
    elim (Planned-cases (transitive_dependencies_for graph t)) [
      | inl (needed, q) ↦ ground (arith, q, e, first_broken-fuel graph set tools)
      | inr (f, q) ↦ ground (arith, q, e, transitive_dependencies_terminate graph t)
    ]

decide_by-fuel : (p : Pair) (r : Option Rule) → decide_by p r ≢ fail out_of_fuel
unfolding decide_by
decide_by-fuel p none e = ground (arith, e)
decide_by-fuel p (some r) e = ground (arith, e)

decide_all-fuel : (rules : List Rule) (ps : List Pair) → decide_all rules ps ≢ fail out_of_fuel
unfolding decide_all
decide_all-fuel rules [] e = ground (arith, e)
decide_all-fuel rules (p ∷ ps) e =
    and_then-fuel (decide_by p (find_rule p rules))
      (λ d. and_then (decide_all rules ps) (λ ds. ok (d ∷ ds)))
      (decide_by-fuel p (find_rule p rules))
      (λ d.
        and_then-fuel (decide_all rules ps) (λ ds. ok (d ∷ ds)) (decide_all-fuel rules ps)
          (λ ds q. ground (arith, q)))
      e

check_rules-fuel :
    (graph : ToolGraph) (rules : List Rule) → check_rules graph rules ≢ fail out_of_fuel
unfolding check_rules
check_rules-fuel graph [] e = ground (arith, e)
check_rules-fuel graph (r ∷ rules) e = ground (arith, e, check_rules-fuel graph rules)

check_selected-fuel :
    (graph : ToolGraph) (selected : List String) → check_selected graph selected ≢ fail out_of_fuel
unfolding check_selected
check_selected-fuel graph selected e = ground (arith, e)

settle-fuel :
    (graph : ToolGraph) (selected : List String) (ds : List Decision)
    → settle graph selected ds ≢ fail out_of_fuel
unfolding settle
settle-fuel graph selected ds e = elim (Bool-cases (any_reject ds)) [
  | inl b ↦ ground (arith, b, e)
  | inr b ↦ elim (Bool-cases (not (is_empty selected) && is_empty survivors)) [
    | inl c ↦ ground (arith, b, c, e)
    | inr c ↦
        and_then-fuel (first_broken graph survivors (sort survivors))
          (λ broken. ok (unless_broken selected survivors ds broken))
          (first_broken-fuel graph survivors (sort survivors)) (λ o q. ground (arith, q))
          (ground (arith, b, c, e))
  ]
]
  where
    survivors : List String
    survivors = minus selected (losers ds)

-- Resolving the conflicts of any tools of any graph under any rules ends: the run never stops for
-- lack of fuel.
pub resolve_terminates :
    (rules : List Rule) (graph : ToolGraph) (selected : List String)
    → resolve rules graph selected ≢ fail out_of_fuel
unfolding resolve
resolve_terminates rules graph selected = and_then-fuel _ _ (check_rules-fuel graph rules) (λ _.
    and_then-fuel _ _ (check_selected-fuel graph selected) (λ _.
      and_then-fuel _ _ (decide_all-fuel rules (conflict_pairs graph selected selected))
        (settle-fuel graph selected)))
