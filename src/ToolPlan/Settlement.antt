-- ===== src/ToolPlan/Settlement.antt =====
-- What `resolve` promises, and that `plan` accepts the tools that it leaves.
use nonebot_plugin_moellmcha.Prelude.{
  ℕ, ◌≡◌, ◌⊎◌, inl, inr, refl, sym, ◌∙◌, subst, arith, true, false, not, ◌&&◌, none, List, [], ◌∷◌,
  String, String-discrete, contains,
}
use nonebot_plugin_moellmcha.ToolPlan.Graph.{ToolGraph, sort, conflicts_for}
use nonebot_plugin_moellmcha.ToolPlan.Order.{
  PlanError, Planned, ok, fail, is_empty, transitive_dependencies_for, kept_in,
}
use nonebot_plugin_moellmcha.ToolPlan.Scheduler.{
  Effects, all_in, minus, and_then, closure_check, conflict_check,
}
use nonebot_plugin_moellmcha.ToolPlan.Termination.{Planned-cases}
use nonebot_plugin_moellmcha.ToolPlan.Batches.{Has, contains-sort}
use nonebot_plugin_moellmcha.ToolPlan.Plan.{contains-minus}
use nonebot_plugin_moellmcha.ToolPlan.Safety.{and_then-ok}
use nonebot_plugin_moellmcha.ToolPlan.Conflicts.{
  Rule, Decision, allowed, Resolved, conflict_pairs, decide_all, any_reject, losers, first_broken,
  unless_broken, settle, check_rules, check_selected, resolve,
}
use nonebot_plugin_moellmcha.ToolPlan.Resolution.{ite_same, settle-allowed, survivors_free}

-- a resolution that leaves some tools to run
pub record IsSettled (graph : ToolGraph) (selected : List String) (res : Resolved) : Type 0 where
  pub partition :
      (t : String)
      → contains String-discrete t res.selected_tools
        ≡ contains String-discrete t selected && not (contains String-discrete t res.dropped_tools)
  pub no_conflict :
      (s t : String)
      → Has res.selected_tools s
      → Has res.selected_tools t
      → contains String-discrete t (conflicts_for graph s) ≡ false
  pub closed : first_broken graph res.selected_tools res.selected_tools ≡ ok none

all_in-sort : (l set : List String) → all_in l (sort set) ≡ all_in l set
unfolding all_in
all_in-sort [] set = refl
all_in-sort (x ∷ l) set = ground (arith, contains-sort x set, all_in-sort l set)

first_broken-sort :
    (graph : ToolGraph) (set tools : List String)
    → first_broken graph (sort set) tools ≡ first_broken graph set tools
unfolding first_broken
first_broken-sort graph set [] = refl
first_broken-sort graph set (t ∷ tools) =
    elim (Planned-cases (transitive_dependencies_for graph t)) [
      | inr (f, h) ↦ ground (arith, h)
      | inl (needed, h) ↦
          ground (arith, h, all_in-sort needed set, first_broken-sort graph set tools)
    ]

pub resolve-inside :
    (rules : List Rule) (graph : ToolGraph) (selected : List String) (res : Resolved)
    → resolve rules graph selected ≡ ok res
    → (ds : List Decision) × (decide_all rules (conflict_pairs graph selected selected) ≡ ok ds)
      × (settle graph selected ds ≡ ok res)
unfolding resolve
resolve-inside rules graph selected res e =
    let (u, rules_fit, e1) = and_then-ok (check_rules graph rules) (λ _. tools_checked) res e in
    let (v, tools_fit, e2) = and_then-ok (check_selected graph selected) (λ _. decided) res e1 in
    and_then-ok (decide_all rules (conflict_pairs graph selected selected)) (settle graph selected)
      res e2
  where
    decided : Planned Resolved
    decided =
        and_then (decide_all rules (conflict_pairs graph selected selected)) (settle graph selected)

    tools_checked : Planned Resolved
    tools_checked = and_then (check_selected graph selected) (λ _. decided)

unless_broken-IsSettled :
    (rules : List Rule) (graph : ToolGraph) (selected : List String) (ds : List Decision)
    → decide_all rules (conflict_pairs graph selected selected) ≡ ok ds
    → any_reject ds ≡ false
    → first_broken graph (minus selected (losers ds)) (sort (minus selected (losers ds))) ≡ ok none
    → IsSettled graph selected (unless_broken selected (minus selected (losers ds)) ds none)
unfolding unless_broken
unless_broken-IsSettled rules graph selected ds e n b = record {
  partition = λ t. ground (
    arith,
    contains-sort t (minus selected (losers ds)),
    contains-sort t (losers ds),
    contains-minus t selected (losers ds),
  );
  no_conflict = λ s t hs ht.
      survivors_free rules graph selected ds s t e n
        (sym (contains-sort s (minus selected (losers ds))) ∙ hs)
        (sym (contains-sort t (minus selected (losers ds))) ∙ ht);
  closed =
      first_broken-sort graph (minus selected (losers ds)) (sort (minus selected (losers ds))) ∙ b;
}

-- When `resolve` allows some tools, they are the selected ones less the dropped ones, no two of them
-- conflict in the graph, and none of them has a transitive dependency outside them.
pub resolve_settles :
    (rules : List Rule) (graph : ToolGraph) (selected : List String) (res : Resolved)
    → resolve rules graph selected ≡ ok res
    → res.status ≡ allowed
    → IsSettled graph selected res
resolve_settles rules graph selected res e a =
    let (ds, decided, settled) = resolve-inside rules graph selected res e in
    let (n, b, eq) = settle-allowed graph selected ds res settled a in
    subst (IsSettled graph selected) (sym eq)
      (unless_broken-IsSettled rules graph selected ds decided n b)

first_broken-each :
    (graph : ToolGraph) (set tools : List String) (t : String)
    → first_broken graph set tools ≡ ok none
    → Has tools t
    → (needed : List String) × (transitive_dependencies_for graph t ≡ ok needed)
      × (all_in needed set ≡ true)
unfolding first_broken contains
first_broken-each graph set [] t h k = ground (arith, k)
first_broken-each graph set (x ∷ tools) t h k =
    found (first_broken-each graph set tools t)
      (Planned-cases (transitive_dependencies_for graph x)) (String-discrete x t)
  where
    found :
        (first_broken graph set tools ≡ ok none
          → Has tools t
          → (needed : List String) × (transitive_dependencies_for graph t ≡ ok needed)
            × (all_in needed set ≡ true))
        → ((o : List String) × (transitive_dependencies_for graph x ≡ ok o))
          ⊎ ((f : PlanError) × (transitive_dependencies_for graph x ≡ fail f))
        → Dec (x ≡ t)
        → (needed : List String) × (transitive_dependencies_for graph t ≡ ok needed)
          × (all_in needed set ≡ true)
    found rest (inr (f, q)) d = ground (arith, q, h)
    found rest (inl (needed, q)) (yes e) = (
      needed,
      subst (λ x. transitive_dependencies_for graph x ≡ ok needed) e q,
      ground (arith, q, h),
    )
    found rest (inl (needed, q)) (no n) = rest (ground (arith, q, h)) (ground (arith, k, n))

pub Has-later : (x t : String) (l : List String) → Has l t → Has (x ∷ l) t
unfolding contains
Has-later x t l k = elim (String-discrete x t) [
  | yes e ↦ ground (arith, e, k)
  | no n ↦ ground (arith, n, k)
]

kept_in-empty :
    (seen l : List String)
    → ((t : String) → Has l t → contains String-discrete t seen ≡ false)
    → is_empty (kept_in seen l) ≡ true
unfolding kept_in is_empty contains
kept_in-empty seen [] h = refl
kept_in-empty seen (x ∷ l) h = ground (
  arith,
  h x (ite_same x true (contains String-discrete x l)),
  kept_in-empty seen l (λ t k. h t (Has-later x t l k)),
)

module _ (max_parallelism : ℕ) (graph : ToolGraph) (effects : Effects) where
  closure_check-passes :
      (set tools : List String)
      → ((t : String)
          → Has tools t
          → (needed : List String) × (transitive_dependencies_for graph t ≡ ok needed)
            × (all_in needed set ≡ true))
      → closure_check max_parallelism graph effects set tools ≡ ok tt
  unfolding closure_check contains
  closure_check-passes set [] h = refl
  closure_check-passes set (x ∷ tools) h =
      let (needed, q, inside) = h x (ite_same x true (contains String-discrete x tools)) in
      ground (arith, q, inside, closure_check-passes set tools (λ t k. h t (Has-later x t tools k)))

  conflict_check-passes :
      (set tools : List String)
      → ((s t : String)
          → Has set s
          → Has set t
          → contains String-discrete t (conflicts_for graph s) ≡ false)
      → ((s : String) → Has tools s → Has set s)
      → conflict_check max_parallelism graph effects set tools ≡ ok tt
  unfolding conflict_check contains
  conflict_check-passes set [] free sub = refl
  conflict_check-passes set (x ∷ tools) free sub = ground (
    arith,
    kept_in-empty (conflicts_for graph x) set
        (λ t k. free x t (sub x (ite_same x true (contains String-discrete x tools))) k),
    conflict_check-passes set tools free (λ s k. sub s (Has-later x s tools k)),
  )

  -- The tools that `resolve` allows pass the checks that `plan` makes of them next, whatever their
  -- effects: they hold their dependencies and have no unresolved conflict.
  pub resolved_tools_pass_checks :
      (rules : List Rule) (selected : List String) (res : Resolved)
      → resolve rules graph selected ≡ ok res
      → res.status ≡ allowed
      → (closure_check max_parallelism graph effects res.selected_tools (sort res.selected_tools)
          ≡ ok tt)
        × (conflict_check max_parallelism graph effects res.selected_tools (sort res.selected_tools)
            ≡ ok tt)
  resolved_tools_pass_checks rules selected res e a =
      let settled = resolve_settles rules graph selected res e a in
      (
        closure_check-passes res.selected_tools (sort res.selected_tools) (λ t k.
            first_broken-each graph res.selected_tools res.selected_tools t settled.closed
              (sym (contains-sort t res.selected_tools) ∙ k)),
        conflict_check-passes res.selected_tools (sort res.selected_tools) settled.no_conflict
            (λ s k. sym (contains-sort s res.selected_tools) ∙ k),
      )
