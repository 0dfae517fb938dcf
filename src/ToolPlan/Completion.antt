-- ===== src/ToolPlan/Completion.antt =====
-- When `ReadOnlyParallelToolScheduler.plan` returns a plan.
use nonebot_plugin_moellmcha.Prelude.{
  ℕ, zero, suc, ◌+◌, ◌<◌, ◌≡◌, ◌≢◌, inl, inr, refl, subst, arith, true, false, List, [], ◌∷◌, ◌++◌,
  String, String-discrete, length, reverse, contains, Bool-cases,
}
use nonebot_plugin_moellmcha.ToolPlan.Graph.{
  same_relation, Edge, is, ToolGraph, sort, targets_of, dependencies_for, conflicts_for, is_member,
}
use nonebot_plugin_moellmcha.ToolPlan.Order.{
  out_of_fuel, ok, fail, is_empty, kept_in, close_over, work, in_order, transitive_dependencies_for,
}
use nonebot_plugin_moellmcha.ToolPlan.Scheduler.{
  Batch, Effects, all_in, is_distinct, names_of, and_then, closure_check, conflict_check,
  input_check, plan_checked, plan,
}
use nonebot_plugin_moellmcha.ToolPlan.Termination.{transitive_dependencies_terminate}
use nonebot_plugin_moellmcha.ToolPlan.Batches.{Has, contains-append, contains-sort}
use nonebot_plugin_moellmcha.ToolPlan.Closure.{
  Inside, Inside-all_in, all_in-Inside, Has-head, Has-tail, contains-reverse, transitive-Inside,
}
use nonebot_plugin_moellmcha.ToolPlan.Topological.{topological_order-IsTopological}
use nonebot_plugin_moellmcha.ToolPlan.Validation.{has_edge, make_graph}
use nonebot_plugin_moellmcha.ToolPlan.Consistency.{IsValidated, make_graph-IsValidated}
use nonebot_plugin_moellmcha.ToolPlan.Ready.{plan_batches_completes}

has_edge-head : (e : Edge) (es : List Edge) → has_edge e (e ∷ es) ≡ true
unfolding has_edge is same_relation
has_edge-head e es = elim (String-discrete e.source e.source) [
  | yes p ↦ elim (String-discrete e.target e.target) [
    | yes q ↦ ground (arith, p, q)
    | no n ↦ absurd (n refl)
  ]
  | no n ↦ absurd (n refl)
]

has_edge-tail : (e f : Edge) (es : List Edge) → has_edge e es ≡ true → has_edge e (f ∷ es) ≡ true
unfolding has_edge
has_edge-tail e f es h = ground (arith, h)

targets-known :
    (t x : String) (tools : List String) (es : List Edge)
    → ((e : Edge) → has_edge e es ≡ true → Has tools e.target)
    → Has (targets_of t es) x
    → Has tools x
unfolding targets_of contains
targets-known t x tools [] known k = absurd (ground (arith, k))
targets-known t x tools (e ∷ es) known k = elim (String-discrete e.target x) [
  | yes q ↦ subst (Has tools) q (known e (has_edge-head e es))
  | no n ↦
      targets-known t x tools es (λ f h. known f (has_edge-tail f e es h)) (ground (arith, k, n))
]

module _ (g : ToolGraph) (valid : IsValidated g) where
  known_dependencies : (t : String) → Inside (dependencies_for g t) g.tools
  unfolding dependencies_for
  known_dependencies t x k = targets-known t x g.tools g.edges (λ e h. (valid.ends_known e h).1) k

  close_over-known :
      (fuel : ℕ) (seen pending : List String)
      → Inside pending g.tools
      → close_over fuel g seen pending ≢ fail out_of_fuel
      → (r : List String) × (close_over fuel g seen pending ≡ ok r)
  unfolding close_over is_member
  close_over-known fuel seen [] inside enough = (seen, refl)
  close_over-known zero seen (d ∷ pending) inside enough = absurd (enough refl)
  close_over-known (suc fuel) seen (d ∷ pending) inside enough =
      elim (Bool-cases (contains String-discrete d seen)) [
        | inl b ↦
            let (r, e) =
              close_over-known fuel seen pending later (λ q. enough (ground (arith, b, q))) in
            (r, ground (arith, b, e))
        | inr b ↦
            let known : Has g.tools d = inside d (Has-head d pending) in
            let (r, e) =
              close_over-known fuel (d ∷ seen) (reverse (dependencies_for g d) ++ pending) next
                (λ q. enough (ground (arith, b, known, q))) in
            (r, ground (arith, b, known, e))
      ]
    where
      later : Inside pending g.tools
      later t k = inside t (Has-tail d t pending k)

      next : Inside (reverse (dependencies_for g d) ++ pending) g.tools
      next t k = elim (Bool-cases (contains String-discrete t (dependencies_for g d))) [
        | inl q ↦ known_dependencies d t q
        | inr q ↦ later t (
            ground (
              arith,
              k,
              q,
              contains-append t (reverse (dependencies_for g d)) pending,
              contains-reverse t (dependencies_for g d),
            ))
      ]

  transitive_dependencies_found :
      (tool : String)
      → Has g.tools tool
      → (names : List String) × (transitive_dependencies_for g tool ≡ ok names)
  unfolding transitive_dependencies_for in_order is_member
  transitive_dependencies_found tool h =
      let fuel = length (dependencies_for g tool) + work g [] g.tools in
      let (order, sorted) = valid.no_cycle in
      let inside : Inside (reverse (dependencies_for g tool)) g.tools = λ t k.
        known_dependencies tool t
          (ground (arith, k, contains-reverse t (dependencies_for g tool))) in
      let (seen, q) =
        close_over-known fuel [] (reverse (dependencies_for g tool)) inside
          (λ r. transitive_dependencies_terminate g tool (ground (arith, h, r))) in
      (kept_in seen order, ground (arith, h, q, sorted))

-- the tools that can be planned together
pub record IsPlannable (g : ToolGraph) (effects : Effects) (selected : List String) : Type 0 where
  pub listed_once : is_distinct selected ≡ true
  pub all_known : all_in selected g.tools ≡ true
  pub effects_known : all_in selected (names_of effects) ≡ true
  pub effects_selected : all_in (names_of effects) selected ≡ true
  pub dependencies_selected :
      (t : String) → Has selected t → all_in (dependencies_for g t) selected ≡ true
  pub no_conflict :
      (s t : String)
      → Has selected s
      → Has selected t
      → contains String-discrete t (conflicts_for g s) ≡ false

kept_in-empty :
    (l selected : List String)
    → ((t : String) → Has selected t → contains String-discrete t l ≡ false)
    → is_empty (kept_in l selected) ≡ true
unfolding kept_in is_empty
kept_in-empty l [] h = refl
kept_in-empty l (x ∷ selected) h = ground (
  arith,
  h x (Has-head x selected),
  kept_in-empty l selected (λ t k. h t (Has-tail x t selected k)),
)

module _ (max_parallelism : ℕ) (g : ToolGraph) (effects : Effects) (valid : IsValidated g)
    (selected : List String) (h : IsPlannable g effects selected) where
  closed : (t : String) → Has selected t → Inside (dependencies_for g t) selected
  closed t k = all_in-Inside (dependencies_for g t) selected (h.dependencies_selected t k)

  closure_check-passes :
      (tools : List String)
      → Inside tools selected
      → closure_check max_parallelism g effects selected tools ≡ ok tt
  unfolding closure_check
  closure_check-passes [] inside = refl
  closure_check-passes (t ∷ tools) inside =
      let chosen : Has selected t = inside t (Has-head t tools) in
      let (names, found) =
        transitive_dependencies_found g valid t
          (all_in-Inside selected g.tools h.all_known t chosen) in
      let needed =
        Inside-all_in names selected
          (transitive-Inside g selected closed t names (closed t chosen) found) in
      let rest = closure_check-passes tools (λ s k. inside s (Has-tail t s tools k)) in
      ground (arith, found, needed, rest)

  conflict_check-passes :
      (tools : List String)
      → Inside tools selected
      → conflict_check max_parallelism g effects selected tools ≡ ok tt
  unfolding conflict_check
  conflict_check-passes [] inside = refl
  conflict_check-passes (t ∷ tools) inside = ground (
    arith,
    kept_in-empty (conflicts_for g t) selected
        (λ s k. h.no_conflict t s (inside t (Has-head t tools)) k),
    conflict_check-passes tools (λ s k. inside s (Has-tail t s tools k)),
  )

  input_check-passes : input_check max_parallelism g effects selected ≡ ok tt
  unfolding input_check
  input_check-passes =
      ground (arith, h.listed_once, h.all_known, h.effects_known, h.effects_selected)

  sort-Inside : Inside (sort selected) selected
  sort-Inside t k = ground (arith, k, contains-sort t selected)

  plan_checked-returns :
      0 < max_parallelism
      → (batches : List Batch) × (plan_checked max_parallelism g effects selected ≡ ok batches)
  unfolding plan_checked and_then
  plan_checked-returns pos =
      let (order, found) = valid.no_cycle in
      let (sorted, all) = topological_order-IsTopological g.edges g.tools valid.once order found in
      let (batches, e) =
        plan_batches_completes max_parallelism g effects selected closed (length selected) order
          selected [] pos (omega arith) sorted
          (λ t k. all t (all_in-Inside selected g.tools h.all_known t k)) (λ t k. k)
          (λ t k. inl k) in
      (
        batches,
        rw
            (
              closure_check-passes (sort selected) sort-Inside,
              conflict_check-passes (sort selected) sort-Inside,
              found,
            )
            e,
      )

  plan-returns :
      0 < max_parallelism
      → (batches : List Batch) × (plan max_parallelism g effects selected ≡ ok batches)
  unfolding plan and_then
  plan-returns pos = elim (Bool-cases (is_empty selected)) [
    | inl b ↦ ([], rw (input_check-passes, b) refl)
    | inr b ↦ let (batches, e) = plan_checked-returns pos in (batches, rw (input_check-passes, b) e)
  ]

-- On a graph that `__post_init__` let pass, for a positive parallelism, `plan` returns batches for every selection
-- that lists no tool twice, has tools of the graph only, with effects for exactly these tools, holds what each of
-- its tools directly depends on, and has no two tools that the graph declares in conflict: there is always a ready
-- tool, and no error is raised.
pub plan_completes :
    (max_parallelism : ℕ) (tools : List String) (edges : List Edge) (confirmation : List String)
    (capabilities : List (String × List String)) (g : ToolGraph) (effects : Effects)
    (selected : List String)
    → make_graph tools edges confirmation capabilities ≡ ok g
    → 0 < max_parallelism
    → IsPlannable g effects selected
    → (batches : List Batch) × (plan max_parallelism g effects selected ≡ ok batches)
plan_completes max_parallelism tools edges confirmation capabilities g effects selected made pos h =
    plan-returns max_parallelism g effects
      (make_graph-IsValidated tools edges confirmation capabilities g made) selected h pos
