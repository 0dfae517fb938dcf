-- ===== src/ToolPlan/Topological.antt =====
-- What `_topological_order` starts from, and the order that it returns.
use nonebot_plugin_moellmcha.Prelude.{
  ◌≤◌, ◌≡◌, inl, inr, refl, subst, arith, none, some, List, [], ◌∷◌, String, String-discrete,
  if◌then◌else◌, length, contains, lookup, Bool-cases,
}
use nonebot_plugin_moellmcha.ToolPlan.Graph.{Edge, targets_of}
use nonebot_plugin_moellmcha.ToolPlan.Order.{
  ok, to_set, rows_of, is_empty, without_rows, take_ready, all_ordered, topological_order,
}
use nonebot_plugin_moellmcha.ToolPlan.Termination.{Planned-cases}
use nonebot_plugin_moellmcha.ToolPlan.Batches.{Has}
use nonebot_plugin_moellmcha.ToolPlan.Plan.{same_ok}
use nonebot_plugin_moellmcha.ToolPlan.Closure.{Inside}
use nonebot_plugin_moellmcha.ToolPlan.Counting.{count, contains-count, contains-to_set, covers}
use nonebot_plugin_moellmcha.ToolPlan.Kahn.{is_empty-eq, IsTopological}
use nonebot_plugin_moellmcha.ToolPlan.Relaxing.{IsSorting}
use nonebot_plugin_moellmcha.ToolPlan.Sorted.{take_ready-order}

module _ (edges : List Edge) where
  lookup-rows_of :
      (t : String) (tools : List String)
      → lookup String-discrete t (rows_of edges tools)
        ≡ (if contains String-discrete t tools then some (to_set (targets_of t edges)) else none)
  unfolding lookup rows_of contains
  lookup-rows_of t [] = refl
  lookup-rows_of t (x ∷ tools) = elim (String-discrete x t) [
    | yes e ↦
        ground
          (arith, e, subst (λ y. to_set (targets_of x edges) ≡ to_set (targets_of y edges)) e refl)
    | no n ↦ ground (arith, n, lookup-rows_of t tools)
  ]

  count-without_rows :
      (t : String) (tools : List String)
      → count t (without_rows (rows_of edges tools)) ≤ count t tools
  unfolding count rows_of without_rows
  count-without_rows t [] = omega arith
  count-without_rows t (x ∷ tools) = ground (arith, count-without_rows t tools)

  free-row :
      (t : String) (tools : List String)
      → Has (without_rows (rows_of edges tools)) t
      → to_set (targets_of t edges) ≡ []
  unfolding contains rows_of without_rows
  free-row t [] k = absurd (ground (arith, k))
  free-row t (x ∷ tools) k = elim (Bool-cases (is_empty (to_set (targets_of x edges)))) [
    | inl b ↦ elim (String-discrete x t) [
      | yes e ↦
          subst (λ y. to_set (targets_of y edges) ≡ []) e
            (is_empty-eq (to_set (targets_of x edges)) b)
      | no n ↦ free-row t tools (ground (arith, k, b, n))
    ]
    | inr b ↦ free-row t tools (ground (arith, k, b))
  ]

  module _ (tools : List String) (distinct : (t : String) → count t tools ≤ 1) where
    abbrev Found : String → List String → Type 0
    Found t row = lookup String-discrete t (rows_of edges tools) ≡ some row

    Found-known : (t : String) (row : List String) → Found t row → Has tools t
    Found-known t row q = ground (arith, q, lookup-rows_of t tools)

    Found-row : (t : String) (row : List String) → Found t row → to_set (targets_of t edges) ≡ row
    Found-row t row q = ground (arith, q, Found-known t row q, lookup-rows_of t tools)

    free-Found : (t : String) → Has (without_rows (rows_of edges tools)) t → Found t []
    free-Found t k =
        let known : Has tools t = ground (
          arith,
          k,
          count-without_rows t tools,
          contains-count t tools,
          contains-count t (without_rows (rows_of edges tools)),
        ) in
        ground (arith, known, lookup-rows_of t tools, free-row t tools k)

    start-IsSorting :
        IsSorting tools edges (rows_of edges tools) (without_rows (rows_of edges tools)) []
    unfolding count contains
    start-IsSorting = record {
      rows_left = λ t row q x.
          rw (← Found-row t row q) (ground (arith, contains-to_set x (targets_of t edges)));
      rows_known = Found-known;
      ready_free = free-Found;
      ordered_free = λ t k. absurd (ground (arith, k));
      once = λ t. omega (arith, distinct t, count-without_rows t tools);
      topological = tt;
    }

    -- The order has every tool once, after those it depends on.
    pub topological_order-IsTopological :
        (order : List String)
        → topological_order tools edges ≡ ok order
        → IsTopological edges [] order × Inside tools order
    unfolding topological_order all_ordered
    topological_order-IsTopological order h =
        let rows = rows_of edges tools in
        elim (Planned-cases (take_ready (length tools) edges rows (without_rows rows) [])) [
          | inl (l, q) ↦
              let same : l ≡ order = same_ok (ground (arith, h, q)) in
              let full : length l ≡ length tools = ground (arith, h, q) in
              let (sorted, once, inside) =
                take_ready-order tools edges (length tools) rows (without_rows rows) [] l
                  start-IsSorting q in
              subst (λ m. IsTopological edges [] m × Inside tools m) same
                (sorted, covers l tools once inside (omega (arith, full)))
          | inr (f, q) ↦ absurd (ground (arith, h, q))
        ]
