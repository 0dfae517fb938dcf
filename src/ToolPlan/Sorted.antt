-- ===== src/ToolPlan/Sorted.antt =====
-- The outer loop of `_topological_order`, and what the order that it returns is.
use nonebot_plugin_moellmcha.Prelude.{
  ℕ, zero, suc, ◌+◌, ◌≤◌, ◌≡◌, inl, inr, sym, subst, arith, true, false, not, ◌&&◌, some, List, [],
  ◌∷◌, ◌++◌, String, String-discrete, if◌then◌else◌, contains, lookup, Bool-cases, Option-cases,
}
use nonebot_plugin_moellmcha.ToolPlan.Graph.{Edge, is, sort, targets_of, sources_of}
use nonebot_plugin_moellmcha.ToolPlan.Order.{ok, Rows, to_set, remove, relax, pop_min, take_ready}
use nonebot_plugin_moellmcha.ToolPlan.Termination.{Planned-cases}
use nonebot_plugin_moellmcha.ToolPlan.Batches.{Has, contains-append, contains-sort}
use nonebot_plugin_moellmcha.ToolPlan.Plan.{same_ok}
use nonebot_plugin_moellmcha.ToolPlan.Closure.{Inside, Has-head}
use nonebot_plugin_moellmcha.ToolPlan.Counting.{
  count, contains-count, count-append, count-sort, count-to_set-le, contains-to_set, count-pop_min,
  contains-sources_of,
}
use nonebot_plugin_moellmcha.ToolPlan.Kahn.{
  remove-lookup, contains-nil, IsTopological, IsTopological-append,
}
use nonebot_plugin_moellmcha.ToolPlan.Relaxing.{IsSorting, IsRelaxing, relax_one}

module _ (tools : List String) (edges : List Edge) where
  relax-IsRelaxing :
      (current : String) (ds : List String) (rows : Rows) (ready ordered : List String)
      (rows' : Rows) (ready' : List String)
      → ((t : String) → count t ds ≤ 1)
      → IsRelaxing tools edges current ds rows ready ordered
      → relax current ds rows ready ≡ ok (rows', ready')
      → IsRelaxing tools edges current [] rows' ready' ordered
  unfolding relax count
  relax-IsRelaxing current [] rows ready ordered rows' ready' distinct h e =
      let same : ◌≡◌ {A = Rows × List String} (rows, ready) (rows', ready') = same_ok e in
      subst (λ (r : Rows × List String). IsRelaxing tools edges current [] r.0 r.1 ordered) same h
  relax-IsRelaxing current (d ∷ ds) rows ready ordered rows' ready' distinct h e =
      elim (Option-cases (remove current d rows)) [
        | inl q ↦ absurd (ground (arith, e, q))
        | inr (r, q) ↦
            let (row, found, has, empty, after) = remove-lookup current d rows r.0 r.1 q in
            relax-IsRelaxing current ds r.0 (if r.1 then d ∷ ready else ready) ordered rows' ready'
              (λ t. omega (arith, distinct t))
              (relax_one tools edges current d ds rows r.0 r.1 ready ordered row distinct h found
                has empty after)
              (ground (arith, e, q))
      ]

  -- the tools that wait for one
  abbrev dependents : String → List String
  dependents current = sort (to_set (sources_of current edges))

  count_cons : (t y : String) (l : List String) → count t (y ∷ l) ≡ count t (y ∷ []) + count t l
  unfolding count
  count_cons t y l = omega arith

  not_waiting :
      (current t y : String)
      → is y current && not (contains String-discrete t (dependents current)) ≡ true
      → contains String-discrete y (targets_of t edges) ≡ false
  unfolding is
  not_waiting current t y k = elim (String-discrete y current) [
    | yes e ↦
        subst (λ z. contains String-discrete z (targets_of t edges) ≡ false) (sym e)
          (ground (
            arith,
            k,
            contains-sort t (to_set (sources_of current edges)),
            contains-to_set t (sources_of current edges),
            contains-sources_of t current edges,
          ))
    | no n ↦ absurd (ground (arith, n, k))
  ]

  -- `current` is taken from `ready`, and leaves `left`
  module _ (current : String) (rows : Rows) (ready left ordered : List String)
      (same : (t : String) → count t (current ∷ left) ≡ count t ready)
      (h : IsSorting tools edges rows ready ordered) where
    taken : (t : String) → Has (current ∷ left) t → lookup String-discrete t rows ≡ some []
    taken t k =
        h.ready_free t
          (ground (arith, k, same t, contains-count t ready, contains-count t (current ∷ left)))

    current_free : lookup String-discrete current rows ≡ some []
    current_free = taken current (Has-head current left)

    pub all_ordered_before : Inside (targets_of current edges) ordered
    all_ordered_before t k =
        ground (arith, k, h.rows_left current [] current_free t, contains-nil t)

    pub take-IsRelaxing : IsRelaxing tools edges current (dependents current) rows left ordered
    unfolding contains
    take-IsRelaxing = record {
      rows_left = λ t row q y. ground (arith, h.rows_left t row q y, not_waiting current t y);
      rows_known = h.rows_known;
      ready_free = λ t k. taken t (ground (arith, k));
      ordered_free = λ t k. elim (Bool-cases (contains String-discrete t ordered)) [
        | inl b ↦ h.ordered_free t b
        | inr b ↦ taken t (ground (arith, b, k, contains-append t ordered (current ∷ [])))
      ];
      once = λ t. omega (
        arith,
        h.once t,
        same t,
        count-append t ordered (current ∷ []),
        count_cons t current left,
      );
    }

  relaxed-IsSorting :
      (current : String) (rows : Rows) (ready ordered : List String)
      → IsRelaxing tools edges current [] rows ready ordered
      → IsTopological edges [] ordered
      → Inside (targets_of current edges) ordered
      → IsSorting tools edges rows ready (ordered ++ current ∷ [])
  unfolding is contains
  relaxed-IsSorting current rows ready ordered h topological inside = record {
    rows_left = λ t row q x.
        ground
          (arith, contains-append x ordered (current ∷ []), h.rows_left t row q x, contains-nil t);
    rows_known = h.rows_known;
    ready_free = h.ready_free;
    ordered_free = h.ordered_free;
    once = h.once;
    topological = IsTopological-append edges [] ordered current topological inside;
  }

  pub take_ready-order :
      (fuel : ℕ) (rows : Rows) (ready ordered order : List String)
      → IsSorting tools edges rows ready ordered
      → take_ready fuel edges rows ready ordered ≡ ok order
      → IsTopological edges [] order × ((t : String) → count t order ≤ 1) × Inside order tools
  unfolding take_ready
  take_ready-order fuel rows [] ordered order h e =
      let same : ordered ≡ order = same_ok e in
      subst (λ l. IsTopological edges [] l × ((t : String) → count t l ≤ 1) × Inside l tools) same
        (
          h.topological,
          (λ t. omega (arith, h.once t)),
          λ t k. h.rows_known t [] (h.ordered_free t k),
        )
  take_ready-order zero rows (x ∷ ready) ordered order h e = absurd (ground (arith, e))
  take_ready-order (suc fuel) rows (x ∷ ready) ordered order h e =
      let m = pop_min x ready in
      let start =
        take-IsRelaxing m.0 rows (x ∷ ready) m.1 ordered (λ t. count-pop_min t x ready) h in
      let inside =
        all_ordered_before m.0 rows (x ∷ ready) m.1 ordered (λ t. count-pop_min t x ready) h in
      elim (Planned-cases (relax m.0 (dependents m.0) rows m.1)) [
        | inl (r, q) ↦
            take_ready-order fuel r.0 r.1 (ordered ++ m.0 ∷ []) order
              (relaxed-IsSorting m.0 r.0 r.1 ordered
                (relax-IsRelaxing m.0 (dependents m.0) rows m.1 ordered r.0 r.1
                  (λ t. omega (
                    arith,
                    count-sort t (to_set (sources_of m.0 edges)),
                    count-to_set-le t (sources_of m.0 edges),
                  ))
                  start q)
                h.topological inside)
              (ground (arith, e, q))
        | inr (f, q) ↦ absurd (ground (arith, e, q))
      ]
