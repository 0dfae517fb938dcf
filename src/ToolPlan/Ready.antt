-- ===== src/ToolPlan/Ready.antt =====
-- `ReadOnlyParallelToolScheduler.plan` always finds a tool that is ready.
use nonebot_plugin_moellmcha.Prelude.{
  ℕ, zero, suc, ◌≤◌, ◌<◌, ◌≡◌, ◌≢◌, ◌⊎◌, inl, inr, refl, sym, subst, arith, true, false, List, [],
  ◌∷◌, ◌++◌, String, String-discrete, length, contains, Bool-cases,
}
use nonebot_plugin_moellmcha.ToolPlan.Graph.{ToolGraph, dependencies_for}
use nonebot_plugin_moellmcha.ToolPlan.Order.{no_ready_tool, Planned, ok, fail, kept_in}
use nonebot_plugin_moellmcha.ToolPlan.Scheduler.{
  Batch, Effects, minus, prepend, is_ready, ready_tools, batch_tools, make_batch, plan_batches,
}
use nonebot_plugin_moellmcha.ToolPlan.Batches.{Has, contains-append}
use nonebot_plugin_moellmcha.ToolPlan.Schedule.{make_batch-IsBatch}
use nonebot_plugin_moellmcha.ToolPlan.Plan.{contains-minus, List-cases, IsBatch-shrinks}
use nonebot_plugin_moellmcha.ToolPlan.Closure.{Inside, Inside-all_in, Has-head}
use nonebot_plugin_moellmcha.ToolPlan.Kahn.{contains-nil, IsTopological}

module _ (max_parallelism : ℕ) (graph : ToolGraph) (effects : Effects) (selected : List String)
    (closed : (t : String) → Has selected t → Inside (dependencies_for graph t) selected) where
  -- each selected tool has run or is still to run
  abbrev Covered : List String → List String → Type 0
  Covered remaining completed = (t : String) → Has selected t → Has remaining t ⊎ Has completed t

  ready_now :
      (remaining completed before : List String) (t : String)
      → Has selected t
      → Has remaining t
      → Inside (dependencies_for graph t) before
      → ((s : String) → Has selected s → Has before s → Has completed s)
      → is_ready max_parallelism graph effects remaining completed t ≡ true
  unfolding is_ready
  ready_now remaining completed before t hs hr inside done = ground (
    arith,
    hr,
    Inside-all_in (dependencies_for graph t) completed
        (λ s k. done s (closed t hs s k) (inside s k)),
  )

  done_after :
      (completed before : List String) (t : String)
      → ((s : String) → Has selected s → Has before s → Has completed s)
      → (Has selected t → Has completed t)
      → (s : String) → Has selected s
      → Has (before ++ t ∷ []) s
      → Has completed s
  unfolding contains
  done_after completed before t done this s hs k = elim (String-discrete t s) [
    | yes e ↦ subst (Has completed) e (this (subst (Has selected) (sym e) hs))
    | no n ↦ done s hs (ground (arith, k, n, contains-append s before (t ∷ [])))
  ]

  later_in :
      (t x : String) (order l : List String)
      → Has (t ∷ order) x
      → Has l x
      → contains String-discrete t l ≡ false
      → Has order x
  unfolding contains
  later_in t x order l h k n = elim (String-discrete t x) [
    | yes e ↦ absurd (ground (arith, k, subst (λ y. contains String-discrete y l ≡ false) e n))
    | no m ↦ ground (arith, h, m)
  ]

  -- The first selected tool in the order that is still to run is ready.
  some_ready :
      (remaining completed before order : List String) (x : String)
      → Covered remaining completed
      → IsTopological graph.edges before order
      → ((s : String) → Has selected s → Has before s → Has completed s)
      → Has remaining x
      → Has selected x
      → Has order x
      → ready_tools max_parallelism graph effects remaining completed (kept_in selected order) ≢ []
  unfolding ready_tools kept_in contains dependencies_for is_ready
  some_ready remaining completed before [] x covered sorted done hr hs ho e =
      absurd (ground (arith, ho))
  some_ready remaining completed before (t ∷ order) x covered sorted done hr hs ho e =
      elim (Bool-cases (contains String-discrete t selected)) [
        | inl b ↦ elim (Bool-cases (contains String-discrete t remaining)) [
          | inl r ↦
              absurd
                (ground (arith, e, b, ready_now remaining completed before t b r sorted.0 done))
          | inr r ↦ elim (covered t b) [
            | inl r' ↦ absurd (ground (arith, r, r'))
            | inr c ↦
                some_ready remaining completed (before ++ t ∷ []) order x covered sorted.1
                  (done_after completed before t done (λ _. c)) hr hs
                  (later_in t x order remaining ho hr r) (ground (arith, e, b, r))
          ]
        ]
        | inr b ↦
            some_ready remaining completed (before ++ t ∷ []) order x covered sorted.1
              (done_after completed before t done (λ k. absurd (ground (arith, b, k)))) hr hs
              (later_in t x order selected ho hs b) (ground (arith, e, b))
      ]

  -- the loop's next pass
  Covered-step :
      (remaining completed ran : List String)
      → Covered remaining completed
      → Covered (minus remaining ran) (ran ++ completed)
  Covered-step remaining completed ran covered t hs = elim (covered t hs) [
    | inl r ↦ elim (Bool-cases (contains String-discrete t ran)) [
      | inl b ↦ inr (ground (arith, b, contains-append t ran completed))
      | inr b ↦ inl (ground (arith, r, b, contains-minus t remaining ran))
    ]
    | inr c ↦ inr (ground (arith, c, contains-append t ran completed))
  ]

  prepend-ok :
      (batch : Batch) (r : Planned (List Batch))
      → ((batches : List Batch) × (r ≡ ok batches))
      → (batches : List Batch) × (prepend batch r ≡ ok batches)
  unfolding prepend
  prepend-ok batch r (batches, e) = (batch ∷ batches, rw e refl)

  -- Enough fuel, an order of the tools and selected tools that hold what they depend on: the loop returns batches.
  pub plan_batches_completes :
      (fuel : ℕ) (order remaining completed : List String)
      → 0 < max_parallelism
      → length remaining ≤ fuel
      → IsTopological graph.edges [] order
      → Inside selected order
      → Inside remaining selected
      → Covered remaining completed
      → (batches : List Batch) × (plan_batches max_parallelism graph effects fuel selected
            (kept_in selected order)
            remaining
            completed
          ≡ ok batches)
  unfolding plan_batches
  plan_batches_completes fuel order [] completed pos le sorted known inside covered = ([], refl)
  plan_batches_completes zero order (x ∷ remaining) completed pos le sorted known inside covered =
      absurd (omega (arith, le))
  plan_batches_completes (suc fuel) order (x ∷ remaining) completed pos le sorted known inside
        covered =
      elim (List-cases ready) [
        | inl n ↦ absurd (
            some_ready (x ∷ remaining) completed [] order x covered sorted
              (λ s _ k. absurd (ground (arith, k, contains-nil s))) (Has-head x remaining)
              (inside x (Has-head x remaining)) (known x (inside x (Has-head x remaining))) n)
        | inr (first, others, n) ↦
            let batch = next first others in
            let is_batch =
              make_batch-IsBatch max_parallelism graph effects selected (kept_in selected order)
                completed (x ∷ remaining) first others pos n in
            subst (λ r. (batches : List Batch) × (step r ≡ ok batches)) (sym n)
              (prepend-ok batch _ (
                plan_batches_completes fuel order (minus (x ∷ remaining) batch.tools)
                  (batch.tools ++ completed) pos
                  (omega (
                    arith,
                    le,
                    IsBatch-shrinks max_parallelism graph effects completed (x ∷ remaining) batch
                        is_batch,
                  ))
                  sorted known
                  (λ t k.
                    inside t (ground (arith, k, contains-minus t (x ∷ remaining) batch.tools)))
                  (Covered-step (x ∷ remaining) completed batch.tools covered)))
      ]
    where
      ready : List String
      ready =
          ready_tools max_parallelism graph effects (x ∷ remaining) completed
            (kept_in selected order)

      next : String → List String → Batch
      next first others =
          make_batch max_parallelism graph effects
            (batch_tools max_parallelism graph effects selected first others)

      step : List String → Planned (List Batch)
      step r = elim r [
        | [] ↦ fail no_ready_tool
        | first ∷ others ↦ prepend (next first others) (
            plan_batches max_parallelism graph effects fuel selected (kept_in selected order)
              (minus (x ∷ remaining) (next first others).tools)
              ((next first others).tools ++ completed))
      ]
