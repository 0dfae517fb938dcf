-- ===== src/ToolPlan/Safety.antt =====
-- What `plan` promises of the schedule that it returns.
use nonebot_plugin_moellmcha.Prelude.{
  ℕ, ◌+◌, ◌<◌, ◌≡◌, ◌≢◌, inl, inr, refl, sym, ◌∙◌, subst, arith, true, false, List, [], ◌∷◌, ◌++◌,
  String, String-discrete, if◌then◌else◌, length, contains, Bool-cases,
}
use nonebot_plugin_moellmcha.ToolPlan.Graph.{ToolGraph, sort, conflicts_for}
use nonebot_plugin_moellmcha.ToolPlan.Scheduler.{
  Batch, Effects, minus, plan_batches, closure_check, conflict_check, input_check, and_then,
  plan_checked, plan,
}
use nonebot_plugin_moellmcha.ToolPlan.Order.{
  out_of_fuel, Planned, ok, fail, is_empty, topological_order, transitive_dependencies_for, kept_in,
}
use nonebot_plugin_moellmcha.ToolPlan.Termination.{
  Planned-cases, same_failure, topological_order_terminates, transitive_dependencies_terminate,
}
use nonebot_plugin_moellmcha.ToolPlan.Batches.{Has, contains-sort}
use nonebot_plugin_moellmcha.ToolPlan.Schedule.{IsSchedule}
use nonebot_plugin_moellmcha.ToolPlan.Plan.{
  contains-minus, plan_batches-IsSchedule, plan_batches-fuel, same_ok,
}

-- the number of batches that run a tool
unfoldable pub runs : String → List Batch → ℕ
runs t [] = 0
runs t (b ∷ bs) = (if contains String-discrete t b.tools then 1 else 0) + runs t bs

pub and_then-ok :
    {A B : Type 0} (r : Planned A) (f : A → Planned B) (b : B)
    → and_then r f ≡ ok b
    → (a : A) × (r ≡ ok a) × (f a ≡ ok b)
unfolding and_then
and_then-ok (ok a) f b e = (a, refl, e)
and_then-ok (fail x) f b e = ground (arith, e)

pub and_then-fuel :
    {A B : Type 0} (r : Planned A) (f : A → Planned B)
    → r ≢ fail out_of_fuel
    → ((a : A) → f a ≢ fail out_of_fuel)
    → and_then r f ≢ fail out_of_fuel
unfolding and_then
and_then-fuel (ok a) f n m e = m a e
and_then-fuel (fail x) f n m e = n (same_failure x out_of_fuel e)

module _ (max_parallelism : ℕ) (graph : ToolGraph) (effects : Effects) where
  closure_check-fuel :
      (selected tools : List String)
      → closure_check max_parallelism graph effects selected tools ≢ fail out_of_fuel
  unfolding closure_check
  closure_check-fuel selected [] e = ground (arith, e)
  closure_check-fuel selected (t ∷ tools) e =
      elim (Planned-cases (transitive_dependencies_for graph t)) [
        | inl (needed, h) ↦ ground (arith, h, e, closure_check-fuel selected tools)
        | inr (f, h) ↦ ground (arith, h, e, transitive_dependencies_terminate graph t)
      ]

  conflict_check-fuel :
      (selected tools : List String)
      → conflict_check max_parallelism graph effects selected tools ≢ fail out_of_fuel
  unfolding conflict_check
  conflict_check-fuel selected [] e = ground (arith, e)
  conflict_check-fuel selected (t ∷ tools) e = ground (arith, e, conflict_check-fuel selected tools)

  input_check-fuel :
      (selected : List String)
      → input_check max_parallelism graph effects selected ≢ fail out_of_fuel
  unfolding input_check
  input_check-fuel selected e = ground (arith, e)

  plan_checked-fuel :
      (selected : List String)
      → 0 < max_parallelism
      → plan_checked max_parallelism graph effects selected ≢ fail out_of_fuel
  unfolding plan_checked
  plan_checked-fuel selected pos =
      and_then-fuel _ _ (closure_check-fuel selected (sort selected)) (λ _.
        and_then-fuel _ _ (conflict_check-fuel selected (sort selected)) (λ _.
          and_then-fuel _ _ (topological_order_terminates graph.tools graph.edges) (λ order.
            plan_batches-fuel max_parallelism graph effects (length selected) selected
              (kept_in selected order) selected [] pos (omega arith))))

  -- For a positive parallelism, planning any tools of any graph ends within its loops' fuel, the
  -- number of the tools and of the edges: the run never stops for lack of it.
  pub plan_terminates :
      (selected : List String)
      → 0 < max_parallelism
      → plan max_parallelism graph effects selected ≢ fail out_of_fuel
  unfolding plan
  plan_terminates selected pos = and_then-fuel _ _ (input_check-fuel selected) (λ _ e.
      elim (Bool-cases (is_empty selected)) [
        | inl b ↦ ground (arith, b, e)
        | inr b ↦ plan_checked-fuel selected pos (ground (arith, b, e))
      ])

  IsSchedule-runs :
      (t : String) (completed remaining : List String) (bs : List Batch)
      → IsSchedule max_parallelism graph effects completed remaining bs
      → runs t bs ≡ (if contains String-discrete t remaining then 1 else 0)
  unfolding IsSchedule runs contains
  IsSchedule-runs t completed remaining [] h = rw h refl
  IsSchedule-runs t completed remaining (b ∷ bs) h = ground (
    arith,
    IsSchedule-runs t (b.tools ++ completed) (minus remaining b.tools) bs h.1,
    contains-minus t remaining b.tools,
    h.0.still_to_run t,
  )

  -- what a plan that is returned has passed
  pub record Passed (selected : List String) (batches : List Batch) : Type 0 where
    pub schedule : IsSchedule max_parallelism graph effects [] selected batches
    pub no_conflict :
        (s t : String)
        → Has selected s
        → Has selected t
        → contains String-discrete t (conflicts_for graph s) ≡ false

  kept_in-contains :
      (t : String) (l selected : List String)
      → is_empty (kept_in l selected) ≡ true
      → Has selected t
      → contains String-discrete t l ≡ false
  unfolding kept_in contains is_empty
  kept_in-contains t l [] e h = ground (arith, h)
  kept_in-contains t l (x ∷ selected) e h = elim (String-discrete x t) [
    | yes q ↦ subst (λ x. contains String-discrete x l ≡ false) q (ground (arith, e))
    | no n ↦ kept_in-contains t l selected (ground (arith, e)) (ground (arith, h, n))
  ]

  conflict_check-ok :
      (s t : String) (selected tools : List String) (u : Unit {0})
      → conflict_check max_parallelism graph effects selected tools ≡ ok u
      → Has tools s
      → Has selected t
      → contains String-discrete t (conflicts_for graph s) ≡ false
  unfolding conflict_check contains
  conflict_check-ok s t selected [] u e h k = ground (arith, h)
  conflict_check-ok s t selected (x ∷ tools) u e h k = elim (String-discrete x s) [
    | yes q ↦
        subst (λ x. contains String-discrete t (conflicts_for graph x) ≡ false) q
          (kept_in-contains t (conflicts_for graph x) selected (ground (arith, e)) k)
    | no n ↦ conflict_check-ok s t selected tools u (ground (arith, e)) (ground (arith, h, n)) k
  ]

  plan_checked-Passed :
      (selected : List String) (batches : List Batch)
      → 0 < max_parallelism
      → plan_checked max_parallelism graph effects selected ≡ ok batches
      → Passed selected batches
  unfolding plan_checked
  plan_checked-Passed selected batches pos e =
      let (u, closed, e1) = and_then-ok closure (λ _. unconflicting) batches e in
      let (v, free, e2) = and_then-ok conflicts (λ _. ordered) batches e1 in
      let (order, sorted, e3) =
        and_then-ok (topological_order graph.tools graph.edges) in_batches batches e2 in
      record {
        schedule =
            plan_batches-IsSchedule max_parallelism graph effects (length selected) selected
              (kept_in selected order) selected [] batches pos e3;
        no_conflict = λ s t hs ht.
            conflict_check-ok s t selected (sort selected) v free (contains-sort s selected ∙ hs)
              ht;
      }
    where
      closure : Planned (Unit {0})
      closure = closure_check max_parallelism graph effects selected (sort selected)

      conflicts : Planned (Unit {0})
      conflicts = conflict_check max_parallelism graph effects selected (sort selected)

      in_batches : List String → Planned (List Batch)
      in_batches order =
          plan_batches max_parallelism graph effects (length selected) selected
            (kept_in selected order) selected []

      ordered : Planned (List Batch)
      ordered = and_then (topological_order graph.tools graph.edges) in_batches

      unconflicting : Planned (List Batch)
      unconflicting = and_then conflicts (λ _. ordered)

  is_empty-eq : (l : List String) → is_empty l ≡ true → l ≡ []
  unfolding is_empty
  is_empty-eq [] e = refl
  is_empty-eq (x ∷ l) e = ground (arith, e)

  nothing_selected :
      (selected : List String) (batches : List Batch)
      → selected ≡ []
      → [] ≡ batches
      → Passed selected batches
  unfolding IsSchedule contains
  nothing_selected selected batches n f =
      subst (λ l. Passed l batches) (sym n)
        (subst (Passed []) f
          (record { schedule = refl; no_conflict = λ s t hs ht. ground (arith, hs) }))

  plan-Passed :
      (selected : List String) (batches : List Batch)
      → 0 < max_parallelism
      → plan max_parallelism graph effects selected ≡ ok batches
      → Passed selected batches
  unfolding plan
  plan-Passed selected batches pos e =
      let (u, checked, e1) =
        and_then-ok (input_check max_parallelism graph effects selected) (λ _. rest) batches e in
      elim (Bool-cases (is_empty selected)) [
        | inl b ↦
            nothing_selected selected batches (is_empty-eq selected b)
              (same_ok (ground (arith, b, e1)))
        | inr b ↦ plan_checked-Passed selected batches pos (ground (arith, b, e1))
      ]
    where
      rest : Planned (List Batch)
      rest =
          if is_empty selected then ok [] else plan_checked max_parallelism graph effects selected

  -- When `plan` returns batches, for a positive parallelism, they are a schedule of the selected
  -- tools: each batch has between one and `max_parallelism` tools, all still to run, and all they
  -- depend on has run in earlier batches; the tools of a parallel batch are read-only, need no
  -- confirmation, and are pairwise declared parallel; after the last batch nothing remains.
  pub plan_schedules_safely :
      (selected : List String) (batches : List Batch)
      → 0 < max_parallelism
      → plan max_parallelism graph effects selected ≡ ok batches
      → IsSchedule max_parallelism graph effects [] selected batches
  plan_schedules_safely selected batches pos e = (plan-Passed selected batches pos e).schedule

  -- When `plan` returns batches, for a positive parallelism, each selected tool is in exactly one of
  -- them, and a tool that was not selected in none.
  pub plan-runs_each_once :
      (selected : List String) (batches : List Batch) (t : String)
      → 0 < max_parallelism
      → plan max_parallelism graph effects selected ≡ ok batches
      → runs t batches ≡ (if contains String-discrete t selected then 1 else 0)
  plan-runs_each_once selected batches t pos e =
      IsSchedule-runs t [] selected batches (plan-Passed selected batches pos e).schedule

  -- When `plan` returns batches, for a positive parallelism, no two of the selected tools conflict in
  -- the graph.
  pub plan_has_no_conflict :
      (selected : List String) (batches : List Batch) (s t : String)
      → 0 < max_parallelism
      → plan max_parallelism graph effects selected ≡ ok batches
      → contains String-discrete s selected ≡ true
      → contains String-discrete t selected ≡ true
      → contains String-discrete t (conflicts_for graph s) ≡ false
  plan_has_no_conflict selected batches s t pos e =
      (plan-Passed selected batches pos e).no_conflict s t
