-- ===== src/ToolPlan/Plan.antt =====
-- The main loop of `plan`: its batches make a schedule, and its passes are finitely many.
use nonebot_plugin_moellmcha.Prelude.{
  ℕ, zero, suc, ◌≤◌, ◌<◌, ◌≡◌, ◌≢◌, ◌⊎◌, inl, inr, refl, sym, subst, arith, not, ◌&&◌, List, [],
  ◌∷◌, ◌++◌, String, String-discrete, length, contains, discard, contains-discard, Bool-cases,
}
use nonebot_plugin_moellmcha.ToolPlan.Graph.{ToolGraph}
use nonebot_plugin_moellmcha.ToolPlan.Scheduler.{
  Batch, Effects, minus, ready_tools, batch_tools, make_batch, prepend, plan_batches,
}
use nonebot_plugin_moellmcha.ToolPlan.Order.{out_of_fuel, no_ready_tool, Planned, ok, fail}
use nonebot_plugin_moellmcha.ToolPlan.Termination.{same_failure}
use nonebot_plugin_moellmcha.ToolPlan.Batches.{Has}
use nonebot_plugin_moellmcha.ToolPlan.Schedule.{IsBatch, IsSchedule, make_batch-IsBatch}

pub contains-minus :
    (t : String) (set l : List String)
    → contains String-discrete t (minus set l)
      ≡ contains String-discrete t set && not (contains String-discrete t l)
unfolding minus contains
contains-minus t set [] = ground arith
contains-minus t set (x ∷ l) =
    ground (arith, contains-minus t set l, contains-discard String-discrete x t (minus set l))

length-discard-le : (x : String) (l : List String) → length (discard String-discrete x l) ≤ length l
unfolding discard
length-discard-le x [] = ground arith
length-discard-le x (y ∷ l) = ground (arith, length-discard-le x l)

length-discard-lt :
    (x : String) (l : List String) → Has l x → length (discard String-discrete x l) < length l
unfolding discard contains
length-discard-lt x [] h = ground (arith, h)
length-discard-lt x (y ∷ l) h = ground (arith, h, length-discard-lt x l, length-discard-le x l)

length-minus-le : (set l : List String) → length (minus set l) ≤ length set
unfolding minus
length-minus-le set [] = ground arith
length-minus-le set (x ∷ l) =
    omega (arith, length-minus-le set l, length-discard-le x (minus set l))

length-minus-lt :
    (t : String) (set l : List String) → Has l t → Has set t → length (minus set l) < length set
unfolding minus contains
length-minus-lt t set [] h m = ground (arith, h)
length-minus-lt t set (x ∷ l) h m = elim (Bool-cases (contains String-discrete t l)) [
  | inl b ↦ omega (arith, length-minus-lt t set l b m, length-discard-le x (minus set l))
  | inr b ↦ elim (String-discrete x t) [
    | yes e ↦ omega (
      arith,
      length-discard-lt x (minus set l)
          (subst (Has (minus set l)) (sym e) (ground (arith, contains-minus t set l, m, b))),
      length-minus-le set l,
    )
    | no n ↦ ground (arith, h, b, n)
  ]
]

pub same_ok : {A : Type 0} {a b : A} → ◌≡◌ {A = Planned A} (ok a) (ok b) → a ≡ b
same_ok h = ground (arith, h)

pub List-cases : (l : List String) → (l ≡ []) ⊎ ((x : String) × (xs : List String) × (l ≡ x ∷ xs))
List-cases [] = inl refl
List-cases (x ∷ xs) = inr (x, xs, refl)

Has-head : (t : String) (ts : List String) → Has (t ∷ ts) t
unfolding contains
Has-head t ts = elim (String-discrete t t) [ yes e ↦ ground (arith, e) | no n ↦ elim (n refl) [ ] ]

module _ (max_parallelism : ℕ) (graph : ToolGraph) (effects : Effects) where
  prepend-IsSchedule :
      (batch : Batch) (completed remaining : List String) (r : Planned (List Batch))
      (batches : List Batch)
      → IsBatch max_parallelism graph effects completed remaining batch
      → ((bs : List Batch)
          → r ≡ ok bs
          → IsSchedule max_parallelism graph effects
              (batch.tools ++ completed)
              (minus remaining batch.tools)
              bs)
      → prepend batch r ≡ ok batches
      → IsSchedule max_parallelism graph effects completed remaining batches
  unfolding prepend IsSchedule
  prepend-IsSchedule batch completed remaining (ok bs) batches b run e =
      subst (IsSchedule max_parallelism graph effects completed remaining) (same_ok e)
        (b, run bs refl)
  prepend-IsSchedule batch completed remaining (fail f) batches b run e = ground (arith, e)

  -- a pass of the main loop
  pub plan_batches-IsSchedule :
      (fuel : ℕ) (selected order remaining completed : List String) (batches : List Batch)
      → 0 < max_parallelism
      → plan_batches max_parallelism graph effects fuel selected order remaining completed
        ≡ ok batches
      → IsSchedule max_parallelism graph effects completed remaining batches
  unfolding plan_batches IsSchedule
  plan_batches-IsSchedule fuel selected order [] completed batches pos e =
      subst (IsSchedule max_parallelism graph effects completed []) (same_ok e) refl
  plan_batches-IsSchedule zero selected order (x ∷ remaining) completed batches pos e =
      ground (arith, e)
  plan_batches-IsSchedule (suc fuel) selected order (x ∷ remaining) completed batches pos e =
      elim (List-cases
        (ready_tools max_parallelism graph effects (x ∷ remaining) completed order)) [
          | inl n ↦ ground (arith, subst (λ r. step r ≡ ok batches) n e)
          | inr (first, others, n) ↦
              prepend-IsSchedule (next first others) completed (x ∷ remaining) _ batches
                (make_batch-IsBatch max_parallelism graph effects selected order completed
                  (x ∷ remaining) first others pos n)
                (λ bs h. plan_batches-IsSchedule fuel selected order _ _ bs pos h)
                (subst (λ r. step r ≡ ok batches) n e)
        ]
    where
      next : String → List String → Batch
      next first others =
          make_batch max_parallelism graph effects
            (batch_tools max_parallelism graph effects selected first others)

      step : List String → Planned (List Batch)
      step r = elim r [
        | [] ↦ fail no_ready_tool
        | first ∷ others ↦ prepend (next first others) (
            plan_batches max_parallelism graph effects fuel selected order
              (minus (x ∷ remaining) (next first others).tools)
              ((next first others).tools ++ completed))
      ]

  prepend-fuel :
      (batch : Batch) (r : Planned (List Batch))
      → r ≢ fail out_of_fuel
      → prepend batch r ≢ fail out_of_fuel
  unfolding prepend
  prepend-fuel batch (ok bs) n e = ground (arith, e)
  prepend-fuel batch (fail f) n e = n (same_failure f out_of_fuel e)

  pub IsBatch-shrinks :
      (completed remaining : List String) (b : Batch)
      → IsBatch max_parallelism graph effects completed remaining b
      → length (minus remaining b.tools) < length remaining
  IsBatch-shrinks completed remaining b q = elim (List-cases b.tools) [
    | inl n ↦ ground (arith, q.not_empty, n)
    | inr (t, ts, n) ↦
        let h : Has b.tools t = subst (λ l. Has l t) (sym n) (Has-head t ts) in
        length-minus-lt t remaining b.tools h (q.still_to_run t h)
  ]

  pub plan_batches-fuel :
      (fuel : ℕ) (selected order remaining completed : List String)
      → 0 < max_parallelism
      → length remaining ≤ fuel
      → plan_batches max_parallelism graph effects fuel selected order remaining completed
        ≢ fail out_of_fuel
  unfolding plan_batches
  plan_batches-fuel fuel selected order [] completed pos h e = ground (arith, e)
  plan_batches-fuel zero selected order (x ∷ remaining) completed pos h e = ground (arith, h)
  plan_batches-fuel (suc fuel) selected order (x ∷ remaining) completed pos h e =
      elim (List-cases
        (ready_tools max_parallelism graph effects (x ∷ remaining) completed order)) [
          | inl n ↦ ground (arith, subst (λ r. step r ≡ fail out_of_fuel) n e)
          | inr (first, others, n) ↦
              prepend-fuel (next first others) _
                (plan_batches-fuel fuel selected order _ _ pos (
                  omega (
                    arith,
                    h,
                    IsBatch-shrinks completed (x ∷ remaining) (next first others) (
                        make_batch-IsBatch max_parallelism graph effects selected order completed
                          (x ∷ remaining) first others pos n),
                  )))
                (subst (λ r. step r ≡ fail out_of_fuel) n e)
        ]
    where
      next : String → List String → Batch
      next first others =
          make_batch max_parallelism graph effects
            (batch_tools max_parallelism graph effects selected first others)

      step : List String → Planned (List Batch)
      step r = elim r [
        | [] ↦ fail no_ready_tool
        | first ∷ others ↦ prepend (next first others) (
            plan_batches max_parallelism graph effects fuel selected order
              (minus (x ∷ remaining) (next first others).tools)
              ((next first others).tools ++ completed))
      ]
