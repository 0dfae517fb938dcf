-- ===== src/ParallelExecution/Completeness.antt =====
-- An execution never lacks the results of a dependency, and its report covers its schedule.
use nonebot_plugin_moellmcha.Prelude.{
  ℕ, ◌<◌, ◌≡◌, ◌≢◌, ◌⊎◌, inl, inr, refl, sym, ◌∙◌, subst, arith, Bool, true, false, not, ◌==◌, none,
  some, List, [], ◌∷◌, ◌++◌, String, String-discrete, if◌then◌else◌, contains, lookup,
}
use nonebot_plugin_moellmcha.ToolPlan.Graph.{ToolGraph, dependencies_for}
use nonebot_plugin_moellmcha.ToolPlan.Order.{
  Planned, ok, fail, is_empty, transitive_dependencies_for,
}
use nonebot_plugin_moellmcha.ToolPlan.Scheduler.{Batch, Effects, minus, plan}
use nonebot_plugin_moellmcha.ToolPlan.Batches.{Has}
use nonebot_plugin_moellmcha.ToolPlan.Schedule.{IsSchedule}
use nonebot_plugin_moellmcha.ToolPlan.Safety.{plan_schedules_safely}
use nonebot_plugin_moellmcha.ToolPlan.Closure.{
  Inside, all_in-Inside, Inside-all_in, transitive-Inside, Has-head, Has-tail,
}
use nonebot_plugin_moellmcha.ParallelExecution.Executor.{
  Answer, returned, raised, cancelled, Results, Ports, Failure, dependencies_incomplete,
  ports_mismatch, report_mismatch, Run, done, failed, ◌>>=◌, planned, Wake, finished, deadline_over,
  caller_cancelled, tools_of, keys_of, same_set, all_read_only, any_confirmation, pick,
  validate_ports, dependency_results, create_tasks, first_error, await_tasks, results_of,
  execute_batch, update, execute_batches, report, execute_valid, execute_schedule, execute,
}
use nonebot_plugin_moellmcha.ParallelExecution.Dataflow.{planned-done, IsDataflow}
use nonebot_plugin_moellmcha.ParallelExecution.Execution.{
  IsSchedule-tools_of, IsApart, next-IsApart, execute_batch-IsDataflow, execute_batches-IsDataflow,
  no_results-IsDataflow, is_empty-contains,
}
use nonebot_plugin_moellmcha.ParallelExecution.Agreement.{IsClosed, batch-IsClosed, nil-IsClosed}

>>=-failed :
    {A B : Type 0} (m : Run A) (f : A → Run B) (e : Failure)
    → (m >>= f) ≡ failed e
    → (m ≡ failed e) ⊎ ((a : A) × (m ≡ done a) × (f a ≡ failed e))
>>=-failed (done a) f e h = inr (a, refl, h)
>>=-failed (failed x) f e h = inl (ground (arith, h))

-- a result that does not fail for either of the two reasons
abbrev IsComplete : {A : Type 0} → Run A → Type 0
IsComplete m = (m ≢ failed dependencies_incomplete) × (m ≢ failed report_mismatch)

>>=-IsComplete :
    {A B : Type 0} (m : Run A) (f : A → Run B)
    → IsComplete m
    → ((a : A) → m ≡ done a → IsComplete (f a))
    → IsComplete (m >>= f)
>>=-IsComplete (done a) f c k = k a refl
>>=-IsComplete (failed x) f c k = (λ h. c.0 (ground (arith, h)), λ h. c.1 (ground (arith, h)))

module _ {V : Type 0} where
  pick-done :
      (e : Failure) (names : List String) (r : Results V)
      → ((t : String) → Has names t → (v : V) × (lookup String-discrete t r ≡ some v))
      → (d : Results V) × (pick e r names ≡ done d)
  unfolding pick
  pick-done e [] r all = ([], refl)
  pick-done e (n ∷ names) r all =
      let (v, q) = all n (Has-head n names) in
      let (d, p) = pick-done e names r (λ t h. all t (Has-tail n t names h)) in
      ((n, v) ∷ d, ground (arith, q, p))

  first_error-IsComplete :
      (names : List String) (tasks : List (String × Answer V))
      → (first_error names tasks ≢ some dependencies_incomplete)
        × (first_error names tasks ≢ some report_mismatch)
  unfolding first_error
  first_error-IsComplete names [] = (λ h. ground (arith, h), λ h. ground (arith, h))
  first_error-IsComplete names ((t, returned v) ∷ tasks) = first_error-IsComplete names tasks
  first_error-IsComplete names ((t, raised) ∷ tasks) =
      let (a, b) = first_error-IsComplete names tasks in
      (λ h. ground (arith, h, a), λ h. ground (arith, h, b))
  first_error-IsComplete names ((t, cancelled) ∷ tasks) =
      let (a, b) = first_error-IsComplete names tasks in
      (λ h. ground (arith, h, a), λ h. ground (arith, h, b))

  await_tasks-IsComplete :
      (tasks : List (String × Answer V)) (pending : List String) (wakes : List Wake)
      → IsComplete (await_tasks tasks pending wakes)
  unfolding await_tasks
  await_tasks-IsComplete tasks [] wakes = (λ h. ground (arith, h), λ h. ground (arith, h))
  await_tasks-IsComplete tasks (p ∷ pending) [] = (λ h. ground (arith, h), λ h. ground (arith, h))
  await_tasks-IsComplete tasks (p ∷ pending) (deadline_over ∷ wakes) =
      (λ h. ground (arith, h), λ h. ground (arith, h))
  await_tasks-IsComplete tasks (p ∷ pending) (caller_cancelled ∷ wakes) =
      (λ h. ground (arith, h), λ h. ground (arith, h))
  await_tasks-IsComplete tasks (p ∷ pending) (finished names ∷ wakes) =
      let (a, b) = first_error-IsComplete names tasks in
      let (c, d) = await_tasks-IsComplete tasks (minus (p ∷ pending) names) wakes in
      (λ h. ground (arith, h, a, c), λ h. ground (arith, h, b, d))

  results_of-IsComplete : (tasks : List (String × Answer V)) → IsComplete (results_of tasks)
  unfolding results_of
  results_of-IsComplete [] = (λ h. ground (arith, h), λ h. ground (arith, h))
  results_of-IsComplete ((t, returned v) ∷ tasks) =
      >>=-IsComplete (results_of tasks) _ (results_of-IsComplete tasks)
        (λ rest q. (λ h. ground (arith, h), λ h. ground (arith, h)))
  results_of-IsComplete ((t, raised) ∷ tasks) = (λ h. ground (arith, h), λ h. ground (arith, h))
  results_of-IsComplete ((t, cancelled) ∷ tasks) = (λ h. ground (arith, h), λ h. ground (arith, h))

done-IsComplete : {A : Type 0} (a : A) → IsComplete (done a)
done-IsComplete a = (λ h. ground (arith, h), λ h. ground (arith, h))

planned-IsComplete : {A : Type 0} (m : Planned A) → IsComplete (planned m)
unfolding planned
planned-IsComplete (ok a) = done-IsComplete a
planned-IsComplete (fail e) = (λ h. ground (arith, h), λ h. ground (arith, h))

if-IsComplete :
    {A : Type 0} (b : Bool) (m n : Run A)
    → (b ≡ true → IsComplete m)
    → (b ≡ false → IsComplete n)
    → IsComplete (if b then m else n)
if-IsComplete true m n h k = h refl
if-IsComplete false m n h k = k refl

module _ {V : Type 0} (graph : ToolGraph) (ports : Ports V) (completed : List String)
    (results : Results V) (closed : IsClosed graph completed)
    (flow : IsDataflow graph ports completed results) where
  dependency_results-IsComplete :
      (t : String)
      → Inside (dependencies_for graph t) completed
      → IsComplete (dependency_results graph results t)
  unfolding dependency_results
  dependency_results-IsComplete t direct =
      >>=-IsComplete (planned (transitive_dependencies_for graph t))
        (pick dependencies_incomplete results)
        (planned-IsComplete (transitive_dependencies_for graph t))
        (λ names q.
          let inside =
            transitive-Inside graph completed closed t names direct
              (planned-done (transitive_dependencies_for graph t) names q) in
          let (d, p) =
            pick-done dependencies_incomplete names results
              (λ s h. let (v, found, a) = flow.answered s (inside s h) in (v, found)) in
          subst IsComplete (sym p) (done-IsComplete d))

  create_tasks-IsComplete :
      (tools : List String)
      → ((t : String) → Has tools t → Inside (dependencies_for graph t) completed)
      → IsComplete (create_tasks graph ports results tools)
  unfolding create_tasks
  create_tasks-IsComplete [] direct = done-IsComplete []
  create_tasks-IsComplete (t ∷ tools) direct =
      >>=-IsComplete (dependency_results graph results t) _
        (dependency_results-IsComplete t (direct t (Has-head t tools)))
        (λ dependencies q.
          elim (lookup String-discrete t ports)
            as (λ o. IsComplete (
              let m : Run (List (String × Answer V)) = elim o [
                | none ↦ failed ports_mismatch
                | some port ↦ create_tasks graph ports results tools >>= λ rest.
                    done ((t, port.invoke dependencies) ∷ rest)
              ] in
              m)) [
                | none ↦ (λ h. ground (arith, h), λ h. ground (arith, h))
                | some port ↦
                    >>=-IsComplete (create_tasks graph ports results tools)
                      (λ rest. done ((t, port.invoke dependencies) ∷ rest))
                      (create_tasks-IsComplete tools (λ s h. direct s (Has-tail t s tools h)))
                      (λ rest r. done-IsComplete ((t, port.invoke dependencies) ∷ rest))
              ])

  execute_batch-IsComplete :
      (tools : List String) (wakes : List Wake)
      → ((t : String) → Has tools t → Inside (dependencies_for graph t) completed)
      → IsComplete (execute_batch graph ports tools results wakes)
  unfolding execute_batch
  execute_batch-IsComplete tools wakes direct =
      >>=-IsComplete (create_tasks graph ports results tools) _
        (create_tasks-IsComplete tools direct)
        (λ tasks q.
          >>=-IsComplete (await_tasks tasks tools wakes)
            (λ left. results_of tasks >>= λ more. done (more, left))
            (await_tasks-IsComplete tasks tools wakes)
            (λ left r.
              >>=-IsComplete (results_of tasks) (λ more. done (more, left))
                (results_of-IsComplete tasks) (λ more s. done-IsComplete (more, left))))

module _ {V : Type 0} (max_parallelism : ℕ) (graph : ToolGraph) (effects : Effects)
    (ports : Ports V) where
  execute_batches-IsComplete :
      (completed remaining : List String) (bs : List Batch) (results : Results V)
      (wakes : List Wake)
      → IsSchedule max_parallelism graph effects completed remaining bs
      → IsApart max_parallelism graph effects remaining completed
      → IsClosed graph completed
      → IsDataflow graph ports completed results
      → IsComplete (execute_batches graph ports bs results wakes)
  unfolding execute_batches IsSchedule
  execute_batches-IsComplete completed remaining [] results wakes h apart closed flow =
      done-IsComplete results
  execute_batches-IsComplete completed remaining (b ∷ bs) results wakes h apart closed flow =
      >>=-IsComplete (execute_batch graph ports b.tools results wakes) _
        (execute_batch-IsComplete graph ports completed results closed flow b.tools wakes
          (λ t k. all_in-Inside (dependencies_for graph t) completed (h.0.dependencies_done t k)))
        (λ out ran.
          execute_batches-IsComplete (b.tools ++ completed) (minus remaining b.tools) bs
            (update results out.0) out.1 h.1
            (next-IsApart max_parallelism graph effects completed remaining b apart)
            (batch-IsClosed max_parallelism graph effects completed remaining b h.0 closed)
            (execute_batch-IsDataflow max_parallelism graph effects ports completed remaining b
              results wakes out h.0 apart flow ran))

  lookup-keys_of :
      (t : String) (v : V) (d : Results V) → lookup String-discrete t d ≡ some v → Has (keys_of d) t
  unfolding lookup keys_of contains
  lookup-keys_of t v [] h = absurd (ground (arith, h))
  lookup-keys_of t v ((k, w) ∷ d) h = ground (arith, h, lookup-keys_of t v d)

  keys_of-lookup :
      (t : String) (d : Results V)
      → Has (keys_of d) t
      → (v : V) × (lookup String-discrete t d ≡ some v)
  unfolding lookup keys_of contains
  keys_of-lookup t [] h = absurd (ground (arith, h))
  keys_of-lookup t ((k, w) ∷ d) h = elim (String-discrete k t) [
    | yes e ↦ (w, ground (arith, e))
    | no n ↦ let (v, q) = keys_of-lookup t d (ground (arith, h, n)) in (v, ground (arith, n, q))
  ]

  report-IsComplete :
      (tools : List String) (results : Results V)
      → ((t : String) → Has tools t → (v : V) × (lookup String-discrete t results ≡ some v))
      → ((t : String) (v : V) → lookup String-discrete t results ≡ some v → Has tools t)
      → IsComplete (report tools results)
  unfolding report same_set
  report-IsComplete tools results all only =
      let inside =
        Inside-all_in (keys_of results) tools
          (λ t h. let (v, q) = keys_of-lookup t results h in only t v q) in
      let covers =
        Inside-all_in tools (keys_of results)
          (λ t h. let (v, q) = all t h in lookup-keys_of t v results q) in
      let (d, p) = pick-done report_mismatch tools results all in
      (λ h. ground (arith, h, inside, covers, p), λ h. ground (arith, h, inside, covers, p))

  no_results_only :
      (tools : List String) (t : String) (v : V)
      → lookup String-discrete t [] ≡ some v
      → Has tools t
  unfolding lookup
  no_results_only tools t v h = absurd (ground (arith, h))

  execute_valid-IsComplete :
      (selected : List String) (remaining : ℕ) (wakes : List Wake) (batches : List Batch)
      → IsSchedule max_parallelism graph effects [] selected batches
      → IsComplete (execute_valid graph ports remaining wakes batches)
  unfolding execute_valid contains
  execute_valid-IsComplete selected remaining wakes batches schedule =
      let tools = IsSchedule-tools_of max_parallelism graph effects in
      if-IsComplete (is_empty (tools_of batches)) _ _
        (λ b.
          report-IsComplete (tools_of batches) []
            (λ t h. absurd (
              ground (
                arith,
                h,
                is_empty-contains max_parallelism graph effects ports t (tools_of batches) b,
              )))
            (no_results_only (tools_of batches)))
        (λ b.
          if-IsComplete (remaining == 0) _ _ (λ z. (λ h. ground (arith, h), λ h. ground (arith, h)))
            (λ z.
              >>=-IsComplete (execute_batches graph ports batches [] wakes)
                (report (tools_of batches))
                (execute_batches-IsComplete [] selected batches [] wakes schedule (λ t k. refl)
                  (nil-IsClosed graph ports)
                  (no_results-IsDataflow max_parallelism graph effects ports))
                (λ results ran.
                  let (all, flow, members) =
                    execute_batches-IsDataflow max_parallelism graph effects ports [] selected
                      batches [] wakes results schedule (λ t k. refl)
                      (no_results-IsDataflow max_parallelism graph effects ports) ran in
                  report-IsComplete (tools_of batches) results
                    (λ t h.
                      let (v, q, a) =
                        flow.answered t
                          (members t ∙ sym (tools t [] selected batches schedule) ∙ h) in
                      (v, q))
                    (λ t v q.
                      tools t [] selected batches schedule ∙ sym (members t) ∙ flow.only t v q))))

  validate_ports-IsComplete : (tools : List String) → IsComplete (validate_ports tools ports)
  unfolding validate_ports
  validate_ports-IsComplete tools = (λ h. ground (arith, h), λ h. ground (arith, h))

  -- For a positive parallelism, an execution never finds the results of a dependency missing, and never makes a report
  -- that does not cover its schedule, whatever the invocations answer and whenever they finish.
  pub execute_is_complete :
      (selected : List String) (remaining : ℕ) (wakes : List Wake)
      → 0 < max_parallelism
      → (execute max_parallelism graph selected effects ports remaining wakes
          ≢ failed dependencies_incomplete)
        × (execute max_parallelism graph selected effects ports remaining wakes
            ≢ failed report_mismatch)
  unfolding execute execute_schedule
  execute_is_complete selected remaining wakes pos =
      >>=-IsComplete (planned (plan max_parallelism graph effects selected))
        (execute_schedule graph effects ports remaining wakes)
        (planned-IsComplete (plan max_parallelism graph effects selected))
        (λ batches made.
          let schedule =
            plan_schedules_safely max_parallelism graph effects selected batches pos
              (planned-done (plan max_parallelism graph effects selected) batches made) in
          if-IsComplete (not (all_read_only effects (tools_of batches))) _ _
            (λ b. (λ h. ground (arith, h), λ h. ground (arith, h)))
            (λ b.
              if-IsComplete (any_confirmation graph (tools_of batches)) _ _
                (λ c. (λ h. ground (arith, h), λ h. ground (arith, h)))
                (λ c.
                  >>=-IsComplete (validate_ports (tools_of batches) ports)
                    (λ _. execute_valid graph ports remaining wakes batches)
                    (validate_ports-IsComplete (tools_of batches))
                    (λ u q. execute_valid-IsComplete selected remaining wakes batches schedule))))
