-- ===== src/ParallelExecution/Execution.antt =====
-- An execution of a plan: what it returns, and what it does not depend on.
use nonebot_plugin_moellmcha.Prelude.{
  ℕ, ◌<◌, ◌≡◌, inl, inr, refl, sym, ◌∙◌, ap, subst, arith, true, false, ◌||◌, none, some, List, [],
  ◌∷◌, ◌++◌, String, String-discrete, if◌then◌else◌, contains, lookup, Bool-cases, Option-cases,
}
use nonebot_plugin_moellmcha.ToolPlan.Graph.{ToolGraph}
use nonebot_plugin_moellmcha.ToolPlan.Order.{is_empty}
use nonebot_plugin_moellmcha.ToolPlan.Scheduler.{Batch, Effects, minus, plan}
use nonebot_plugin_moellmcha.ToolPlan.Batches.{Has, contains-append}
use nonebot_plugin_moellmcha.ToolPlan.Plan.{contains-minus}
use nonebot_plugin_moellmcha.ToolPlan.Schedule.{IsBatch, IsSchedule}
use nonebot_plugin_moellmcha.ToolPlan.Safety.{plan_schedules_safely}
use nonebot_plugin_moellmcha.ParallelExecution.Executor.{
  Results, Ports, Failure, report_mismatch, done, planned, Wake, tools_of, pick, validate_ports,
  create_tasks, await_tasks, results_of, execute_batch, update, execute_batches, report,
  execute_valid, execute_schedule, execute,
}
use nonebot_plugin_moellmcha.ParallelExecution.Dataflow.{
  >>=-done, same_done, planned-done, IsAnswer, Extends, IsAnswer-Extends, batch-Answers, IsDataflow,
  update-IsDataflow,
}

module _ {V : Type 0} where
  pick-lookup :
      (e : Failure) (t : String) (r : Results V) (names : List String) (d : Results V)
      → pick e r names ≡ done d
      → lookup String-discrete t d
        ≡ (if contains String-discrete t names then lookup String-discrete t r else none)
  unfolding pick lookup contains
  pick-lookup e t r [] d h = subst (λ x. lookup String-discrete t x ≡ none) (same_done h) refl
  pick-lookup e t r (n ∷ names) d h = elim (Option-cases (lookup String-discrete n r)) [
    | inl q ↦ absurd (ground (arith, h, q))
    | inr (v, q) ↦
        let (rest, p, same) =
          >>=-done (pick e r names) (λ rest. done ((n, v) ∷ rest)) d (ground (arith, h, q)) in
        subst
          (λ x.
            lookup String-discrete t x
            ≡ (if contains String-discrete t (n ∷ names) then lookup String-discrete t r else none))
          (same_done same)
          (elim (String-discrete n t) [
            | yes x ↦ ground (arith, x, q, ap (λ y. lookup String-discrete y r) x)
            | no x ↦ ground (arith, x, pick-lookup e t r names rest p)
          ])
  ]

module _ (max_parallelism : ℕ) (graph : ToolGraph) (effects : Effects) where
  -- the tools of a schedule are those that it has to run
  pub IsSchedule-tools_of :
      (t : String) (completed remaining : List String) (bs : List Batch)
      → IsSchedule max_parallelism graph effects completed remaining bs
      → contains String-discrete t (tools_of bs) ≡ contains String-discrete t remaining
  unfolding IsSchedule tools_of
  IsSchedule-tools_of t completed remaining [] h = rw h refl
  IsSchedule-tools_of t completed remaining (b ∷ bs) h = ground (
    arith,
    contains-append t b.tools (tools_of bs),
    IsSchedule-tools_of t (b.tools ++ completed) (minus remaining b.tools) bs h.1,
    contains-minus t remaining b.tools,
    h.0.still_to_run t,
  )

  abbrev pub IsApart : List String → List String → Type 0
  IsApart remaining completed =
      (t : String) → Has remaining t → contains String-discrete t completed ≡ false

  pub next-IsApart :
      (completed remaining : List String) (b : Batch)
      → IsApart remaining completed
      → IsApart (minus remaining b.tools) (b.tools ++ completed)
  next-IsApart completed remaining b apart t h =
      ground
        (arith, h, contains-minus t remaining b.tools, contains-append t b.tools completed, apart t)

  module _ {V : Type 0} (ports : Ports V) where
    pub execute_batch-IsDataflow :
        (completed remaining : List String) (b : Batch) (results : Results V) (wakes : List Wake)
        (out : Results V × List Wake)
        → IsBatch max_parallelism graph effects completed remaining b
        → IsApart remaining completed
        → IsDataflow graph ports completed results
        → execute_batch graph ports b.tools results wakes ≡ done out
        → IsDataflow graph ports (b.tools ++ completed) (update results out.0)
    unfolding execute_batch
    execute_batch-IsDataflow completed remaining b results wakes out batch apart d ran =
        let (tasks, created, e1) = >>=-done (create_tasks graph ports results b.tools) _ out ran in
        let (left, awaited, e2) = >>=-done (await_tasks tasks b.tools wakes) _ out e1 in
        let (more, collected, e3) =
          >>=-done (results_of tasks) (λ results. done (results, left)) out e2 in
        let answers =
          batch-Answers graph ports results b.tools tasks out.0 created
            (collected ∙ ap done (ap (λ x. x.0) (same_done e3))) in
        update-IsDataflow graph ports completed b.tools results out.0 d answers
          (λ t k. apart t (batch.still_to_run t k))

    pub execute_batches-IsDataflow :
        (completed remaining : List String) (bs : List Batch) (results : Results V)
        (wakes : List Wake) (r : Results V)
        → IsSchedule max_parallelism graph effects completed remaining bs
        → IsApart remaining completed
        → IsDataflow graph ports completed results
        → execute_batches graph ports bs results wakes ≡ done r
        → (all : List String) × IsDataflow graph ports all r
          × ((t : String)
              → contains String-discrete t all
                ≡ (contains String-discrete t completed || contains String-discrete t remaining))
    unfolding execute_batches IsSchedule contains
    execute_batches-IsDataflow completed remaining [] results wakes r h apart d e = (
      completed,
      subst (IsDataflow graph ports completed) (same_done e) d,
      λ t. rw h (ground arith),
    )
    execute_batches-IsDataflow completed remaining (b ∷ bs) results wakes r h apart d e =
        let (out, ran, later) = >>=-done (execute_batch graph ports b.tools results wakes) _ r e in
        let (all, flow, members) =
          execute_batches-IsDataflow (b.tools ++ completed) (minus remaining b.tools) bs
            (update results out.0) out.1 r h.1 (next-IsApart completed remaining b apart)
            (execute_batch-IsDataflow completed remaining b results wakes out h.0 apart d ran)
            later in
        (
          all,
          flow,
          λ t. ground (
            arith,
            members t,
            contains-append t b.tools completed,
            contains-minus t remaining b.tools,
            h.0.still_to_run t,
          ),
        )

    report-pick :
        (tools : List String) (results r : Results V)
        → report tools results ≡ done r
        → pick report_mismatch results tools ≡ done r
    unfolding report
    report-pick tools results r h = ground (arith, h)

    pub is_empty-contains :
        (t : String) (l : List String) → is_empty l ≡ true → contains String-discrete t l ≡ false
    unfolding is_empty contains
    is_empty-contains t [] h = refl
    is_empty-contains t (x ∷ l) h = absurd (ground (arith, h))

    pub no_results-IsDataflow : IsDataflow graph ports [] []
    unfolding contains lookup
    no_results-IsDataflow = record {
      answered = λ t h. absurd (ground (arith, h));
      only = λ t v h. absurd (ground (arith, h));
    }

    -- what an execution that returned went through
    pub record Executed (selected : List String) (r : Results V) : Type 0 where
      pub batches : List Batch
      pub all : List String
      pub results : Results V
      pub schedule : IsSchedule max_parallelism graph effects [] selected batches
      pub dataflow : IsDataflow graph ports all results
      pub members :
          (t : String) → contains String-discrete t all ≡ contains String-discrete t selected
      pub reported : pick report_mismatch results (tools_of batches) ≡ done r

    execute_schedule-Executed :
        (selected : List String) (remaining : ℕ) (wakes : List Wake) (batches : List Batch)
        (r : Results V)
        → IsSchedule max_parallelism graph effects [] selected batches
        → execute_schedule graph effects ports remaining wakes batches ≡ done r
        → Executed selected r
    unfolding execute_schedule execute_valid contains
    execute_schedule-Executed selected remaining wakes batches r schedule h =
        let (u, valid, e) =
          >>=-done (validate_ports (tools_of batches) ports)
            (λ _. execute_valid graph ports remaining wakes batches) r (ground (arith, h)) in
        elim (Bool-cases (is_empty (tools_of batches))) [
          | inl b ↦ record {
            batches = batches;
            all = [];
            results = [];
            schedule = schedule;
            dataflow = no_results-IsDataflow;
            members = λ t.
                is_empty-contains t [] refl
                ∙ sym (is_empty-contains t (tools_of batches) b)
                ∙ IsSchedule-tools_of t [] selected batches schedule;
            reported = report-pick (tools_of batches) [] r (ground (arith, e, b));
          }
          | inr b ↦
              let (results, ran, reported) =
                >>=-done (execute_batches graph ports batches [] wakes) (report (tools_of batches))
                  r (ground (arith, e, b)) in
              let (all, flow, members) =
                execute_batches-IsDataflow [] selected batches [] wakes results schedule
                  (λ t k. refl) no_results-IsDataflow ran in
              record {
                batches = batches;
                all = all;
                results = results;
                schedule = schedule;
                dataflow = flow;
                members = λ t. members t;
                reported = report-pick (tools_of batches) results r reported;
              }
        ]

    pub execute-Executed :
        (selected : List String) (remaining : ℕ) (wakes : List Wake) (r : Results V)
        → 0 < max_parallelism
        → execute max_parallelism graph selected effects ports remaining wakes ≡ done r
        → Executed selected r
    unfolding execute
    execute-Executed selected remaining wakes r pos h =
        let (batches, made, e) =
          >>=-done (planned (plan max_parallelism graph effects selected)) _ r h in
        let planned_ok = planned-done (plan max_parallelism graph effects selected) batches made in
        execute_schedule-Executed selected remaining wakes batches r
          (plan_schedules_safely max_parallelism graph effects selected batches pos planned_ok) e

    Executed-lookup :
        (selected : List String) (r : Results V) (x : Executed selected r) (t : String)
        → lookup String-discrete t r ≡ (
            if contains String-discrete t selected
            then lookup String-discrete t x.results
            else none)
    Executed-lookup selected r x t =
        pick-lookup report_mismatch t x.results (tools_of x.batches) r x.reported
        ∙ ap (λ b. if b then lookup String-discrete t x.results else none)
            (IsSchedule-tools_of t [] selected x.batches x.schedule)

    Executed-Extends :
        (selected : List String) (r : Results V) (x : Executed selected r)
        → Extends graph ports x.results r
    Executed-Extends selected r x t v h =
        ground (arith, h, Executed-lookup selected r x t, x.members t, x.dataflow.only t v h)

    -- When an execution returns, for a positive parallelism, it gives a result for each selected tool and for no
    -- other, and each is what the tool's invocation answers to the results of its transitive dependencies.
    pub execute_answers :
        (selected : List String) (remaining : ℕ) (wakes : List Wake) (r : Results V) (t : String)
        → 0 < max_parallelism
        → execute max_parallelism graph selected effects ports remaining wakes ≡ done r
        → ((Has selected t
              → (v : V) × (lookup String-discrete t r ≡ some v) × IsAnswer graph ports r t v)
            × (contains String-discrete t selected ≡ false → lookup String-discrete t r ≡ none))
    execute_answers selected remaining wakes r t pos h =
        let x = execute-Executed selected remaining wakes r pos h in
        (
          λ k.
              let (v, q, a) = x.dataflow.answered t (x.members t ∙ k) in
              (
                v,
                Executed-Extends selected r x t v q,
                IsAnswer-Extends graph ports x.results r t v (Executed-Extends selected r x) a,
              ),
          λ k. Executed-lookup selected r x t ∙ ground (arith, k),
        )
