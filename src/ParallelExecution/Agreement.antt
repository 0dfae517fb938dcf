-- ===== src/ParallelExecution/Agreement.antt =====
-- The results do not depend on how the tools were scheduled.
use nonebot_plugin_moellmcha.Prelude.{
  ℕ, ◌<◌, ◌≡◌, inl, inr, refl, sym, ◌∙◌, ap, arith, Option, some, List, [], ◌∷◌, ◌++◌, String,
  String-discrete, contains, lookup, Bool-cases,
}
use nonebot_plugin_moellmcha.ToolPlan.Graph.{ToolGraph, dependencies_for}
use nonebot_plugin_moellmcha.ToolPlan.Scheduler.{Batch, Effects, minus}
use nonebot_plugin_moellmcha.ToolPlan.Batches.{Has, contains-append}
use nonebot_plugin_moellmcha.ToolPlan.Plan.{same_ok, contains-minus}
use nonebot_plugin_moellmcha.ToolPlan.Schedule.{IsBatch, IsSchedule}
use nonebot_plugin_moellmcha.ToolPlan.Closure.{
  Inside, all_in-Inside, transitive-Inside, Has-head, Has-tail,
}
use nonebot_plugin_moellmcha.ParallelExecution.Executor.{
  returned, Results, Port, Ports, Failure, dependencies_incomplete, done, Wake, pick, execute,
}
use nonebot_plugin_moellmcha.ParallelExecution.Dataflow.{same_done, IsAnswer}
use nonebot_plugin_moellmcha.ParallelExecution.Execution.{execute-Executed, execute_answers}

-- a set of tools that holds what its elements depend on
abbrev pub IsClosed : ToolGraph → List String → Type 0
IsClosed graph completed =
    (t : String) → Has completed t → Inside (dependencies_for graph t) completed

module _ (max_parallelism : ℕ) (graph : ToolGraph) (effects : Effects) where
  pub batch-IsClosed :
      (completed remaining : List String) (b : Batch)
      → IsBatch max_parallelism graph effects completed remaining b
      → IsClosed graph completed
      → IsClosed graph (b.tools ++ completed)
  batch-IsClosed completed remaining b batch closed t h s k =
      elim (Bool-cases (contains String-discrete t b.tools)) [
        | inl q ↦
            let old =
              all_in-Inside (dependencies_for graph t) completed (batch.dependencies_done t q) s
                k in
            ground (arith, old, contains-append s b.tools completed)
        | inr q ↦
            let old = closed t (ground (arith, h, q, contains-append t b.tools completed)) s k in
            ground (arith, old, contains-append s b.tools completed)
      ]

module _ {V : Type 0} (graph : ToolGraph) (ports : Ports V) where
  -- two results agree on some tools
  abbrev Agree : List String → Results V → Results V → Type 0
  Agree l r r' = (t : String) → Has l t → lookup String-discrete t r ≡ lookup String-discrete t r'

  pick-Agree :
      (e : Failure) (names : List String) (r r' : Results V)
      → Agree names r r'
      → pick e r names ≡ pick e r' names
  unfolding pick
  pick-Agree e [] r r' a = refl
  pick-Agree e (n ∷ names) r r' a =
      ground
        (arith, a n (Has-head n names), pick-Agree e names r r' (λ t h. a t (Has-tail n t names h)))

  same_some : {A : Type 0} {a b : A} → ◌≡◌ {A = Option A} (some a) (some b) → a ≡ b
  same_some h = ground (arith, h)

  same_returned : {a b : V} → returned a ≡ returned b → a ≡ b
  same_returned h = ground (arith, h)

  IsAnswer-eq :
      (completed : List String) (r r' : Results V) (t : String) (v v' : V)
      → IsClosed graph completed
      → Inside (dependencies_for graph t) completed
      → Agree completed r r'
      → IsAnswer graph ports r t v
      → IsAnswer graph ports r' t v'
      → v ≡ v'
  IsAnswer-eq completed r r' t v v' closed direct agree a a' =
      let names : a.names ≡ a'.names = same_ok (sym a.depends_on ∙ a'.depends_on) in
      let inside = transitive-Inside graph completed closed t a.names direct a.depends_on in
      let picks = pick-Agree dependencies_incomplete a.names r r' (λ s h. agree s (inside s h)) in
      let given : a.dependencies ≡ a'.dependencies =
        same_done (sym a.given ∙ picks ∙ ap (pick dependencies_incomplete r') names ∙ a'.given) in
      let port : a.port ≡ a'.port = same_some (sym a.found ∙ a'.found) in
      same_returned (
        sym a.answers
        ∙ ap (λ (p : Port V). p.invoke a.dependencies) port
        ∙ ap a'.port.invoke given
        ∙ a'.answers)

  -- What both results hold of a tool, each an answer.
  abbrev Answered : Results V → String → Type 0
  Answered r t = (v : V) × (lookup String-discrete t r ≡ some v) × IsAnswer graph ports r t v

  append-Agree :
      (l m : List String) (r r' : Results V) → Agree l r r' → Agree m r r' → Agree (l ++ m) r r'
  append-Agree l m r r' a b t k = elim (Bool-cases (contains String-discrete t l)) [
    | inl q ↦ a t q
    | inr q ↦ b t (ground (arith, k, q, contains-append t l m))
  ]

  batch-Agree :
      (max_parallelism : ℕ) (effects : Effects) (completed remaining : List String) (b : Batch)
      (r r' : Results V)
      → IsBatch max_parallelism graph effects completed remaining b
      → IsClosed graph completed
      → Agree completed r r'
      → ((t : String) → Has remaining t → Answered r t × Answered r' t)
      → Agree b.tools r r'
  batch-Agree max_parallelism effects completed remaining b r r' batch closed agree answers t q =
      let ((v, found, a), (v', found', a')) = answers t (batch.still_to_run t q) in
      found
      ∙ ap some (
          IsAnswer-eq completed r r' t v v' closed
            (all_in-Inside (dependencies_for graph t) completed (batch.dependencies_done t q)) agree
            a a')
      ∙ sym found'

  IsSchedule-Agree :
      (max_parallelism : ℕ) (effects : Effects) (completed remaining : List String)
      (bs : List Batch) (r r' : Results V)
      → IsSchedule max_parallelism graph effects completed remaining bs
      → IsClosed graph completed
      → Agree completed r r'
      → ((t : String) → Has remaining t → Answered r t × Answered r' t)
      → Agree remaining r r'
  unfolding IsSchedule contains
  IsSchedule-Agree max_parallelism effects completed remaining [] r r' h closed agree answers =
      rw h (λ t k. absurd (ground (arith, k)))
  IsSchedule-Agree max_parallelism effects completed remaining (b ∷ bs) r r' h closed agree
        answers =
      let in_batch =
        batch-Agree max_parallelism effects completed remaining b r r' h.0 closed agree answers in
      let next = append-Agree b.tools completed r r' in_batch agree in
      let later =
        IsSchedule-Agree max_parallelism effects (b.tools ++ completed) (minus remaining b.tools) bs
          r r' h.1 (batch-IsClosed max_parallelism graph effects completed remaining b h.0 closed)
          next (λ t k. answers t (ground (arith, k, contains-minus t remaining b.tools))) in
      λ t k. elim (Bool-cases (contains String-discrete t b.tools)) [
        | inl q ↦ in_batch t q
        | inr q ↦ later t (ground (arith, k, q, contains-minus t remaining b.tools))
      ]

  pub nil-IsClosed : IsClosed graph []
  unfolding contains
  nil-IsClosed t h = absurd (ground (arith, h))

  nil-Agree : (r r' : Results V) → Agree [] r r'
  unfolding contains
  nil-Agree r r' t h = absurd (ground (arith, h))

  -- Two executions of the same tools that return give the same results, whatever their parallelism, their deadlines
  -- and the order in which their tasks finish.
  pub executions_agree :
      (m m' : ℕ) (effects : Effects) (selected : List String) (remaining remaining' : ℕ)
      (wakes wakes' : List Wake) (r r' : Results V) (t : String)
      → 0 < m
      → 0 < m'
      → execute m graph selected effects ports remaining wakes ≡ done r
      → execute m' graph selected effects ports remaining' wakes' ≡ done r'
      → lookup String-discrete t r ≡ lookup String-discrete t r'
  executions_agree m m' effects selected remaining remaining' wakes wakes' r r' t pos pos' h h' =
      let x = execute-Executed m graph effects ports selected remaining wakes r pos h in
      let first =
        λ (s : String). execute_answers m graph effects ports selected remaining wakes r s pos h in
      let second = λ (s : String).
        execute_answers m' graph effects ports selected remaining' wakes' r' s pos' h' in
      elim (Bool-cases (contains String-discrete t selected)) [
        | inl k ↦
            IsSchedule-Agree m effects [] selected x.batches r r' x.schedule nil-IsClosed
              (nil-Agree r r') (λ s q. ((first s).0 q, (second s).0 q)) t k
        | inr k ↦ (first t).1 k ∙ sym ((second t).1 k)
      ]
