-- ===== src/ToolPlan/Schedule.antt =====
-- What a schedule is, and that `plan` makes one.
use nonebot_plugin_moellmcha.Prelude.{
  ℕ, ◌≤◌, ◌<◌, ◌≡◌, inl, inr, refl, sym, ◌∙◌, subst, arith, true, List, [], ◌∷◌, ◌++◌, String,
  if◌then◌else◌, ltb, length, contains, Bool-cases,
}
use nonebot_plugin_moellmcha.ToolPlan.Graph.{ToolGraph, sort, dependencies_for}
use nonebot_plugin_moellmcha.ToolPlan.Scheduler.{
  serial, parallel, Batch, Effects, all_in, minus, parallel_eligible, is_ready, ready_tools,
  batch_tools, make_batch,
}
use nonebot_plugin_moellmcha.ToolPlan.Batches.{
  Has, contains-sort, length-sort, ready_tools-is_ready, IsClique, singleton-IsClique,
  fill-IsClique, fill-length, fill-Has,
}

module _ (max_parallelism : ℕ) (graph : ToolGraph) (effects : Effects) where
  -- a batch that may run now, where the tools `completed` have run and `remaining` have not
  pub record IsBatch (completed remaining : List String) (b : Batch) : Type 0 where
    pub not_empty : 0 < length b.tools
    pub within_parallelism : length b.tools ≤ max_parallelism
    pub is_parallel : b.mode ≡ (if ltb 1 (length b.tools) then parallel else serial)
    pub still_to_run : (t : String) → Has b.tools t → Has remaining t
    pub dependencies_done :
        (t : String) → Has b.tools t → all_in (dependencies_for graph t) completed ≡ true
    pub compatible : b.mode ≡ parallel → IsClique max_parallelism graph effects b.tools

  -- batches that run one after the other until nothing remains
  unfoldable pub IsSchedule : List String → List String → List Batch → Type 0
  unfolding minus
  IsSchedule completed remaining [] = remaining ≡ []
  IsSchedule completed remaining (b ∷ bs) =
      IsBatch completed remaining b × IsSchedule (b.tools ++ completed) (minus remaining b.tools) bs

  batch_tools-length :
      (selected : List String) (first : String) (others : List String)
      → 0 < max_parallelism
      → (0 < length (batch_tools max_parallelism graph effects selected first others))
        × (length (batch_tools max_parallelism graph effects selected first others)
            ≤ max_parallelism)
  unfolding batch_tools
  batch_tools-length selected first others pos = ground (
    arith,
    fill-length max_parallelism graph effects selected (first ∷ []) others (omega (arith, pos)),
  )

  batch_tools-Has :
      (t : String) (selected : List String) (first : String) (others : List String)
      → Has (batch_tools max_parallelism graph effects selected first others) t
      → Has (first ∷ others) t
  unfolding batch_tools contains
  batch_tools-Has t selected first others h =
      ground (arith, h, fill-Has max_parallelism graph effects t selected (first ∷ []) others)

  batch_tools-IsClique :
      (selected : List String) (first : String) (others : List String)
      → ltb 1 (length (batch_tools max_parallelism graph effects selected first others)) ≡ true
      → IsClique max_parallelism graph effects
          (batch_tools max_parallelism graph effects selected first others)
  unfolding batch_tools
  batch_tools-IsClique selected first others h =
      elim (Bool-cases (parallel_eligible max_parallelism graph effects first)) [
        | inl b ↦ rw b (
            fill-IsClique max_parallelism graph effects selected (first ∷ []) others
              (singleton-IsClique max_parallelism graph effects first b))
        | inr b ↦ ground (arith, b, h)
      ]

  sorted-IsClique :
      (l : List String)
      → IsClique max_parallelism graph effects l
      → IsClique max_parallelism graph effects (sort l)
  sorted-IsClique l q = record {
    eligible = λ t h. q.eligible t (sym (contains-sort t l) ∙ h);
    together = λ s t hs ht n.
        q.together s t (sym (contains-sort s l) ∙ hs) (sym (contains-sort t l) ∙ ht) n;
  }

  pub make_batch-IsBatch :
      (selected order completed remaining : List String) (first : String) (others : List String)
      → 0 < max_parallelism
      → ready_tools max_parallelism graph effects remaining completed order ≡ first ∷ others
      → IsBatch completed remaining (
          make_batch max_parallelism graph effects
            (batch_tools max_parallelism graph effects selected first others))
  unfolding make_batch is_ready
  make_batch-IsBatch selected order completed remaining first others pos e = record {
    not_empty = omega (arith, (batch_tools-length selected first others pos).0, length-sort tools);
    within_parallelism =
        omega (arith, (batch_tools-length selected first others pos).1, length-sort tools);
    is_parallel = rw (length-sort tools) refl;
    still_to_run = λ t h. ground (arith, ready t h);
    dependencies_done = λ t h. ground (arith, ready t h);
    compatible =
        λ m. sorted-IsClique tools (batch_tools-IsClique selected first others (ground (arith, m)));
  }
    where
      tools : List String
      tools = batch_tools max_parallelism graph effects selected first others

      ready :
          (t : String)
          → Has (sort tools) t
          → is_ready max_parallelism graph effects remaining completed t ≡ true
      ready t h = ready_tools-is_ready max_parallelism graph effects t remaining completed order (
          subst (λ l. Has l t) (sym e)
            (batch_tools-Has t selected first others (sym (contains-sort t tools) ∙ h)))
