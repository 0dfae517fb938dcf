-- ===== src/ParallelExecution/Dataflow.antt =====
-- What an execution that returns has computed: each result is its invocation's answer to the results
-- of what the tool depends on.
use nonebot_plugin_moellmcha.Prelude.{
  ◌≡◌, ◌⊎◌, inl, inr, refl, sym, ◌∙◌, ap, subst, arith, true, false, some, List, [], ◌∷◌, ◌++◌,
  String, String-discrete, contains, lookup, insert, lookup-insert, All, Bool-cases, Option-cases,
}
use nonebot_plugin_moellmcha.ToolPlan.Graph.{ToolGraph}
use nonebot_plugin_moellmcha.ToolPlan.Order.{Planned, ok, fail, transitive_dependencies_for}
use nonebot_plugin_moellmcha.ToolPlan.Batches.{Has, contains-append}
use nonebot_plugin_moellmcha.ParallelExecution.Executor.{
  Answer, returned, raised, cancelled, Results, Port, Ports, dependencies_incomplete, Run, done,
  failed, ◌>>=◌, planned, keys_of, pick, dependency_results, create_tasks, results_of, update,
}

-- a result that was returned, from those of its parts
pub >>=-done :
    {A B : Type 0} (m : Run A) (f : A → Run B) (b : B)
    → (m >>= f) ≡ done b
    → (a : A) × (m ≡ done a) × (f a ≡ done b)
>>=-done (done a) f b h = (a, refl, h)
>>=-done (failed e) f b h = absurd (ground (arith, h))

pub same_done : {A : Type 0} {a b : A} → ◌≡◌ {A = Run A} (done a) (done b) → a ≡ b
same_done h = ground (arith, h)

pub planned-done : {A : Type 0} (m : Planned A) (a : A) → planned m ≡ done a → m ≡ ok a
unfolding planned
planned-done (ok x) a h = ap ok (same_done h)
planned-done (fail e) a h = absurd (ground (arith, h))

module _ {V : Type 0} (graph : ToolGraph) (ports : Ports V) where
  -- `v` is what the invocation of a tool answers to the results of its transitive dependencies
  pub record IsAnswer (results : Results V) (tool : String) (v : V) : Type 0 where
    pub names : List String
    pub dependencies : Results V
    pub port : Port V
    pub depends_on : transitive_dependencies_for graph tool ≡ ok names
    pub given : pick dependencies_incomplete results names ≡ done dependencies
    pub found : lookup String-discrete tool ports ≡ some port
    pub answers : port.invoke dependencies ≡ returned v

  -- every entry of the first is one of the second
  abbrev pub Extends : Results V → Results V → Type 0
  Extends r r' =
      (t : String) (v : V)
      → lookup String-discrete t r ≡ some v
      → lookup String-discrete t r' ≡ some v

  pick-Extends :
      (r r' : Results V) (names : List String) (d : Results V)
      → Extends r r'
      → pick dependencies_incomplete r names ≡ done d
      → pick dependencies_incomplete r' names ≡ done d
  unfolding pick
  pick-Extends r r' [] d ext h = h
  pick-Extends r r' (n ∷ names) d ext h = elim (Option-cases (lookup String-discrete n r)) [
    | inl q ↦ absurd (ground (arith, h, q))
    | inr (v, q) ↦
        let (rest, p, e) =
          >>=-done (pick dependencies_incomplete r names) (λ rest. done ((n, v) ∷ rest)) d
            (ground (arith, h, q)) in
        ground (arith, ext n v q, pick-Extends r r' names rest ext p, e)
  ]

  pub IsAnswer-Extends :
      (r r' : Results V) (t : String) (v : V) → Extends r r' → IsAnswer r t v → IsAnswer r' t v
  IsAnswer-Extends r r' t v ext a = record {
    names = a.names;
    dependencies = a.dependencies;
    port = a.port;
    depends_on = a.depends_on;
    given = pick-Extends r r' a.names a.dependencies ext a.given;
    found = a.found;
    answers = a.answers;
  }

  results_of-cons :
      (t : String) (a : Answer V) (tasks : List (String × Answer V)) (results : Results V)
      → results_of ((t, a) ∷ tasks) ≡ done results
      → (v : V) × (rest : Results V) × (a ≡ returned v)
        × (results_of tasks ≡ done rest)
        × ((t, v) ∷ rest ≡ results)
  unfolding results_of
  results_of-cons t (returned v) tasks results h =
      let (rest, p, e) = >>=-done (results_of tasks) (λ rest. done ((t, v) ∷ rest)) results h in
      (v, rest, refl, p, same_done e)
  results_of-cons t raised tasks results h = absurd (ground (arith, h))
  results_of-cons t cancelled tasks results h = absurd (ground (arith, h))

  -- the results of a batch answer its tools
  abbrev pub Answers : Results V → List String → Results V → Type 0
  Answers completed tools results =
      (keys_of results ≡ tools) × All (λ e. IsAnswer completed e.0 e.1) results

  create_tasks-cons :
      (completed : Results V) (t : String) (tools : List String) (tasks : List (String × Answer V))
      → create_tasks graph ports completed (t ∷ tools) ≡ done tasks
      → (names : List String) × (dependencies : Results V) × (port : Port V) × (rest : List
          (String × Answer V))
        × (transitive_dependencies_for graph t ≡ ok names)
        × (pick dependencies_incomplete completed names ≡ done dependencies)
        × (lookup String-discrete t ports ≡ some port)
        × (create_tasks graph ports completed tools ≡ done rest)
        × ((t, port.invoke dependencies) ∷ rest ≡ tasks)
  unfolding create_tasks dependency_results
  create_tasks-cons completed t tools tasks h =
      let (dependencies, d, e1) = >>=-done (dependency_results graph completed t) _ tasks h in
      let (names, n, given) =
        >>=-done (planned (transitive_dependencies_for graph t)) _ dependencies d in
      elim (Option-cases (lookup String-discrete t ports)) [
        | inl q ↦ absurd (ground (arith, e1, q))
        | inr (port, q) ↦
            let (rest, r, e2) =
              >>=-done (create_tasks graph ports completed tools)
                (λ rest. done ((t, port.invoke dependencies) ∷ rest)) tasks
                (ground (arith, e1, q)) in
            (
              names,
              dependencies,
              port,
              rest,
              planned-done (transitive_dependencies_for graph t) names n,
              given,
              q,
              r,
              same_done e2,
            )
      ]

  create_tasks-nil :
      (completed : Results V) (tasks : List (String × Answer V))
      → create_tasks graph ports completed [] ≡ done tasks
      → [] ≡ tasks
  unfolding create_tasks
  create_tasks-nil completed tasks h = same_done h

  results_of-nil :
      (tasks : List (String × Answer V)) (results : Results V)
      → [] ≡ tasks
      → results_of tasks ≡ done results
      → [] ≡ results
  unfolding results_of
  results_of-nil tasks results e h =
      same_done (subst (λ ts. results_of ts ≡ done results) (sym e) h)

  pub batch-Answers :
      (completed : Results V) (tools : List String) (tasks : List (String × Answer V))
      (results : Results V)
      → create_tasks graph ports completed tools ≡ done tasks
      → results_of tasks ≡ done results
      → Answers completed tools results
  unfolding keys_of
  batch-Answers completed [] tasks results h k =
      subst (Answers completed [])
        (results_of-nil tasks results (create_tasks-nil completed tasks h) k) (refl, tt)
  batch-Answers completed (t ∷ tools) tasks results h k =
      let (names, dependencies, port, rest_tasks, transitive, given, found, later, same) =
        create_tasks-cons completed t tools tasks h in
      let (v, rest, answers, more, e) =
        results_of-cons t (port.invoke dependencies) rest_tasks results
          (subst (λ ts. results_of ts ≡ done results) (sym same) k) in
      let (keys, all) = batch-Answers completed tools rest_tasks rest later more in
      subst (Answers completed (t ∷ tools)) e (
        ap (◌∷◌ t) keys,
        (
          record {
            names = names;
            dependencies = dependencies;
            port = port;
            depends_on = transitive;
            given = given;
            found = found;
            answers = answers;
          },
          all,
        ),
      )

  update-kept :
      (t : String) (results more : Results V)
      → contains String-discrete t (keys_of more) ≡ false
      → lookup String-discrete t (update results more) ≡ lookup String-discrete t results
  unfolding update keys_of contains
  update-kept t results [] h = refl
  update-kept t results ((k, v) ∷ more) h =
      update-kept t (insert String-discrete k v results) more (ground (arith, h))
      ∙ ground (arith, h, lookup-insert String-discrete k t v results)

  update-found :
      (Q : String × V → Type 0) (t : String) (results more : Results V)
      → All Q more
      → Has (keys_of more) t
      → (v : V) × (lookup String-discrete t (update results more) ≡ some v) × Q (t, v)
  unfolding update keys_of contains
  update-found Q t results [] all h = absurd (ground (arith, h))
  update-found Q t results ((k, v) ∷ more) all h =
      elim (Bool-cases (contains String-discrete t (keys_of more))) [
        | inl b ↦ update-found Q t (insert String-discrete k v results) more all.1 b
        | inr b ↦ elim (String-discrete k t) [
          | yes e ↦ (
            v,
            update-kept t (insert String-discrete k v results) more b
                ∙ ground (arith, e, lookup-insert String-discrete k t v results),
            subst (λ x. Q (x, v)) e all.0,
          )
          | no n ↦ absurd (ground (arith, h, b, n))
        ]
      ]

  -- the results after some batches, of the tools `completed`
  pub record IsDataflow (completed : List String) (results : Results V) : Type 0 where
    pub answered :
        (t : String)
        → Has completed t
        → (v : V) × (lookup String-discrete t results ≡ some v) × IsAnswer results t v
    pub only : (t : String) (v : V) → lookup String-discrete t results ≡ some v → Has completed t

  update-Extends :
      (completed : List String) (results more : Results V)
      → IsDataflow completed results
      → ((t : String) → Has completed t → contains String-discrete t (keys_of more) ≡ false)
      → Extends results (update results more)
  update-Extends completed results more d apart t v h =
      update-kept t results more (apart t (d.only t v h)) ∙ h

  pub update-IsDataflow :
      (completed tools : List String) (results more : Results V)
      → IsDataflow completed results
      → Answers results tools more
      → ((t : String) → Has tools t → contains String-discrete t completed ≡ false)
      → IsDataflow (tools ++ completed) (update results more)
  update-IsDataflow completed tools results more d (keys, all) apart = record {
    answered = λ t h. answer t h (Bool-cases (contains String-discrete t tools));
    only = λ t v h. from t v h (Bool-cases (contains String-discrete t tools));
  }
    where
      clear : (t : String) → Has completed t → contains String-discrete t (keys_of more) ≡ false
      clear t h = elim (Bool-cases (contains String-discrete t tools)) [
        | inl b ↦ absurd (ground (arith, h, apart t b))
        | inr b ↦ rw keys b
      ]

      answer :
          (t : String)
          → Has (tools ++ completed) t
          → (contains String-discrete t tools ≡ true) ⊎ (contains String-discrete t tools ≡ false)
          → (v : V) × (lookup String-discrete t (update results more) ≡ some v)
            × IsAnswer (update results more) t v
      answer t h (inl b) =
          let (v, q, a) =
            update-found (λ e. IsAnswer results e.0 e.1) t results more all (rw keys b) in
          (
            v,
            q,
            IsAnswer-Extends results (update results more) t v
                (update-Extends completed results more d clear) a,
          )
      answer t h (inr b) =
          let (v, q, a) = d.answered t (ground (arith, h, b, contains-append t tools completed)) in
          (
            v,
            update-Extends completed results more d clear t v q,
            IsAnswer-Extends results (update results more) t v
                (update-Extends completed results more d clear) a,
          )

      from :
          (t : String) (v : V)
          → lookup String-discrete t (update results more) ≡ some v
          → (contains String-discrete t tools ≡ true) ⊎ (contains String-discrete t tools ≡ false)
          → Has (tools ++ completed) t
      from t v h (inl b) = ground (arith, b, contains-append t tools completed)
      from t v h (inr b) =
          let old = sym (update-kept t results more (rw keys b)) ∙ h in
          ground (arith, b, d.only t v old, contains-append t tools completed)
