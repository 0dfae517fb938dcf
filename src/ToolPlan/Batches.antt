-- ===== src/ToolPlan/Batches.antt =====
-- One batch: which tools it takes of those that are ready.
use nonebot_plugin_moellmcha.Prelude.{
  ℕ, ◌+◌, ◌≤◌, ◌≡◌, ◌≢◌, ◌⊎◌, inl, inr, refl, sym, ◌∙◌, subst, arith, true, ◌||◌, List, [], ◌∷◌,
  ◌++◌, String, String-discrete, leb, length, length-append, contains, Bool-cases,
}
use nonebot_plugin_moellmcha.ToolPlan.Graph.{
  Relation, parallel_with, Edge, is, ToolGraph, sort_insert, sort, neighbors, parallel_tools_for,
}
use nonebot_plugin_moellmcha.ToolPlan.Scheduler.{
  Effects, parallel_eligible, joins, fill, is_ready, ready_tools,
}

abbrev pub Has : List String → String → Type 0
Has l t = contains String-discrete t l ≡ true

pub contains-append :
    (t : String) (l m : List String)
    → contains String-discrete t (l ++ m)
      ≡ contains String-discrete t l || contains String-discrete t m
unfolding contains
contains-append t [] m = refl
contains-append t (x ∷ l) m = ground (arith, contains-append t l m)

contains-sort_insert :
    (t x : String) (l : List String)
    → contains String-discrete t (sort_insert x l) ≡ contains String-discrete t (x ∷ l)
unfolding contains sort_insert
contains-sort_insert t x [] = refl
contains-sort_insert t x (y ∷ l) = ground (arith, contains-sort_insert t x l)

pub contains-sort :
    (t : String) (l : List String)
    → contains String-discrete t (sort l) ≡ contains String-discrete t l
unfolding contains sort
contains-sort t [] = refl
contains-sort t (x ∷ l) = ground (arith, contains-sort t l, contains-sort_insert t x (sort l))

length-sort_insert : (x : String) (l : List String) → length (sort_insert x l) ≡ length l + 1
unfolding sort_insert
length-sort_insert x [] = refl
length-sort_insert x (y ∷ l) = ground (arith, length-sort_insert x l)

pub length-sort : (l : List String) → length (sort l) ≡ length l
unfolding sort
length-sort [] = refl
length-sort (x ∷ l) = omega (arith, length-sort l, length-sort_insert x (sort l))

neighbors-sym :
    (s t : String) (r : Relation) (es : List Edge)
    → contains String-discrete t (neighbors s r es) ≡ contains String-discrete s (neighbors t r es)
unfolding contains neighbors is
neighbors-sym s t r [] = refl
neighbors-sym s t r (e ∷ es) = ground (arith, neighbors-sym s t r es)

pub parallel_tools_for-sym :
    (g : ToolGraph) (s t : String) → Has (parallel_tools_for g s) t → Has (parallel_tools_for g t) s
unfolding parallel_tools_for
parallel_tools_for-sym g s t h = ground (
  arith,
  h,
  contains-sort t (neighbors s parallel_with g.edges),
  contains-sort s (neighbors t parallel_with g.edges),
  neighbors-sym s t parallel_with g.edges,
)

module _ (max_parallelism : ℕ) (graph : ToolGraph) (effects : Effects) where
  pub ready_tools-is_ready :
      (t : String) (remaining completed order : List String)
      → Has (ready_tools max_parallelism graph effects remaining completed order) t
      → is_ready max_parallelism graph effects remaining completed t ≡ true
  unfolding contains ready_tools
  ready_tools-is_ready t remaining completed [] h = ground (arith, h)
  ready_tools-is_ready t remaining completed (x ∷ order) h = elim (String-discrete x t) [
    | yes e ↦ elim (Bool-cases (is_ready max_parallelism graph effects remaining completed x)) [
      | inl b ↦ subst (λ x. is_ready max_parallelism graph effects remaining completed x ≡ true) e b
      | inr b ↦ ready_tools-is_ready t remaining completed order (ground (arith, b, h))
    ]
    | no n ↦ elim (Bool-cases (is_ready max_parallelism graph effects remaining completed x)) [
      | inl b ↦ ready_tools-is_ready t remaining completed order (ground (arith, b, h, n))
      | inr b ↦ ready_tools-is_ready t remaining completed order (ground (arith, b, h))
    ]
  ]

  -- any two tools that differ may run together, and neither writes nor asks
  pub record IsClique (batch : List String) : Type 0 where
    pub eligible :
        (t : String) → Has batch t → parallel_eligible max_parallelism graph effects t ≡ true
    pub together :
        (s t : String) → Has batch s → Has batch t → s ≢ t → Has (parallel_tools_for graph s) t

  joins-parallel :
      (selected : List String) (c s : String) (batch : List String)
      → joins max_parallelism graph effects selected c batch ≡ true
      → Has batch s
      → Has (parallel_tools_for graph s) c
  unfolding contains joins
  joins-parallel selected c s [] j h = ground (arith, h)
  joins-parallel selected c s (x ∷ batch) j h = elim (String-discrete x s) [
    | yes e ↦ subst (λ x. Has (parallel_tools_for graph x) c) e (ground (arith, j))
    | no n ↦ joins-parallel selected c s batch (ground (arith, j)) (ground (arith, h, n))
  ]

  Has-snoc : (t c : String) (batch : List String) → Has (batch ++ c ∷ []) t → Has batch t ⊎ (t ≡ c)
  unfolding contains
  Has-snoc t c batch h = elim (Bool-cases (contains String-discrete t batch)) [
    | inl b ↦ inl b
    | inr b ↦ elim (String-discrete c t) [
      | yes e ↦ inr (sym e)
      | no n ↦ ground (arith, h, b, n, contains-append t batch (c ∷ []))
    ]
  ]

  Has-one : (t u : String) → Has (t ∷ []) u → u ≡ t
  unfolding contains
  Has-one t u h = elim (String-discrete t u) [ yes e ↦ sym e | no n ↦ ground (arith, h, n) ]

  pub singleton-IsClique :
      (t : String) → parallel_eligible max_parallelism graph effects t ≡ true → IsClique (t ∷ [])
  singleton-IsClique t e = record {
    eligible = λ u h.
        subst (λ u. parallel_eligible max_parallelism graph effects u ≡ true) (sym (Has-one t u h))
          e;
    together = λ u v hu hv n. elim (n (Has-one t u hu ∙ sym (Has-one t v hv))) [ ];
  }

  snoc-IsClique :
      (selected : List String) (c : String) (batch : List String)
      → parallel_eligible max_parallelism graph effects c ≡ true
      → joins max_parallelism graph effects selected c batch ≡ true
      → IsClique batch
      → IsClique (batch ++ c ∷ [])
  snoc-IsClique selected c batch e j q = record {
    eligible = λ u h. elim (Has-snoc u c batch h) [
      | inl old ↦ q.eligible u old
      | inr new ↦ subst (λ u. parallel_eligible max_parallelism graph effects u ≡ true) (sym new) e
    ];
    together = λ u v hu hv n. elim (Has-snoc u c batch hu) [
      | inl old ↦ elim (Has-snoc v c batch hv) [
        | inl old' ↦ q.together u v old old' n
        | inr new' ↦
            subst (Has (parallel_tools_for graph u)) (sym new')
              (joins-parallel selected c u batch j old)
      ]
      | inr new ↦ elim (Has-snoc v c batch hv) [
        | inl old' ↦
            subst (λ u. Has (parallel_tools_for graph u) v) (sym new)
              (parallel_tools_for-sym graph v c (joins-parallel selected c v batch j old'))
        | inr new' ↦ elim (n (new ∙ sym new')) [ ]
      ]
    ];
  }

  pub fill-IsClique :
      (selected batch ready : List String)
      → IsClique batch
      → IsClique (fill max_parallelism graph effects selected batch ready)
  unfolding fill
  fill-IsClique selected batch [] q = q
  fill-IsClique selected batch (c ∷ ready) q =
      elim (Bool-cases (leb max_parallelism (length batch))) [
        | inl full ↦ rw full q
        | inr room ↦
            rw room (elim (Bool-cases (parallel_eligible max_parallelism graph effects c)) [
              | inr b ↦ rw b (fill-IsClique selected batch ready q)
              | inl b ↦
                  rw b (elim (Bool-cases (joins max_parallelism graph effects selected c batch)) [
                    | inr j ↦ rw j (fill-IsClique selected batch ready q)
                    | inl j ↦ rw j (
                        fill-IsClique selected (batch ++ c ∷ []) ready
                          (snoc-IsClique selected c batch b j q))
                  ])
            ])
      ]

  pub fill-length :
      (selected batch ready : List String)
      → length batch ≤ max_parallelism
      → (length batch ≤ length (fill max_parallelism graph effects selected batch ready))
        × (length (fill max_parallelism graph effects selected batch ready) ≤ max_parallelism)
  unfolding fill
  fill-length selected batch [] h = ground (arith, h)
  fill-length selected batch (c ∷ ready) h =
      elim (Bool-cases (leb max_parallelism (length batch))) [
        | inl full ↦ ground (arith, full, h)
        | inr room ↦ ground (
          arith,
          room,
          h,
          fill-length selected batch ready h,
          fill-length selected (batch ++ c ∷ []) ready
              (ground (arith, room, length-append batch (c ∷ []))),
          length-append batch (c ∷ []),
        )
      ]

  pub fill-Has :
      (t : String) (selected batch ready : List String)
      → Has (fill max_parallelism graph effects selected batch ready) t
      → Has batch t ⊎ Has ready t
  unfolding fill contains
  fill-Has t selected batch [] h = inl h
  fill-Has t selected batch (c ∷ ready) h = ground (
    arith,
    h,
    fill-Has t selected batch ready,
    fill-Has t selected (batch ++ c ∷ []) ready,
    contains-append t batch (c ∷ []),
  )
