-- ===== src/ToolPlan/Relaxing.antt =====
-- The inner loop of `_topological_order`: what holds while the dependents of one tool are done.
use nonebot_plugin_moellmcha.Prelude.{
  ◌+◌, ◌≤◌, ◌≡◌, ◌≢◌, ◌⊎◌, inl, inr, refl, sym, ◌∙◌, ap, subst, arith, Bool, true, false, not, ◌&&◌,
  some, List, [], ◌∷◌, ◌++◌, String, String-discrete, ite, if◌then◌else◌, contains, discard,
  contains-discard, lookup, Bool-cases,
}
use nonebot_plugin_moellmcha.ToolPlan.Graph.{Edge, is, targets_of}
use nonebot_plugin_moellmcha.ToolPlan.Order.{Rows, is_empty}
use nonebot_plugin_moellmcha.ToolPlan.Batches.{Has}
use nonebot_plugin_moellmcha.ToolPlan.Closure.{Has-head}
use nonebot_plugin_moellmcha.ToolPlan.Counting.{count, contains-count}
use nonebot_plugin_moellmcha.ToolPlan.Kahn.{is_empty-eq, same_some, not-free, IsTopological}

module _ (tools : List String) (edges : List Edge) where
  -- between two passes of the outer loop
  pub record IsSorting (rows : Rows) (ready ordered : List String) : Type 0 where
    pub rows_left :
        (t : String) (row : List String)
        → lookup String-discrete t rows ≡ some row
        → (x : String)
        → contains String-discrete x row
          ≡ contains String-discrete x (targets_of t edges)
            && not (contains String-discrete x ordered)
    pub rows_known :
        (t : String) (row : List String) → lookup String-discrete t rows ≡ some row → Has tools t
    pub ready_free : (t : String) → Has ready t → lookup String-discrete t rows ≡ some []
    pub ordered_free : (t : String) → Has ordered t → lookup String-discrete t rows ≡ some []
    pub once : (t : String) → count t ready + count t ordered ≤ 1
    pub topological : IsTopological edges [] ordered

  -- in the inner loop, with `current` taken and the dependents `ds` still to do
  pub record IsRelaxing (current : String) (ds : List String) (rows : Rows)
      (ready ordered : List String) : Type 0 where
    pub rows_left :
        (t : String) (row : List String)
        → lookup String-discrete t rows ≡ some row
        → (x : String)
        → contains String-discrete x row
          ≡ contains String-discrete x (targets_of t edges)
            && not (contains String-discrete x ordered)
            && not (is x current && not (contains String-discrete t ds))
    pub rows_known :
        (t : String) (row : List String) → lookup String-discrete t rows ≡ some row → Has tools t
    pub ready_free : (t : String) → Has ready t → lookup String-discrete t rows ≡ some []
    pub ordered_free :
        (t : String) → Has (ordered ++ current ∷ []) t → lookup String-discrete t rows ≡ some []
    pub once : (t : String) → count t ready + count t (ordered ++ current ∷ []) ≤ 1

  count_self : (d : String) (ds : List String) → count d (d ∷ ds) ≡ 1 + count d ds
  unfolding count
  count_self d ds = elim (String-discrete d d) [
    | yes e ↦ ground (arith, e)
    | no n ↦ absurd (n refl)
  ]

  -- one dependent, `d`, whose row `row` lost the tool that was taken
  module _ (current d : String) (ds : List String) (rows rows' : Rows) (b : Bool)
      (ready ordered row : List String) (distinct : (t : String) → count t (d ∷ ds) ≤ 1)
      (h : IsRelaxing current (d ∷ ds) rows ready ordered)
      (found : lookup String-discrete d rows ≡ some row) (has : Has row current)
      (empty : b ≡ is_empty (discard String-discrete current row))
      (after : (t : String)
        → lookup String-discrete t rows'
          ≡ ite
              (String-discrete d t)
              (some (discard String-discrete current row))
              (lookup String-discrete t rows)) where
    Here : String → Type 0
    Here t = lookup String-discrete t rows' ≡ some (discard String-discrete current row)

    row_of_d : (t : String) → d ≡ t → Here t
    unfolding Here
    row_of_d t e = ground (arith, e, after t)

    row_of_other :
        (t : String) → d ≢ t → lookup String-discrete t rows' ≡ lookup String-discrete t rows
    row_of_other t n = ground (arith, n, after t)

    absent : contains String-discrete d ds ≡ false
    absent = ground (arith, distinct d, count_self d ds, contains-count d ds)

    relaxed_row :
        (row' : List String)
        → lookup String-discrete d rows' ≡ some row'
        → (x : String)
        → contains String-discrete x row'
          ≡ contains String-discrete x (targets_of d edges)
            && not (contains String-discrete x ordered)
            && not (is x current && not (contains String-discrete d ds))
    unfolding Here is contains
    relaxed_row row' q x =
        let same : discard String-discrete current row ≡ row' =
          same_some (sym (row_of_d d refl) ∙ q) in
        rw (← same) (
          ground (
            arith,
            absent,
            h.rows_left d row found x,
            contains-discard String-discrete current x row,
            Has-head d ds,
          ))

    busy : contains String-discrete d ready ≡ false
    busy = not-free d current row rows ready found has h.ready_free

    not_ordered : contains String-discrete d (ordered ++ current ∷ []) ≡ false
    not_ordered = not-free d current row rows (ordered ++ current ∷ []) found has h.ordered_free

    entered :
        (t : String) → Has (if b then d ∷ ready else ready) t → ((b ≡ true) × (d ≡ t)) ⊎ Has ready t
    unfolding contains
    entered t k = elim (Bool-cases b) [
      | inl q ↦ elim (String-discrete d t) [
        | yes e ↦ inl (q, e)
        | no n ↦ inr (ground (arith, n, q, k))
      ]
      | inr q ↦ inr (ground (arith, q, k))
    ]

    once_more :
        (t : String)
        → Dec (d ≡ t)
        → (b ≡ true) ⊎ (b ≡ false)
        → count t (if b then d ∷ ready else ready) + count t (ordered ++ current ∷ []) ≤ 1
    unfolding count
    once_more t (yes e) (inl q) =
        subst
          (λ y. count y (if b then d ∷ ready else ready) + count y (ordered ++ current ∷ []) ≤ 1) e
          (ground (
            arith,
            q,
            count_self d ready,
            busy,
            not_ordered,
            contains-count d ready,
            contains-count d (ordered ++ current ∷ []),
          ))
    once_more t (no n) (inl q) = ground (arith, q, n, h.once t)
    once_more t _ (inr q) = ground (arith, q, h.once t)

    pub relax_one : IsRelaxing current ds rows' (if b then d ∷ ready else ready) ordered
    unfolding contains Here
    relax_one = record {
      rows_left = λ t row' q x. elim (String-discrete d t) [
        | yes e ↦
            subst
              (λ y.
                contains String-discrete x row'
                ≡ contains String-discrete x (targets_of y edges)
                  && not (contains String-discrete x ordered)
                  && not (is x current && not (contains String-discrete y ds)))
              e
              (relaxed_row row' (subst (λ y. lookup String-discrete y rows' ≡ some row') (sym e) q)
                x)
        | no n ↦ ground (arith, n, h.rows_left t row' (sym (row_of_other t n) ∙ q) x)
      ];
      rows_known = λ t row' q. elim (String-discrete d t) [
        | yes e ↦ subst (Has tools) e (h.rows_known d row found)
        | no n ↦ h.rows_known t row' (sym (row_of_other t n) ∙ q)
      ];
      ready_free = λ t k. elim (entered t k) [
        | inl (now, e) ↦
            row_of_d t e
            ∙ ap some (is_empty-eq (discard String-discrete current row) (sym empty ∙ now))
        | inr k' ↦ elim (String-discrete d t) [
          | yes e ↦
              absurd
                (ground (arith, k', subst (λ y. contains String-discrete y ready ≡ false) e busy))
          | no n ↦ row_of_other t n ∙ h.ready_free t k'
        ]
      ];
      ordered_free = λ t k. elim (String-discrete d t) [
        | yes e ↦ absurd (
            ground (
              arith,
              k,
              subst (λ y. contains String-discrete y (ordered ++ current ∷ []) ≡ false) e
                  not_ordered,
            ))
        | no n ↦ row_of_other t n ∙ h.ordered_free t k
      ];
      once = λ t. once_more t (String-discrete d t) (Bool-cases b);
    }
