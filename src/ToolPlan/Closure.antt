-- ===== src/ToolPlan/Closure.antt =====
-- The transitive dependencies of a tool lie in every set that holds its dependencies and those of
-- its elements.
use nonebot_plugin_moellmcha.Prelude.{
  ℕ, zero, suc, ◌+◌, ◌≡◌, inl, inr, refl, sym, subst, arith, true, List, [], ◌∷◌, ◌++◌, String,
  String-discrete, length, reverse, contains, Bool-cases,
}
use nonebot_plugin_moellmcha.ToolPlan.Graph.{ToolGraph, dependencies_for, is_member}
use nonebot_plugin_moellmcha.ToolPlan.Order.{
  ok, kept_in, close_over, work, in_order, topological_order, transitive_dependencies_for,
}
use nonebot_plugin_moellmcha.ToolPlan.Scheduler.{all_in}
use nonebot_plugin_moellmcha.ToolPlan.Termination.{Planned-cases}
use nonebot_plugin_moellmcha.ToolPlan.Batches.{Has, contains-append}
use nonebot_plugin_moellmcha.ToolPlan.Plan.{same_ok}

abbrev pub Inside : List String → List String → Type 0
Inside l set = (t : String) → Has l t → Has set t

pub all_in-Inside : (l set : List String) → all_in l set ≡ true → Inside l set
unfolding all_in contains
all_in-Inside [] set h t m = ground (arith, m)
all_in-Inside (x ∷ l) set h t m = elim (String-discrete x t) [
  | yes e ↦ subst (Has set) e (ground (arith, h))
  | no n ↦ all_in-Inside l set (ground (arith, h)) t (ground (arith, m, n))
]

pub nil-Inside : (set : List String) → Inside [] set
unfolding contains
nil-Inside set t m = absurd (ground (arith, m))

pub Has-head : (x : String) (l : List String) → Has (x ∷ l) x
unfolding contains
Has-head x l = elim (String-discrete x x) [ yes e ↦ ground (arith, e) | no n ↦ absurd (n refl) ]

pub Has-tail : (x t : String) (l : List String) → Has l t → Has (x ∷ l) t
unfolding contains
Has-tail x t l m = ground (arith, m)

pub Inside-cons : (x : String) (l set : List String) → Has set x → Inside l set → Inside (x ∷ l) set
unfolding contains
Inside-cons x l set h k t m = elim (String-discrete x t) [
  | yes e ↦ subst (Has set) e h
  | no n ↦ k t (ground (arith, m, n))
]

pub Inside-all_in : (l set : List String) → Inside l set → all_in l set ≡ true
unfolding all_in
Inside-all_in [] set h = refl
Inside-all_in (x ∷ l) set h =
    ground (arith, h x (Has-head x l), Inside-all_in l set (λ t m. h t (Has-tail x t l m)))

pub contains-reverse :
    (t : String) (l : List String)
    → contains String-discrete t (reverse l) ≡ contains String-discrete t l
unfolding contains reverse
contains-reverse t [] = refl
contains-reverse t (x ∷ l) =
    ground (arith, contains-append t (reverse l) (x ∷ []), contains-reverse t l)

kept_in-Inside : (seen l : List String) → Inside (kept_in seen l) seen
unfolding kept_in contains
kept_in-Inside seen [] t m = ground (arith, m)
kept_in-Inside seen (x ∷ l) t m = elim (Bool-cases (contains String-discrete x seen)) [
  | inl b ↦ elim (String-discrete x t) [
    | yes e ↦ subst (Has seen) e b
    | no n ↦ kept_in-Inside seen l t (ground (arith, m, b, n))
  ]
  | inr b ↦ kept_in-Inside seen l t (ground (arith, m, b))
]

module _ (g : ToolGraph) (set : List String)
    (closed : (t : String) → Has set t → Inside (dependencies_for g t) set) where
  close_over-Inside :
      (fuel : ℕ) (seen pending r : List String)
      → Inside seen set
      → Inside pending set
      → close_over fuel g seen pending ≡ ok r
      → Inside r set
  unfolding close_over
  close_over-Inside fuel seen [] r s p h = subst (λ l. Inside l set) (ground (arith, h)) s
  close_over-Inside zero seen (d ∷ pending) r s p h = absurd (ground (arith, h))
  close_over-Inside (suc fuel) seen (d ∷ pending) r s p h =
      elim (Bool-cases (contains String-discrete d seen)) [
        | inl b ↦ close_over-Inside fuel seen pending r s later (ground (arith, h, b))
        | inr b ↦ elim (Bool-cases (is_member d g)) [
          | inl m ↦
              close_over-Inside fuel (d ∷ seen) (reverse (dependencies_for g d) ++ pending) r
                (Inside-cons d seen set (p d (Has-head d pending)) s) next (ground (arith, h, b, m))
          | inr m ↦ absurd (ground (arith, h, b, m))
        ]
      ]
    where
      later : Inside pending set
      later t m = p t (Has-tail d t pending m)

      next : Inside (reverse (dependencies_for g d) ++ pending) set
      next t m = elim (Bool-cases (contains String-discrete t (dependencies_for g d))) [
        | inl q ↦ closed d (p d (Has-head d pending)) t q
        | inr q ↦ later t (
            ground (
              arith,
              m,
              q,
              contains-append t (reverse (dependencies_for g d)) pending,
              contains-reverse t (dependencies_for g d),
            ))
      ]

  -- what a tool depends on, in the end
  pub transitive-Inside :
      (tool : String) (names : List String)
      → Inside (dependencies_for g tool) set
      → transitive_dependencies_for g tool ≡ ok names
      → Inside names set
  unfolding transitive_dependencies_for in_order
  transitive-Inside tool names direct h =
      let fuel = length (dependencies_for g tool) + work g [] g.tools in
      elim (Bool-cases (is_member tool g)) [
        | inl m ↦ elim (Planned-cases (close_over fuel g [] (reverse (dependencies_for g tool)))) [
          | inl (seen, q) ↦ elim (Planned-cases (topological_order g.tools g.edges)) [
            | inl (ordered, o) ↦ λ t k.
                let e : kept_in seen ordered ≡ names = same_ok (ground (arith, h, m, q, o)) in
                close_over-Inside fuel [] (reverse (dependencies_for g tool)) seen (nil-Inside set)
                  (λ x y.
                    direct x (ground (arith, y, contains-reverse x (dependencies_for g tool))))
                  q t (kept_in-Inside seen ordered t (subst (λ l. Has l t) (sym e) k))
            | inr (f, o) ↦ absurd (ground (arith, h, m, q, o))
          ]
          | inr (f, q) ↦ absurd (ground (arith, h, m, q))
        ]
        | inr m ↦ absurd (ground (arith, h, m))
      ]
