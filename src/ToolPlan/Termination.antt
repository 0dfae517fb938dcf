-- ===== src/ToolPlan/Termination.antt =====
-- The fuel of the loops of tool_graph.py is enough.
use nonebot_plugin_moellmcha.Prelude.{
  ℕ, zero, suc, ◌+◌, ◌≤◌, ◌≡◌, ◌≢◌, ◌⊎◌, refl, ◌∙◌, subst, arith, inl, inr, Bool, true, false, some,
  List, [], ◌∷◌, ◌++◌, String, String-discrete, if◌then◌else◌, length, length-append, reverse,
  length-reverse, contains, Bool-cases, Option-cases,
}
use nonebot_plugin_moellmcha.ToolPlan.Graph.{
  Edge, ToolGraph, is, sort, sources_of, is_member, dependencies_for,
}
use nonebot_plugin_moellmcha.ToolPlan.Order.{
  PlanError, out_of_fuel, Planned, ok, fail, Rows, to_set, rows_of, is_empty, without_rows, remove,
  relax, pop_min, take_ready, all_ordered, topological_order, close_over, work, in_order,
  transitive_dependencies_for,
}

-- What the outer loop has left to do: each pass takes one away.
unfoldable waiting : Rows → ℕ
unfolding is_empty
waiting [] = 0
waiting ((tool, row) ∷ rows) = (if is_empty row then 0 else 1) + waiting rows

contains_nonempty :
    (x : String) (l : List String) → contains String-discrete x l ≡ true → is_empty l ≡ false
unfolding is_empty contains
contains_nonempty x [] e = ground (arith, e)
contains_nonempty x (y ∷ l) e = refl

remove-waiting :
    (current d : String) (rows : Rows) (r : Rows × Bool)
    → remove current d rows ≡ some r
    → (if r.1 then 1 else 0) + waiting r.0 ≡ waiting rows
unfolding remove waiting is_empty
remove-waiting current d [] r e = ground (arith, e)
remove-waiting current d ((tool, row) ∷ rows) r e = elim (Bool-cases (is tool d)) [
  | inl b ↦ elim (Bool-cases (contains String-discrete current row)) [
    | inl c ↦ ground (arith, b, c, e, contains_nonempty current row c)
    | inr c ↦ ground (arith, b, c, e)
  ]
  | inr b ↦ elim (Option-cases (remove current d rows)) [
    | inl n ↦ ground (arith, b, n, e)
    | inr (r', n) ↦ ground (arith, b, n, e, remove-waiting current d rows r' n)
  ]
]

relax-waiting :
    (current : String) (ds : List String) (rows : Rows) (ready : List String)
    (r : Rows × List String)
    → relax current ds rows ready ≡ ok r
    → length r.1 + waiting r.0 ≡ length ready + waiting rows
unfolding relax
relax-waiting current [] rows ready r e = ground (arith, e)
relax-waiting current (d ∷ ds) rows ready r e = elim (Option-cases (remove current d rows)) [
  | inl n ↦ ground (arith, n, e)
  | inr (r', n) ↦ ground (
    arith,
    n,
    e,
    remove-waiting current d rows r' n,
    relax-waiting current ds r'.0 (if r'.1 then d ∷ ready else ready) r,
  )
]

relax-fuel :
    (current : String) (ds : List String) (rows : Rows) (ready : List String)
    → relax current ds rows ready ≢ fail out_of_fuel
unfolding relax
relax-fuel current [] rows ready e = ground (arith, e)
relax-fuel current (d ∷ ds) rows ready e = elim (Option-cases (remove current d rows)) [
  | inl n ↦ ground (arith, n, e)
  | inr (r, n) ↦ relax-fuel current ds r.0 (if r.1 then d ∷ ready else ready) (ground (arith, n, e))
]

pop_min-length : (x : String) (l : List String) → length (pop_min x l).1 ≡ length l
unfolding pop_min
pop_min-length x [] = refl
pop_min-length x (y ∷ l) = ground (arith, pop_min-length y l)

pub Planned-cases :
    {A : Type 0} (r : Planned A) → ((a : A) × (r ≡ ok a)) ⊎ ((e : PlanError) × (r ≡ fail e))
Planned-cases (ok a) = inl (a, refl)
Planned-cases (fail e) = inr (e, refl)

pub same_failure :
    {A B : Type 0} (e f : PlanError)
    → ◌≡◌ {A = Planned A} (fail e) (fail f)
    → ◌≡◌ {A = Planned B} (fail e) (fail f)
same_failure e f h = ground (arith, h)

all_ordered-fuel :
    (tools : List String) (r : Planned (List String))
    → all_ordered tools r ≡ fail out_of_fuel
    → r ≡ fail out_of_fuel
unfolding all_ordered
all_ordered-fuel tools (ok o) e = ground (arith, e)
all_ordered-fuel tools (fail f) e = e

take_ready-fuel :
    (fuel : ℕ) (edges : List Edge) (rows : Rows) (ready ordered : List String)
    → length ready + waiting rows ≤ fuel
    → take_ready fuel edges rows ready ordered ≢ fail out_of_fuel
unfolding take_ready
take_ready-fuel fuel edges rows [] ordered h e = ground (arith, e)
take_ready-fuel zero edges rows (x ∷ ready) ordered h e = ground (arith, h)
take_ready-fuel (suc fuel) edges rows (x ∷ ready) ordered h e = elim (Planned-cases step) [
  | inl (r, n) ↦
      take_ready-fuel fuel edges r.0 r.1 (ordered ++ m.0 ∷ [])
        (omega (arith, h, relax-waiting m.0 ds rows m.1 r n, pop_min-length x ready))
        (subst (λ s. after s ≡ fail out_of_fuel) n e)
  | inr (f, n) ↦
      relax-fuel m.0 ds rows m.1
        (n ∙ same_failure f out_of_fuel (subst (λ s. after s ≡ fail out_of_fuel) n e))
]
  where
    m : String × List String
    m = pop_min x ready

    ds : List String
    ds = sort (to_set (sources_of m.0 edges))

    step : Planned (Rows × List String)
    step = relax m.0 ds rows m.1

    after : Planned (Rows × List String) → Planned (List String)
    after s = elim s [
      | fail e ↦ fail e
      | ok r ↦ take_ready fuel edges r.0 r.1 (ordered ++ m.0 ∷ [])
    ]

rows_of-waiting :
    (edges : List Edge) (tools : List String)
    → length (without_rows (rows_of edges tools)) + waiting (rows_of edges tools) ≡ length tools
unfolding rows_of without_rows waiting
rows_of-waiting edges [] = refl
rows_of-waiting edges (tool ∷ tools) = ground (arith, rows_of-waiting edges tools)

-- Sorting any tools by any edges ends within as many passes as there are tools: the run never stops
-- for lack of fuel.
pub topological_order_terminates :
    (tools : List String) (edges : List Edge) → topological_order tools edges ≢ fail out_of_fuel
unfolding topological_order
topological_order_terminates tools edges e =
    take_ready-fuel (length tools) edges rows (without_rows rows) []
      (omega (arith, rows_of-waiting edges tools)) (all_ordered-fuel tools _ e)
  where
    rows : Rows
    rows = rows_of edges tools

work-le :
    (g : ToolGraph) (d : String) (seen tools : List String)
    → work g (d ∷ seen) tools ≤ work g seen tools
unfolding work contains
work-le g d seen [] = ground arith
work-le g d seen (t ∷ tools) = ground (arith, work-le g d seen tools)

work-add :
    (g : ToolGraph) (d : String) (seen tools : List String)
    → contains String-discrete d seen ≡ false
    → contains String-discrete d tools ≡ true
    → work g (d ∷ seen) tools + length (dependencies_for g d) ≤ work g seen tools
unfolding work contains
work-add g d seen [] n m = ground (arith, m)
work-add g d seen (t ∷ tools) n m = elim (String-discrete t d) [
  | yes same ↦ ground (arith, n, same, work-le g d seen tools)
  | no other ↦ ground (arith, n, other, m, work-add g d seen tools n)
]

close_over-fuel :
    (fuel : ℕ) (g : ToolGraph) (seen pending : List String)
    → length pending + work g seen g.tools ≤ fuel
    → close_over fuel g seen pending ≢ fail out_of_fuel
unfolding close_over is_member
close_over-fuel fuel g seen [] h e = ground (arith, e)
close_over-fuel zero g seen (d ∷ pending) h e = ground (arith, h)
close_over-fuel (suc fuel) g seen (d ∷ pending) h e =
    elim (Bool-cases (contains String-discrete d seen)) [
      | inl s ↦ close_over-fuel fuel g seen pending (omega (arith, h)) (ground (arith, s, e))
      | inr n ↦ elim (Bool-cases (contains String-discrete d g.tools)) [
        | inl m ↦
            close_over-fuel fuel g (d ∷ seen) (reverse (dependencies_for g d) ++ pending)
              (omega (
                arith,
                h,
                work-add g d seen g.tools n m,
                length-append (reverse (dependencies_for g d)) pending,
                length-reverse (dependencies_for g d),
              ))
              (ground (arith, n, m, e))
        | inr m ↦ ground (arith, n, m, e)
      ]
    ]

in_order-fuel :
    (g : ToolGraph) (r : Planned (List String))
    → r ≢ fail out_of_fuel
    → in_order g r ≢ fail out_of_fuel
unfolding in_order
in_order-fuel g (fail f) n e = n e
in_order-fuel g (ok seen) n e = elim (Planned-cases (topological_order g.tools g.edges)) [
  | inl (o, h) ↦ ground (arith, h, e)
  | inr (f, h) ↦ ground (arith, h, e, topological_order_terminates g.tools g.edges)
]

-- The search for the transitive dependencies of a tool ends, in any graph: within as many passes as
-- the graph has dependency edges, and the tool itself has.
pub transitive_dependencies_terminate :
    (g : ToolGraph) (tool : String) → transitive_dependencies_for g tool ≢ fail out_of_fuel
unfolding transitive_dependencies_for
transitive_dependencies_terminate g tool e = elim (Bool-cases (is_member tool g)) [
  | inr b ↦ ground (arith, b, e)
  | inl b ↦
      in_order-fuel g (close_over fuel g [] pending)
        (close_over-fuel fuel g [] pending
          (omega (arith, length-reverse (dependencies_for g tool))))
        (ground (arith, b, e))
]
  where
    fuel : ℕ
    fuel = length (dependencies_for g tool) + work g [] g.tools

    pending : List String
    pending = reverse (dependencies_for g tool)
