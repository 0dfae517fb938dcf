-- ===== src/ToolPlan/Consistency.antt =====
-- What the checks of `ToolGraph.__post_init__` establish of a graph that they let pass.
use nonebot_plugin_moellmcha.Prelude.{
  ◌≡◌, ◌≤◌, ◌⊎◌, inl, inr, refl, sym, ◌∙◌, ap, subst, arith, Bool, true, false, not, ◌&&◌, some,
  List, [], ◌∷◌, String, String-discrete, if◌then◌else◌, contains, All, Bool-cases, Option-cases,
}
use nonebot_plugin_moellmcha.ToolPlan.Graph.{Relation, same_relation, Edge, is, ToolGraph, sort}
use nonebot_plugin_moellmcha.ToolPlan.Order.{PlanError, Planned, ok, fail, topological_order}
use nonebot_plugin_moellmcha.ToolPlan.Scheduler.{all_in, is_distinct}
use nonebot_plugin_moellmcha.ToolPlan.Plan.{same_ok}
use nonebot_plugin_moellmcha.ToolPlan.Counting.{count, count-sort, is_distinct-count}
use nonebot_plugin_moellmcha.ToolPlan.Safety.{and_then-ok}
use nonebot_plugin_moellmcha.ToolPlan.Conflicts.{Pair, same_pair}
use nonebot_plugin_moellmcha.ToolPlan.Validation.{
  sort_edges, has_edge, edges_distinct, pair_of, find_relation, check_edges, check_capabilities,
  make_graph,
}

pub record IsValidated (g : ToolGraph) : Type 0 where
  pub once : (t : String) → count t g.tools ≤ 1
  pub ends_known :
      (e : Edge)
      → has_edge e g.edges ≡ true
      → (contains String-discrete e.source g.tools ≡ true)
        × (contains String-discrete e.target g.tools ≡ true)
  pub one_relation :
      (e f : Edge)
      → has_edge e g.edges ≡ true
      → has_edge f g.edges ≡ true
      → pair_of e ≡ pair_of f
      → e.relation ≡ f.relation
  pub no_cycle : (order : List String) × (topological_order g.tools g.edges ≡ ok order)

same_relation-eq : (p r : Relation) → same_relation p r ≡ true → p ≡ r
unfolding same_relation
same_relation-eq p r h = ground (arith, h)

is-eq : (a b : String) → is a b ≡ true → a ≡ b
unfolding is
is-eq a b h = elim (String-discrete a b) [ yes e ↦ e | no n ↦ ground (arith, h, n) ]

is_refl : (a : String) → is a a ≡ true
unfolding is
is_refl a = elim (String-discrete a a) [ yes e ↦ ground (arith, e) | no n ↦ elim (n refl) [ ] ]

same_pair_refl : (p : Pair) → same_pair p p ≡ true
unfolding same_pair
same_pair_refl p = ground (arith, is_refl p.0, is_refl p.1)

same_pair-eq : (p q : Pair) → same_pair p q ≡ true → p ≡ q
unfolding same_pair
same_pair-eq p q h =
    ap (λ a. (a, p.1)) (is-eq p.0 q.0 (ground (arith, h)))
    ∙ ap (λ b. (q.0, b)) (is-eq p.1 q.1 (ground (arith, h)))

Agrees : Pair → Relation → List Edge → Type 0
Agrees p r es = All (λ f. pair_of f ≡ p → f.relation ≡ r) es

check_edges-step :
    (tools : List String) (e : Edge) (es : List Edge) (seen : List (Pair × Relation)) (u : Unit {0})
    → check_edges tools (e ∷ es) seen ≡ ok u
    → (check_edges tools es ((pair_of e, e.relation) ∷ seen) ≡ ok u)
      × ((r : Relation) → find_relation (pair_of e) seen ≡ some r → e.relation ≡ r)
unfolding check_edges
check_edges-step tools e es seen u h = elim (Option-cases (find_relation (pair_of e) seen)) [
  | inl n ↦ (ground (arith, h, n), λ r q. ground (arith, n, q))
  | inr (r, n) ↦
      (ground (arith, h, n), λ r' q. ground (arith, h, n, q, same_relation-eq r e.relation))
]

check_edges-Agrees :
    (tools : List String) (es : List Edge) (seen : List (Pair × Relation)) (u : Unit {0}) (p : Pair)
    (r : Relation)
    → check_edges tools es seen ≡ ok u
    → find_relation p seen ≡ some r
    → Agrees p r es
unfolding find_relation Agrees
check_edges-Agrees tools [] seen u p r h f = tt
check_edges-Agrees tools (e ∷ es) seen u p r h f =
    let (rest, agrees) = check_edges-step tools e es seen u h in
    let head : pair_of e ≡ p → e.relation ≡ r =
      λ q. agrees r (ap (λ x. find_relation x seen) q ∙ f) in
    (
      head,
      check_edges-Agrees tools es _ u p r rest (kept head (Bool-cases (same_pair (pair_of e) p))),
    )
  where
    kept :
        (pair_of e ≡ p → e.relation ≡ r)
        → (same_pair (pair_of e) p ≡ true) ⊎ (same_pair (pair_of e) p ≡ false)
        → find_relation p ((pair_of e, e.relation) ∷ seen) ≡ some r
    kept head (inl b) = ground (arith, b, head (same_pair-eq (pair_of e) p b))
    kept head (inr b) = ground (arith, b, f)

same_edge-eq :
    (e f : Edge)
    → (is f.source e.source && is f.target e.target && same_relation f.relation e.relation) ≡ true
    → f ≡ e
same_edge-eq e f h =
    let s = is-eq f.source e.source (ground (arith, h)) in
    let t = is-eq f.target e.target (ground (arith, h)) in
    let r = same_relation-eq f.relation e.relation (ground (arith, h)) in
    λ i. record { source = s i; target = t i; relation = r i }

Agreeing : List Edge → Type 0
Agreeing [] = Unit {0}
Agreeing (e ∷ es) = Agrees (pair_of e) e.relation es × Agreeing es

check_edges-Agreeing :
    (tools : List String) (es : List Edge) (seen : List (Pair × Relation)) (u : Unit {0})
    → check_edges tools es seen ≡ ok u
    → Agreeing es
unfolding Agreeing find_relation
check_edges-Agreeing tools [] seen u h = tt
check_edges-Agreeing tools (e ∷ es) seen u h =
    let (rest, agrees) = check_edges-step tools e es seen u h in
    (
      check_edges-Agrees tools es _ u (pair_of e) e.relation rest
          (ground (arith, same_pair_refl (pair_of e))),
      check_edges-Agreeing tools es _ u rest,
    )

has_edge-cases :
    (e x : Edge) (es : List Edge) → has_edge e (x ∷ es) ≡ true → (x ≡ e) ⊎ (has_edge e es ≡ true)
unfolding has_edge
has_edge-cases e x es h =
    elim (Bool-cases
      (is x.source e.source && is x.target e.target && same_relation x.relation e.relation)) [
        | inl b ↦ inl (same_edge-eq e x b)
        | inr b ↦ inr (ground (arith, b, h))
      ]

Agrees-has_edge :
    (p : Pair) (r : Relation) (es : List Edge) (e : Edge)
    → Agrees p r es
    → has_edge e es ≡ true
    → pair_of e ≡ p
    → e.relation ≡ r
unfolding Agrees has_edge
Agrees-has_edge p r [] e a h q = ground (arith, h)
Agrees-has_edge p r (f ∷ es) e (a, rest) h q = elim (has_edge-cases e f es h) [
  | inl same ↦ ap (λ x. x.relation) (sym same) ∙ a (ap pair_of same ∙ q)
  | inr later ↦ Agrees-has_edge p r es e rest later q
]

one_relation_lem :
    (es : List Edge) (e f : Edge)
    → Agreeing es
    → has_edge e es ≡ true
    → has_edge f es ≡ true
    → pair_of e ≡ pair_of f
    → e.relation ≡ f.relation
unfolding Agreeing has_edge
one_relation_lem [] e f a he hf q = ground (arith, he)
one_relation_lem (x ∷ es) e f (a, rest) he hf q = elim (has_edge-cases e x es he) [
  | inl d ↦ elim (has_edge-cases f x es hf) [
    | inl g ↦ ap (λ y. y.relation) (sym d ∙ g)
    | inr g ↦
        ap (λ y. y.relation) (sym d)
        ∙ sym (Agrees-has_edge (pair_of x) x.relation es f a g (sym (ap pair_of d ∙ q)))
  ]
  | inr d ↦ elim (has_edge-cases f x es hf) [
    | inl g ↦
        Agrees-has_edge (pair_of x) x.relation es e a d (q ∙ sym (ap pair_of g))
        ∙ ap (λ y. y.relation) g
    | inr g ↦ one_relation_lem es e f rest d g q
  ]
]

check_edges-head :
    (tools : List String) (e : Edge) (es : List Edge) (seen : List (Pair × Relation)) (u : Unit {0})
    → check_edges tools (e ∷ es) seen ≡ ok u
    → (contains String-discrete e.source tools ≡ true)
      × (contains String-discrete e.target tools ≡ true)
unfolding check_edges
check_edges-head tools e es seen u h = (ground (arith, h), ground (arith, h))

ends_known_lem :
    (tools : List String) (es : List Edge) (seen : List (Pair × Relation)) (u : Unit {0}) (e : Edge)
    → check_edges tools es seen ≡ ok u
    → has_edge e es ≡ true
    → (contains String-discrete e.source tools ≡ true)
      × (contains String-discrete e.target tools ≡ true)
unfolding has_edge
ends_known_lem tools [] seen u e h m = ground (arith, m)
ends_known_lem tools (x ∷ es) seen u e h m =
    let (rest, agrees) = check_edges-step tools x es seen u h in
    elim (has_edge-cases e x es m) [
      | inl same ↦
          subst
            (λ y.
              (contains String-discrete y.source tools ≡ true)
              × (contains String-discrete y.target tools ≡ true))
            same (check_edges-head tools x es seen u h)
      | inr later ↦ ends_known_lem tools es _ u e rest later
    ]

if_passes :
    {A : Type 0} (b : Bool) (err : PlanError) (x : Planned A) (a : A)
    → (if b then fail err else x) ≡ ok a
    → x ≡ ok a
if_passes true err x a h = ground (arith, h)
if_passes false err x a h = h

if_holds :
    {A : Type 0} (b : Bool) (err : PlanError) (x : Planned A) (a : A)
    → (if not b then fail err else x) ≡ ok a
    → b ≡ true
if_holds b err x a h = ground (arith, h)

-- A graph that `__post_init__` lets pass is validated: no tool is listed twice, the ends of every edge are its tools, all edges between one
-- pair of tools have one relation, and its dependencies have an order.
pub make_graph-IsValidated :
    (tools : List String) (edges : List Edge) (confirmation : List String)
    (capabilities : List (String × List String)) (g : ToolGraph)
    → make_graph tools edges confirmation capabilities ≡ ok g
    → IsValidated g
unfolding make_graph
make_graph-IsValidated tools edges confirmation capabilities g h =
    let past_tools = if_passes (not (is_distinct tools)) _ _ g h in
    let past_edges = if_passes (not (edges_distinct (sort_edges edges))) _ _ g past_tools in
    let (u, checked, tail) =
      and_then-ok (check_edges (sort tools) (sort_edges edges) []) _ g past_edges in
    let past_confirmation = if_passes (not (all_in confirmation (sort tools))) _ _ g tail in
    let (cs, capable, rest) =
      and_then-ok (check_capabilities (sort tools) capabilities) _ g past_confirmation in
    let (order, ordered, made) =
      and_then-ok (topological_order (sort tools) (sort_edges edges)) _ g rest in
    let distinct = if_holds (is_distinct tools) _ _ g h in
    subst IsValidated (same_ok made) (record {
      once = λ t. omega (arith, count-sort t tools, is_distinct-count t tools distinct);
      ends_known = λ e. ends_known_lem (sort tools) (sort_edges edges) [] u e checked;
      one_relation = λ e f.
          one_relation_lem (sort_edges edges) e f
            (check_edges-Agreeing (sort tools) (sort_edges edges) [] u checked);
      no_cycle = (order, ordered);
    })
