-- ===== src/ToolPlan/Graph.antt =====
-- `ToolGraphEdge` and `ToolGraph` of tool_graph.py, with the checks on names left to the caller.
use Prim.Native.Nat.{Ordering}
use Prim.Native.String.{compare}
use nonebot_plugin_moellmcha.Prelude.{
  Bool, true, false, not, ◌&&◌, Option, none, some, List, [], ◌∷◌, String, String-discrete, ite,
  if◌then◌else◌, contains, lookup,
}

pub data Relation : Type 0 where
  depends_on parallel_with conflicts_with : Relation

unfoldable pub same_relation : Relation → Relation → Bool
same_relation depends_on depends_on = true
same_relation parallel_with parallel_with = true
same_relation conflicts_with conflicts_with = true
same_relation _ _ = false

pub record Edge : Type 0 where
  pub source : String
  pub target : String
  pub relation : Relation

abbrev pub text_lt : String → String → Bool
text_lt a b = elim (compare a b) [ Ordering.lt ↦ true | _ ↦ false ]

unfoldable pub is : String → String → Bool
is a b = ite (String-discrete a b) true false

-- `ToolGraphEdge.__post_init__`: an undirected edge has its smaller end first.
unfoldable pub make_edge : String → String → Relation → Option Edge
unfolding is same_relation
make_edge source target relation =
    if is source target
    then none
    else if not (same_relation relation depends_on) && text_lt target source
    then some (record { source = target; target = source; relation = relation })
    else some (record { source = source; target = target; relation = relation })

pub record ToolGraph : Type 0 where
  pub tools : List String
  pub edges : List Edge
  pub requires_confirmation : List String
  pub requires_capability : List (String × List String)

-- Python's `sorted`, on names
unfoldable pub sort_insert : String → List String → List String
sort_insert x [] = x ∷ []
sort_insert x (y ∷ ys) = let rest = sort_insert x ys in if text_lt y x then y ∷ rest else x ∷ y ∷ ys

unfoldable pub sort : List String → List String
unfolding sort_insert
sort [] = []
sort (x ∷ xs) = sort_insert x (sort xs)

unfoldable pub targets_of : String → List Edge → List String
unfolding is same_relation
targets_of tool [] = []
targets_of tool (e ∷ es) =
    let rest = targets_of tool es in
    if same_relation e.relation depends_on && is e.source tool then e.target ∷ rest else rest

unfoldable pub sources_of : String → List Edge → List String
unfolding is same_relation
sources_of tool [] = []
sources_of tool (e ∷ es) =
    let rest = sources_of tool es in
    if same_relation e.relation depends_on && is e.target tool then e.source ∷ rest else rest

unfoldable pub neighbors : String → Relation → List Edge → List String
unfolding is same_relation
neighbors tool relation [] = []
neighbors tool relation (e ∷ es) =
    let rest = neighbors tool relation es in
    if not (same_relation e.relation relation)
    then rest
    else if is e.source tool
    then e.target ∷ rest
    else if is e.target tool
    then e.source ∷ rest
    else rest

-- The queries of the graph, each about a tool of the graph (`_require_member`).
unfoldable pub is_member : String → ToolGraph → Bool
is_member tool g = contains String-discrete tool g.tools

unfoldable pub dependencies_for : ToolGraph → String → List String
unfolding targets_of
dependencies_for g tool = targets_of tool g.edges

unfoldable pub dependents_for : ToolGraph → String → List String
unfolding sources_of
dependents_for g tool = sources_of tool g.edges

unfoldable pub parallel_tools_for : ToolGraph → String → List String
unfolding neighbors sort
parallel_tools_for g tool = sort (neighbors tool parallel_with g.edges)

unfoldable pub conflicts_for : ToolGraph → String → List String
unfolding neighbors sort
conflicts_for g tool = sort (neighbors tool conflicts_with g.edges)

unfoldable pub confirmation_required_for : ToolGraph → String → Bool
confirmation_required_for g tool = contains String-discrete tool g.requires_confirmation

unfoldable pub capabilities_required_for : ToolGraph → String → List String
capabilities_required_for g tool = elim (lookup String-discrete tool g.requires_capability) [
  | none ↦ []
  | some capabilities ↦ capabilities
]
