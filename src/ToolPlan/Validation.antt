-- ===== src/ToolPlan/Validation.antt =====
-- `ToolGraph.__post_init__`: which graphs are made, after the syntax of names has been checked.
use nonebot_plugin_moellmcha.Prelude.{
  Bool, true, false, not, ◌&&◌, ◌||◌, Option, none, some, List, [], ◌∷◌, String, String-discrete,
  if◌then◌else◌, contains,
}
use nonebot_plugin_moellmcha.ToolPlan.Graph.{
  Relation, depends_on, parallel_with, conflicts_with, same_relation, Edge, text_lt, is, ToolGraph,
  sort,
}
use nonebot_plugin_moellmcha.ToolPlan.Order.{
  repeated_tool, unknown_tool, repeated_edge, contradictory_relations, capability_invalid, Planned,
  ok, fail, is_empty, topological_order,
}
use nonebot_plugin_moellmcha.ToolPlan.Scheduler.{all_in, is_distinct, and_then}
use nonebot_plugin_moellmcha.ToolPlan.Conflicts.{Pair, canonical_pair, same_pair}

unfoldable pub relation_value : Relation → String
relation_value depends_on = "depends_on"
relation_value parallel_with = "parallel_with"
relation_value conflicts_with = "conflicts_with"

-- `_edge_sort_key`, compared as Python compares tuples
unfoldable pub edge_lt : Edge → Edge → Bool
unfolding is relation_value
edge_lt a b =
    text_lt (relation_value a.relation) (relation_value b.relation)
    || (is (relation_value a.relation) (relation_value b.relation)
        && (text_lt a.source b.source || (is a.source b.source && text_lt a.target b.target)))

unfoldable pub insert_edge : Edge → List Edge → List Edge
unfolding edge_lt
insert_edge e [] = e ∷ []
insert_edge e (f ∷ es) = let rest = insert_edge e es in if edge_lt f e then f ∷ rest else e ∷ f ∷ es

unfoldable pub sort_edges : List Edge → List Edge
unfolding insert_edge
sort_edges [] = []
sort_edges (e ∷ es) = insert_edge e (sort_edges es)

unfoldable pub has_edge : Edge → List Edge → Bool
unfolding is same_relation
has_edge e [] = false
has_edge e (f ∷ es) =
    (is f.source e.source && is f.target e.target && same_relation f.relation e.relation)
    || has_edge e es

unfoldable pub edges_distinct : List Edge → Bool
unfolding has_edge
edges_distinct [] = true
edges_distinct (e ∷ es) = not (has_edge e es) && edges_distinct es

abbrev pub pair_of : Edge → Pair
pair_of e = canonical_pair e.source e.target

-- `pair_relations.get(pair)`; an entry is only ever replaced by an equal one
unfoldable pub find_relation : Pair → List (Pair × Relation) → Option Relation
unfolding same_pair
find_relation p [] = none
find_relation p ((q, r) ∷ seen) =
    let rest = find_relation p seen in if same_pair q p then some r else rest

-- the loop over the edges
unfoldable pub check_edges : List String → List Edge → List (Pair × Relation) → Planned (Unit {0})
unfolding find_relation same_relation canonical_pair
check_edges tools [] seen = ok tt
check_edges tools (e ∷ es) seen =
    let rest = check_edges tools es ((pair_of e, e.relation) ∷ seen) in
    if not (contains String-discrete e.source tools && contains String-discrete e.target tools)
    then fail unknown_tool
    else (elim (find_relation (pair_of e) seen) [
      | none ↦ rest
      | some r ↦ if same_relation r e.relation then rest else fail contradictory_relations
    ])

unfoldable pub check_capabilities :
    List String → List (String × List String) → Planned (List (String × List String))
unfolding is_empty is_distinct sort and_then
check_capabilities tools [] = ok []
check_capabilities tools ((tool, required) ∷ rest) =
    if not (contains String-discrete tool tools)
    then fail unknown_tool
    else if is_empty required || not (is_distinct required)
    then fail capability_invalid
    else and_then (check_capabilities tools rest) (λ checked. ok ((tool, sort required) ∷ checked))

-- `sorted(capabilities.items())`; the names of a mapping are distinct, so they alone decide
unfoldable pub insert_capability :
    String × List String → List (String × List String) → List (String × List String)
insert_capability c [] = c ∷ []
insert_capability c (d ∷ ds) =
    let rest = insert_capability c ds in if text_lt d.0 c.0 then d ∷ rest else c ∷ d ∷ ds

unfoldable pub sort_capabilities : List (String × List String) → List (String × List String)
unfolding insert_capability
sort_capabilities [] = []
sort_capabilities (c ∷ cs) = insert_capability c (sort_capabilities cs)

unfoldable pub make_graph :
    List String → List Edge → List String → List (String × List String) → Planned ToolGraph
unfolding is_distinct sort sort_edges edges_distinct check_edges all_in check_capabilities
    sort_capabilities topological_order and_then
make_graph tools edges confirmation capabilities =
    if not (is_distinct tools)
    then fail repeated_tool
    else if not (edges_distinct (sort_edges edges))
    then fail repeated_edge
    else and_then (check_edges (sort tools) (sort_edges edges) []) (λ _.
      if not (all_in confirmation (sort tools))
      then fail unknown_tool
      else and_then (check_capabilities (sort tools) capabilities) (λ checked.
        and_then (topological_order (sort tools) (sort_edges edges)) (λ _. ok (record {
          tools = sort tools;
          edges = sort_edges edges;
          requires_confirmation = confirmation;
          requires_capability = sort_capabilities checked;
        }))))
