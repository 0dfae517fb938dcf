-- ===== src/ToolPlan/Dropped.antt =====
-- Why `resolve` drops a tool.
use nonebot_plugin_moellmcha.Prelude.{◌≡◌, ◌⊎◌, some, List, String, if◌then◌else◌}
use nonebot_plugin_moellmcha.ToolPlan.Graph.{ToolGraph, is, conflicts_for}
use nonebot_plugin_moellmcha.ToolPlan.Batches.{Has}
use nonebot_plugin_moellmcha.ToolPlan.Conflicts.{prefer, Pair, Rule, find_rule}

module _ (graph : ToolGraph) (selected : List String) where
  -- two selected tools that conflict in the graph
  pub IsConflict : Pair → Type 0
  IsConflict p =
      Has selected p.0
      × Has selected p.1
      × (Has (conflicts_for graph p.0) p.1 ⊎ Has (conflicts_for graph p.1) p.0)

  -- the loser of two selected tools that conflict, by the first rule about them, which prefers the
  -- other
  pub record IsLoser (rules : List Rule) (t : String) : Type 0 where
    pub pair : Pair
    pub rule : Rule
    pub winner : String
    pub conflict : IsConflict pair
    pub found : find_rule pair rules ≡ some rule
    pub preference : (rule.action ≡ prefer) × (rule.winner ≡ some winner)
    pub lost : t ≡ (if is winner pair.0 then pair.1 else pair.0)
