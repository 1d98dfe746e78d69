-- ===== src/Graph/Nodes.antt =====
-- Node types and the `nodes` dict of src/engine/graph_builder.py.
pub mod Lookup
use composer.Base.{
  String, ◌≡◌, Bool, true, false, not, ◌&&◌, Option, none, some, List, [], ◌∷◌, find, keep, ◌==◌,
}
use composer.Workflow.{
  NodeData, start, if_else, decision, while, end, join, note, file_trigger, user_approval,
  WorkflowNode, WorkflowEdge,
}

-- `_VISUAL_ONLY_TYPES`
abbrev pub is_visual_only : NodeData → Bool
is_visual_only note = true
is_visual_only file_trigger = true
is_visual_only _ = false

-- `CONDITIONAL_SOURCE_TYPES`
abbrev pub is_conditional : NodeData → Bool
is_conditional (if_else _) = true
is_conditional (while _ _) = true
is_conditional user_approval = true
is_conditional (decision _ _) = true
is_conditional _ = false

abbrev pub is_start : NodeData → Bool
is_start (start _) = true
is_start _ = false

abbrev pub is_end : NodeData → Bool
is_end end = true
is_end _ = false

abbrev pub is_join : NodeData → Bool
is_join join = true
is_join _ = false

-- `nodes[id]`, where `nodes` holds the nodes by id.
unfoldable pub find_node : List WorkflowNode → String → Option WorkflowNode
find_node nodes id = find (λ n. n.id == id) nodes

-- `nodes[id].type` is not visual-only. `false` on a missing key, where Python would raise.
unfoldable pub executable : List WorkflowNode → String → Bool
unfolding find_node
executable nodes id = elim (find_node nodes id) [
  | none ↦ false
  | some n ↦ not (is_visual_only n.payload)
]

-- The edges that a visual-only node touches on neither end.
unfoldable pub live_edges : List WorkflowNode → List WorkflowEdge → List WorkflowEdge
unfolding executable
live_edges nodes = keep (λ e. executable nodes e.source && executable nodes e.target)
