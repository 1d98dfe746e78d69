-- ===== src/Graph/Shape/WellFormed.antt =====
-- What a workflow must be for the graph builder, stated of the workflow alone.
use composer.Base.{
  ◌<◌, String, ◌≡◌, ◌≢◌, ◌↔◌, ◌⊎◌, true, false, none, [], ◌∷◌, Memᴰ, length, Distinct,
}
use composer.Workflow.{WorkflowNode, WorkflowEdge, Workflow}
use composer.Graph.Nodes.{is_visual_only, is_conditional, is_start, is_end, is_join, live_edges}
use composer.Graph.Nodes.Lookup.{node_ids}
use composer.Graph.Reachability.{Reach}
use composer.Graph.Markers.{branch_markers}
use composer.Graph.Shape.{ids_of, incoming_edges, outgoing_edges, exclusive_sources}

pub record IsWellFormed (w : Workflow) (s : String) : Type 0 where
  -- the ids are distinct, one node is the start and `s` is its id, and some node is an end
  pub distinct : Distinct (node_ids w.nodes)
  pub starts : ids_of is_start w.nodes ≡ s ∷ []
  pub ends : ids_of is_end w.nodes ≢ []
  -- edges join nodes
  pub known :
      (e : WorkflowEdge)
      → Memᴰ e w.edges
      → Memᴰ e.source (node_ids w.nodes) × Memᴰ e.target (node_ids w.nodes)
  -- one executable node leads into an end, or several whose branches exclude each other
  pub end_in :
      (n : WorkflowNode)
      → Memᴰ n w.nodes
      → is_end n.payload ≡ true
      → (length (incoming_edges w.nodes w.edges n.id) ≡ 1)
        ⊎ ((1 < length (incoming_edges w.nodes w.edges n.id))
            × (exclusive_sources
                  (branch_markers w.nodes w.edges)
                  (incoming_edges w.nodes w.edges n.id)
                ≡ true))
  -- a join leads to one executable node
  pub join_out :
      (n : WorkflowNode)
      → Memᴰ n w.nodes
      → is_join n.payload ≡ true
      → length (outgoing_edges w.nodes w.edges n.id) ≡ 1
  -- the edges that leave conditional nodes have a branch label, and no others have
  pub labelled :
      (e : WorkflowEdge) (n : WorkflowNode)
      → Memᴰ e w.edges
      → Memᴰ n w.nodes
      → n.id ≡ e.source
      → (is_conditional n.payload ≡ true) ↔ (e.branch ≢ none)
  -- edges between executable nodes lead from the start to each of them
  pub connected :
      (n : WorkflowNode)
      → Memᴰ n w.nodes
      → is_visual_only n.payload ≡ false
      → Reach (live_edges w.nodes w.edges) s n.id
