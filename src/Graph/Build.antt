-- ===== src/Graph/Build.antt =====
-- `build_graph` of src/engine/graph_builder.py, up to its last line, the call of LangGraph's `compile`.
pub mod Routing
pub mod Targets
use composer.Base.{
  ℕ, String, Bool, true, false, not, ◌&&◌, Option, none, some, List, [], ◌∷◌, ◌++◌, map, keep, find,
  ◌==◌, if◌then◌else◌, Result, ok, err, ◌>>=◌, ◌>>◌,
}
use composer.Base.Dict.{Dict}
use composer.Workflow.{NodeData, note, file_trigger, WorkflowNode, WorkflowEdge, Workflow}
use composer.Graph.Nodes.{
  is_visual_only, is_conditional, is_start, is_end, find_node, live_edges, executable,
}
use composer.Graph.Shape.{Violation, validate_workflow_shape, ids_of}
use composer.Graph.Branches.{BranchError, branch_mapping}
use composer.Graph.Routers.{required_branches}

pub data BuildError : Type 0 where
  invalid : Violation → BuildError
  not_implemented : String → BuildError
  bad_branches : BranchError → BuildError
  assertion_failed : BuildError

-- One call of `add_conditional_edges`: the node, whose closure is the router, and the mapping.
pub record Conditional : Type 0 where
  pub node : WorkflowNode
  pub mapping : Dict String

-- What `build_graph` has told LangGraph's `StateGraph`.
pub record Compiled : Type 0 where
  pub nodes : List String
  pub edges : List (String × String)
  pub conditional : List Conditional
  pub entry : String
  pub exits : List String

-- `_REGISTRY` holds a class for every node type but the visual-only ones.
abbrev pub registered : NodeData → Bool
registered note = false
registered file_trigger = false
registered _ = true

-- `build_executor`
unfoldable pub build_executor : WorkflowNode → Result BuildError WorkflowNode
build_executor n = if registered n.payload then ok n else err (not_implemented n.id)

-- The first loop: a graph node for every node but the visual-only ones.
unfoldable pub add_nodes : List WorkflowNode → Result BuildError (List String)
unfolding build_executor
add_nodes [] = ok []
add_nodes (n ∷ ns) =
    let rest = add_nodes ns in
    if is_visual_only n.payload
    then rest
    else do executor ← build_executor n; ids ← rest; ok (executor.id ∷ ids)

-- The second loop: plain edges.
abbrev pub conditional_source : List WorkflowNode → WorkflowEdge → Bool
conditional_source nodes e = elim (find_node nodes e.source) [
  | none ↦ false
  | some n ↦ is_conditional n.payload
]

unfoldable pub add_edges : List WorkflowNode → List WorkflowEdge → List (String × String)
unfolding live_edges find_node
add_edges nodes edges =
    map (λ e. (e.source, e.target))
      (keep (λ e. not (conditional_source nodes e)) (live_edges nodes edges))

-- The third loop: one mapping for every conditional node.
unfoldable pub add_conditional : List WorkflowEdge → WorkflowNode → Result BuildError Conditional
unfolding required_branches branch_mapping
add_conditional edges n = elim (required_branches n.payload) [
  | none ↦ err assertion_failed
  | some required ↦ elim (branch_mapping n.id edges required) [
    | ok m ↦ ok (record { node = n; mapping = m })
    | err e ↦ err (bad_branches e)
  ]
]

unfoldable pub add_conditionals :
    List WorkflowEdge → List WorkflowNode → Result BuildError (List Conditional)
unfolding add_conditional
add_conditionals edges [] = ok []
add_conditionals edges (n ∷ ns) =
    let rest = add_conditionals edges ns in
    if is_conditional n.payload
    then (do c ← add_conditional edges n; cs ← rest; ok (c ∷ cs))
    else rest

-- `validate_workflow_shape(workflow)`, whose exception passes through.
abbrev pub validated : Result Violation (Unit {0}) → Result BuildError (Unit {0})
validated (ok u) = ok u
validated (err v) = err (invalid v)

abbrev pub first_id : List String → String
first_id [] = ""
first_id (s ∷ _) = s

-- The state graph that `build_graph` compiles; `compile` validates it once more and may raise, so the graphs
-- that run are among these. `next(...)` finds a start node in a validated workflow.
unfoldable pub build_state_graph : Workflow → Result BuildError Compiled
build_state_graph workflow = do
  validated (validate_workflow_shape workflow)
  nodes ← add_nodes workflow.nodes
  conditional ← add_conditionals workflow.edges workflow.nodes
  ok (record {
    nodes = nodes;
    edges = add_edges workflow.nodes workflow.edges;
    conditional = conditional;
    entry = first_id (ids_of is_start workflow.nodes);
    exits = ids_of is_end workflow.nodes;
  })
