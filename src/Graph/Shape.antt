-- ===== src/Graph/Shape.antt =====
-- `collect_workflow_violations` and `validate_workflow_shape` of src/engine/graph_builder.py.
pub mod WellFormed
pub mod Parts
pub mod Correct
pub mod Rules
use composer.Base.{
  ℕ, String, Bool, true, false, not, ◌&&◌, none, some, List, [], ◌∷◌, ◌++◌, map, length, keep,
  all_pairs, collect, contains, eqb, ltb, ◌==◌, if◌then◌else◌, Result, ok, err,
}
use composer.Base.Dict.{Dict}
use composer.Workflow.{NodeData, WorkflowNode, WorkflowEdge, Workflow}
use composer.Graph.Nodes.{
  is_visual_only, is_conditional, is_start, is_end, is_join, find_node, executable, live_edges,
}
use composer.Graph.Reachability.{reachable_from}
use composer.Graph.Markers.{Marker, marks_at, branch_markers, mutually_exclusive}

-- The messages, with what they name.
pub data Violation : Type 0 where
  duplicated : String → Violation
  start_count : ℕ → Violation
  no_end : Violation
  unknown_source unknown_target : String → String → Violation
  end_incoming : String → ℕ → Violation
  join_outgoing : String → ℕ → Violation
  no_branch : String → String → Violation
  stray_branch : String → String → String → Violation
  unreachable : String → Violation

-- 1. The ids that an earlier node has, and the dict that the loop leaves: the first node of each id.
unfoldable pub duplicates : List String → List WorkflowNode → List Violation
duplicates seen [] = []
duplicates seen (n ∷ ns) = elim (contains seen n.id) [
  | true ↦ duplicated n.id ∷ duplicates seen ns
  | false ↦ duplicates (n.id ∷ seen) ns
]

unfoldable pub unique_nodes : List String → List WorkflowNode → List WorkflowNode
unique_nodes seen [] = []
unique_nodes seen (n ∷ ns) = elim (contains seen n.id) [
  | true ↦ unique_nodes seen ns
  | false ↦ n ∷ unique_nodes (n.id ∷ seen) ns
]

-- 4. Edge endpoints.
unfoldable pub edge_endpoints : List String → WorkflowEdge → List Violation
edge_endpoints known e =
    if not (contains known e.source)
    then unknown_source e.id e.source ∷ []
    else if not (contains known e.target)
    then unknown_target e.id e.target ∷ []
    else []

unfoldable pub clean_edges : List String → List WorkflowEdge → List WorkflowEdge
clean_edges known = keep (λ e. contains known e.source && contains known e.target)

-- 5. The edges into an end node from an executable node, and the rule for them.
unfoldable pub incoming_edges : List WorkflowNode → List WorkflowEdge → String → List WorkflowEdge
unfolding executable
incoming_edges nodes edges id = keep (λ e. e.target == id && executable nodes e.source) edges

unfoldable pub exclusive_sources : Dict (List Marker) → List WorkflowEdge → Bool
unfolding marks_at mutually_exclusive
exclusive_sources markers =
    all_pairs (λ d e. mutually_exclusive (marks_at markers d.source) (marks_at markers e.source))

unfoldable pub end_rule :
    List WorkflowNode → List WorkflowEdge → Dict (List Marker) → String → List Violation
unfolding incoming_edges exclusive_sources
end_rule nodes edges markers id =
    let incoming = incoming_edges nodes edges id in
    let count = length incoming in
    if eqb count 1
    then []
    else if ltb 1 count && exclusive_sources markers incoming
    then []
    else end_incoming id count ∷ []

-- 6. Joins.
unfoldable pub outgoing_edges : List WorkflowNode → List WorkflowEdge → String → List WorkflowEdge
unfolding executable
outgoing_edges nodes edges id = keep (λ e. e.source == id && executable nodes e.target) edges

unfoldable pub join_rule : List WorkflowNode → List WorkflowEdge → WorkflowNode → List Violation
unfolding outgoing_edges
join_rule nodes edges n =
    let count = length (outgoing_edges nodes edges n.id) in
    if not (is_join n.payload)
    then []
    else if eqb count 1
    then []
    else join_outgoing n.id count ∷ []

-- 7. Branch labels. A missing source, which clean edges do not have, would raise.
unfoldable pub branch_rule : List WorkflowNode → WorkflowEdge → List Violation
unfolding find_node
branch_rule nodes e = elim (find_node nodes e.source) [
  | none ↦ []
  | some source ↦
      if is_conditional source.payload
      then elim e.branch [ none ↦ no_branch e.id source.id ∷ [] | some _ ↦ [] ]
      else elim e.branch [ none ↦ [] | some b ↦ stray_branch e.id b source.id ∷ [] ]
]

-- 8. Reachability.
unfoldable pub reach_rule : List String → WorkflowNode → List Violation
reach_rule reachable n =
    if is_visual_only n.payload
    then []
    else if contains reachable n.id
    then []
    else unreachable n.id ∷ []

-- The checks that need the one start node.
unfoldable pub graph_violations :
    List WorkflowNode → List String → List WorkflowEdge → String → List Violation
unfolding end_rule join_rule branch_rule reach_rule live_edges reachable_from branch_markers
graph_violations nodes end_ids edges start_id =
    collect (end_rule nodes edges (branch_markers nodes edges)) end_ids
    ++ (collect (join_rule nodes edges) nodes
        ++ (collect (branch_rule nodes) edges
            ++ collect (reach_rule (reachable_from (live_edges nodes edges) start_id)) nodes))

abbrev pub ids_of : (NodeData → Bool) → List WorkflowNode → List String
ids_of test nodes = map (λ n. n.id) (keep (λ n. test n.payload) nodes)

-- 2 to 8, with the early return when there is not exactly one start node.
unfoldable pub start_violations : List String → List Violation
start_violations [] = start_count 0 ∷ []
start_violations (s ∷ []) = []
start_violations (s ∷ t ∷ rest) = start_count (length (s ∷ t ∷ rest)) ∷ []

unfoldable pub end_violations : List String → List Violation
end_violations [] = no_end ∷ []
end_violations (e ∷ es) = []

unfoldable pub later_violations :
    List WorkflowNode → List String → List WorkflowEdge → List String → List Violation
unfolding graph_violations
later_violations nodes end_ids edges (s ∷ []) = graph_violations nodes end_ids edges s
later_violations nodes end_ids edges _ = []

unfoldable pub collect_workflow_violations : Workflow → List Violation
unfolding duplicates unique_nodes start_violations end_violations edge_endpoints clean_edges
    later_violations
collect_workflow_violations workflow =
    let nodes = unique_nodes [] workflow.nodes in
    let start_ids = ids_of is_start workflow.nodes in
    let end_ids = ids_of is_end workflow.nodes in
    let known_ids = map (λ n. n.id) nodes in
    duplicates [] workflow.nodes
    ++ (start_violations start_ids
        ++ (end_violations end_ids
            ++ (collect (edge_endpoints known_ids) workflow.edges
                ++ later_violations nodes end_ids (clean_edges known_ids workflow.edges)
                    start_ids)))

-- Raises the first violation.
unfoldable pub raise_first : List Violation → Result Violation (Unit {0})
raise_first [] = ok tt
raise_first (v ∷ rest) = err v

unfoldable pub validate_workflow_shape : Workflow → Result Violation (Unit {0})
unfolding collect_workflow_violations raise_first
validate_workflow_shape workflow = raise_first (collect_workflow_violations workflow)
