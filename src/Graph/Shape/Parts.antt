-- ===== src/Graph/Shape/Parts.antt =====
-- The report taken apart into its checks.
use mathlib.Core.List.Memᴰ
use composer.Base.{
  String, Bool, mem-keep, ◌≡◌, refl, ◌↔◌, true, List, [], ◌∷◌, ◌++◌, Memᴰ, arith, contains_iff,
  keep-all, collect, collect-eq-nil, append-eq-nil, keep,
}
use composer.Workflow.{NodeData, WorkflowNode, WorkflowEdge, Workflow}
use composer.Graph.Nodes.{is_start, is_end, live_edges}
use composer.Graph.Nodes.Lookup.{node_ids}
use composer.Graph.Reachability.{reachable_from}
use composer.Graph.Markers.{branch_markers}
use composer.Graph.Shape.{
  duplicates, unique_nodes, edge_endpoints, clean_edges, end_rule, join_rule, branch_rule,
  reach_rule, graph_violations, ids_of, start_violations, end_violations, later_violations,
  collect_workflow_violations,
}
use composer.Graph.Shape.Rules.{unique_nodes_id, edge_endpoints-eq-nil}

-- The edges that the later checks see are all of them once the fourth check reports nothing.
clean_edges_id :
    (known : List String) (edges : List WorkflowEdge)
    → ((e : WorkflowEdge) → Memᴰ e edges → Memᴰ e.source known × Memᴰ e.target known)
    → clean_edges known edges ≡ edges
unfolding clean_edges
clean_edges_id known edges h =
    keep-all _ edges
      (λ e m. ground (arith, h e m, contains_iff known e.source, contains_iff known e.target))

-- The report is empty when its five parts are.
abbrev pub Parts : Workflow → Type 0
Parts w =
    (duplicates [] w.nodes ≡ [])
    × (start_violations (ids_of is_start w.nodes) ≡ [])
    × (end_violations (ids_of is_end w.nodes) ≡ [])
    × (collect (edge_endpoints (node_ids w.nodes)) w.edges ≡ [])
    × (later_violations w.nodes (ids_of is_end w.nodes) w.edges (ids_of is_start w.nodes) ≡ [])

known_of_parts :
    (w : Workflow)
    → collect (edge_endpoints (node_ids w.nodes)) w.edges ≡ []
    → clean_edges (node_ids w.nodes) w.edges ≡ w.edges
known_of_parts w d = clean_edges_id (node_ids w.nodes) w.edges (λ x m.
    (edge_endpoints-eq-nil (node_ids w.nodes) x).0
      ((collect-eq-nil (edge_endpoints (node_ids w.nodes)) w.edges).0 d x m))

pub parts : (w : Workflow) → collect_workflow_violations w ≡ [] → Parts w
unfolding collect_workflow_violations
parts w h =
    let (a, h1) = (append-eq-nil (duplicates [] w.nodes) _).0 h in
    let same = unique_nodes_id [] w.nodes a in
    let (b, h2) = (append-eq-nil (start_violations (ids_of is_start w.nodes)) _).0 h1 in
    let (c, h3) = (append-eq-nil (end_violations (ids_of is_end w.nodes)) _).0 h2 in
    let (d, e) =
      (append-eq-nil (collect (edge_endpoints (node_ids (unique_nodes [] w.nodes))) w.edges) _).0
        h3 in
    let d' = rw same at d in (a, b, c, d', rw (same, known_of_parts w d') at e)

pub from_Parts : (w : Workflow) → Parts w → collect_workflow_violations w ≡ []
unfolding collect_workflow_violations
from_Parts w (a, b, c, d, e) = rw (unique_nodes_id [] w.nodes a, a, b, c, d, known_of_parts w d) e

module _ (nodes : List WorkflowNode) (ends : List String) (edges : List WorkflowEdge)
    (s : String) where
  pub graph_violations-eq-nil : (graph_violations nodes ends edges s ≡ []) ↔ (
      (collect (end_rule nodes edges (branch_markers nodes edges)) ends ≡ [])
      × (collect (join_rule nodes edges) nodes ≡ [])
      × (collect (branch_rule nodes) edges ≡ [])
      × (collect (reach_rule (reachable_from (live_edges nodes edges) s)) nodes ≡ []))
  unfolding graph_violations
  graph_violations-eq-nil = ground (
    arith,
    append-eq-nil (collect (end_rule nodes edges (branch_markers nodes edges)) ends) (
        collect (join_rule nodes edges) nodes
        ++ (collect (branch_rule nodes) edges
            ++ collect (reach_rule (reachable_from (live_edges nodes edges) s)) nodes)),
    append-eq-nil (collect (join_rule nodes edges) nodes) (
        collect (branch_rule nodes) edges
        ++ collect (reach_rule (reachable_from (live_edges nodes edges) s)) nodes),
    append-eq-nil (collect (branch_rule nodes) edges)
        (collect (reach_rule (reachable_from (live_edges nodes edges) s)) nodes),
  )

pub mem-ids_of :
    (test : NodeData → Bool) (n : WorkflowNode) (nodes : List WorkflowNode)
    → Memᴰ n nodes
    → test n.payload ≡ true
    → Memᴰ n.id (ids_of test nodes)
mem-ids_of test n nodes m t =
    Memᴰ.map (λ (x : WorkflowNode). x.id)
      ((mem-keep (λ (x : WorkflowNode). test x.payload) n nodes).1 (m, t))

pub of_mem-ids_of :
    (test : NodeData → Bool) (id : String) (nodes : List WorkflowNode)
    → Memᴰ id (ids_of test nodes)
    → (n : WorkflowNode) × Memᴰ n nodes × (test n.payload ≡ true) × (n.id ≡ id)
of_mem-ids_of test id nodes m =
    let (n, at, e) =
      Memᴰ.of_map (λ (x : WorkflowNode). x.id) (keep (λ (x : WorkflowNode). test x.payload) nodes)
        m in
    let (at', t) = (mem-keep (λ (x : WorkflowNode). test x.payload) n nodes).0 at in (n, at', t, e)

pub later_violations_lem :
    (nodes : List WorkflowNode) (ends : List String) (edges : List WorkflowEdge)
    (starts : List String) (s : String)
    → starts ≡ s ∷ []
    → later_violations nodes ends edges starts ≡ graph_violations nodes ends edges s
unfolding later_violations
later_violations_lem nodes ends edges starts s e = rw e refl
