-- ===== src/Graph/Build/Targets.antt =====
-- Which ids a built graph holds as nodes, and where its edges lead.
use mathlib.Core.List.Memᴰ
use composer.Base.{
  String, ◌≡◌, refl, ap, subst, Bool, true, not, List, [], ◌∷◌, Memᴰ, keep, ok, arith, mem-keep,
  Bool-cases, Option-cases, inl, inr, ◌&&◌,
}
use composer.Workflow.{NodeData, note, WorkflowNode, WorkflowEdge, Workflow}
use composer.Graph.Nodes.{is_visual_only, find_node, executable, live_edges}
use composer.Graph.Nodes.Lookup.{find_node-mem}
use composer.Graph.Shape.{ids_of}
use composer.Graph.Shape.Parts.{mem-ids_of}
use composer.Graph.Build.{
  Compiled, registered, build_executor, add_nodes, add_edges, build_state_graph, conditional_source,
}
use composer.Graph.Build.Routing.{build_state_graph-eq-ok}

abbrev pub executed : NodeData → Bool
executed p = not (is_visual_only p)

registered_iff : (p : NodeData) → registered p ≡ executed p
registered_iff note = refl
registered_iff _ = refl

-- Every node but the visual-only ones becomes a graph node, in order, and no executor is missing.
pub add_nodes_lem : (ns : List WorkflowNode) → add_nodes ns ≡ ok (ids_of executed ns)
unfolding add_nodes build_executor
add_nodes_lem [] = refl
add_nodes_lem (n ∷ ns) = elim (Bool-cases (is_visual_only n.payload)) [
  | inl visual ↦ rw (visual, add_nodes_lem ns) refl
  | inr runs ↦ ground (arith, registered_iff n.payload, add_nodes_lem ns)
]

pub of_executable :
    (nodes : List WorkflowNode) (id : String)
    → executable nodes id ≡ true
    → (n : WorkflowNode) × Memᴰ n nodes × (executed n.payload ≡ true) × (n.id ≡ id)
unfolding executable
of_executable nodes id h = elim (Option-cases (find_node nodes id)) [
  | inl absent ↦ absurd (cc (rw (absent, executable) at h))
  | inr (n, found) ↦
      let (at, same) = find_node-mem nodes id n found in (n, at, rw (found, executable) at h, same)
]

executable-mem :
    (nodes : List WorkflowNode) (id : String)
    → executable nodes id ≡ true
    → Memᴰ id (ids_of executed nodes)
executable-mem nodes id h =
    let (n, at, runs, same) = of_executable nodes id h in
    subst (λ x. Memᴰ x (ids_of executed nodes)) same (mem-ids_of executed n nodes at runs)

add_edges-mem :
    (nodes : List WorkflowNode) (edges : List WorkflowEdge) (s t : String)
    → Memᴰ (s, t) (add_edges nodes edges)
    → Memᴰ s (ids_of executed nodes) × Memᴰ t (ids_of executed nodes)
unfolding add_edges
add_edges-mem nodes edges s t m =
    let (e, at, same) =
      Memᴰ.of_map (λ (x : WorkflowEdge). (x.source, x.target))
        (keep (λ x. not (conditional_source nodes x)) (live_edges nodes edges)) m in
    let (live, plain) =
      (mem-keep (λ x. not (conditional_source nodes x)) e (live_edges nodes edges)).0 at in
    let (here, runs) =
      (mem-keep (λ (x : WorkflowEdge). executable nodes x.source && executable nodes x.target) e
          edges).0
        live in
    (
      subst (λ x. Memᴰ x (ids_of executed nodes)) (ap (λ (p : String × String). p.0) same)
          (executable-mem nodes e.source (ground arith)),
      subst (λ x. Memᴰ x (ids_of executed nodes)) (ap (λ (p : String × String). p.1) same)
          (executable-mem nodes e.target (ground arith)),
    )

-- A built graph has a node for each workflow node that is not visual-only, and its plain edges
-- join such nodes.
pub build_state_graph-nodes :
    (w : Workflow) (g : Compiled)
    → build_state_graph w ≡ ok g
    → (g.nodes ≡ ids_of executed w.nodes)
      × ((s t : String) → Memᴰ (s, t) g.edges → Memᴰ s g.nodes × Memᴰ t g.nodes)
build_state_graph-nodes w g h =
    let (valid, nodes, conds, edges) = build_state_graph-eq-ok w g h in
    let same : g.nodes ≡ ids_of executed w.nodes = cc (nodes, add_nodes_lem w.nodes) in
    (same, λ s t m. rw same (add_edges-mem w.nodes w.edges s t (rw edges at m)))
