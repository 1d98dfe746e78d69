-- ===== src/Graph/Build/Routing.antt =====
-- In a built graph every answer of a router is a branch that has a target.
use mathlib.Core.List.Memᴰ
use composer.Base.{
  String, ◌≡◌, refl, subst, sym, inl, inr, true, some, List, [], ◌∷◌, Memᴰ, Result, ok, err, arith,
  >>=-eq-ok, Bool-cases, Option-cases,
}
use composer.Base.Dict
use composer.Base.Dict.{Dict}
use composer.Workflow.{WorkflowNode, WorkflowEdge, Workflow}
use composer.State.{WorkflowStateDict}
use composer.Graph.Nodes.{is_conditional}
use composer.Graph.Branches.{branch_mapping}
use composer.Graph.Branches.Correct.{branch_mapping_correct}
use composer.Graph.Routers.{Evaluator, route, required_branches}
use composer.Graph.Build.{
  Conditional, Compiled, add_conditional, add_conditionals, build_state_graph, validated, add_nodes,
  add_edges,
}
use composer.Graph.Shape.{Violation, validate_workflow_shape}
use composer.Graph.Routers.Labels.{route-contains}

pub add_conditional-eq-ok :
    (edges : List WorkflowEdge) (n : WorkflowNode) (c : Conditional)
    → add_conditional edges n ≡ ok c
    → (req : List String) × (required_branches n.payload ≡ some req)
      × (branch_mapping n.id edges req ≡ ok c.mapping)
      × (c.node ≡ n)
unfolding add_conditional
add_conditional-eq-ok edges n c h = elim (Option-cases (required_branches n.payload)) [
  | inl no_req ↦ absurd (cc (rw (no_req, add_conditional) at h))
  | inr (req, r) ↦ (req, r, ground arith, ground arith)
]

pub add_conditionals-mem :
    (edges : List WorkflowEdge) (ns : List WorkflowNode) (cs : List Conditional)
    → add_conditionals edges ns ≡ ok cs
    → (c : Conditional) → Memᴰ c cs
    → Memᴰ c.node ns
      × (is_conditional c.node.payload ≡ true)
      × (add_conditional edges c.node ≡ ok c)
unfolding add_conditionals
add_conditionals-mem edges [] cs h c m =
    let e : [] ≡ cs = cc in absurd (Memᴰ.not-nil (subst (Memᴰ c) (sym e) m))
add_conditionals-mem edges (n ∷ ns) cs h c m = elim (Bool-cases (is_conditional n.payload)) [
  | inr plain ↦
      let (at, k, built) =
        add_conditionals-mem edges ns cs (rw (plain, add_conditionals) at h) c m in
      (Memᴰ.tail at, k, built)
  | inl cond ↦
      let (d, made, h1) =
        >>=-eq-ok (add_conditional edges n) _ (rw (cond, add_conditionals) at h) in
      let (ds, rest, h2) = >>=-eq-ok (add_conditionals edges ns) (λ cs. ok (d ∷ cs)) h1 in
      let e : d ∷ ds ≡ cs = cc in
      elim (Memᴰ.cases_cons (subst (Memᴰ c) (sym e) m)) [
        | inl same ↦
            let (req, r, b, at) = add_conditional-eq-ok edges n d made in
            let node_eq : c.node ≡ n = cc (same, at) in
            (Memᴰ.head node_eq, rw node_eq cond, cc (node_eq, same, made))
        | inr later ↦
            let (at, k, built) = add_conditionals-mem edges ns ds rest c later in
            (Memᴰ.tail at, k, built)
      ]
]

validated-eq-ok : (r : Result Violation (Unit {0})) {u : Unit {0}} → validated r ≡ ok u → r ≡ ok tt
validated-eq-ok (ok tt) h = refl
validated-eq-ok (err v) h = cc

-- What a successful build has done.
pub build_state_graph-eq-ok :
    (w : Workflow) (g : Compiled)
    → build_state_graph w ≡ ok g
    → (validate_workflow_shape w ≡ ok tt)
      × (add_nodes w.nodes ≡ ok g.nodes)
      × (add_conditionals w.edges w.nodes ≡ ok g.conditional)
      × (g.edges ≡ add_edges w.nodes w.edges)
unfolding build_state_graph
build_state_graph-eq-ok w g h =
    let (u, v, h1) = >>=-eq-ok (validated (validate_workflow_shape w)) _ h in
    let (ids, nodes, h2) = >>=-eq-ok (add_nodes w.nodes) _ h1 in
    let (cs, conds, h3) = >>=-eq-ok (add_conditionals w.edges w.nodes) _ h2 in
    (validated-eq-ok (validate_workflow_shape w) v, ground arith, ground arith, ground arith)

-- In a built graph every router's answer, whatever the state and the evaluator, is a branch for
-- which the node's mapping has a target, and that target ends an edge of the workflow that leaves
-- the node with this branch label.
pub router_has_target :
    (w : Workflow) (g : Compiled)
    → build_state_graph w ≡ ok g
    → (c : Conditional) → Memᴰ c g.conditional
    → (evaluate : Evaluator) (state : WorkflowStateDict) (label : String)
    → route evaluate c.node state ≡ ok label
    → (e : WorkflowEdge) × Memᴰ e w.edges
      × (e.source ≡ c.node.id)
      × (e.branch ≡ some label)
      × (Dict.get c.mapping label ≡ some e.target)
router_has_target w g h c m evaluate state label r =
    let (valid, nodes, conds, edges) = build_state_graph-eq-ok w g h in
    let (at, k, built) = add_conditionals-mem w.edges w.nodes g.conditional conds c m in
    let (req, needs, mapped, same) = add_conditional-eq-ok w.edges c.node c built in
    let mapping = branch_mapping_correct c.node.id w.edges req c.mapping mapped in
    let (t, found) =
      mapping.covers label
        (route-contains evaluate c.node.id c.node.payload state req label k needs r) in
    let (e, here, s, b, ends) = mapping.from_edge label t found in (e, here, s, b, rw ends found)
