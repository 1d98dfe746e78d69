-- ===== src/Graph/Shape/Correct.antt =====
-- The violations are complete and free of false alarms.
use composer.Base.{String, sym, ◌∙◌, ◌≡◌, refl, ◌↔◌, List, [], ◌∷◌, collect-eq-nil, ok, err}
use composer.Workflow.{Workflow}
use composer.Graph.Nodes.{is_start, is_end, live_edges}
use composer.Graph.Nodes.Lookup.{node_ids, find_node-mem, find_node_self, find_node-found}
use composer.Graph.Reachability.{reachable_from}
use composer.Graph.Reachability.Correct.{reachable_from_correct}
use composer.Graph.Markers.{branch_markers}
use composer.Graph.Shape.{
  edge_endpoints, end_rule, join_rule, branch_rule, reach_rule, ids_of, collect_workflow_violations,
  validate_workflow_shape, raise_first, Violation,
}
use composer.Graph.Shape.WellFormed.{IsWellFormed}
use composer.Graph.Shape.Rules.{
  duplicates-eq-nil, edge_endpoints-eq-nil, end_rule-eq-nil, join_rule-eq-nil, branch_rule-eq-nil,
  reach_rule-eq-nil, start_violations-eq-nil, end_violations-eq-nil,
}
use composer.Graph.Shape.Parts.{
  parts, from_Parts, graph_violations-eq-nil, mem-ids_of, of_mem-ids_of, later_violations_lem,
}

to_well_formed :
    (w : Workflow) → collect_workflow_violations w ≡ [] → (s : String) × IsWellFormed w s
to_well_formed w h =
    let (a, b, c, d, l) = parts w h in
    let (s, one) = (start_violations-eq-nil (ids_of is_start w.nodes)).0 b in
    let distinct = ((duplicates-eq-nil [] w.nodes).0 a).0 in
    let (p, q, r, t) =
      (graph_violations-eq-nil w.nodes (ids_of is_end w.nodes) w.edges s).0
        (sym (later_violations_lem w.nodes _ w.edges (ids_of is_start w.nodes) s one) ∙ l) in
    (
      s,
      record {
        distinct = distinct;
        starts = one;
        ends = (end_violations-eq-nil (ids_of is_end w.nodes)).0 c;
        known = λ e m.
            (edge_endpoints-eq-nil (node_ids w.nodes) e).0
              ((collect-eq-nil (edge_endpoints (node_ids w.nodes)) w.edges).0 d e m);
        end_in = λ n m is. (end_rule-eq-nil w.nodes w.edges _ n.id).0 (
            (collect-eq-nil (end_rule w.nodes w.edges (branch_markers w.nodes w.edges))
                (ids_of is_end w.nodes)).0
              p n.id (mem-ids_of is_end n w.nodes m is));
        join_out = λ n m.
            (join_rule-eq-nil w.nodes w.edges n).0
              ((collect-eq-nil (join_rule w.nodes w.edges) w.nodes).0 q n m);
        labelled = λ e n me mn at.
            (branch_rule-eq-nil w.nodes e n (rw (← at) (find_node_self w.nodes n distinct mn))).0
              ((collect-eq-nil (branch_rule w.nodes) w.edges).0 r e me);
        connected = λ n m v. (reachable_from_correct (live_edges w.nodes w.edges) s n.id).0 (
            (reach_rule-eq-nil (reachable_from (live_edges w.nodes w.edges) s) n).0
              ((collect-eq-nil (reach_rule (reachable_from (live_edges w.nodes w.edges) s))
                  w.nodes).0
                t n m)
              v);
      },
    )

from_well_formed :
    (w : Workflow) (s : String) → IsWellFormed w s → collect_workflow_violations w ≡ []
from_well_formed w s f = from_Parts w (
  (duplicates-eq-nil [] w.nodes).1 (f.distinct, λ n m. refl),
  (start_violations-eq-nil (ids_of is_start w.nodes)).1 (s, f.starts),
  (end_violations-eq-nil (ids_of is_end w.nodes)).1 f.ends,
  (collect-eq-nil (edge_endpoints (node_ids w.nodes)) w.edges).1
      (λ e m. (edge_endpoints-eq-nil (node_ids w.nodes) e).1 (f.known e m)),
  later_violations_lem w.nodes _ w.edges (ids_of is_start w.nodes) s f.starts
      ∙ (graph_violations-eq-nil w.nodes (ids_of is_end w.nodes) w.edges s).1 (
        (collect-eq-nil (end_rule w.nodes w.edges (branch_markers w.nodes w.edges))
              (ids_of is_end w.nodes)).1
            (λ id m.
              let (n, at, is, e) = of_mem-ids_of is_end id w.nodes m in
              (end_rule-eq-nil w.nodes w.edges _ id).1 (rw (← e) (f.end_in n at is))),
        (collect-eq-nil (join_rule w.nodes w.edges) w.nodes).1
            (λ n m. (join_rule-eq-nil w.nodes w.edges n).1 (f.join_out n m)),
        (collect-eq-nil (branch_rule w.nodes) w.edges).1 (λ e m.
            let (n, found) = find_node-found w.nodes e.source (f.known e m).0 in
            let (at, same) = find_node-mem w.nodes e.source n found in
            (branch_rule-eq-nil w.nodes e n found).1 (f.labelled e n m at same)),
        (collect-eq-nil (reach_rule (reachable_from (live_edges w.nodes w.edges) s)) w.nodes).1
            (λ n m. (reach_rule-eq-nil _ n).1 (λ v.
              (reachable_from_correct (live_edges w.nodes w.edges) s n.id).1 (f.connected n m v))),
      ),
)

-- The report is empty exactly for the well-formed workflows: no violation is missed, and none is
-- reported of a workflow that has all of the properties.
pub collect_workflow_violations_correct :
    (w : Workflow) → (collect_workflow_violations w ≡ []) ↔ ((s : String) × IsWellFormed w s)
collect_workflow_violations_correct w = (to_well_formed w, λ (s, f). from_well_formed w s f)

raise_first_lem :
    (vs : List Violation)
    → ((raise_first vs ≡ ok tt) ↔ (vs ≡ []))
      × ((v : Violation) → (raise_first vs ≡ err v) ↔ ((rest : List Violation) × (vs ≡ v ∷ rest)))
unfolding raise_first
raise_first_lem [] = ((λ _. refl, λ _. refl), λ v. (λ h. cc, λ (r, e). cc))
raise_first_lem (x ∷ vs) = ((λ h. cc, λ h. cc), λ v. (λ h. (vs, cc), λ (r, e). cc))

-- Validation accepts exactly the well-formed workflows, and otherwise raises the first violation
-- of the report.
pub validate_workflow_shape_correct :
    (w : Workflow)
    → ((validate_workflow_shape w ≡ ok tt) ↔ ((s : String) × IsWellFormed w s))
      × ((v : Violation)
          → (validate_workflow_shape w ≡ err v)
            ↔ ((rest : List Violation) × (collect_workflow_violations w ≡ v ∷ rest)))
unfolding validate_workflow_shape
validate_workflow_shape_correct w =
    let (accepts, raises) = raise_first_lem (collect_workflow_violations w) in
    let (to, from) = collect_workflow_violations_correct w in
    ((λ h. to (accepts.0 h), λ f. accepts.1 (from f)), raises)
