-- ===== src/Graph/Shape/Rules.antt =====
-- When each of the checks reports nothing.
use mathlib.Core.List.Memᴰ
use composer.Base.{
  ◌<◌, String, ◌≡◌, refl, ◌≢◌, ◌↔◌, ◌⊎◌, inl, inr, true, false, none, some, List, [], ◌∷◌, Memᴰ,
  length, Distinct, arith, contains, contains_iff, Bool-cases, eq_iff, ◌==◌,
}
use composer.Workflow.{WorkflowNode, WorkflowEdge}
use composer.Graph.Nodes.{is_visual_only, is_conditional, is_join, find_node}
use composer.Graph.Nodes.Lookup.{node_ids}
use composer.Graph.Shape.{
  duplicates, unique_nodes, edge_endpoints, end_rule, join_rule, branch_rule, reach_rule,
  incoming_edges, outgoing_edges, exclusive_sources, start_violations, end_violations,
}

pub duplicates-eq-nil :
    (seen : List String) (ns : List WorkflowNode)
    → (duplicates seen ns ≡ [])
      ↔ (Distinct (node_ids ns) × ((n : WorkflowNode) → Memᴰ n ns → contains seen n.id ≡ false))
unfolding duplicates
duplicates-eq-nil seen [] = (λ _. (tt, λ n m. absurd (Memᴰ.not-nil m)), λ _. refl)
duplicates-eq-nil seen (n ∷ ns) = elim (Bool-cases (contains seen n.id)) [
  | inl old ↦ (λ h. ground arith, λ h. absurd (cc (h.1 n (Memᴰ.head refl), old)))
  | inr new ↦ (
    λ h.
        let (d, fresh) = (duplicates-eq-nil (n.id ∷ seen) ns).0 (ground arith) in
        (
          (
            λ m.
                let (k, at, e) = Memᴰ.of_map (λ (x : WorkflowNode). x.id) ns m in
                ground (arith, fresh k at, eq_iff n.id k.id),
            d,
          ),
          λ k m. elim (Memᴰ.cases_cons m) [
            | inl e ↦ cc (e, new)
            | inr later ↦ ground (arith, fresh k later)
          ],
        ),
    λ (d, free). ground (
      arith,
      (duplicates-eq-nil (n.id ∷ seen) ns).1 (
        d.1,
        λ k m. elim (Bool-cases (n.id == k.id)) [
          | inl same ↦ absurd (
              d.0 (Memᴰ.cast ((eq_iff n.id k.id).0 same) (Memᴰ.map (λ (x : WorkflowNode). x.id) m)))
          | inr other ↦ ground (arith, free k (Memᴰ.tail m))
        ],
      ),
    ),
  )
]

pub unique_nodes_id :
    (seen : List String) (ns : List WorkflowNode)
    → duplicates seen ns ≡ []
    → unique_nodes seen ns ≡ ns
unfolding duplicates unique_nodes
unique_nodes_id seen [] h = refl
unique_nodes_id seen (n ∷ ns) h = elim (Bool-cases (contains seen n.id)) [
  | inl old ↦ ground arith
  | inr new ↦ ground (arith, unique_nodes_id (n.id ∷ seen) ns)
]

pub edge_endpoints-eq-nil :
    (known : List String) (e : WorkflowEdge)
    → (edge_endpoints known e ≡ []) ↔ (Memᴰ e.source known × Memᴰ e.target known)
unfolding edge_endpoints
edge_endpoints-eq-nil known e =
    ground (arith, contains_iff known e.source, contains_iff known e.target)

pub end_rule-eq-nil :
    (nodes : List WorkflowNode) (edges : List WorkflowEdge) (markers : _) (id : String)
    → (end_rule nodes edges markers id ≡ []) ↔ (
        (length (incoming_edges nodes edges id) ≡ 1)
        ⊎ ((1 < length (incoming_edges nodes edges id))
            × (exclusive_sources markers (incoming_edges nodes edges id) ≡ true)))
unfolding end_rule
end_rule-eq-nil nodes edges markers id = ground arith

pub join_rule-eq-nil :
    (nodes : List WorkflowNode) (edges : List WorkflowEdge) (n : WorkflowNode)
    → (join_rule nodes edges n ≡ [])
      ↔ (is_join n.payload ≡ true → length (outgoing_edges nodes edges n.id) ≡ 1)
unfolding join_rule
join_rule-eq-nil nodes edges n = ground arith

pub branch_rule-eq-nil :
    (nodes : List WorkflowNode) (e : WorkflowEdge) (n : WorkflowNode)
    → find_node nodes e.source ≡ some n
    → (branch_rule nodes e ≡ []) ↔ ((is_conditional n.payload ≡ true) ↔ (e.branch ≢ none))
unfolding branch_rule
branch_rule-eq-nil nodes e n h = ground arith

pub reach_rule-eq-nil :
    (r : List String) (n : WorkflowNode)
    → (reach_rule r n ≡ []) ↔ (is_visual_only n.payload ≡ false → contains r n.id ≡ true)
unfolding reach_rule
reach_rule-eq-nil r n = ground arith

pub start_violations-eq-nil :
    (ids : List String) → (start_violations ids ≡ []) ↔ ((s : String) × (ids ≡ s ∷ []))
unfolding start_violations
start_violations-eq-nil [] = (λ h. cc, λ h. cc (h.1))
start_violations-eq-nil (s ∷ []) = (λ _. (s, refl), λ _. refl)
start_violations-eq-nil (s ∷ t ∷ r) = (λ h. cc, λ h. cc (h.1))

pub end_violations-eq-nil : (ids : List String) → (end_violations ids ≡ []) ↔ (ids ≢ [])
unfolding end_violations
end_violations-eq-nil [] = (λ h. cc, λ h. absurd (h refl))
end_violations-eq-nil (s ∷ r) = (λ _ h. cc, λ _. refl)
