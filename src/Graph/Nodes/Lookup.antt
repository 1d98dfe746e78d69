-- ===== src/Graph/Nodes/Lookup.antt =====
-- What a lookup by id finds.
use mathlib.Core.List.Memᴰ
use composer.Base.{
  String, ◌≡◌, sym, ap, subst, some, List, [], ◌∷◌, map, Memᴰ, arith, Distinct, Bool-cases, ◌==◌,
  eq_iff, inl, inr,
}
use composer.Workflow.{WorkflowNode}
use composer.Graph.Nodes.{find_node}

abbrev pub node_ids : List WorkflowNode → List String
node_ids = map (λ n. n.id)

pub find_node-mem :
    (nodes : List WorkflowNode) (id : String) (n : WorkflowNode)
    → find_node nodes id ≡ some n
    → Memᴰ n nodes × (n.id ≡ id)
unfolding find_node
find_node-mem [] id n h = cc
find_node-mem (m ∷ nodes) id n h = elim (Bool-cases (m.id == id)) [
  | inl same ↦
      let e : m ≡ n = ground arith in
      (Memᴰ.head (sym e), subst (λ (k : WorkflowNode). k.id ≡ id) e ((eq_iff m.id id).0 same))
  | inr other ↦ let (later, e) = find_node-mem nodes id n (ground arith) in (Memᴰ.tail later, e)
]

-- With distinct ids every node is found under its own.
pub find_node_self :
    (nodes : List WorkflowNode) (n : WorkflowNode)
    → Distinct (node_ids nodes)
    → Memᴰ n nodes
    → find_node nodes n.id ≡ some n
unfolding find_node
find_node_self [] n d m = absurd (Memᴰ.not-nil m)
find_node_self (k ∷ nodes) n d m = elim (Memᴰ.cases_cons m) [
  | inl e ↦ ground (arith, eq_iff k.id n.id, ap (λ (x : WorkflowNode). x.id) e)
  | inr later ↦ elim (Bool-cases (k.id == n.id)) [
    | inl same ↦
        absurd (
          d.0 (Memᴰ.cast ((eq_iff k.id n.id).0 same) (Memᴰ.map (λ (x : WorkflowNode). x.id) later)))
    | inr other ↦ rw other (find_node_self nodes n d.1 later)
  ]
]

-- A known id is found.
pub find_node-found :
    (nodes : List WorkflowNode) (id : String)
    → Memᴰ id (node_ids nodes)
    → (n : WorkflowNode) × (find_node nodes id ≡ some n)
unfolding find_node
find_node-found [] id m = absurd (Memᴰ.not-nil m)
find_node-found (k ∷ nodes) id m = elim (Bool-cases (k.id == id)) [
  | inl same ↦ (k, rw same)
  | inr other ↦ elim (Memᴰ.cases_cons m) [
    | inl e ↦ (k, absurd (ground (arith, eq_iff k.id id, e)))
    | inr later ↦ let (n, e) = find_node-found nodes id later in (n, rw other e)
  ]
]
