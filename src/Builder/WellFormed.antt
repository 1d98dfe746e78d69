-- ===== src/Builder/WellFormed.antt =====
-- Drafts whose nodes stand under their ids and whose edges join nodes of the draft.
use composer.Base.{
  ap, String, ◌≡◌, refl, true, not, ◌||◌, Option, none, some, Option-cases, List, [], ◌∷◌, Memᴰ,
  Distinct, contains, mem-keep, find, ◌==◌, eq_iff, inl, inr, Bool-cases, sym, subst, ◌∙◌, arith,
  Result, ok, err,
}
use composer.Base.Dict.{Dict, get, put}
use composer.Value.{text, empty, field, Fields, merge_fields}
use composer.Workflow.{StartInputVariable, WorkflowNode, WorkflowEdge}
use composer.Graph.Nodes.{is_start}
use composer.Builder.Tools.{
  Draft, values, keys, has, Models, ToolError, type_of, refused, try_build_node, matches_id,
  node_types, with_node, created, create_node, updated, update_node, without_edges, remove_node,
  connect_nodes, with_inputs, declared, set_start_inputs,
}
use composer.Builder.Entries.{
  mem-put, has-put, mem-remove, has-remove, Distinct-put, Distinct-remove,
}

abbrev pub Keyed : Dict WorkflowNode → Type 0
Keyed nodes = (k : String) (n : WorkflowNode) → Memᴰ (k, n) nodes → n.id ≡ k

-- An edge under its id between two nodes.
abbrev pub Joins : Dict WorkflowNode → String → WorkflowEdge → Type 0
Joins nodes k e = (e.id ≡ k) × (has nodes e.source ≡ true) × (has nodes e.target ≡ true)

abbrev pub Joined : Dict WorkflowNode → Dict WorkflowEdge → Type 0
Joined nodes edges = (k : String) (e : WorkflowEdge) → Memᴰ (k, e) edges → Joins nodes k e

abbrev pub IsWellFormed : Draft → Type 0
IsWellFormed draft =
    Distinct (keys draft.nodes) × Keyed draft.nodes × Joined draft.nodes draft.edges

-- The models give a node the id that they are called with.
abbrev pub KeepsIds : Models → Type 0
KeepsIds models =
    (node_type id : String) (fields : Fields) (node : WorkflowNode)
    → models.construct node_type id fields ≡ ok node
    → node.id ≡ id

pub Joins-put :
    (nodes : Dict WorkflowNode) (id : String) (node : WorkflowNode) (k : String) (e : WorkflowEdge)
    → Joins nodes k e
    → Joins (put nodes id node) k e
Joins-put nodes id node k e (named, from, to) = (
  named,
  has-put nodes id node e.source ∙ ground arith,
  has-put nodes id node e.target ∙ ground arith,
)

pub with_node-IsWellFormed :
    (draft : Draft) (id : String) (node : WorkflowNode)
    → IsWellFormed draft
    → node.id ≡ id
    → IsWellFormed (with_node draft id node)
with_node-IsWellFormed draft id node (d, keyed, joined) named = (
  Distinct-put draft.nodes id node d,
  λ k n m. elim (mem-put draft.nodes id node (k, n) m) [
    | inl e ↦
        let same_node : n ≡ node = ap (λ (p : String × WorkflowNode). p.1) e in
        let same_key : k ≡ id = ap (λ (p : String × WorkflowNode). p.0) e in
        ap (λ (x : WorkflowNode). x.id) same_node ∙ named ∙ sym same_key
    | inr old ↦ keyed k n old
  ],
  λ k e m. Joins-put draft.nodes id node k e (joined k e m),
)

pub put_edge-Joined :
    (nodes : Dict WorkflowNode) (edges : Dict WorkflowEdge) (edge : WorkflowEdge)
    → Joined nodes edges
    → has nodes edge.source ≡ true
    → has nodes edge.target ≡ true
    → Joined nodes (put edges edge.id edge)
put_edge-Joined nodes edges edge joined from to k e m = elim (mem-put edges edge.id edge (k, e) m) [
  | inl same ↦
      subst (λ (p : String × WorkflowEdge). Joins nodes p.0 p.1) (sym same) (refl, from, to)
  | inr old ↦ joined k e old
]

refused-ok :
    (answer : Result String WorkflowNode) (node : WorkflowNode)
    → refused answer ≡ ok node
    → answer ≡ ok node
refused-ok (ok n) node h = ap ok (let e : n ≡ node = cc h in e)
refused-ok (err why) node h = cc

try_build_node-id :
    (models : Models) (node_type id : String) (fields : Fields) (node : WorkflowNode)
    → KeepsIds models
    → try_build_node models node_type id fields ≡ ok node
    → node.id ≡ id
unfolding try_build_node
try_build_node-id models node_type id fields node keeps h =
    elim (Bool-cases (contains node_types node_type)) [
      | inr unknown ↦ absurd (cc (rw (unknown, try_build_node) at h))
      | inl known ↦ elim (Bool-cases (matches_id id)) [
        | inr bad ↦ absurd (cc (rw (known, bad, try_build_node) at h))
        | inl good ↦
            keeps node_type id _ node (refused-ok _ node (rw (known, good, try_build_node) at h))
      ]
    ]

created-IsWellFormed :
    (draft : Draft) (id : String) (built : Result ToolError WorkflowNode)
    → IsWellFormed draft
    → ((node : WorkflowNode) → built ≡ ok node → node.id ≡ id)
    → IsWellFormed (created draft id built).1
created-IsWellFormed draft id (err e) w named = w
created-IsWellFormed draft id (ok node) w named = elim (Bool-cases (has draft.nodes id)) [
  | inl there ↦ rw there w
  | inr free ↦ rw free (with_node-IsWellFormed draft id node w (named node refl))
]

updated-IsWellFormed :
    (draft : Draft) (id : String) (built : Result ToolError WorkflowNode)
    → IsWellFormed draft
    → ((node : WorkflowNode) → built ≡ ok node → node.id ≡ id)
    → IsWellFormed (updated draft id built).1
updated-IsWellFormed draft id (err e) w named = w
updated-IsWellFormed draft id (ok node) w named =
    with_node-IsWellFormed draft id node w (named node refl)

pub create_node-IsWellFormed :
    (models : Models) (node_type id label : String) (given : Fields) (draft : Draft)
    → KeepsIds models
    → IsWellFormed draft
    → IsWellFormed (create_node models node_type id label given draft).1
unfolding create_node
create_node-IsWellFormed models node_type id label given draft keeps w =
    created-IsWellFormed draft id _ w (λ node e.
      try_build_node-id models node_type id (merge_fields (field "label" (text label) empty) given)
        node keeps e)

pub update_node-IsWellFormed :
    (models : Models) (id : String) (given : Fields) (draft : Draft)
    → KeepsIds models
    → IsWellFormed draft
    → IsWellFormed (update_node models id given draft).1
unfolding update_node
update_node-IsWellFormed models id given draft keeps w = elim (Option-cases (get draft.nodes id)) [
  | inl missing ↦ rw (missing, update_node) w
  | inr (existing, found) ↦
      rw (found, update_node)
        (updated-IsWellFormed draft id _ w (λ node e.
          try_build_node-id models (type_of existing.payload) id
            (merge_fields (models.dump existing) given) node keeps e))
]

pub connect_nodes-IsWellFormed :
    (edge_id source target : String) (branch : Option String) (draft : Draft)
    → IsWellFormed draft
    → IsWellFormed (connect_nodes edge_id source target branch draft).1
unfolding connect_nodes
connect_nodes-IsWellFormed edge_id source target branch draft (d, keyed, joined) =
    elim (Bool-cases (has draft.nodes source)) [
      | inr no_source ↦ rw (no_source, connect_nodes) (d, keyed, joined)
      | inl from ↦ elim (Bool-cases (has draft.nodes target)) [
        | inr no_target ↦ rw (from, no_target, connect_nodes) (d, keyed, joined)
        | inl to ↦
            rw (from, to, connect_nodes)
              (
                d,
                keyed,
                put_edge-Joined draft.nodes draft.edges
                    (record { id = edge_id; source = source; target = target; branch = branch })
                    joined from to,
              )
      ]
    ]

pub remove_node-IsWellFormed :
    (id : String) (draft : Draft) → IsWellFormed draft → IsWellFormed (remove_node id draft).1
unfolding remove_node without_edges
remove_node-IsWellFormed id draft (d, keyed, joined) = elim (Bool-cases (has draft.nodes id)) [
  | inr missing ↦ rw (missing, remove_node) (d, keyed, joined)
  | inl there ↦
      rw (there, remove_node)
        (
          Distinct-remove draft.nodes id d,
          λ k n m. keyed k n (mem-remove draft.nodes id (k, n) m).0,
          λ k e m.
              let (at, apart) =
                (mem-keep
                    (λ (entry : String × WorkflowEdge).
                      not (entry.1.source == id || entry.1.target == id))
                    (k, e) draft.edges).0
                  m in
              let (named, from, to) = joined k e at in
              (
                named,
                has-remove draft.nodes id e.source
                    ∙ ground (arith, eq_iff e.source id, eq_iff id e.source),
                has-remove draft.nodes id e.target
                    ∙ ground (arith, eq_iff e.target id, eq_iff id e.target),
              ),
        )
]

pub find_start :
    (draft : Draft) (node : WorkflowNode)
    → find (λ (n : WorkflowNode). is_start n.payload) (values draft.nodes) ≡ some node
    → Memᴰ node (values draft.nodes)
find_start draft node h = go (values draft.nodes) h
  where
    go :
        (ns : List WorkflowNode)
        → find (λ (n : WorkflowNode). is_start n.payload) ns ≡ some node
        → Memᴰ node ns
    go [] e = cc
    go (n ∷ ns) e = elim (Bool-cases (is_start n.payload)) [
      | inl it ↦ Memᴰ.head (let same : some n ≡ some node = rw it at e in cc same)
      | inr other ↦ Memᴰ.tail (go ns (rw other at e))
    ]

declared-IsWellFormed :
    (draft : Draft) (node : WorkflowNode) (inputs : Option (List StartInputVariable))
    → IsWellFormed draft
    → IsWellFormed (declared draft node inputs).1
declared-IsWellFormed draft node none w = w
declared-IsWellFormed draft node (some inputs) w =
    with_node-IsWellFormed draft node.id (with_inputs node inputs) w refl

pub set_start_inputs-IsWellFormed :
    (models : Models) (variables : List Fields) (draft : Draft)
    → IsWellFormed draft
    → IsWellFormed (set_start_inputs models variables draft).1
unfolding set_start_inputs
set_start_inputs-IsWellFormed models variables draft w =
    elim (Option-cases (find (λ (n : WorkflowNode). is_start n.payload) (values draft.nodes))) [
      | inl missing ↦ rw (missing, set_start_inputs) w
      | inr (node, found) ↦ rw (found, set_start_inputs) (declared-IsWellFormed draft node _ w)
    ]
