-- ===== src/Builder/Normalize.antt =====
-- src/builder/normalize.py. The drawn ids are an argument: those of edges, and the tokens of node ids.
pub mod Wiring
pub mod Keeps
pub mod Fresh
pub mod Starts
pub mod Endpoints
use Prim.Native.String as Text
use composer.Base.{
  ℕ, zero, suc, ◌+◌, String, Bool, true, false, not, ◌&&◌, ◌||◌, Option, none, some, List, [], ◌∷◌,
  ◌++◌, map, keep, find, any, contains, length, ◌==◌, if◌then◌else◌,
}
use composer.Base.Dict.{Dict, get, put, remove}
use composer.Workflow.{StartInputVariable, NodeData, start, end, WorkflowNode, WorkflowEdge}
use composer.Graph.Nodes.{is_start, is_end, is_visual_only, is_conditional}
use composer.Builder.Tools.{Draft, values, keys, has, with_node, with_inputs}

pub record Draws : Type 0 where
  pub edge_id : ℕ → String
  pub start_token : ℕ → String
  pub end_token : ℕ → String

-- The draft, and how many edge ids were drawn.
pub record Work : Type 0 where
  pub draft : Draft
  pub drawn : ℕ

-- The candidates of `_unique_id`, the base first.
abbrev pub candidate : (ℕ → String) → String → ℕ → String
candidate token base zero = base
candidate token base (suc i) = Text.◌++◌ base (Text.◌++◌ "-" (token i))

-- `_unique_id`, which goes on until a candidate is free; `none` if it is still looping.
unfoldable pub unique_id : (ℕ → String) → List String → ℕ → ℕ → Option String
unique_id candidates taken zero i = none
unique_id candidates taken (suc fuel) i =
    let rest = unique_id candidates taken fuel (suc i) in
    if contains taken (candidates i) then rest else some (candidates i)

unfoldable pub add_edge : Draws → String → String → Work → Work
unfolding put
add_edge draws source target work = record {
  draft = record work.draft {
    edges =
        put work.draft.edges (draws.edge_id work.drawn) (record {
          id = draws.edge_id work.drawn;
          source = source;
          target = target;
          branch = none;
        });
  };
  drawn = work.drawn + 1;
}

unfoldable pub is_executable : Draft → String → Bool
unfolding get
is_executable draft id = elim (get draft.nodes id) [
  | none ↦ false
  | some node ↦ not (is_visual_only node.payload)
]

abbrev pub inputs_of : NodeData → List StartInputVariable
inputs_of (start inputs) = inputs
inputs_of _ = []

-- `known` is the set of the names of `variables` throughout.
unfoldable pub add_variables :
    List StartInputVariable → List StartInputVariable → List StartInputVariable
add_variables variables [] = variables
add_variables variables (v ∷ vs) =
    add_variables
      (if contains (map (λ (x : StartInputVariable). x.name) variables) v.name
        then variables
        else variables ++ v ∷ [])
      vs

-- An edge into the extra start is dropped, one out of it leaves the kept one.
unfoldable pub redirect : String → String → Dict WorkflowEdge → Dict WorkflowEdge
redirect extra kept [] = []
redirect extra kept ((k, e) ∷ edges) =
    let rest = redirect extra kept edges in
    if e.target == extra
    then rest
    else if e.source == extra
    then (k, record e { source = kept }) ∷ rest
    else (k, e) ∷ rest

unfoldable pub merge_into :
    WorkflowNode
    → List WorkflowNode
    → List StartInputVariable
    → Draft
    → List StartInputVariable × Draft
unfolding add_variables redirect remove
merge_into kept [] variables draft = (variables, draft)
merge_into kept (extra ∷ extras) variables draft =
    merge_into kept extras (add_variables variables (inputs_of extra.payload)) (record {
      nodes = remove draft.nodes extra.id;
      edges = redirect extra.id kept.id draft.edges;
    })

abbrev pub starts_of : Draft → List WorkflowNode
starts_of draft = keep (λ (n : WorkflowNode). is_start n.payload) (values draft.nodes)

-- The kept start with the variables of all.
abbrev pub kept_with : WorkflowNode → List StartInputVariable × Draft → Draft
kept_with kept (variables, draft) = with_node draft kept.id (with_inputs kept variables)

unfoldable pub merge_starts : List WorkflowNode → Draft → Draft
unfolding merge_into put
merge_starts [] draft = draft
merge_starts (kept ∷ []) draft = draft
merge_starts (kept ∷ extra ∷ extras) draft =
    kept_with kept (merge_into kept (extra ∷ extras) (inputs_of kept.payload) draft)

unfoldable pub merge_extra_starts : Draft → Draft
unfolding merge_starts
merge_extra_starts draft = merge_starts (starts_of draft) draft

abbrev pub is_empty : Draft → Bool
is_empty draft = elim draft.nodes [ [] ↦ true | entry ∷ rest ↦ false ]

-- A node is added if none passes the test and the draft has nodes.
unfoldable pub ensure_node :
    (NodeData → Bool) → NodeData → String → (ℕ → String) → Draft → Option Draft
unfolding unique_id put
ensure_node test payload base token draft =
    if any (λ (n : WorkflowNode). test n.payload) (values draft.nodes) || is_empty draft
    then some draft
    else elim (unique_id (candidate token base) (keys draft.nodes) (length (keys draft.nodes) + 1)
        0) [
          | none ↦ none
          | some id ↦
              some (with_node draft id (record { id = id; node_name = none; payload = payload }))
        ]

unfoldable pub ensure_endpoints : Draws → Draft → Option Draft
unfolding ensure_node
ensure_endpoints draws draft =
    elim (ensure_node is_start (start []) "start" draws.start_token draft) [
      | none ↦ none
      | some started ↦ ensure_node is_end end "end" draws.end_token started
    ]

unfoldable pub has_executable_incoming : Draft → String → Bool
unfolding is_executable
has_executable_incoming draft id =
    any (λ (e : WorkflowEdge). e.target == id && is_executable draft e.source) (values draft.edges)

unfoldable pub has_executable_outgoing : Draft → String → Bool
unfolding is_executable
has_executable_outgoing draft id =
    any (λ (e : WorkflowEdge). e.source == id && is_executable draft e.target) (values draft.edges)

abbrev pub needs_head : String → Draft → WorkflowNode → Bool
needs_head start_id draft node =
    not (node.id == start_id || is_visual_only node.payload || is_end node.payload)
    && not (has_executable_incoming draft node.id)

unfoldable pub attach_heads : Draws → String → List WorkflowNode → Work → Work
unfolding has_executable_incoming add_edge
attach_heads draws start_id [] work = work
attach_heads draws start_id (node ∷ nodes) work =
    attach_heads draws start_id nodes
      (if needs_head start_id work.draft node then add_edge draws start_id node.id work else work)

-- The edges besides this one that leave the start or lead to its target.
abbrev pub has_others : String → String → WorkflowEdge → Dict WorkflowEdge → Bool
has_others start_id edge_id edge edges =
    any
      (λ entry.
        not (entry.0 == edge_id) && (entry.1.source == start_id || entry.1.target == edge.target))
      edges

unfoldable pub drop_shortcuts :
    String → List String → Dict WorkflowEdge → Dict WorkflowEdge → Dict WorkflowEdge
unfolding remove
drop_shortcuts start_id end_ids [] edges = edges
drop_shortcuts start_id end_ids ((k, e) ∷ listed) edges = drop_shortcuts start_id end_ids listed (
    if e.source == start_id && contains end_ids e.target && has_others start_id k e edges
    then remove edges k
    else edges)

abbrev pub needs_tail : String → String → Draft → WorkflowNode → Bool
needs_tail start_id end_id draft node =
    not (
      node.id == start_id
      || node.id == end_id
      || is_visual_only node.payload
      || is_conditional node.payload
      || is_end node.payload)
    && not (has_executable_outgoing draft node.id)

unfoldable pub attach_tails : Draws → String → String → List WorkflowNode → Work → Work
unfolding has_executable_outgoing add_edge
attach_tails draws start_id end_id [] work = work
attach_tails draws start_id end_id (node ∷ nodes) work = attach_tails draws start_id end_id nodes (
    if needs_tail start_id end_id work.draft node then add_edge draws node.id end_id work else work)

unfoldable pub attach_end : Draws → String → String → Work → Work
unfolding has_executable_incoming add_edge
attach_end draws start_id end_id work =
    if has_executable_incoming work.draft end_id then work else add_edge draws start_id end_id work

abbrev pub shortened : String → List String → Work → Work
shortened start_id end_ids work = record work {
  draft = record work.draft {
    edges = drop_shortcuts start_id end_ids work.draft.edges work.draft.edges;
  };
}

unfoldable pub feed_ends : Draws → String → List String → List WorkflowNode → Work → Work
unfolding attach_tails attach_end
feed_ends draws start_id [] nodes work = work
feed_ends draws start_id (end_id ∷ []) nodes work =
    attach_end draws start_id end_id (attach_tails draws start_id end_id nodes work)
feed_ends draws start_id (end_id ∷ other ∷ more) nodes work = work

abbrev pub end_ids_of : Draft → List String
end_ids_of draft =
    map (λ (n : WorkflowNode). n.id)
      (keep (λ (n : WorkflowNode). is_end n.payload) (values draft.nodes))

unfoldable pub wire : Draws → Draft → Draft
unfolding attach_heads drop_shortcuts feed_ends
wire draws draft = elim (find (λ (n : WorkflowNode). is_start n.payload) (values draft.nodes)) [
  | none ↦ draft
  | some s ↦
      let headed =
        attach_heads draws s.id (values draft.nodes) (record { draft = draft; drawn = 0 }) in
      (feed_ends draws s.id (end_ids_of draft) (values draft.nodes)
        (shortened s.id (end_ids_of draft) headed)).draft
]

unfoldable pub normalize_orchestration : Draws → Draft → Option Draft
unfolding merge_extra_starts ensure_endpoints wire
normalize_orchestration draws draft = elim (ensure_endpoints draws (merge_extra_starts draft)) [
  | none ↦ none
  | some completed ↦ some (wire draws completed)
]
