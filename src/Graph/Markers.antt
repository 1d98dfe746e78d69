-- ===== src/Graph/Markers.antt =====
-- `_branch_markers` and `_mutually_exclusive` of src/engine/graph_builder.py.
pub mod Sound
use composer.Base.{
  ℕ, zero, suc, String, Bool, true, false, not, ◌&&◌, ◌||◌, Option, none, some, List, [], ◌∷◌, ◌++◌,
  map, length, any, all, keep, find, collect, contains, ◌==◌, if◌then◌else◌,
}
use composer.Base.Dict
use composer.Base.Dict.{Dict}
use composer.Workflow.{WorkflowNode, WorkflowEdge}
use composer.Graph.Nodes.{is_conditional, is_start, find_node}

-- A conditional node's id, and the label of one of its branches.
pub record Marker : Type 0 where
  pub cond : String
  pub label : String

abbrev pub has : List Marker → Marker → Bool
has ms m = any (λ x. x.cond == m.cond && x.label == m.label) ms

-- `markers.get(id, set())`
unfoldable pub marks_at : Dict (List Marker) → String → List Marker
unfolding Dict.get
marks_at markers id = elim (Dict.get markers id) [ none ↦ [] | some ms ↦ ms ]

own_mark : WorkflowNode → WorkflowEdge → List Marker
own_mark source e =
    if is_conditional source.payload
    then elim e.branch [ none ↦ [] | some b ↦ record { cond = e.source; label = b } ∷ [] ]
    else []

-- What one incoming edge adds to `new_marks`.
unfoldable pub edge_marks : List WorkflowNode → Dict (List Marker) → WorkflowEdge → List Marker
unfolding marks_at own_mark find_node
edge_marks nodes markers e = elim (find_node nodes e.source) [
  | none ↦ []
  | some source ↦ marks_at markers e.source ++ own_mark source e
]

-- The keys of `incoming`, in the order in which the edges bring them in.
incoming_keys : List String → List WorkflowEdge → List String
incoming_keys seen [] = []
incoming_keys seen (e ∷ es) = elim (contains seen e.target) [
  | true ↦ incoming_keys seen es
  | false ↦ e.target ∷ incoming_keys (e.target ∷ seen) es
]

-- `new_marks` less the marks that the node has.
unfoldable pub new_marks :
    List WorkflowNode → List WorkflowEdge → String → Dict (List Marker) → List Marker
unfolding edge_marks
new_marks nodes edges id markers =
    keep (λ m. not (has (marks_at markers id) m))
      (collect (edge_marks nodes markers) (keep (λ e. e.target == id) edges))

-- `if not new_marks.issubset(markers[node_id]): ...`, with the `changed` flag.
unfoldable pub add_marks : String → Dict (List Marker) → List Marker → Dict (List Marker) × Bool
unfolding marks_at Dict.put
add_marks id markers [] = (markers, false)
add_marks id markers (m ∷ ms) = (Dict.put markers id (marks_at markers id ++ m ∷ ms), true)

-- The body of `for node_id, node_edges in incoming.items()`.
unfoldable pub mark_node :
    List WorkflowNode
    → List WorkflowEdge
    → Option String
    → String
    → Dict (List Marker)
    → Dict (List Marker) × Bool
unfolding new_marks add_marks
mark_node nodes edges start_id id markers =
    let is_start_id : Bool = elim start_id [ none ↦ false | some s ↦ s == id ] in
    if is_start_id
    then (markers, false)
    else add_marks id markers (new_marks nodes edges id markers)

-- One pass of the `while` loop, with the `changed` flag that it ends with.
unfoldable pub mark_round :
    List WorkflowNode
    → List WorkflowEdge
    → Option String
    → List String
    → Dict (List Marker)
    → Bool
    → Dict (List Marker) × Bool
unfolding mark_node
mark_round nodes edges start_id [] markers changed = (markers, changed)
mark_round nodes edges start_id (id ∷ ids) markers changed =
    let (markers', changed') = mark_node nodes edges start_id id markers in
    mark_round nodes edges start_id ids markers' (changed || changed')

unfoldable pub mark_loop :
    List WorkflowNode
    → List WorkflowEdge
    → Option String
    → ℕ
    → Dict (List Marker)
    → Dict (List Marker)
unfolding mark_round incoming_keys
mark_loop nodes edges start_id zero markers = markers
mark_loop nodes edges start_id (suc rounds) markers =
    let (markers', changed) =
      mark_round nodes edges start_id (incoming_keys [] edges) markers false in
    elim changed [ true ↦ mark_loop nodes edges start_id rounds markers' | false ↦ markers' ]

-- `changed and iterations <= len(nodes)` lets `len(nodes) + 1` passes run.
unfoldable pub branch_markers : List WorkflowNode → List WorkflowEdge → Dict (List Marker)
unfolding mark_loop
branch_markers nodes edges =
    let start_id : Option String = elim (find (λ n. is_start n.payload) nodes) [
      | none ↦ none
      | some n ↦ some n.id
    ] in
    mark_loop nodes edges start_id (suc (length nodes)) (map (λ n. (n.id, [])) nodes)

-- `{branch for c, branch in markers if c == cond}`
abbrev branches : String → List Marker → List String
branches cond ms = map (λ m. m.label) (keep (λ m. m.cond == cond) ms)

abbrev disjoint : List String → List String → Bool
disjoint xs ys = all (λ x. not (contains ys x)) xs

unfoldable pub mutually_exclusive : List Marker → List Marker → Bool
mutually_exclusive a b =
    any
      (λ m.
        contains (map (λ n. n.cond) b) m.cond && disjoint (branches m.cond a) (branches m.cond b))
      a
