-- ===== src/Builder/Tools.antt =====
-- src/builder/draft.py and the tools of src/builder/builder_tools.py. Nodes are built by pydantic's models,
-- which are an argument; a drawn edge id is one too.
use Prim.Native.Char.{Char, code}
use composer.Base.{
  ℕ, ◌+◌, String, Bool, not, ◌&&◌, ◌||◌, Option, none, some, List, [], ◌∷◌, map, keep, find,
  contains, length, eqb, leb, ◌==◌, if◌then◌else◌, Result, ok, err,
}
use composer.Base.Dict.{Dict, get, put, remove}
use composer.Value.{Value, text, Fields, empty, field, field_at, merge_fields}
use composer.Workflow.{
  StartInputVariable, NodeData, start, if_else, decision, while, end, join, note, file_trigger,
  user_approval, file_write, agent, mcp, transform, data_transform, set_state, extract, http,
  guardrails, vector_db, gamma_ai, email, arcade, join_chunks, confluence, jira, download_pdf,
  WorkflowNode, WorkflowEdge,
}
use composer.Graph.Nodes.{is_start}
use composer.Substitution.Scan.{Chars, chars, same}

pub record Draft : Type 0 where
  pub nodes : Dict WorkflowNode
  pub edges : Dict WorkflowEdge

abbrev pub values {ℓ} : {A : Type ℓ} → Dict A → List A
values = map (λ entry. entry.1)

abbrev pub keys {ℓ} : {A : Type ℓ} → Dict A → List String
keys = map (λ entry. entry.0)

-- The models of pydantic: `cls(id=..., type=..., data=...)` with its message on a failure, `model_dump` of a
-- node's data, and `StartInputVariable(**v)`.
pub record Models : Type 0 where
  pub construct : String → String → Fields → Result String WorkflowNode
  pub dump : WorkflowNode → Fields
  pub read_input : Fields → Option StartInputVariable

-- The `type` of a node.
abbrev pub type_of : NodeData → String
type_of (start _) = "start"
type_of end = "end"
type_of note = "note"
type_of file_trigger = "file-trigger"
type_of file_write = "file-write"
type_of agent = "agent"
type_of mcp = "mcp"
type_of http = "http"
type_of extract = "extract"
type_of transform = "transform"
type_of data_transform = "data-transform"
type_of set_state = "set-state"
type_of (if_else _) = "if-else"
type_of (decision _ _) = "decision"
type_of (while _ _) = "while"
type_of user_approval = "user-approval"
type_of guardrails = "guardrails"
type_of vector_db = "vector-db"
type_of gamma_ai = "gamma-ai"
type_of email = "email"
type_of arcade = "arcade"
type_of join_chunks = "join-chunks"
type_of jira = "jira"
type_of confluence = "confluence"
type_of download_pdf = "download-pdf"
type_of join = "join"

-- The keys of `_NODE_CLASSES`.
abbrev pub node_types : List String
node_types =
    "start" ∷ "end" ∷ "note" ∷ "file-trigger" ∷ "file-write" ∷ "agent" ∷ "mcp" ∷ "http" ∷ "extract"
    ∷ "transform" ∷ "data-transform" ∷ "set-state" ∷ "if-else" ∷ "decision" ∷ "while"
    ∷ "user-approval" ∷ "guardrails" ∷ "vector-db" ∷ "gamma-ai" ∷ "email" ∷ "arcade" ∷ "join-chunks"
    ∷ "jira" ∷ "confluence" ∷ "download-pdf" ∷ "join" ∷ []

abbrev pub is_id_char : Char → Bool
is_id_char c =
    (leb 97 (code c) && leb (code c) 122)
    || (leb 65 (code c) && leb (code c) 90)
    || (leb 48 (code c) && leb (code c) 57)
    || same c "_"
    || same c "-"

-- The `$` of `_ID_RE` also matches before a newline that ends the text.
unfoldable pub is_id_from : ℕ → Chars → Bool
is_id_from taken [] = leb 1 taken && leb taken 64
is_id_from taken (c ∷ s) =
    let rest = is_id_from (taken + 1) s in
    if is_id_char c
    then rest
    else eqb (code c) 10 && eqb (length s) 0 && leb 1 taken && leb taken 64

unfoldable pub matches_id : String → Bool
unfolding is_id_from
matches_id id = is_id_from 0 (chars id)

pub data ToolError : Type 0 where
  unknown_type bad_id node_exists no_node unknown_source unknown_target no_start bad_input :
      ToolError
  invalid_data : String → ToolError

abbrev pub refused : Result String WorkflowNode → Result ToolError WorkflowNode
refused (ok node) = ok node
refused (err why) = err (invalid_data why)

-- `data.get("label", node_type)`
abbrev pub label_or : String → Option Value → Value
label_or node_type none = text node_type
label_or node_type (some label) = label

unfoldable pub try_build_node : Models → String → String → Fields → Result ToolError WorkflowNode
unfolding matches_id field_at merge_fields
try_build_node models node_type id given =
    if not (contains node_types node_type)
    then err unknown_type
    else if not (matches_id id)
    then err bad_id
    else refused (
        models.construct node_type id
          (merge_fields (field "label" (label_or node_type (field_at given "label")) empty) given))

-- The answer of a tool, and the draft that it leaves.
abbrev pub ToolAnswer : Type 0
ToolAnswer = Result ToolError (Unit {0}) × Draft

abbrev pub has : {A : Type 0} → Dict A → String → Bool
has dict key = contains (keys dict) key

abbrev pub with_node : Draft → String → WorkflowNode → Draft
with_node draft id node = record draft { nodes = put draft.nodes id node }

abbrev pub created : Draft → String → Result ToolError WorkflowNode → ToolAnswer
created draft id (err e) = (err e, draft)
created draft id (ok node) =
    if has draft.nodes id then (err node_exists, draft) else (ok tt, with_node draft id node)

unfoldable pub create_node : Models → String → String → String → Fields → Draft → ToolAnswer
unfolding try_build_node put merge_fields
create_node models node_type id label given draft =
    created draft id
      (try_build_node models node_type id (merge_fields (field "label" (text label) empty) given))

abbrev pub updated : Draft → String → Result ToolError WorkflowNode → ToolAnswer
updated draft id (err e) = (err e, draft)
updated draft id (ok node) = (ok tt, with_node draft id node)

unfoldable pub update_node : Models → String → Fields → Draft → ToolAnswer
unfolding try_build_node get put merge_fields
update_node models id given draft = elim (get draft.nodes id) [
  | none ↦ (err no_node, draft)
  | some existing ↦ updated draft id (
      try_build_node models (type_of existing.payload) id
        (merge_fields (models.dump existing) given))
]

-- The edges that do not touch a node.
unfoldable pub without_edges : String → Dict WorkflowEdge → Dict WorkflowEdge
without_edges id edges = keep (λ entry. not (entry.1.source == id || entry.1.target == id)) edges

unfoldable pub remove_node : String → Draft → ToolAnswer
unfolding remove without_edges
remove_node id draft =
    if not (has draft.nodes id)
    then (err no_node, draft)
    else (ok tt, record { nodes = remove draft.nodes id; edges = without_edges id draft.edges })

unfoldable pub connect_nodes : String → String → String → Option String → Draft → ToolAnswer
unfolding put
connect_nodes edge_id source target branch draft =
    if not (has draft.nodes source)
    then (err unknown_source, draft)
    else if not (has draft.nodes target)
    then (err unknown_target, draft)
    else (
      ok tt,
      record draft {
        edges =
            put draft.edges edge_id
              (record { id = edge_id; source = source; target = target; branch = branch });
      },
    )

-- `none` where an input variable is invalid.
unfoldable pub read_inputs : Models → List Fields → Option (List StartInputVariable)
read_inputs models [] = some []
read_inputs models (v ∷ vs) = elim (models.read_input v) [
  | none ↦ none
  | some input ↦ elim (read_inputs models vs) [ none ↦ none | some inputs ↦ some (input ∷ inputs) ]
]

-- The node with other input variables.
abbrev pub with_inputs : WorkflowNode → List StartInputVariable → WorkflowNode
with_inputs node inputs = record node { payload = start inputs }

abbrev pub declared : Draft → WorkflowNode → Option (List StartInputVariable) → ToolAnswer
declared draft node none = (err bad_input, draft)
declared draft node (some inputs) = (ok tt, with_node draft node.id (with_inputs node inputs))

unfoldable pub set_start_inputs : Models → List Fields → Draft → ToolAnswer
unfolding read_inputs put
set_start_inputs models variables draft =
    elim (find (λ (n : WorkflowNode). is_start n.payload) (values draft.nodes)) [
      | none ↦ (err no_start, draft)
      | some node ↦ declared draft node (read_inputs models variables)
    ]
