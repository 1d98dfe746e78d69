-- ===== src/Substitution/Validation.antt =====
-- The references of a workflow that name no variable: src/variable_validation.py. `dump` is pydantic's
-- `model_dump(by_alias=True)` of a node's data.
pub mod Available
pub mod Correct
use Prim.Native.Char.{Char, code}
use composer.Base.{
  String, Bool, true, false, not, ◌&&◌, ◌||◌, Option, none, some, List, [], ◌∷◌, ◌++◌, map, collect,
  contains, eqb, leb, ◌==◌, if◌then◌else◌,
}
use composer.Value.{Value, null, bool, int, text, arr, obj, Fields, empty, field, Items, nil, cons}
use composer.Workflow.{StartInputVariable, NodeData, start, WorkflowNode, Workflow}
use composer.Substitution.Scan.{Chars, chars, pack, same, is_nil, Piece, plain, hole, scan}
use composer.Substitution.Resolve.{strip_by, strip, split_dots}

pub record UnknownVariableReference : Type 0 where
  pub node_id : String
  pub field_path : String
  pub placeholder : String
  pub root_name : String

unfoldable pub sanitize_node_id : String → String
sanitize_node_id id = pack (map (λ c. if same c "-" then "_" else c) (chars id))

-- `c.lower()` as far as letters and digits of ASCII come of it: the Kelvin sign gives a k, and the capital I
-- with a dot an i and a combining dot, for which an exclamation mark stands here; what else a character gives is replaced.
abbrev pub lower : Char → Chars
lower c =
    if same c "A"
    then "a" ∷ []
    else if same c "B"
    then "b" ∷ []
    else if same c "C"
    then "c" ∷ []
    else if same c "D"
    then "d" ∷ []
    else if same c "E"
    then "e" ∷ []
    else if same c "F"
    then "f" ∷ []
    else if same c "G"
    then "g" ∷ []
    else if same c "H"
    then "h" ∷ []
    else if same c "I"
    then "i" ∷ []
    else if same c "J"
    then "j" ∷ []
    else if same c "K"
    then "k" ∷ []
    else if same c "L"
    then "l" ∷ []
    else if same c "M"
    then "m" ∷ []
    else if same c "N"
    then "n" ∷ []
    else if same c "O"
    then "o" ∷ []
    else if same c "P"
    then "p" ∷ []
    else if same c "Q"
    then "q" ∷ []
    else if same c "R"
    then "r" ∷ []
    else if same c "S"
    then "s" ∷ []
    else if same c "T"
    then "t" ∷ []
    else if same c "U"
    then "u" ∷ []
    else if same c "V"
    then "v" ∷ []
    else if same c "W"
    then "w" ∷ []
    else if same c "X"
    then "x" ∷ []
    else if same c "Y"
    then "y" ∷ []
    else if same c "Z"
    then "z" ∷ []
    else if eqb (code c) 8490
    then "k" ∷ []
    else if eqb (code c) 304
    then "i" ∷ "!" ∷ []
    else c ∷ []

abbrev pub is_name_char : Char → Bool
is_name_char c = (leb 97 (code c) && leb (code c) 122) || (leb 48 (code c) && leb (code c) 57)

-- `re.sub(r"[^a-z0-9]+", "_", ...)`; the Boolean says that the character before was replaced.
unfoldable pub underscored : Bool → Chars → Chars
underscored in_run [] = []
underscored in_run (c ∷ s) = elim (is_name_char c) [
  | true ↦ c ∷ underscored false s
  | false ↦ elim in_run [ true ↦ underscored true s | false ↦ "_" ∷ underscored true s ]
]

abbrev pub or_none : Chars → Option String
or_none [] = none
or_none (c ∷ s) = some (pack (c ∷ s))

unfoldable pub sanitize_node_name : String → Option String
unfolding strip strip_by underscored
sanitize_node_name name =
    or_none (strip_by (λ c. same c "_") (underscored false (collect lower (strip (chars name)))))

unfoldable pub bodies : List Piece → List String
unfolding strip
bodies [] = []
bodies (plain c ∷ pieces) = bodies pieces
bodies (hole body ∷ pieces) = pack (strip body) ∷ bodies pieces

unfoldable mutual
  unfolding bodies scan

  pub extract_references : Value → List String
  extract_references (text s) = bodies (scan (chars s) 0)
  extract_references (obj fields) = field_references fields
  extract_references (arr items) = item_references items
  extract_references null = []
  extract_references (bool b) = []
  extract_references (int n) = []

  pub field_references : Fields → List String
  field_references empty = []
  field_references (field key value rest) = extract_references value ++ field_references rest

  pub item_references : Items → List String
  item_references nil = []
  item_references (cons item rest) = extract_references item ++ item_references rest

abbrev pub builtin_variables : List String
builtin_variables = "lastOutput" ∷ "input" ∷ "finalOutput" ∷ []

unfoldable pub alias_names : Option String → List String
unfolding sanitize_node_name
alias_names none = []
alias_names (some name) = elim (sanitize_node_name name) [ none ↦ [] | some alias ↦ alias ∷ [] ]

abbrev pub input_names : NodeData → List String
input_names (start inputs) = map (λ (v : StartInputVariable). v.name) inputs
input_names _ = []

unfoldable pub names_of : WorkflowNode → List String
unfolding sanitize_node_id alias_names
names_of node = sanitize_node_id node.id ∷ (alias_names node.node_name ++ input_names node.payload)

unfoldable pub available_variable_names : Workflow → List String
unfolding names_of
available_variable_names workflow = builtin_variables ++ collect names_of workflow.nodes

abbrev pub first_of : List Chars → String
first_of [] = ""
first_of (s ∷ rest) = pack s

-- `placeholder.split(".")[0]`
unfoldable pub root_of : String → String
unfolding split_dots
root_of placeholder = first_of (split_dots (chars placeholder))

unfoldable pub unknown_reference :
    List String → String → String → String → List UnknownVariableReference
unfolding root_of
unknown_reference available node_id path placeholder =
    if placeholder == ""
      || root_of placeholder == "state"
      || contains available (root_of placeholder)
    then []
    else record {
      node_id = node_id;
      field_path = path;
      placeholder = placeholder;
      root_name = root_of placeholder;
    }
      ∷ []

unfoldable pub unknown_in_fields : List String → String → Fields → List UnknownVariableReference
unfolding unknown_reference extract_references
unknown_in_fields available node_id empty = []
unknown_in_fields available node_id (field path value rest) =
    collect (unknown_reference available node_id path) (extract_references value)
    ++ unknown_in_fields available node_id rest

unfoldable pub find_unknown_variable_references :
    (WorkflowNode → Fields) → Workflow → List UnknownVariableReference
unfolding available_variable_names unknown_in_fields
find_unknown_variable_references dump workflow =
    collect (λ node. unknown_in_fields (available_variable_names workflow) node.id (dump node))
      workflow.nodes
