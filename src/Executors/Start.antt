-- ===== src/Executors/Start.antt =====
-- `StartExecutor.arun` (src/executors/start.py): what the caller's input may set.
pub mod Reserved
use composer.Base.{
  String, Bool, true, false, not, ◌&&◌, ◌||◌, Option, none, some, List, [], ◌∷◌, ◌++◌, any, ◌==◌,
  if◌then◌else◌, Result, ok, err, ◌>>◌,
}
use package.text.Mathlib.Text.{starts_with}
use composer.Value.{
  Value, null, bool, int, text, obj, arr, Fields, empty, field, field_at, set_field, merge_fields,
  truthy,
}
use composer.Workflow.{StartInputVariable}
use composer.State.{WorkflowStateDict, NodeExecutionResult, Update}

-- The library functions: `json.loads`, `float` of a text, and `strip().lower()`, the first two `none`
-- where they raise.
pub record Python : Type 0 where
  pub loads : String → Option Value
  pub float_of_text : String → Option Value
  pub strip_lower : String → String

-- The keys that an error names, which its message sorts.
pub data StartError : Type 0 where
  reserved_keys undeclared_keys missing_required : List String → StartError

abbrev pub is_reserved : String → Bool
is_reserved key = key == "finalOutput" || starts_with key "_"

abbrev pub is_declared : List StartInputVariable → String → Bool
is_declared declared key = any (λ var. var.name == key) declared

-- The keys of `fields` that pass a test.
unfoldable pub keys_where : (String → Bool) → Fields → List String
keys_where test empty = []
keys_where test (field key value fields) =
    let rest = keys_where test fields in if test key then key ∷ rest else rest

unfoldable pub raise_if_any : (List String → StartError) → List String → Result StartError Unit
raise_if_any error [] = ok tt
raise_if_any error (key ∷ keys) = err (error (key ∷ keys))

unfoldable pub reject_reserved_keys : Fields → Result StartError Unit
unfolding keys_where raise_if_any
reject_reserved_keys user_provided =
    raise_if_any reserved_keys (keys_where is_reserved user_provided)

unfoldable pub reject_undeclared_keys_in_strict_mode :
    Bool → Fields → List StartInputVariable → Result StartError Unit
unfolding keys_where raise_if_any
reject_undeclared_keys_in_strict_mode false user_provided declared = ok tt
reject_undeclared_keys_in_strict_mode true user_provided declared =
    raise_if_any undeclared_keys (keys_where (λ key. not (is_declared declared key)) user_provided)

abbrev pub or_raw : Value → Option Value → Value
or_raw raw none = raw
or_raw raw (some value) = value

unfoldable pub number_default : Python → Value → Value
number_default py (text t) = or_raw (text t) (py.float_of_text t)
number_default py raw = raw

unfoldable pub boolean_text : String → Bool
boolean_text lowered =
    not (lowered == "false" || lowered == "0" || lowered == "no" || lowered == "")

-- A text that is no yes and no no is not empty, so `bool(raw)` is true of it.
unfoldable pub boolean_default : Python → Value → Value
unfolding boolean_text
boolean_default py (bool b) = bool b
boolean_default py (text t) = bool (boolean_text (py.strip_lower t))
boolean_default py raw = bool (truthy raw)

unfoldable pub json_default : Python → Value → Value
json_default py (text t) = or_raw (text t) (py.loads t)
json_default py raw = raw

unfoldable pub default_of_type : Python → String → Value → Value
unfolding number_default boolean_default json_default
default_of_type py kind raw =
    if kind == "number"
    then number_default py raw
    else if kind == "boolean"
    then boolean_default py raw
    else if kind == "json"
    then json_default py raw
    else raw

-- `null` is None.
unfoldable pub coerce_default : Python → StartInputVariable → Value
unfolding default_of_type
coerce_default py var = elim var.default_value [
  | null ↦ null
  | text t ↦ if t == "" then null else default_of_type py var.kind (text t)
  | raw ↦ default_of_type py var.kind raw
]

-- The defaults of the declared variables that the caller left out, and the required ones without.
pub record Defaults : Type 0 where
  pub variables_delta : Fields
  pub missing : List String

unfoldable pub add_default : StartInputVariable → Value → Defaults → Defaults
unfolding set_field
add_default var null found =
    if var.required then record found { missing = found.missing ++ var.name ∷ [] } else found
add_default var default found = record found {
  variables_delta = set_field found.variables_delta var.name default;
}

unfoldable pub is_provided : Fields → String → Bool
unfolding field_at
is_provided user_provided key = elim (field_at user_provided key) [
  | none ↦ false
  | some value ↦ true
]

unfoldable pub gather_defaults : Python → Fields → List StartInputVariable → Defaults → Defaults
unfolding is_provided coerce_default add_default
gather_defaults py user_provided [] found = found
gather_defaults py user_provided (var ∷ declared) found =
    gather_defaults py user_provided declared (
      if is_provided user_provided var.name
      then found
      else add_default var (coerce_default py var) found)

unfoldable pub parse_input : Python → Value → Value
parse_input py (text t) = or_raw (text t) (py.loads t)
parse_input py raw = raw

unfoldable pub provided_by : Value → Fields
provided_by (obj fields) = fields
provided_by parsed = empty

unfoldable pub add_input : Value → Fields → Fields
unfolding merge_fields set_field
add_input (obj fields) delta = set_field (merge_fields delta fields) "lastOutput" (obj fields)
add_input parsed delta = set_field (set_field delta "input" parsed) "lastOutput" parsed

unfoldable pub start_update : String → Value → Value → Fields → Update
unfolding add_input
start_update id raw_input parsed delta = record {
  variables = some (add_input parsed delta);
  chat_history = none;
  current_node_id = some id;
  node_results = some (
      (id, record { node_id = id; status = "completed"; input = raw_input; output = some parsed })
      ∷ []);
  pending_auth = none;
  loop_results = none;
  final_outputs = none;
}

unfoldable pub raise_missing : List String → Update → Result StartError Update
raise_missing [] update = ok update
raise_missing (key ∷ keys) update = err (missing_required (key ∷ keys))

unfoldable pub value_or_empty : Option Value → Value
value_or_empty none = text ""
value_or_empty (some value) = value

unfoldable pub start_parsed :
    Python → Bool → String → List StartInputVariable → Value → Value → Result StartError Update
unfolding reject_reserved_keys reject_undeclared_keys_in_strict_mode gather_defaults provided_by
    raise_missing start_update
start_parsed py strict id declared raw_input parsed =
    let user_provided = provided_by parsed in
    let found =
      gather_defaults py user_provided declared
        (record { variables_delta = empty; missing = [] }) in
    reject_reserved_keys user_provided
    >> reject_undeclared_keys_in_strict_mode strict user_provided declared
    >> raise_missing found.missing (start_update id raw_input parsed found.variables_delta)

unfoldable pub start_arun :
    Python → Bool → String → List StartInputVariable → WorkflowStateDict → Result StartError Update
unfolding start_parsed value_or_empty parse_input field_at
start_arun py strict id declared state =
    let raw_input = value_or_empty (field_at state.variables "input") in
    start_parsed py strict id declared raw_input (parse_input py raw_input)
