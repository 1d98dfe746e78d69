-- ===== src/Executors/Simple.antt =====
-- The executors without a loop or a pause: join, end, if-else, set-state and transform
-- (src/executors/join.py, end.py, if_else.py, set_state.py and transform.py).
pub mod Ends
use composer.Base.{
  String, Bool, true, false, not, ◌&&◌, ◌||◌, Option, none, some, List, [], ◌∷◌, contains, ◌==◌,
  if◌then◌else◌, Result, ok, err, ◌>>◌,
}
use package.text.Mathlib.Text.{starts_with}
use composer.Value.{Value, null, bool, text, obj, Fields, empty, field, field_at, set_field, truthy}
use composer.State.{WorkflowStateDict, NodeExecutionResult, Update}
use composer.Graph.Routers.{Evaluator}

-- The update of a node that writes variables and final outputs, if any, and its result.
unfoldable pub completed_update :
    String → Option Fields → Option Fields → Value → Option Value → Update
completed_update id variables final_outputs input output = record {
  variables = variables;
  chat_history = none;
  current_node_id = some id;
  node_results =
      some
        ((id, record { node_id = id; status = "completed"; input = input; output = output }) ∷ []);
  pending_auth = none;
  loop_results = none;
  final_outputs = final_outputs;
}

-- A result without an input has `null` here; nothing that is modelled reads it.
unfoldable pub join_arun : String → Update
unfolding completed_update
join_arun id = completed_update id none none null none

unfoldable pub last_output : WorkflowStateDict → Value
unfolding field_at
last_output state = elim (field_at state.variables "lastOutput") [
  | none ↦ null
  | some value ↦ value
]

unfoldable pub end_arun : String → WorkflowStateDict → Update
unfolding completed_update last_output
end_arun id state =
    completed_update id none (some (field id (last_output state) empty)) null
      (some (last_output state))

pub data NodeError : Type 0 where
  requires_setting : NodeError
  eval_failed : NodeError
  invalid_output_key : String → NodeError

abbrev pub setting : Option String → String
setting none = ""
setting (some s) = s

unfoldable pub if_else_evaluated : String → String → Option Value → Result NodeError Update
unfolding completed_update
if_else_evaluated id expr none = err eval_failed
if_else_evaluated id expr (some result) = ok (
    completed_update id none none (obj (field "condition" (text expr) empty)) (
      some (
        obj (
          field "taken" (text (if truthy result then "true" else "false"))
            (field "evaluated" (bool (truthy result)) empty)))))

unfoldable pub if_else_arun :
    Evaluator → String → Option String → WorkflowStateDict → Result NodeError Update
unfolding if_else_evaluated
if_else_arun evaluate id condition state =
    let expr = setting condition in
    if expr == "" then err requires_setting else if_else_evaluated id expr (evaluate expr state)

-- `resolved` is the value with the variables substituted. The later of two equal keys wins.
unfoldable pub set_state_arun : String → Option String → Value → Result NodeError Update
unfolding completed_update set_field
set_state_arun id state_key resolved =
    let key = setting state_key in
    if key == ""
    then err requires_setting
    else ok (
        completed_update id (some (set_field (field key resolved empty) "lastOutput" resolved)) none
          (obj (field key resolved empty)) (some resolved))

-- `str.strip`, and the match against the pattern of identifiers.
pub record Names : Type 0 where
  pub strip : String → String
  pub is_identifier : String → Bool

unfoldable pub output_key_of : Names → Option String → Option String
output_key_of py none = none
output_key_of py (some key) = if py.strip key == "" then none else some (py.strip key)

unfoldable pub check_output_key : Names → Option String → Result NodeError Unit
check_output_key py none = ok tt
check_output_key py (some key) =
    if not (py.is_identifier key)
      || contains ("variables" ∷ "lastOutput" ∷ "node_results" ∷ []) key
      || starts_with key "_"
    then err (invalid_output_key key)
    else ok tt

abbrev pub text_or_none : Option String → Value
text_or_none none = null
text_or_none (some s) = text s

unfoldable pub transform_variables : Option String → Value → Fields
unfolding set_field
transform_variables none result = field "lastOutput" result empty
transform_variables (some key) result = set_field (field "lastOutput" result empty) key result

unfoldable pub transform_evaluated :
    String → String → Option String → Option Value → Result NodeError Update
unfolding completed_update transform_variables
transform_evaluated id expr output_key none = err eval_failed
transform_evaluated id expr output_key (some result) = ok (
    completed_update id (some (transform_variables output_key result)) none
      (obj (field "expression" (text expr) (field "outputKey" (text_or_none output_key) empty)))
      (some result))

unfoldable pub transform_arun :
    Evaluator
    → Names
    → String
    → Option String
    → Option String
    → WorkflowStateDict
    → Result NodeError Update
unfolding output_key_of check_output_key transform_evaluated
transform_arun evaluate py id script output_key state =
    let expr = setting script in
    let key = output_key_of py output_key in
    if expr == ""
    then err requires_setting
    else check_output_key py key >> transform_evaluated id expr key (evaluate expr state)
