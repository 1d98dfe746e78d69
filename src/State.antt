-- ===== src/State.antt =====
-- src/engine/state.py: the state of a run and its reducers.
pub mod Laws
use composer.Base.{String, Bool, true, false, Option, none, some, List, [], ◌∷◌, ◌++◌}
use composer.Base.Dict
use composer.Base.Dict.{Dict}
use composer.Value.{Value, null, text, Fields, empty, field, merge_fields}

pub record ChatMessage : Type 0 where
  pub role : String
  pub content : String

-- `total=False`: an output may be absent. Times and token usage are read by no modelled code.
pub record NodeExecutionResult : Type 0 where
  pub node_id : String
  pub status : String
  pub input : Value
  pub output : Option Value

pub record WorkflowStateDict : Type 0 where
  pub variables : Fields
  pub chat_history : List ChatMessage
  pub current_node_id : String
  pub node_results : Dict NodeExecutionResult
  pub pending_auth : Option Fields
  pub loop_results : List Value
  pub final_outputs : Fields

-- What a node writes: a missing key leaves the channel alone.
pub record Update : Type 0 where
  pub variables : Option Fields
  pub chat_history : Option (List ChatMessage)
  pub current_node_id : Option String
  pub node_results : Option (Dict NodeExecutionResult)
  pub pending_auth : Option (Option Fields)
  pub loop_results : Option (List Value)
  pub final_outputs : Option Fields

-- A key that is present goes through its channel's reducer.
abbrev pub reduce {ℓ} : {A : Type ℓ} → (A → A → A) → A → Option A → A
reduce f left none = left
reduce f left (some right) = f left right

-- `last_wins`
abbrev pub last_wins {ℓ} : {A : Type ℓ} → A → A → A
last_wins _ right = right

-- `merge_dict` on values and on results, `add` on lists, `last_wins` elsewhere.
unfoldable pub apply_update : WorkflowStateDict → Update → WorkflowStateDict
unfolding merge_fields Dict.merge
apply_update s u = record {
  variables = reduce merge_fields s.variables u.variables;
  chat_history = reduce ◌++◌ s.chat_history u.chat_history;
  current_node_id = reduce last_wins s.current_node_id u.current_node_id;
  node_results = reduce Dict.merge s.node_results u.node_results;
  pending_auth = reduce last_wins s.pending_auth u.pending_auth;
  loop_results = reduce ◌++◌ s.loop_results u.loop_results;
  final_outputs = reduce merge_fields s.final_outputs u.final_outputs;
}

unfoldable pub initial_state : Value → WorkflowStateDict
initial_state raw_input = record {
  variables = field "input" raw_input (field "lastOutput" (text "") empty);
  chat_history = [];
  current_node_id = "";
  node_results = [];
  pending_auth = none;
  loop_results = [];
  final_outputs = empty;
}
