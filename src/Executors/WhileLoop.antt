-- ===== src/Executors/WhileLoop.antt =====
-- `WhileExecutor.arun` (src/executors/while_loop.py).
pub mod Bound
mod Tests
use composer.Base.{
  ℕ, zero, suc, String, Bool, true, false, not, Option, none, some, List, [], ◌∷◌, ltb, ◌==◌,
  if◌then◌else◌, Result, ok, err,
}
use composer.Value.{
  ℤ, pos, negsuc, Value, null, bool, int, text, arr, obj, Items, nil, cons, Fields, empty, field,
  field_at, set_field, truthy,
}
use composer.State.{WorkflowStateDict, NodeExecutionResult, Update}
use composer.Graph.Routers.{Evaluator}

-- Python's conversions of values that the engine did not write itself: `dict(list)` and `int(str)`,
-- `none` where they raise.
pub record Conversions : Type 0 where
  pub dict_of_items : Items → Option Fields
  pub int_of_text : String → Option ℤ

-- `requires condition`, an exception of `dict()` or `int()`, WhileMaxIterationsError and WhileNodeError
pub data WhileError : Type 0 where
  requires_condition bad_counter max_iterations_exceeded condition_failed : WhileError

-- `dict(state_variables.get(ITER_STATE_KEY) or {})`
unfoldable pub counts_of : Conversions → Option Value → Option Fields
counts_of py none = some empty
counts_of py (some null) = some empty
counts_of py (some (bool false)) = some empty
counts_of py (some (bool true)) = none
counts_of py (some (int n)) = if truthy (int n) then none else some empty
counts_of py (some (text t)) = if truthy (text t) then none else some empty
counts_of py (some (arr nil)) = some empty
counts_of py (some (arr (cons v xs))) = py.dict_of_items (cons v xs)
counts_of py (some (obj fs)) = some fs

-- `int(counts.get(self.node.id, 0))`
unfoldable pub count_of : Conversions → Option Value → Option ℤ
count_of py none = some (pos 0)
count_of py (some (int n)) = some n
count_of py (some (bool false)) = some (pos 0)
count_of py (some (bool true)) = some (pos 1)
count_of py (some (text t)) = py.int_of_text t
count_of py (some _) = none

abbrev pub add_one : ℤ → ℤ
add_one (pos n) = pos (suc n)
add_one (negsuc zero) = pos 0
add_one (negsuc (suc n)) = negsuc n

-- `count > max_iterations`
abbrev pub exceeds : ℤ → ℕ → Bool
exceeds (pos n) max_iterations = ltb max_iterations n
exceeds (negsuc n) max_iterations = false

abbrev pub iter_state_key : String
iter_state_key = "_while_iterations"

-- The update of a visit, with the audit row.
unfoldable pub while_update : String → String → Fields → ℤ → Bool → Update
while_update id expr counts count result = record {
  variables = some (field iter_state_key (obj counts) empty);
  chat_history = none;
  current_node_id = some id;
  node_results = some (
      (
        id,
        record {
          node_id = id;
          status = "completed";
          input = obj (field "condition" (text expr) (field "iteration" (int count) empty));
          output = some (
              obj (
                field "taken" (text (if result then "body" else "exit"))
                  (field "evaluated" (bool result) empty)));
        },
      )
      ∷ []);
  pending_auth = none;
  loop_results = none;
  final_outputs = none;
}

-- The condition is evaluated over the state before the update.
unfoldable pub while_evaluated :
    String → String → Fields → ℤ → Option Value → Result WhileError Update
unfolding while_update
while_evaluated id expr counts count none = err condition_failed
while_evaluated id expr counts count (some v) = ok (while_update id expr counts count (truthy v))

-- The cap is enforced before the condition is evaluated.
unfoldable pub while_counted :
    Evaluator
    → String
    → String
    → ℕ
    → Fields
    → Option ℤ
    → WorkflowStateDict
    → Result WhileError Update
unfolding while_evaluated set_field
while_counted evaluate id expr max_iterations existing none state = err bad_counter
while_counted evaluate id expr max_iterations existing (some previous) state =
    let count = add_one previous in
    if exceeds count max_iterations
    then err max_iterations_exceeded
    else while_evaluated id expr (set_field existing id (int count)) count (evaluate expr state)

unfoldable pub while_from :
    Conversions
    → Evaluator
    → String
    → String
    → ℕ
    → Option Fields
    → WorkflowStateDict
    → Result WhileError Update
unfolding while_counted count_of field_at
while_from py evaluate id expr max_iterations none state = err bad_counter
while_from py evaluate id expr max_iterations (some existing) state =
    while_counted evaluate id expr max_iterations existing (count_of py (field_at existing id))
      state

unfoldable pub while_arun :
    Conversions → Evaluator → String → String → ℕ → WorkflowStateDict → Result WhileError Update
unfolding while_from counts_of field_at
while_arun py evaluate id expr max_iterations state =
    if expr == ""
    then err requires_condition
    else while_from py evaluate id expr max_iterations
        (counts_of py (field_at state.variables iter_state_key)) state
