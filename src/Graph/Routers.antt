-- ===== src/Graph/Routers.antt =====
-- The router closures of src/engine/graph_builder.py.
pub mod Labels
use composer.Base.{
  String, Bool, true, false, Option, none, some, List, [], ◌∷◌, ◌++◌, contains, ◌==◌, if◌then◌else◌,
  Result, ok, err,
}
use composer.Base.Dict
use composer.Workflow.{
  NodeData, if_else, decision, while, user_approval, DecisionMode, binary, choice, WorkflowNode,
}
use composer.Value.{Value, text, obj, truthy, Fields, field_at, is_text}
use composer.State.{NodeExecutionResult, WorkflowStateDict}
use Prim.Native.String as Text

-- `evaluate` of src/executors/_eval.py: it hands the expression to the library simpleeval.
-- `none` stands for `EvalError`.
abbrev pub Evaluator : Type 0
Evaluator = String → WorkflowStateDict → Option Value

-- What a router can raise: a failed `assert`, an empty list of options, or an output that is no
-- dict.
pub data RouteError : Type 0 where
  assertion_failed index_error attribute_error : RouteError

-- `node.data.condition or ""`
abbrev pub condition_of : Option String → String
condition_of none = ""
condition_of (some s) = s

-- `_route_if_else` and `_route_while` differ in their labels only.
unfoldable pub route_condition :
    Evaluator → String → String → Option String → WorkflowStateDict → String
route_condition evaluate yes_label no_label condition state =
    let expr = condition_of condition in
    if expr == "" then no_label else elim (evaluate expr state) [
      | none ↦ no_label
      | some result ↦ if truthy result then yes_label else no_label
    ]

unfoldable pub route_if_else : Evaluator → Option String → WorkflowStateDict → String
unfolding route_condition
route_if_else evaluate = route_condition evaluate "true" "false"

unfoldable pub route_while : Evaluator → Option String → WorkflowStateDict → String
unfolding route_condition
route_while evaluate = route_condition evaluate "body" "exit"

unfoldable pub route_user_approval : String → WorkflowStateDict → String
unfolding field_at
route_user_approval id state =
    if is_text (field_at state.variables (Text.◌++◌ "_approval_" id)) "approved"
    then "approved"
    else "rejected"

-- `_fallback`
unfoldable pub route_fallback : DecisionMode → Option (List String) → Result RouteError String
route_fallback binary options = ok "false"
route_fallback choice none = err assertion_failed
route_fallback choice (some []) = err index_error
route_fallback choice (some (label ∷ _)) = ok label

-- `bool(decision)`, where `decision` may be missing
abbrev pub decided : Option Value → Bool
decided none = false
decided (some v) = truthy v

abbrev pub label_in : List String → Option Value → Bool
label_in labels (some (text s)) = contains labels s
label_in labels _ = false

abbrev pub label_text : Option Value → String
label_text (some (text s)) = s
label_text _ = ""

-- The part of the router behind `result["output"].get("decision")`.
unfoldable pub route_label :
    DecisionMode → Option (List String) → Option Value → Result RouteError String
unfolding route_fallback
route_label binary options picked = ok (if decided picked then "true" else "false")
route_label choice none picked = err assertion_failed
route_label choice (some labels) picked =
    if label_in labels picked then ok (label_text picked) else route_fallback choice (some labels)

-- `result["output"].get("decision")` raises when the output is no dict.
unfoldable pub route_output : DecisionMode → Option (List String) → Value → Result RouteError String
unfolding route_label field_at
route_output mode options (obj fields) = route_label mode options (field_at fields "decision")
route_output mode options _ = err attribute_error

unfoldable pub route_decision :
    String → DecisionMode → Option (List String) → WorkflowStateDict → Result RouteError String
unfolding route_output route_fallback Dict.get
route_decision id mode options state = elim (Dict.get state.node_results id) [
  | none ↦ route_fallback mode options
  | some result ↦ elim result.output [
    | none ↦ route_fallback mode options
    | some output ↦ route_output mode options output
  ]
]

-- The router that `build_graph` installs at a conditional node; other nodes have none.
unfoldable pub route_payload :
    Evaluator → String → NodeData → WorkflowStateDict → Result RouteError String
unfolding route_if_else route_while route_user_approval route_decision
route_payload evaluate id (if_else condition) state = ok (route_if_else evaluate condition state)
route_payload evaluate id (while condition _) state = ok (route_while evaluate condition state)
route_payload evaluate id user_approval state = ok (route_user_approval id state)
route_payload evaluate id (decision mode options) state = route_decision id mode options state
route_payload evaluate id _ state = err assertion_failed

abbrev pub route : Evaluator → WorkflowNode → WorkflowStateDict → Result RouteError String
route evaluate node = route_payload evaluate node.id node.payload

-- The `required` set that `build_graph` passes to `_branch_mapping`; `none` is its failed `assert`.
unfoldable pub required_branches : NodeData → Option (List String)
required_branches (if_else _) = some ("true" ∷ "false" ∷ [])
required_branches (while _ _) = some ("body" ∷ "exit" ∷ [])
required_branches user_approval = some ("approved" ∷ "rejected" ∷ [])
required_branches (decision binary _) = some ("true" ∷ "false" ∷ [])
required_branches (decision choice options) = options
required_branches _ = some []
