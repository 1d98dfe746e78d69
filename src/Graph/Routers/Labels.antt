-- ===== src/Graph/Routers/Labels.antt =====
-- The answers of the routers are branches that their nodes require.
use composer.Base.{
  String, ◌≡◌, ap, sym, ◌∙◌, inl, inr, Bool, true, false, Option, none, some, List, [], ◌∷◌,
  contains, ◌==◌, if◌then◌else◌, Result, ok, arith, eq_iff, Bool-cases, Option-cases,
}
use composer.Base.Dict
use composer.Base.Dict.{Dict}
use composer.Workflow.{
  NodeData, if_else, decision, while, user_approval, DecisionMode, binary, choice,
}
use composer.Value.{Value, obj, text, truthy}
use composer.State.{WorkflowStateDict}
use composer.Graph.Nodes.{is_conditional}
use composer.Graph.Routers.{
  Evaluator, RouteError, condition_of, label_in, label_text, decided, route_payload,
  route_condition, route_if_else, route_while, route_user_approval, route_fallback, route_label,
  route_output, route_decision, required_branches,
}

-- One of two labels is among the two.
two-contains :
    (x y : String) (b : Bool) {req : List String} {label : String}
    → some (x ∷ y ∷ []) ≡ some req
    → ◌≡◌ {A = Result RouteError String} (ok (if b then x else y)) (ok label)
    → contains req label ≡ true
two-contains x y b {req} {label} r h =
    let both : x ∷ y ∷ [] ≡ req = cc in
    let it : (if b then x else y) ≡ label = cc in rw (← both, ← it) (two b)
  where
    two : (b : Bool) → contains (x ∷ y ∷ []) (if b then x else y) ≡ true
    two true = ground (arith, eq_iff x x)
    two false = ground (arith, eq_iff y y)

fallback-contains :
    (mode : DecisionMode) (options : Option (List String)) (req : List String) (label : String)
    → required_branches (decision mode options) ≡ some req
    → route_fallback mode options ≡ ok label
    → contains req label ≡ true
unfolding required_branches route_fallback
fallback-contains binary options req label r h = two-contains "true" "false" false r h
fallback-contains choice none req label r h = cc
fallback-contains choice (some []) req label r h = cc
fallback-contains choice (some (l ∷ ls)) req label r h = ground (arith, eq_iff l label)

label_in-contains :
    (ls : List String) (picked : Option Value)
    → label_in ls picked ≡ true
    → contains ls (label_text picked) ≡ true
label_in-contains ls (some (text s)) h = h
label_in-contains ls _ h = cc

label-contains :
    (mode : DecisionMode) (options : Option (List String)) (picked : Option Value)
    (req : List String) (label : String)
    → required_branches (decision mode options) ≡ some req
    → route_label mode options picked ≡ ok label
    → contains req label ≡ true
unfolding required_branches route_label
label-contains binary options picked req label r h =
    two-contains "true" "false" (decided picked) r h
label-contains choice none picked req label r h = cc
label-contains choice (some ls) picked req label r h = elim (Bool-cases (label_in ls picked)) [
  | inl known ↦ ground (arith, label_in-contains ls picked)
  | inr other ↦ fallback-contains choice (some ls) req label r (ground arith)
]

output-contains :
    (mode : DecisionMode) (options : Option (List String)) (out : Value) (req : List String)
    (label : String)
    → required_branches (decision mode options) ≡ some req
    → route_output mode options out ≡ ok label
    → contains req label ≡ true
unfolding route_output
output-contains mode options (obj fs) req label r h = label-contains mode options _ req label r h
output-contains mode options _ req label r h = cc

decision-contains :
    (id : String) (mode : DecisionMode) (options : Option (List String)) (state : WorkflowStateDict)
    (req : List String) (label : String)
    → required_branches (decision mode options) ≡ some req
    → route_decision id mode options state ≡ ok label
    → contains req label ≡ true
unfolding route_decision
decision-contains id mode options state req label r h =
    elim (Option-cases (Dict.get state.node_results id)) [
      | inl absent ↦ fallback-contains mode options req label r (rw (absent, route_decision) at h)
      | inr (result, found) ↦ elim (Option-cases result.output) [
        | inl empty ↦
            fallback-contains mode options req label r (rw (found, empty, route_decision) at h)
        | inr (out, full) ↦
            output-contains mode options out req label r (rw (found, full, route_decision) at h)
      ]
    ]

-- An expression that is there, evaluates, and is truthy.
abbrev holds : Evaluator → String → WorkflowStateDict → Bool
holds evaluate expr state =
    if expr == ""
    then false
    else elim (evaluate expr state) [ none ↦ false | some result ↦ truthy result ]

condition-label :
    (evaluate : Evaluator) (x y : String) (condition : Option String) (state : WorkflowStateDict)
    → (b : Bool) × (route_condition evaluate x y condition state ≡ (if b then x else y))
unfolding route_condition
condition-label evaluate x y condition state =
    (holds evaluate (condition_of condition) state, ground arith)

-- Whatever the state, a router's answer is one of the branches that the mapping must have.
pub route-contains :
    (evaluate : Evaluator) (id : String) (payload : NodeData) (state : WorkflowStateDict)
    (req : List String) (label : String)
    → is_conditional payload ≡ true
    → required_branches payload ≡ some req
    → route_payload evaluate id payload state ≡ ok label
    → contains req label ≡ true
unfolding route_payload required_branches route_user_approval route_if_else route_while
route-contains evaluate id (if_else condition) state req label c r h =
    let (b, e) = condition-label evaluate "true" "false" condition state in
    two-contains "true" "false" b r (ap ok (sym e) ∙ h)
route-contains evaluate id (while condition n) state req label c r h =
    let (b, e) = condition-label evaluate "body" "exit" condition state in
    two-contains "body" "exit" b r (ap ok (sym e) ∙ h)
route-contains evaluate id user_approval state req label c r h =
    two-contains "approved" "rejected" _ r h
route-contains evaluate id (decision mode options) state req label c r h =
    decision-contains id mode options state req label r h
route-contains evaluate id _ state req label c r h = cc
