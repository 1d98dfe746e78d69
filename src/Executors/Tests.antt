-- ===== src/Executors/Tests.antt =====
-- Runs of single nodes.
use composer.Base.{◌≡◌, refl, true, false, none, [], ◌∷◌, ok, err}
use composer.Value.{text, obj, empty, field, field_at}
use composer.Workflow.{StartInputVariable}
use composer.State.{WorkflowStateDict, Update, initial_state, apply_update}
use composer.Graph.Routers.{route_user_approval}
use composer.Executors.Start.{
  Python, reserved_keys, start_arun, start_parsed, start_update, parse_input, provided_by,
}
use composer.Executors.Start.Reserved.{start_arun-reserved}
use composer.Executors.Approval.{approval_arun, approval_update, approval_arun-route}
use composer.Executors.Simple.{end_arun}
use composer.Executors.Simple.Ends.{end_arun-commutes}

-- No text is JSON, and none is a number.
abbrev no_json : Python
no_json = record { loads = λ s. none; float_of_text = λ s. none; strip_lower = λ s. s }

abbrev city : StartInputVariable
city = record { name = "city"; kind = "text"; required = true; default_value = text "Rome" }

abbrev input_state : WorkflowStateDict
input_state = record (initial_state (text "")) {
  variables =
      field "_approval_review" (text "rejected")
        (field "input" (obj (field "country" (text "it") empty)) empty);
}

abbrev start_written : Update
start_written =
    start_update "start" (obj (field "country" (text "it") empty))
      (obj (field "country" (text "it") empty)) (field "city" (text "Rome") empty)

start_done : start_arun no_json false "start" (city ∷ []) input_state ≡ ok start_written
unfolding start_arun start_parsed start_update parse_input provided_by
start_done = refl

start_arun-reserved_example :
    field_at (apply_update input_state start_written).variables "_approval_review"
    ≡ field_at input_state.variables "_approval_review"
start_arun-reserved_example =
    start_arun-reserved no_json false "start" "_approval_review" (city ∷ []) input_state
      start_written start_done refl refl

start_refused :
    start_arun no_json false "start" [] (record input_state {
      variables = field "input" (obj (field "_approval_review" (text "approved") empty)) empty;
    })
    ≡ err (reserved_keys ("_approval_review" ∷ []))
unfolding start_arun start_parsed parse_input provided_by
start_refused = refl

approval_done :
    approval_arun "review" "ok?" "approved" ≡ ok (approval_update "review" "ok?" "approved")
unfolding approval_arun
approval_done = refl

approved_route :
    route_user_approval "review"
      (apply_update input_state (approval_update "review" "ok?" "approved"))
    ≡ "approved"
approved_route =
    approval_arun-route "review" "ok?" "approved" input_state
      (approval_update "review" "ok?" "approved") approval_done

ends_either_way :
    field_at
      (apply_update
        (apply_update input_state (end_arun "a" input_state))
        (end_arun "b" input_state)).final_outputs
      "a"
    ≡ field_at
        (apply_update
          (apply_update input_state (end_arun "b" input_state))
          (end_arun "a" input_state)).final_outputs
        "a"
ends_either_way = end_arun-commutes "a" "b" "a" input_state input_state input_state refl
