-- ===== src/Executors/Approval.antt =====
-- `UserApprovalExecutor.arun` (src/executors/user_approval.py). `decision` is what LangGraph's `interrupt`
-- returns when the run is resumed.
use composer.Base.{
  String, ◌≡◌, refl, true, ◌||◌, none, some, [], ◌∷◌, ◌==◌, eq_iff, if◌then◌else◌, Result, ok, err,
  arith, Bool-cases, inl, inr, ap, ◌∙◌,
}
use Prim.Native.String as Text
use composer.Value.{text, obj, Fields, empty, field, field_at, merge_fields}
use composer.State.{WorkflowStateDict, Update, apply_update}
use composer.State.Laws.{field_at-merge_fields}
use composer.Graph.Routers.{route_user_approval}

pub data ApprovalError : Type 0 where
  invalid_decision : String → ApprovalError

unfoldable pub approval_key : String → String
approval_key id = Text.◌++◌ "_approval_" id

unfoldable pub approval_update : String → String → String → Update
unfolding approval_key
approval_update id prompt decision = record {
  variables = some (field (approval_key id) (text decision) empty);
  chat_history = none;
  current_node_id = some id;
  node_results = some (
      (
        id,
        record {
          node_id = id;
          status = "completed";
          input = obj (field "prompt" (text prompt) empty);
          output = some (obj (field "decision" (text decision) empty));
        },
      )
      ∷ []);
  pending_auth = none;
  loop_results = none;
  final_outputs = none;
}

-- `prompt` is the message with the variables substituted.
unfoldable pub approval_arun : String → String → String → Result ApprovalError Update
unfolding approval_update
approval_arun id prompt decision =
    if decision == "approved" || decision == "rejected"
    then ok (approval_update id prompt decision)
    else err (invalid_decision decision)

approval_arun-eq-ok :
    (id prompt decision : String) (update : Update)
    → approval_arun id prompt decision ≡ ok update
    → ((decision == "approved" || decision == "rejected") ≡ true)
      × (update ≡ approval_update id prompt decision)
unfolding approval_arun
approval_arun-eq-ok id prompt decision update done =
    elim (Bool-cases (decision == "approved" || decision == "rejected")) [
      | inl taken ↦ let e = rw taken at done in (taken, cc e)
      | inr other ↦ let e = rw other at done in cc e
    ]

written_decision :
    (fields : Fields) (key decision : String)
    → field_at (merge_fields fields (field key (text decision) empty)) key ≡ some (text decision)
written_decision fields key decision =
    field_at-merge_fields fields (field key (text decision) empty) key
    ∙ ground (arith, (eq_iff key key).1 refl)

route-written :
    (id prompt decision : String) (state : WorkflowStateDict)
    → route_user_approval id (apply_update state (approval_update id prompt decision))
      ≡ (if decision == "approved" then "approved" else "rejected")
unfolding route_user_approval apply_update approval_update approval_key
route-written id prompt decision state =
    rw (written_decision state.variables (Text.◌++◌ "_approval_" id) decision) refl

-- A run is resumed with a decision that the executor takes. From the state after its update the router of
-- the node takes the branch of that decision, whatever decisions the state had before.
pub approval_arun-route :
    (id prompt decision : String) (state : WorkflowStateDict) (update : Update)
    → approval_arun id prompt decision ≡ ok update
    → route_user_approval id (apply_update state update) ≡ decision
approval_arun-route id prompt decision state update done =
    let (taken, is) = approval_arun-eq-ok id prompt decision update done in
    ap (λ u. route_user_approval id (apply_update state u)) is
    ∙ route-written id prompt decision state
    ∙ ground (arith, taken, eq_iff decision "approved", eq_iff decision "rejected")
