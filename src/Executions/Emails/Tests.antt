-- ===== src/Executions/Emails/Tests.antt =====
-- Links on a small table, with a library that knows two tokens.
use composer.Base.{
  String, ◌≡◌, refl, ◌==◌, Bool, true, false, if◌then◌else◌, Option, none, some, [], ◌∷◌, ◌⊎◌, ◌≢◌,
  ok,
}
use composer.Value.{Value, pos, int, text, Fields, empty, field, field_at}
use composer.Executions.Store.{waiting_approval, Row, Store, find_unique, update_many, resume}
use composer.Executions.Handlers.{resume_row, resume_execution, win_decision, settle, mark_resumed}
use composer.Executions.Worker.{claim}
use composer.Executions.Lifecycle.{guarded, deliver, begin, live}
use composer.Executions.Handlers.Recording.{Refused}
use composer.Executions.Emails.{
  TokenLibrary, ApprovalEmailClaims, EmailAnswer, verify_approval_email_token, read_claims,
  text_claims, confirm_approval_email,
}
use composer.Executions.Emails.Confirming.{
  ForPause, TurnedAway, Confirmed, EmailRecorded, confirm_approval_email_correct,
}
use composer.Executions.Emails.Exclusive.{decided_once}
use composer.Executions.Emails.Later.{confirm_approval_email_later}
use composer.Executions.Samples.{root, row_of, store_of, paused_row, single-Distinct, seen_leased}

abbrev payload : String → Fields
payload decision = field "sub" (text "e1") (
    field "node_id" (text "review") (
      field "decision" (text decision) (
        field "approver_email" (text "a@x") (
          field "pending_since" (text "0") (
            field "type" (text "approval_email")
              (field "iat" (int (pos 0)) (field "exp" (int (pos 9)) empty)))))))

abbrev an_int : Option Value → Bool
an_int (some (int n)) = true
an_int _ = false

abbrev library : TokenLibrary
library = record {
  decode = λ token.
      if token == "yes"
      then some (payload "approved")
      else if token == "no"
      then some (payload "rejected")
      else none;
  reads_int = an_int;
}

abbrev claims_of : String → ApprovalEmailClaims
claims_of decision = record {
  sub = "e1";
  node_id = "review";
  decision = decision;
  approver_email = "a@x";
  pending_since = "0";
}

verified_yes : verify_approval_email_token library "yes" ≡ some (claims_of "approved")
unfolding verify_approval_email_token read_claims text_claims field_at
verified_yes = refl

verified_no : verify_approval_email_token library "no" ≡ some (claims_of "rejected")
unfolding verify_approval_email_token read_claims text_claims field_at
verified_no = refl

abbrev confirmed : EmailAnswer
confirmed =
    confirm_approval_email library "yes" false true (paused_row ∷ []) (store_of (paused_row ∷ []))

confirm_writes : confirmed.1.tasks ≡ record { execution_id = "e1"; kind = resume } ∷ []
unfolding confirm_approval_email find_unique update_many field_at resume_row
confirm_writes = refl

confirm_approval_email_correct_example :
    TurnedAway (store_of (paused_row ∷ [])) confirmed
    ⊎ Confirmed library "yes" true (paused_row ∷ []) (store_of (paused_row ∷ [])) confirmed
confirm_approval_email_correct_example =
    confirm_approval_email_correct library "yes" false true (paused_row ∷ [])
      (store_of (paused_row ∷ [])) (single-Distinct paused_row)

-- The first link has won its transition, and has not yet written its decision.
abbrev won_store : Store
won_store = (win_decision "e1" (store_of (paused_row ∷ []))).1

won : (win_decision "e1" (store_of (paused_row ∷ []))).0 ≡ ok tt
unfolding win_decision settle update_many
won = refl

abbrev restarted : Store
restarted = (claim true "e1" "w2" 7 7 60 won_store).1

restarted_there : find_unique restarted.rows "e1" ≢ none
unfolding win_decision settle mark_resumed claim find_unique update_many
restarted_there e = cc e

-- A worker claims the execution before the decision is written.
decided_once_example :
    TurnedAway restarted
      (confirm_approval_email library "no" false true (paused_row ∷ []) restarted)
    × Refused restarted
        (resume_execution root "e1" "rejected" false true (paused_row ∷ []) restarted)
decided_once_example =
    decided_once library "no" (claims_of "rejected") root "rejected" false true (paused_row ∷ [])
      (store_of (paused_row ∷ [])) (refl, tt) won
      (live begin (guarded (deliver true "e1" "w2" 7 7 60)) restarted_there) verified_no

-- The same row, decided in between and waiting again at another node.
abbrev paused_again : Row
paused_again = record (row_of "e1" waiting_approval none 2) {
  variables =
      field "_pending_approval_node" (text "sign_off")
        (field "_pending_approval_since" (text "7") empty);
}

paused_row-ForPause : ForPause (claims_of "approved") paused_row
unfolding field_at
paused_row-ForPause = (refl, refl, refl)

confirm_approval_email_later_example :
    EmailRecorded (claims_of "approved") true paused_row (store_of (paused_again ∷ [])) (
      confirm_approval_email library "yes" false true
        (paused_row ∷ [])
        (store_of (paused_again ∷ [])))
confirm_approval_email_later_example =
    confirm_approval_email_later library "yes" (claims_of "approved") true (paused_row ∷ [])
      (store_of (paused_again ∷ [])) paused_row paused_again (single-Distinct paused_again)
      verified_yes (seen_leased paused_row) paused_row-ForPause (seen_leased paused_again) refl
