-- ===== src/Executions/Emails.antt =====
-- Decisions by emailed link: src/api/approval_email.py, with verify_approval_email_token of
-- src/security/jwt.py. The link is read and decided in two requests; each checks the token and the row that
-- it reads (`seen`), and the second writes to `store` afterwards.
pub mod Confirming
pub mod Exclusive
pub mod Later
mod Tests
use composer.Base.{
  String, Bool, true, false, not, ◌&&◌, ◌||◌, Option, none, some, List, [], ◌∷◌, ◌==◌,
  if◌then◌else◌, Result, ok, err,
}
use composer.Value.{Value, text, Fields, field_at, is_text}
use composer.Executions.Store.{is_waiting, Row, Approver, Store, find_unique}
use composer.Executions.Handlers.{
  HttpError, conflict, too_many_requests, uncaught, Answer, resume_row,
}

-- `jwt.decode`, `none` where the signature or the expiry fails, and pydantic's reading of an int.
pub record TokenLibrary : Type 0 where
  pub decode : String → Option Fields
  pub reads_int : Option Value → Bool

-- The claims of ApprovalEmailTokenPayload that the handlers read.
pub record ApprovalEmailClaims : Type 0 where
  pub sub : String
  pub node_id : String
  pub decision : String
  pub approver_email : String
  pub pending_since : String

unfoldable pub text_claims :
    Option Value
    → Option Value
    → Option Value
    → Option Value
    → Option Value
    → Option ApprovalEmailClaims
text_claims (some (text sub)) (some (text node)) (some (text decision)) (some (text email))
      (some (text since)) =
    some (record {
      sub = sub;
      node_id = node;
      decision = decision;
      approver_email = email;
      pending_since = since;
    })
text_claims _ _ _ _ _ = none

unfoldable pub read_claims : TokenLibrary → Fields → Option ApprovalEmailClaims
unfolding text_claims field_at
read_claims library raw =
    if not (is_text (field_at raw "type") "approval_email")
      || not (library.reads_int (field_at raw "iat"))
      || not (library.reads_int (field_at raw "exp"))
    then none
    else text_claims (field_at raw "sub") (field_at raw "node_id") (field_at raw "decision")
        (field_at raw "approver_email") (field_at raw "pending_since")

unfoldable pub verify_approval_email_token : TokenLibrary → String → Option ApprovalEmailClaims
unfolding read_claims
verify_approval_email_token library token = elim (library.decode token) [
  | none ↦ none
  | some raw ↦ read_claims library raw
]

-- The token is for the pause that the row is in.
abbrev pub is_for_pause : ApprovalEmailClaims → Row → Bool
is_for_pause claims row =
    is_waiting row.status
    && is_text (field_at row.variables "_pending_approval_node") claims.node_id
    && is_text (field_at row.variables "_pending_approval_since") claims.pending_since

unfoldable pub validate_row : ApprovalEmailClaims → Option Row → Option (ApprovalEmailClaims × Row)
unfolding field_at
validate_row claims none = none
validate_row claims (some row) = if is_for_pause claims row then some (claims, row) else none

unfoldable pub validate_claims :
    Option ApprovalEmailClaims → List Row → Option (ApprovalEmailClaims × Row)
unfolding validate_row
validate_claims none seen = none
validate_claims (some claims) seen = validate_row claims (find_unique seen claims.sub)

unfoldable pub validate_token_and_execution :
    TokenLibrary → String → List Row → Option (ApprovalEmailClaims × Row)
unfolding validate_claims verify_approval_email_token
validate_token_and_execution library token seen =
    validate_claims (verify_approval_email_token library token) seen

-- The page that a request is redirected to.
pub data Redirect : Type 0 where
  result_page : String → Redirect
  confirm_page : String → String → Redirect

abbrev pub EmailAnswer : Type 0
EmailAnswer = Result HttpError Redirect × Store

unfoldable pub resolve_validated :
    String → Option (ApprovalEmailClaims × Row) → Result HttpError Redirect
resolve_validated token none = ok (result_page "invalid")
resolve_validated token (some (claims, row)) = ok (confirm_page token claims.decision)

unfoldable pub resolve_approval_email :
    TokenLibrary → String → Bool → List Row → Result HttpError Redirect
unfolding resolve_validated validate_token_and_execution
resolve_approval_email library token limited seen =
    if limited
    then err too_many_requests
    else resolve_validated token (validate_token_and_execution library token seen)

abbrev pub email_approver : ApprovalEmailClaims → Approver
email_approver claims = record {
  approver_user_id = none;
  approver_email = some claims.approver_email;
  via_email_link = true;
}

-- An update that changed no row is redirected like a token that is no good.
unfoldable pub redirect_decided : String → Answer → EmailAnswer
redirect_decided decision (ok u, store) = (ok (result_page decision), store)
redirect_decided decision (err conflict, store) = (ok (result_page "invalid"), store)
redirect_decided decision (err (uncaught why), store) = (err (uncaught why), store)
redirect_decided decision (err e, store) = (err e, store)

unfoldable pub confirm_validated : Bool → Option (ApprovalEmailClaims × Row) → Store → EmailAnswer
unfolding redirect_decided
confirm_validated enqueued none store = (ok (result_page "invalid"), store)
confirm_validated enqueued (some (claims, row)) store = redirect_decided claims.decision (
    resume_row (email_approver claims) claims.sub claims.decision enqueued row.variables
      (text claims.node_id) store)

-- `limited` is the rate limiter's answer, `enqueued` whether the Cloud Tasks call succeeds.
unfoldable pub confirm_approval_email :
    TokenLibrary → String → Bool → Bool → List Row → Store → EmailAnswer
unfolding confirm_validated validate_token_and_execution
confirm_approval_email library token limited enqueued seen store =
    if limited
    then (err too_many_requests, store)
    else confirm_validated enqueued (validate_token_and_execution library token seen) store
