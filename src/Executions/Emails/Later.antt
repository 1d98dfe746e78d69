-- ===== src/Executions/Emails/Later.antt =====
-- A link and a later pause: the write of a confirmed link tests the status alone.
use composer.Base.{
  String, ◌≡◌, refl, ◌==◌, ◌&&◌, Bool, true, false, some, List, Distinct, sym, subst, ◌∙◌, arith,
}
use composer.Value.{text}
use composer.Executions.Store.{Row, Store, is_waiting, find_unique, update_many}
use composer.Executions.Store.Queries.{row_ids, count-update_many}
use composer.Executions.Handlers.{mark_resumed}
use composer.Executions.Handlers.Recording.{resume_row-Recorded}
use composer.Executions.Emails.{
  TokenLibrary, ApprovalEmailClaims, verify_approval_email_token, is_for_pause, validate_row,
  validate_claims, validate_token_and_execution, email_approver, confirm_validated,
  confirm_approval_email,
}
use composer.Executions.Emails.Confirming.{
  ForPause, EmailRecorded, confirm_validated-EmailRecorded, is_text_of_text,
}

validate-passed :
    (library : TokenLibrary) (token : String) (claims : ApprovalEmailClaims) (seen : List Row)
    (read : Row)
    → verify_approval_email_token library token ≡ some claims
    → find_unique seen claims.sub ≡ some read
    → ForPause claims read
    → validate_token_and_execution library token seen ≡ some (claims, read)
unfolding validate_token_and_execution validate_claims validate_row
validate-passed library token claims seen read good found (waiting, node, since) =
    let passed : is_for_pause claims read ≡ true =
      ground (arith, is_text_of_text _ _ node, is_text_of_text _ _ since) in
    rw (good, found, passed)

-- A confirmed link for a pause that the request read decides whatever pause the row is in when it is
-- written to: a row that waits, at another node or since another time than the token names, is resumed
-- with the decision of the token, and its variables, those of the later pause, are overwritten by the
-- ones that were read.
pub confirm_approval_email_later :
    (library : TokenLibrary) (token : String) (claims : ApprovalEmailClaims) (enqueued : Bool)
    (seen : List Row) (store : Store) (read r : Row)
    → Distinct (row_ids store.rows)
    → verify_approval_email_token library token ≡ some claims
    → find_unique seen claims.sub ≡ some read
    → ForPause claims read
    → find_unique store.rows claims.sub ≡ some r
    → is_waiting r.status ≡ true
    → EmailRecorded claims enqueued read store
        (confirm_approval_email library token false enqueued seen store)
unfolding confirm_approval_email
confirm_approval_email_later library token claims enqueued seen store read r d good there pause
      found waiting =
    let counted : (update_many (λ x. x.id == claims.sub && is_waiting x.status) mark_resumed
          store.rows).0
        ≡ 1 =
      count-update_many claims.sub (λ x. is_waiting x.status) mark_resumed store.rows d
      ∙ rw (found, waiting) refl in
    subst (λ v. EmailRecorded claims enqueued read store (confirm_validated enqueued v store))
      (sym (validate-passed library token claims seen read good there pause))
      (confirm_validated-EmailRecorded claims enqueued read store (
        resume_row-Recorded (email_approver claims) claims.sub claims.decision enqueued
          read.variables (text claims.node_id) store d counted))
