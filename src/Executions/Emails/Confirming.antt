-- ===== src/Executions/Emails/Confirming.antt =====
-- The confirmed link: the whole record of a decision, or nothing.
use composer.Base.{
  String, ◌≡◌, refl, Bool, true, false, Option, none, some, Option-cases, List, [], ◌∷◌, ◌++◌, ◌⊎◌,
  Distinct, Bool-cases, inl, inr, ok, err, sym, subst, arith, eq_iff, if◌then◌else◌,
}
use composer.Value.{Value, null, bool, int, text, arr, obj, field_at, is_text}
use composer.Executions.Store.{Row, Store, is_waiting, find_unique}
use composer.Executions.Store.Queries.{row_ids}
use composer.Executions.Handlers.{too_many_requests, uncaught, Answer, approval_of, resume_row}
use composer.Executions.Handlers.Recording.{stamped, resume_task, Recorded, resume_row-outcome}
use composer.Executions.Emails.{
  TokenLibrary, ApprovalEmailClaims, verify_approval_email_token, is_for_pause, validate_row,
  validate_claims, validate_token_and_execution, result_page, EmailAnswer, email_approver,
  redirect_decided, confirm_validated, confirm_approval_email,
}

pub text_of_is_text :
    (value : Option Value) (s : String) → is_text value s ≡ true → value ≡ some (text s)
text_of_is_text none s h = cc
text_of_is_text (some null) s h = cc
text_of_is_text (some (bool b)) s h = cc
text_of_is_text (some (int n)) s h = cc
text_of_is_text (some (text t)) s h = cc ((eq_iff t s).0 h)
text_of_is_text (some (arr xs)) s h = cc
text_of_is_text (some (obj fs)) s h = cc

pub is_text_of_text :
    (value : Option Value) (s : String) → value ≡ some (text s) → is_text value s ≡ true
unfolding is_text
is_text_of_text value s e = rw e ((eq_iff s s).1 refl)

-- The row waits, at the node and since the time that the token names.
abbrev pub ForPause : ApprovalEmailClaims → Row → Type 0
ForPause claims row =
    (is_waiting row.status ≡ true)
    × (field_at row.variables "_pending_approval_node" ≡ some (text claims.node_id))
    × (field_at row.variables "_pending_approval_since" ≡ some (text claims.pending_since))

-- Nothing is written, and the answer is no decision.
abbrev pub TurnedAway : Store → EmailAnswer → Type 0
TurnedAway store answer =
    (answer.1 ≡ store)
    × ((answer.0 ≡ ok (result_page "invalid")) ⊎ (answer.0 ≡ err too_many_requests))

-- The decision of the token is recorded whole, over the variables of the row that was read.
abbrev pub EmailRecorded : ApprovalEmailClaims → Bool → Row → Store → EmailAnswer → Type 0
EmailRecorded claims enqueued read store answer =
    (r : Row) × (find_unique store.rows claims.sub ≡ some r)
    × (is_waiting r.status ≡ true)
    × (find_unique answer.1.rows claims.sub ≡ some (stamped r claims.decision read.variables))
    × (row_ids answer.1.rows ≡ row_ids store.rows)
    × (answer.1.approvals
        ≡ store.approvals
          ++ approval_of (email_approver claims) claims.sub claims.decision (text claims.node_id)
            ∷ [])
    × (answer.1.tasks
        ≡ (if enqueued then store.tasks ++ resume_task claims.sub ∷ [] else store.tasks))
    × (answer.0 ≡ (
        if enqueued then ok (result_page claims.decision) else err (uncaught "enqueue_execution")))

-- A decision by a token that verifies, read in the pause that it is for.
abbrev pub Confirmed : TokenLibrary → String → Bool → List Row → Store → EmailAnswer → Type 0
Confirmed library token enqueued seen store answer =
    (claims : ApprovalEmailClaims) × (read : Row) × (verify_approval_email_token library token
      ≡ some claims)
    × (find_unique seen claims.sub ≡ some read)
    × ForPause claims read
    × EmailRecorded claims enqueued read store answer

redirect_decided-result :
    (decision : String) (enqueued : Bool) (answer : Answer)
    → answer.0 ≡ (if enqueued then ok tt else err (uncaught "enqueue_execution"))
    → redirect_decided decision answer ≡ (
      if enqueued then ok (result_page decision) else err (uncaught "enqueue_execution"),
      answer.1,
    )
unfolding redirect_decided
redirect_decided-result decision true (ok u, store) e = refl
redirect_decided-result decision true (err why, store) e = cc
redirect_decided-result decision false (ok u, store) e = cc
redirect_decided-result decision false (err why, store) e =
    rw (let same : why ≡ uncaught "enqueue_execution" = cc e in same) refl

turned-none :
    (enqueued : Bool) (store : Store) → TurnedAway store (confirm_validated enqueued none store)
unfolding confirm_validated
turned-none enqueued store = (refl, inl refl)

pub confirm_validated-EmailRecorded :
    (claims : ApprovalEmailClaims) (enqueued : Bool) (read : Row) (store : Store)
    → Recorded
        (email_approver claims)
        claims.sub
        claims.decision
        enqueued
        read.variables
        (text claims.node_id)
        store
        (resume_row
          (email_approver claims)
          claims.sub
          claims.decision
          enqueued
          read.variables
          (text claims.node_id)
          store)
    → EmailRecorded claims enqueued read store
        (confirm_validated enqueued (some (claims, read)) store)
unfolding confirm_validated
confirm_validated-EmailRecorded claims enqueued read store
      (r, found, waiting, now, ids, approved, queue, answer) =
    subst (EmailRecorded claims enqueued read store)
      (sym (redirect_decided-result claims.decision enqueued _ answer))
      (r, found, waiting, now, ids, approved, queue, refl)

confirm_recorded :
    (claims : ApprovalEmailClaims) (enqueued : Bool) (read : Row) (store : Store)
    → Distinct (row_ids store.rows)
    → TurnedAway store (confirm_validated enqueued (some (claims, read)) store)
      ⊎ EmailRecorded claims enqueued read store
          (confirm_validated enqueued (some (claims, read)) store)
unfolding confirm_validated redirect_decided
confirm_recorded claims enqueued read store d =
    elim (resume_row-outcome (email_approver claims) claims.sub claims.decision enqueued
      read.variables (text claims.node_id) store d) [
        | inl lost ↦ inl (
            subst (λ a. TurnedAway store (redirect_decided claims.decision a)) (sym lost)
              (refl, inl refl))
        | inr recorded ↦ inr (confirm_validated-EmailRecorded claims enqueued read store recorded)
      ]

validate_row-cases :
    (claims : ApprovalEmailClaims) (row : Option Row)
    → (validate_row claims row ≡ none)
      ⊎ ((read : Row) × (row ≡ some read)
          × ForPause claims read
          × (validate_row claims row ≡ some (claims, read)))
unfolding validate_row
validate_row-cases claims none = inl refl
validate_row-cases claims (some read) = elim (Bool-cases (is_for_pause claims read)) [
  | inr other ↦ inl (rw other refl)
  | inl matches ↦ inr (
    read,
    refl,
    (
      ground arith,
      text_of_is_text (field_at read.variables "_pending_approval_node") claims.node_id
          (ground arith),
      text_of_is_text (field_at read.variables "_pending_approval_since") claims.pending_since
          (ground arith),
    ),
    rw matches refl,
  )
]

validate-cases :
    (library : TokenLibrary) (token : String) (seen : List Row)
    → (validate_token_and_execution library token seen ≡ none)
      ⊎ ((claims : ApprovalEmailClaims) × (read : Row) × (verify_approval_email_token library token
            ≡ some claims)
          × (find_unique seen claims.sub ≡ some read)
          × ForPause claims read
          × (validate_token_and_execution library token seen ≡ some (claims, read)))
unfolding validate_token_and_execution validate_claims
validate-cases library token seen =
    elim (Option-cases (verify_approval_email_token library token)) [
      | inl bad ↦ inl (rw bad refl)
      | inr (claims, good) ↦ elim (validate_row-cases claims (find_unique seen claims.sub)) [
        | inl other ↦ inl (rw good other)
        | inr (read, found, matches, passed) ↦
            inr (claims, read, good, found, matches, rw good passed)
      ]
    ]

-- A confirmed link changes nothing and is answered by the page for invalid links or by 429, or records the
-- decision whole: the token verifies, the row that the request read was waiting in the pause that the token
-- is for, the row is waiting at the moment of the write, and afterwards it is running without a lease and
-- with the decision stamped over the variables that were read, one approval of the address is added, and
-- one resume task if Cloud Tasks takes it; if it does not, the request fails.
-- It is taken that its writes to the database go through and that no other request writes between its
-- statements.
pub confirm_approval_email_correct :
    (library : TokenLibrary) (token : String) (limited enqueued : Bool) (seen : List Row)
    (store : Store)
    → Distinct (row_ids store.rows)
    → TurnedAway store (confirm_approval_email library token limited enqueued seen store)
      ⊎ Confirmed library token enqueued seen store
          (confirm_approval_email library token limited enqueued seen store)
unfolding confirm_approval_email
confirm_approval_email_correct library token true enqueued seen store d = inl (refl, inr refl)
confirm_approval_email_correct library token false enqueued seen store d =
    let either = λ (v : Option (ApprovalEmailClaims × Row)).
      TurnedAway store (confirm_validated enqueued v store)
      ⊎ Confirmed library token enqueued seen store (confirm_validated enqueued v store) in
    elim (validate-cases library token seen) [
      | inl bad ↦ subst either (sym bad) (inl (turned-none enqueued store))
      | inr (claims, read, good, found, matches, passed) ↦
          subst either (sym passed) (elim (confirm_recorded claims enqueued read store d) [
            | inl turned ↦ inl turned
            | inr recorded ↦ inr (claims, read, good, found, matches, recorded)
          ])
    ]
