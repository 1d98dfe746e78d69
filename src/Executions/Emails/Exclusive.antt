-- ===== src/Executions/Emails/Exclusive.antt =====
-- One decision for each pause: what a won transition leaves for the requests that come after it.
use composer.Base.{
  ℕ, String, ◌≡◌, refl, ◌≢◌, Bool, true, false, some, List, ◌&&◌, ◌==◌, Option-cases, Bool-cases,
  inl, inr, ok, err, eqb, eqb_iff, ap, subst, ◌∙◌,
}
use composer.Executions.Store.{Status, Row, Store, is_waiting, find_unique, update_many}
use composer.Executions.Store.Queries.{update_many-won}
use composer.Executions.Handlers.{
  Caller, mark_resumed, settle, conflict, win_decision, resume_execution,
}
use composer.Executions.Handlers.Recording.{Refused, mark_resumed-KeepsId}
use composer.Executions.Handlers.Resuming.{resume_execution_correct}
use composer.Executions.Emails.{
  TokenLibrary, ApprovalEmailClaims, verify_approval_email_token, confirm_approval_email,
}
use composer.Executions.Emails.Confirming.{TurnedAway, confirm_approval_email_correct}
use composer.Executions.Lifecycle.{
  guarded, win, Life, begin, live, other_run, run_end, Move, run_again, cancel_it, fail_it,
}
use composer.Executions.Lifecycle.Keys.{IsWellFormed}
use composer.Executions.Lifecycle.Effects.{IsKeyed-Distinct}
use composer.Executions.Lifecycle.Moves.{
  Statement-refines, Statement-IsWellFormed, Step-IsWellFormed,
}
use composer.Executions.Lifecycle.Final.{run_end_other}

-- The execution is there, in a table with distinct keys, and it does not wait for a decision.
abbrev IsSettled : String → Store → Type 0
IsSettled id store =
    IsWellFormed store
    × ((r : Row) × (find_unique store.rows id ≡ some r) × (is_waiting r.status ≡ false))

-- The update changed one row exactly if the statement was won.
settle-won : (n : ℕ) (rows : List Row) (store : Store) → (settle (n, rows) store).0 ≡ ok tt → n ≡ 1
unfolding settle
settle-won n rows store won = elim (Bool-cases (eqb n 1)) [
  | inl one ↦ (eqb_iff n 1).0 one
  | inr other ↦
      let lost : (settle (n, rows) store).0 ≡ err conflict = rw other refl in cc (lost, won)
]

win_decision-IsWellFormed :
    (id : String) (store : Store) → IsWellFormed store → IsWellFormed (win_decision id store).1
win_decision-IsWellFormed id store h = Statement-IsWellFormed (guarded (win id)) h

win_decision-IsSettled :
    (id : String) (store : Store)
    → IsWellFormed store
    → (win_decision id store).0 ≡ ok tt
    → IsSettled id (win_decision id store).1
unfolding win_decision settle mark_resumed
win_decision-IsSettled id store h won =
    let (r, found, waiting, left) =
      update_many-won id (λ x. is_waiting x.status) mark_resumed store.rows
        (IsKeyed-Distinct store.rows h) mark_resumed-KeepsId
        (settle-won (update_many (λ x. x.id == id && is_waiting x.status) mark_resumed store.rows).0
          (update_many (λ x. x.id == id && is_waiting x.status) mark_resumed store.rows).1 store
          won) in
    (win_decision-IsWellFormed id store h, (mark_resumed r, left, refl))

-- No move of the abstract machine leads to a pause.
not_to_waiting : {a b : Status} → Move a b → is_waiting b ≡ false
not_to_waiting (run_again h e) = ap is_waiting e
not_to_waiting (cancel_it h e) = ap is_waiting e
not_to_waiting (fail_it h e) = ap is_waiting e

Life-IsSettled : {id : String} {s t : Store} → Life id s t → IsSettled id s → IsSettled id t
Life-IsSettled begin settled = settled
Life-IsSettled {id} {s} {t} (live before st there) settled =
    let (h, (q, found, calm)) = Life-IsSettled before settled in
    elim (Option-cases (find_unique t.rows id)) [
      | inl gone ↦ absurd (there gone)
      | inr (r, found') ↦ (
        Statement-IsWellFormed st h,
        (
          r,
          found',
          elim (Statement-refines id q r h st found found') [
            | inl kept ↦ ap (λ (x : Row). is_waiting x.status) kept ∙ calm
            | inr (inl (decision, variables, restamped)) ↦
                ap (λ (x : Row). is_waiting x.status) restamped ∙ calm
            | inr (inr moved) ↦ not_to_waiting moved
          ],
        ),
      )
    ]
Life-IsSettled {id} (other_run {t} other kind now started ended seen invoked before apart) settled =
    let (h, (q, found, calm)) = Life-IsSettled before settled in
    (
      Step-IsWellFormed (run_end other kind now started ended seen invoked) h,
      (q, run_end_other id other kind now started ended seen invoked t apart ∙ found, calm),
    )

settled_not_waiting :
    (id : String) (store : Store) (r : Row)
    → IsSettled id store
    → find_unique store.rows id ≡ some r
    → is_waiting r.status ≢ true
settled_not_waiting id store r (h, (q, found, calm)) found' waiting =
    let same : q ≡ r = cc (found, found') in
    let still : is_waiting r.status ≡ false =
      subst (λ (x : Row). is_waiting x.status ≡ false) same calm in
    cc (still, waiting)

confirm_settled :
    (library : TokenLibrary) (token : String) (claims : ApprovalEmailClaims)
    (limited enqueued : Bool) (seen : List Row) (store : Store)
    → IsSettled claims.sub store
    → verify_approval_email_token library token ≡ some claims
    → TurnedAway store (confirm_approval_email library token limited enqueued seen store)
confirm_settled library token claims limited enqueued seen store settled good =
    elim (confirm_approval_email_correct library token limited enqueued seen store
      (IsKeyed-Distinct store.rows settled.0)) [
        | inl turned ↦ turned
        | inr
              (
                c,
                read,
                verified,
                there,
                pause,
                (r', found, waiting, left', ids, approved, queue, answer),
              ) ↦
            let same : c ≡ claims = cc (verified, good) in
            absurd (
              settled_not_waiting claims.sub store r' settled
                (subst (λ (k : ApprovalEmailClaims). find_unique store.rows k.sub ≡ some r') same
                  found)
                waiting)
      ]

resume_settled :
    (caller : Caller) (id decision : String) (limited enqueued : Bool) (seen : List Row)
    (store : Store)
    → IsSettled id store
    → Refused store (resume_execution caller id decision limited enqueued seen store)
resume_settled caller id decision limited enqueued seen store settled =
    elim (resume_execution_correct caller id decision limited enqueued seen store
      (IsKeyed-Distinct store.rows settled.0)) [
        | inl refused ↦ refused
        | inr
              (
                s,
                read,
                may,
                (node, there, real, (r', found, waiting, left', ids, approved, queue, answer)),
              ) ↦
            absurd (settled_not_waiting id store r' settled found waiting)
      ]

-- In a table with distinct keys, once the transition of a decision is won, by a confirmed link or by a
-- resume request, and for as long as no run of the execution ends and it is not deleted: after every
-- sequence of operations, the other statements of the decision among them, each link for the execution
-- whose token verifies is turned away with nothing written, and so is each resume request, whatever rows
-- these had read. A sweep in the sequence is taken with no other request between its reading and its
-- writes.
pub decided_once :
    {later : Store} (library : TokenLibrary) (token : String) (claims : ApprovalEmailClaims)
    (caller : Caller) (decision : String) (limited enqueued : Bool) (seen : List Row)
    (store : Store)
    → IsWellFormed store
    → (win_decision claims.sub store).0 ≡ ok tt
    → Life claims.sub (win_decision claims.sub store).1 later
    → verify_approval_email_token library token ≡ some claims
    → TurnedAway later (confirm_approval_email library token limited enqueued seen later)
      × Refused later (resume_execution caller claims.sub decision limited enqueued seen later)
decided_once {later} library token claims caller decision limited enqueued seen store h won life
      good =
    let settled = Life-IsSettled life (win_decision-IsSettled claims.sub store h won) in
    (
      confirm_settled library token claims limited enqueued seen later settled good,
      resume_settled caller claims.sub decision limited enqueued seen later settled,
    )
