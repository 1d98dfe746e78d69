-- ===== src/Executions/Lifecycle/Effects/Background.antt =====
-- The effects of claims, of crashes and of the sweeps.
use composer.Base.{
  ℕ, String, refl, Bool, true, false, ◌&&◌, List, Distinct, ◌==◌, arith, Bool-cases, Option-cases,
  inl, inr, sym, subst, ◌+◌,
}
use composer.Executions.Store.{Row, Store, TaskKind, run, resume, is_running, find_unique}
use composer.Executions.Store.Queries.{row_ids}
use composer.Executions.Worker.{
  claim, claimable, mark_claimed, run_claimed, ended_with, crashed, crash_handler, mark_failed,
  decision_of,
}
use composer.Executions.Worker.Claiming.{
  claim-free, claim-taken, claim-absent, claim-locked, claimable_iff,
}
use composer.Executions.Lifecycle.{run_again, fail_it}
use composer.Executions.Lifecycle.Effects.{Change, same, changed, update-Change}

pub claim-Change :
    (unlocked : Bool) (id worker : String) (now handler_now seconds : ℕ) (store : Store)
    → Distinct (row_ids store.rows)
    → Change store.rows (claim unlocked id worker now handler_now seconds store).1.rows
unfolding mark_claimed
claim-Change false id worker now handler_now seconds store d =
    subst (λ (a : Bool × Store). Change store.rows a.1.rows)
      (sym (claim-locked id worker now handler_now seconds store)) same
claim-Change true id worker now handler_now seconds store d =
    elim (Option-cases (find_unique store.rows id)) [
      | inl gone ↦
          subst (λ (a : Bool × Store). Change store.rows a.1.rows)
            (sym (claim-absent true id worker now handler_now seconds store gone)) same
      | inr (r, found) ↦ elim (Bool-cases (claimable now r)) [
        | inr taken ↦
            subst (λ (a : Bool × Store). Change store.rows a.1.rows)
              (sym (claim-taken true id worker now handler_now seconds store r found taken)) same
        | inl free ↦
            subst (λ (a : Bool × Store). Change store.rows a.1.rows)
              (sym (claim-free id worker now handler_now seconds store r found free))
              (update-Change id (mark_claimed worker (handler_now + seconds)) store.rows r d
                (λ x. refl) found (run_again ((claimable_iff now r).0 free).0 refl))
      ]
    ]

crash_handler-Change :
    (id : String) (now : ℕ) (why : String) (saved : Bool) (store : Store)
    → Change store.rows (crash_handler id now why saved store).1.rows
unfolding crash_handler mark_failed
crash_handler-Change id now why false store = same
crash_handler-Change id now why true store =
    changed (λ r. r.id == id && is_running r.status) (mark_failed now why) (λ r. refl)
      (λ r m h. fail_it (ground (arith, h)) refl)

pub crash-Change :
    (id : String) (kind : TaskKind) (now : ℕ) (started ended : Bool) (seen : List Row)
    (why : String) (saved : Bool) (store : Store)
    → Change store.rows
        (run_claimed id kind now started ended seen (crashed why saved) store).1.rows
unfolding run_claimed ended_with
crash-Change id run now started ended seen why saved store =
    crash_handler-Change id now why saved store
crash-Change id resume now started ended seen why saved store =
    elim (Bool-cases (decision_of (find_unique seen id))) [
      | inl decided ↦ rw decided (crash_handler-Change id now why saved store)
      | inr undecided ↦ rw undecided same
    ]
