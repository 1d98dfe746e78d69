-- ===== src/Executions/Lifecycle/Tests.antt =====
-- Short lives of one execution.
use composer.Base.{◌≡◌, refl, ◌≢◌, true, none, some, [], ◌∷◌, ◌⊎◌}
use composer.Value.{empty}
use composer.Executions.Store.{Store, Row, find_unique, update_many, update, run}
use composer.Executions.Handlers.{cancel_execution, mark_canceled, with_decision, stamp_decision}
use composer.Executions.Worker.{raised, returned, run_claimed}
use composer.Executions.Samples.{ann, store_of, fresh, leased, ended_row, seen_leased}
use composer.Executions.Lifecycle.{
  Statement, guarded, cancel, run_end, stamp, statement, here, next, begin, live, Move,
}
use composer.Executions.Lifecycle.Keys.{IsWellFormed}
use composer.Executions.Lifecycle.Moves.{Restamped, Statement-refines, Reach-IsWellFormed}
use composer.Executions.Lifecycle.Final.{KeptBut, ended_stays}

abbrev canceled_at_5 : Store
canceled_at_5 = (cancel_execution ann "e1" 5 (fresh ∷ []) (store_of (fresh ∷ []))).1

fresh_canceled : find_unique canceled_at_5.rows "e1" ≡ some (mark_canceled 5 fresh)
unfolding cancel_execution find_unique update_many
fresh_canceled = refl

canceling : Statement (store_of (fresh ∷ [])) canceled_at_5
canceling = guarded (cancel ann "e1" 5 (fresh ∷ []))

Statement-refines_example :
    (mark_canceled 5 fresh ≡ fresh)
    ⊎ Restamped fresh (mark_canceled 5 fresh)
    ⊎ Move fresh.status (mark_canceled 5 fresh).status
Statement-refines_example =
    Statement-refines "e1" fresh (mark_canceled 5 fresh) (refl, tt) canceling (seen_leased fresh)
      fresh_canceled

-- Canceled, and then the run that was under way raises.
canceled_then_raised :
    IsWellFormed
      (run_claimed "e1" run 9 true true (leased ∷ []) (returned (raised "boom")) canceled_at_5).1
canceled_then_raised =
    Reach-IsWellFormed
      (next (next here (statement canceling))
        (run_end "e1" run 9 true true (leased ∷ []) (raised "boom")))
      (refl, tt)

-- A resume request that won its transition before the execution was canceled, and writes its decision now.
abbrev late_stamp : Store
late_stamp = stamp_decision "e1" "approved" empty (store_of (ended_row ∷ []))

late_stamp_there : find_unique late_stamp.rows "e1" ≢ none
unfolding stamp_decision find_unique update
late_stamp_there e = cc e

ended_stays_example :
    (r' : Row) × (find_unique late_stamp.rows "e1" ≡ some r') × KeptBut ended_row r'
ended_stays_example =
    ended_stays "e1" ended_row (refl, tt) (seen_leased ended_row) refl
      (live begin (stamp "e1" "approved" empty) late_stamp_there)

-- Its variables are lost then: what they held is gone, and the decision is there.
late_stamp_overwrites :
    find_unique late_stamp.rows "e1" ≡ some (with_decision "approved" empty ended_row)
unfolding stamp_decision find_unique update
late_stamp_overwrites = refl
