-- ===== src/Executors/Simple/Ends.antt =====
-- Two end nodes that run side by side.
use composer.Base.{String, ◌≡◌, false, some, ◌==◌, eq_iff, if◌then◌else◌, arith, ◌∙◌}
use composer.Value.{Value, Fields, empty, field, field_at, merge_fields}
use composer.State.{WorkflowStateDict, apply_update}
use composer.State.Laws.{field_at-merge_fields}
use composer.Executors.Simple.{completed_update, last_output, end_arun}

field_at-one :
    (left : Fields) (id key : String) (value : Value)
    → field_at (merge_fields left (field id value empty)) key
      ≡ (if id == key then some value else field_at left key)
field_at-one left id key value =
    field_at-merge_fields left (field id value empty) key ∙ ground arith

-- Two end nodes, each on the state that it saw, leave their last output under their own id, in whichever order
-- their updates are merged: every key of the final outputs reads the same.
pub end_arun-commutes :
    (id other key : String) (state seen seen' : WorkflowStateDict)
    → id == other ≡ false
    → field_at
        (apply_update (apply_update state (end_arun id seen)) (end_arun other seen')).final_outputs
        key
      ≡ field_at
          (apply_update
            (apply_update state (end_arun other seen'))
            (end_arun id seen)).final_outputs
          key
unfolding apply_update end_arun completed_update
end_arun-commutes id other key state seen seen' distinct =
    let outputs = state.final_outputs in
    let first : Fields = merge_fields outputs (field id (last_output seen) empty) in
    let second : Fields = merge_fields outputs (field other (last_output seen') empty) in
    field_at-one first other key (last_output seen')
    ∙ ground (
      arith,
      field_at-one outputs id key (last_output seen),
      field_at-one outputs other key (last_output seen'),
      field_at-one second id key (last_output seen),
      eq_iff id other,
      eq_iff id key,
      eq_iff other key,
    )
