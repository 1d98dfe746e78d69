-- ===== src/Executors/WhileLoop/Tests.antt =====
-- A visit of a while node whose limit is one, and the next one.
use composer.Base.{◌≡◌, refl, ◌≤◌, true, none, some, ok, err}
use composer.Value.{pos, int, text, bool, empty, field, field_at}
use composer.State.{WorkflowStateDict, Update, apply_update, initial_state}
use composer.Graph.Routers.{Evaluator}
use composer.Executors.WhileLoop.{
  Conversions, while_update, while_arun, counts_of, count_of, max_iterations_exceeded,
}
use composer.Executors.WhileLoop.Bound.{counter, Visits, while_arun-bounded}

abbrev strict : Conversions
strict = record { dict_of_items = λ xs. none; int_of_text = λ t. none }

abbrev forever : Evaluator
forever expr state = some (bool true)

abbrev start : WorkflowStateDict
unfolding initial_state
start = initial_state (text "hi")

abbrev first_update : Update
unfolding while_update
first_update = while_update "loop" "x" (field "loop" (int (pos 1)) empty) (pos 1) true

start_uncounted : counter strict "loop" start ≡ some (pos 0)
unfolding start counts_of count_of field_at
start_uncounted = refl

first_visit : while_arun strict forever "loop" "x" 1 start ≡ ok first_update
unfolding while_arun start first_update counts_of count_of
first_visit = refl

second_refused :
    while_arun strict forever "loop" "x" 1 (apply_update start first_update)
    ≡ err max_iterations_exceeded
unfolding while_arun start first_update apply_update counts_of count_of
second_refused = refl

while_arun-bounded_example :
    (1 ≤ 1) × (counter strict "loop" (apply_update start first_update) ≡ some (pos 1))
while_arun-bounded_example =
    while_arun-bounded strict forever "loop" "x" 1 1 (apply_update start first_update)
      (Visits.visit (Visits.begin start start_uncounted) first_visit)
