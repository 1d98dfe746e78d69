-- ===== src/Executors/WhileLoop/Bound.antt =====
-- A while node is visited at most `max_iterations` times.
use composer.Base.{
  ℕ, suc, ◌≤◌, String, ◌≡◌, refl, Bool, Option, none, some, Bool-cases, Option-cases, inl, inr,
  ◌==◌, eq_iff, arith, ap, subst, ◌∙◌, ok, ltb,
}
use composer.Value.{ℤ, pos, Value, int, obj, Fields, field_at, set_field, merge_fields, truthy}
use composer.State.{WorkflowStateDict, Update, apply_update}
use composer.State.Laws.{field_at-set_field}
use composer.Graph.Routers.{Evaluator}
use composer.Executors.WhileLoop.{
  Conversions, counts_of, count_of, iter_state_key, while_update, while_evaluated, while_counted,
  while_from, while_arun,
}

-- The counter that the next visit of a node reads.
abbrev pub counter_in : Conversions → String → Option Fields → Option ℤ
counter_in py id none = none
counter_in py id (some existing) = count_of py (field_at existing id)

abbrev pub counter : Conversions → String → WorkflowStateDict → Option ℤ
counter py id state = counter_in py id (counts_of py (field_at state.variables iter_state_key))

-- The part of a run that begins with a state in which the node was never counted: its visits that
-- succeed, and steps of other nodes that leave its counter alone.
pub data Visits (py : Conversions) (evaluate : Evaluator) (id expr : String) (max_iterations : ℕ)
    : ℕ → WorkflowStateDict → Type 0 where
  begin :
      (s : WorkflowStateDict)
      → counter py id s ≡ some (pos 0)
      → Visits py evaluate id expr max_iterations 0 s
  visit :
      {n : ℕ} {s : WorkflowStateDict} {u : Update}
      → Visits py evaluate id expr max_iterations n s
      → while_arun py evaluate id expr max_iterations s ≡ ok u
      → Visits py evaluate id expr max_iterations (suc n) (apply_update s u)
  elsewhere :
      {n : ℕ} {s : WorkflowStateDict}
      → Visits py evaluate id expr max_iterations n s
      → (s' : WorkflowStateDict) → counter py id s' ≡ counter py id s
      → Visits py evaluate id expr max_iterations n s'

read_back : (fs : Fields) (id : String) (v : Value) → field_at (set_field fs id v) id ≡ some v
read_back fs id v = field_at-set_field fs id id v ∙ ground (arith, (eq_iff id id).1 refl)

counter-update :
    (py : Conversions) (id expr : String) (s : WorkflowStateDict) (existing : Fields) (count : ℤ)
    (b : Bool)
    → counter py id
        (apply_update s (while_update id expr (set_field existing id (int count)) count b))
      ≡ some count
unfolding apply_update while_update merge_fields counts_of count_of
counter-update py id expr s existing count b =
    ap (λ o. counter_in py id (counts_of py o))
      (field_at-set_field s.variables iter_state_key iter_state_key
        (obj (set_field existing id (int count))))
    ∙ ap (count_of py) (read_back existing id (int count))

-- What a visit that succeeds writes.
abbrev pub Counted : String → String → ℕ → ℕ → Update → Type 0
Counted id expr max_iterations n u =
    (existing : Fields) × (b : Bool) × (suc n ≤ max_iterations)
    × (u ≡ while_update id expr (set_field existing id (int (pos (suc n)))) (pos (suc n)) b)

while_counted-Counted :
    (evaluate : Evaluator) (id expr : String) (max_iterations n : ℕ) (existing : Fields)
    (s : WorkflowStateDict) (u : Update)
    → while_counted evaluate id expr max_iterations existing (some (pos n)) s ≡ ok u
    → Counted id expr max_iterations n u
unfolding while_counted while_evaluated
while_counted-Counted evaluate id expr max_iterations n existing s u h =
    elim (Bool-cases (ltb max_iterations (suc n))) [
      | inl over ↦ absurd (cc (rw (over, while_counted) at h))
      | inr within ↦ elim (Option-cases (evaluate expr s)) [
        | inl raised ↦ absurd (cc (rw (within, raised, while_counted) at h))
        | inr (v, value) ↦ (
          existing,
          truthy v,
          ground (arith, within),
          cc (rw (within, value, while_counted) at h),
        )
      ]
    ]

while_from-Counted :
    (py : Conversions) (evaluate : Evaluator) (id expr : String) (max_iterations n : ℕ)
    (counts : Option Fields) (s : WorkflowStateDict) (u : Update)
    → counter_in py id counts ≡ some (pos n)
    → while_from py evaluate id expr max_iterations counts s ≡ ok u
    → Counted id expr max_iterations n u
unfolding while_from
while_from-Counted py evaluate id expr max_iterations n none s u at_n h = cc at_n
while_from-Counted py evaluate id expr max_iterations n (some existing) s u at_n h =
    while_counted-Counted evaluate id expr max_iterations n existing s u
      (subst (λ c. while_counted evaluate id expr max_iterations existing c s ≡ ok u) at_n h)

while_arun-Counted :
    (py : Conversions) (evaluate : Evaluator) (id expr : String) (max_iterations n : ℕ)
    (s : WorkflowStateDict) (u : Update)
    → counter py id s ≡ some (pos n)
    → while_arun py evaluate id expr max_iterations s ≡ ok u
    → Counted id expr max_iterations n u
unfolding while_arun
while_arun-Counted py evaluate id expr max_iterations n s u at_n h =
    elim (Bool-cases (expr == "")) [
      | inl no_condition ↦ absurd (cc (rw (no_condition, while_arun) at h))
      | inr there ↦
          while_from-Counted py evaluate id expr max_iterations n
            (counts_of py (field_at s.variables iter_state_key)) s u at_n
            (rw (there, while_arun) at h)
    ]

Visits-counter :
    {py : Conversions} {evaluate : Evaluator} {id expr : String} {max_iterations n : ℕ}
    {s : WorkflowStateDict}
    → Visits py evaluate id expr max_iterations n s
    → (counter py id s ≡ some (pos n)) × (n ≤ max_iterations)
Visits-counter (Visits.begin s fresh) = (fresh, omega arith)
Visits-counter {py} {evaluate} {id} {expr} {max_iterations} (Visits.visit {n} {s} {u} before h) =
    let (at_n, bound) = Visits-counter before in
    let (existing, b, within, same) =
      while_arun-Counted py evaluate id expr max_iterations n s u at_n h in
    (
      ap (λ (x : Update). counter py id (apply_update s x)) same
          ∙ counter-update py id expr s existing (pos (suc n)) b,
      within,
    )
Visits-counter (Visits.elsewhere before s' same) =
    let (at_n, bound) = Visits-counter before in (same ∙ at_n, bound)

-- However its condition is evaluated, a while node that no other node's update recounts succeeds at
-- most `max_iterations` times from a state in which it was not counted yet, and its counter holds the
-- number of its visits.
pub while_arun-bounded :
    (py : Conversions) (evaluate : Evaluator) (id expr : String) (max_iterations n : ℕ)
    (s : WorkflowStateDict)
    → Visits py evaluate id expr max_iterations n s
    → (n ≤ max_iterations) × (counter py id s ≡ some (pos n))
while_arun-bounded py evaluate id expr max_iterations n s visits =
    let (at_n, bound) = Visits-counter visits in (bound, at_n)
