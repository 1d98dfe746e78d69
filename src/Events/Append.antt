-- ===== src/Events/Append.antt =====
-- What `list_since` reads after an append.
use composer.Base.{
  ap, ℕ, ◌+◌, ◌≤◌, ◌<◌, String, ◌≡◌, refl, Bool, true, false, List, [], ◌∷◌, ◌++◌, map, keep, ok,
  err, ◌==◌, eq_iff, ltb, if◌then◌else◌, arith, Bool-cases, ◌⊎◌, inl, inr, sym, subst, ◌∙◌,
}
use composer.Events.{
  ExecutionEvent, EventRow, count, unique_violation, row_of_event, append, persist_and_notify,
  after_seq, rows_since, event_of, list_since,
}
use composer.Events.Log.{
  log, NumberedFrom, IsNumbered, rows_since-log, length-log, keep-append, numbered-last, log-own,
  log-other, append-cases,
}

pub map-append {ℓ κ} :
    {A : Type ℓ} {B : Type κ} (f : A → B) (xs ys : List A) → map f (xs ++ ys) ≡ map f xs ++ map f ys
map-append f [] ys = refl
map-append f (x ∷ xs) ys = cc (map-append f xs ys)

pub append-nil {ℓ} : {A : Type ℓ} (xs : List A) → xs ++ [] ≡ xs
append-nil [] = refl
append-nil (x ∷ xs) = cc (append-nil xs)

-- The row of `event` with the next number of its execution.
abbrev pub next_row : ExecutionEvent → ℕ → List EventRow → EventRow
next_row event now rows = row_of_event event (count event.execution_id rows + 1) now

abbrev pub if_own : String → EventRow → List EventRow
if_own id row = if row.execution_id == id then row ∷ [] else []

pub log-next :
    (id : String) (event : ExecutionEvent) (now : ℕ) (rows : List EventRow)
    → IsNumbered rows
    → log id (rows ++ next_row event now rows ∷ [])
      ≡ log id rows ++ if_own id (next_row event now rows)
log-next id event now rows h = elim (Bool-cases (event.execution_id == id)) [
  | inl own ↦
      let e = (eq_iff event.execution_id id).0 own in
      rw own (
        subst
          (λ i.
            log i (rows ++ next_row event now rows ∷ [])
            ≡ log i rows ++ next_row event now rows ∷ [])
          e (log-own (next_row event now rows) rows (h event.execution_id) (omega arith)))
  | inr other ↦
      rw other (log-other id (next_row event now rows) rows other ∙ sym (append-nil (log id rows)))
]

keep-if_own :
    (id : String) (cursor : ℕ) (event : ExecutionEvent) (now : ℕ) (rows : List EventRow)
    → cursor ≤ count id rows
    → keep (after_seq cursor) (if_own id (next_row event now rows))
      ≡ if_own id (next_row event now rows)
keep-if_own id cursor event now rows le = elim (Bool-cases (event.execution_id == id)) [
  | inl own ↦
      let same = ap (λ i. count i rows) ((eq_iff event.execution_id id).0 own) in
      let after : ltb cursor (count event.execution_id rows + 1) ≡ true = ground (arith, same) in
      rw own (rw after refl)
  | inr other ↦ rw other refl
]

-- What a reading gains: the row, if it is of the execution.
pub rows_since-next :
    (id : String) (cursor : ℕ) (event : ExecutionEvent) (now : ℕ) (rows : List EventRow)
    → IsNumbered rows
    → cursor ≤ count id rows
    → rows_since id cursor (rows ++ next_row event now rows ∷ [])
      ≡ rows_since id cursor rows ++ if_own id (next_row event now rows)
rows_since-next id cursor event now rows h le =
    let row = next_row event now rows in
    rows_since-log id cursor (rows ++ row ∷ [])
    ∙ ap (keep (after_seq cursor)) (log-next id event now rows h)
    ∙ keep-append (after_seq cursor) (log id rows) (if_own id row)
    ∙ cc (rows_since-log id cursor rows, keep-if_own id cursor event now rows le)

-- How an append ends whose count may be out of date.
abbrev pub AppendOutcome :
    ExecutionEvent → ℕ → String → String → ℕ → List EventRow → List EventRow → Type 0
AppendOutcome event now now_iso id cursor seen rows =
    ((count event.execution_id seen ≡ count event.execution_id rows)
      × ((append event now seen rows).0 ≡ ok (count event.execution_id rows + 1))
      × (list_since now_iso id cursor (append event now seen rows).1
          ≡ list_since now_iso id cursor rows
            ++ (if event.execution_id == id
                then event_of now_iso (next_row event now rows) ∷ []
                else [])))
    ⊎ ((count event.execution_id seen < count event.execution_id rows)
        × (append event now seen rows ≡ (err unique_violation, rows)))

list_since-next :
    (now_iso id : String) (cursor : ℕ) (event : ExecutionEvent) (now : ℕ) (rows : List EventRow)
    → IsNumbered rows
    → cursor ≤ count id rows
    → list_since now_iso id cursor (rows ++ next_row event now rows ∷ [])
      ≡ list_since now_iso id cursor rows
        ++ (if event.execution_id == id
            then event_of now_iso (next_row event now rows) ∷ []
            else [])
unfolding list_since
list_since-next now_iso id cursor event now rows h le =
    ap (map (event_of now_iso)) (rows_since-next id cursor event now rows h le)
    ∙ map-append (event_of now_iso) (rows_since id cursor rows)
        (if_own id (next_row event now rows))
    ∙ elim (Bool-cases (event.execution_id == id)) [
      | inl own ↦ rw own refl
      | inr other ↦ rw other refl
    ]

pub append-list_since :
    (event : ExecutionEvent) (now : ℕ) (now_iso id : String) (cursor : ℕ)
    (seen rows : List EventRow)
    → IsNumbered rows
    → count event.execution_id seen ≤ count event.execution_id rows
    → cursor ≤ count id rows
    → AppendOutcome event now now_iso id cursor seen rows
append-list_since event now now_iso id cursor seen rows h earlier le =
    elim (append-cases event now seen rows (h event.execution_id) earlier) [
      | inl (same, done) ↦ inl (
        same,
        ap (λ p. p.0) done,
        rw done (list_since-next now_iso id cursor event now rows h le),
      )
      | inr lost ↦ inr lost
    ]

pub persist-cases :
    (configured : Bool) (event : ExecutionEvent) (now : ℕ) (seen rows : List EventRow)
    → IsNumbered rows
    → count event.execution_id seen ≤ count event.execution_id rows
    → (persist_and_notify configured event now seen rows ≡ rows)
      ⊎ (persist_and_notify configured event now seen rows ≡ rows ++ next_row event now rows ∷ [])
unfolding persist_and_notify
persist-cases false event now seen rows h earlier = inl refl
persist-cases true event now seen rows h earlier =
    elim (append-cases event now seen rows (h event.execution_id) earlier) [
      | inl done ↦ inr (ap (λ p. p.1) done.1)
      | inr lost ↦ inl (ap (λ p. p.1) lost.1)
    ]

numbered-if_own :
    (id : String) (event : ExecutionEvent) (now : ℕ) (rows : List EventRow)
    → IsNumbered rows
    → NumberedFrom 0 (log id rows ++ if_own id (next_row event now rows))
numbered-if_own id event now rows h = elim (Bool-cases (event.execution_id == id)) [
  | inl own ↦
      let same = ap (λ i. count i rows) ((eq_iff event.execution_id id).0 own) in
      rw own (
        numbered-last 0 (next_row event now rows) (log id rows) (h id)
          (omega (arith, same, length-log id rows)))
  | inr other ↦ rw other (subst (NumberedFrom 0) (sym (append-nil (log id rows))) (h id))
]

pub persist-IsNumbered :
    (configured : Bool) (event : ExecutionEvent) (now : ℕ) (seen rows : List EventRow)
    → IsNumbered rows
    → count event.execution_id seen ≤ count event.execution_id rows
    → IsNumbered (persist_and_notify configured event now seen rows)
persist-IsNumbered configured event now seen rows h earlier =
    elim (persist-cases configured event now seen rows h earlier) [
      | inl same ↦ subst IsNumbered (sym same) h
      | inr more ↦ subst IsNumbered (sym more) (λ id.
          subst (NumberedFrom 0) (sym (log-next id event now rows h))
            (numbered-if_own id event now rows h))
    ]
