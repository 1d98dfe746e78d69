-- ===== src/Events/Log.antt =====
-- The numbers of the events of one execution.
use composer.Base.{
  ap, ℕ, suc, ◌+◌, ◌≤◌, ◌<◌, String, ◌≡◌, refl, Bool, true, false, ◌&&◌, ◌||◌, List, [], ◌∷◌, ◌++◌,
  length, any, all, keep, ok, err, ◌==◌, eq_iff, eqb, ltb, leb, if◌then◌else◌, arith, Bool-cases,
  ◌⊎◌, inl, inr, sym, ◌∙◌,
}
use composer.Events.{
  ExecutionEvent, EventRow, belongs, count, taken, unique_violation, row_of_event, create_event,
  append, insert_by_seq, sort_by_seq, after_seq, rows_since,
}

-- The rows of an execution, in the order of their numbers.
abbrev pub log : String → List EventRow → List EventRow
log id rows = sort_by_seq (keep (belongs id) rows)

-- The numbers go up by one from the one after `start`.
abbrev pub NumberedFrom : ℕ → List EventRow → Type 0
NumberedFrom start [] = Unit
NumberedFrom start (row ∷ rows) = (row.seq ≡ suc start) × NumberedFrom (suc start) rows

abbrev pub IsNumbered : List EventRow → Type 0
IsNumbered rows = (id : String) → NumberedFrom 0 (log id rows)

pub keep-and {ℓ} :
    {A : Type ℓ} (p q : A → Bool) (xs : List A) → keep (λ x. p x && q x) xs ≡ keep q (keep p xs)
keep-and p q [] = refl
keep-and p q (x ∷ xs) = ground (arith, keep-and p q xs)

keep-insert :
    (cursor : ℕ) (row : EventRow) (rows : List EventRow)
    → keep (after_seq cursor) (insert_by_seq row rows) ≡ (
        if after_seq cursor row
        then insert_by_seq row (keep (after_seq cursor) rows)
        else keep (after_seq cursor) rows)
unfolding insert_by_seq
keep-insert cursor row [] = refl
keep-insert cursor row (first ∷ rest) = ground (arith, keep-insert cursor row rest)

keep-sort :
    (cursor : ℕ) (rows : List EventRow)
    → keep (after_seq cursor) (sort_by_seq rows) ≡ sort_by_seq (keep (after_seq cursor) rows)
unfolding sort_by_seq
keep-sort cursor [] = refl
keep-sort cursor (row ∷ rows) =
    ground (arith, keep-insert cursor row (sort_by_seq rows), keep-sort cursor rows)

pub rows_since-log :
    (id : String) (cursor : ℕ) (rows : List EventRow)
    → rows_since id cursor rows ≡ keep (after_seq cursor) (log id rows)
rows_since-log id cursor rows =
    ap sort_by_seq (keep-and (belongs id) (after_seq cursor) rows)
    ∙ sym (keep-sort cursor (keep (belongs id) rows))

length-insert :
    (row : EventRow) (rows : List EventRow) → length (insert_by_seq row rows) ≡ suc (length rows)
unfolding insert_by_seq
length-insert row [] = refl
length-insert row (first ∷ rest) = ground (arith, length-insert row rest)

pub length-sort : (rows : List EventRow) → length (sort_by_seq rows) ≡ length rows
unfolding sort_by_seq
length-sort [] = refl
length-sort (row ∷ rows) = omega (arith, length-insert row (sort_by_seq rows), length-sort rows)

pub length-log : (id : String) (rows : List EventRow) → length (log id rows) ≡ count id rows
length-log id rows = length-sort (keep (belongs id) rows)

any-insert :
    (test : EventRow → Bool) (row : EventRow) (rows : List EventRow)
    → any test (insert_by_seq row rows) ≡ (test row || any test rows)
unfolding insert_by_seq
any-insert test row [] = refl
any-insert test row (first ∷ rest) = ground (arith, any-insert test row rest)

any-sort :
    (test : EventRow → Bool) (rows : List EventRow) → any test (sort_by_seq rows) ≡ any test rows
unfolding sort_by_seq
any-sort test [] = refl
any-sort test (row ∷ rows) =
    ground (arith, any-insert test row (sort_by_seq rows), any-sort test rows)

any-keep {ℓ} :
    {A : Type ℓ} (p q : A → Bool) (xs : List A) → any q (keep p xs) ≡ any (λ x. p x && q x) xs
any-keep p q [] = refl
any-keep p q (x ∷ xs) = ground (arith, any-keep p q xs)

-- Exactly the numbers up to the length of the log are taken.
taken-log :
    (id : String) (seq : ℕ) (rows : List EventRow)
    → taken id seq rows ≡ any (λ row. eqb row.seq seq) (log id rows)
taken-log id seq rows = sym (
    any-sort (λ row. eqb row.seq seq) (keep (belongs id) rows)
    ∙ any-keep (belongs id) (λ row. eqb row.seq seq) rows)

any-numbered :
    (start seq : ℕ) (rows : List EventRow)
    → NumberedFrom start rows
    → any (λ row. eqb row.seq seq) rows ≡ (ltb start seq && leb seq (start + length rows))
any-numbered start seq [] h = ground arith
any-numbered start seq (row ∷ rows) h = ground (arith, any-numbered (suc start) seq rows h.1, h.0)

pub keep-append {ℓ} :
    {A : Type ℓ} (p : A → Bool) (xs ys : List A) → keep p (xs ++ ys) ≡ keep p xs ++ keep p ys
keep-append p [] ys = refl
keep-append p (x ∷ xs) ys = ground (arith, keep-append p xs ys)

insert-last :
    (row last : EventRow) (rows : List EventRow)
    → row.seq ≤ last.seq
    → insert_by_seq row (rows ++ last ∷ []) ≡ insert_by_seq row rows ++ last ∷ []
unfolding insert_by_seq
insert-last row last [] h = ground arith
insert-last row last (first ∷ rest) h = ground (arith, insert-last row last rest h)

sort-last :
    (last : EventRow) (rows : List EventRow)
    → all (λ row. leb row.seq last.seq) rows ≡ true
    → sort_by_seq (rows ++ last ∷ []) ≡ sort_by_seq rows ++ last ∷ []
unfolding sort_by_seq insert_by_seq
sort-last last [] h = refl
sort-last last (row ∷ rows) h =
    ap (insert_by_seq row) (sort-last last rows (ground arith))
    ∙ insert-last row last (sort_by_seq rows) (ground arith)

all-insert :
    (test : EventRow → Bool) (row : EventRow) (rows : List EventRow)
    → all test (insert_by_seq row rows) ≡ (test row && all test rows)
unfolding insert_by_seq
all-insert test row [] = refl
all-insert test row (first ∷ rest) = ground (arith, all-insert test row rest)

all-sort :
    (test : EventRow → Bool) (rows : List EventRow) → all test (sort_by_seq rows) ≡ all test rows
unfolding sort_by_seq
all-sort test [] = refl
all-sort test (row ∷ rows) =
    ground (arith, all-insert test row (sort_by_seq rows), all-sort test rows)

pub all-numbered :
    (start bound : ℕ) (rows : List EventRow)
    → NumberedFrom start rows
    → start + length rows ≤ bound
    → all (λ row. leb row.seq bound) rows ≡ true
all-numbered start bound [] h le = refl
all-numbered start bound (row ∷ rows) h le =
    ground (arith, all-numbered (suc start) bound rows h.1 (omega arith), h.0)

pub numbered-last :
    (start : ℕ) (last : EventRow) (rows : List EventRow)
    → NumberedFrom start rows
    → last.seq ≡ suc (start + length rows)
    → NumberedFrom start (rows ++ last ∷ [])
numbered-last start last [] h e = (omega arith, tt)
numbered-last start last (row ∷ rows) h e =
    (h.0, numbered-last (suc start) last rows h.1 (omega arith))

keep-belongs-own :
    (row : EventRow) (rows : List EventRow)
    → keep (belongs row.execution_id) (rows ++ row ∷ [])
      ≡ keep (belongs row.execution_id) rows ++ row ∷ []
keep-belongs-own row [] = ground (arith, eq_iff row.execution_id row.execution_id)
keep-belongs-own row (first ∷ rows) = ground (arith, keep-belongs-own row rows)

keep-belongs-other :
    (id : String) (row : EventRow) (rows : List EventRow)
    → row.execution_id == id ≡ false
    → keep (belongs id) (rows ++ row ∷ []) ≡ keep (belongs id) rows
keep-belongs-other id row [] h = ground arith
keep-belongs-other id row (first ∷ rows) h = ground (arith, keep-belongs-other id row rows h)

-- A new row with the next number stands at the end of the log of its execution.
pub log-own :
    (row : EventRow) (rows : List EventRow)
    → NumberedFrom 0 (log row.execution_id rows)
    → row.seq ≡ suc (count row.execution_id rows)
    → log row.execution_id (rows ++ row ∷ []) ≡ log row.execution_id rows ++ row ∷ []
log-own row rows h e =
    let own = keep (belongs row.execution_id) rows in
    let small = all-numbered 0 row.seq (sort_by_seq own) h (omega (arith, length-sort own, e)) in
    ap sort_by_seq (keep-belongs-own row rows)
    ∙ sort-last row own (sym (all-sort (λ r. leb r.seq row.seq) own) ∙ small)

pub log-other :
    (id : String) (row : EventRow) (rows : List EventRow)
    → row.execution_id == id ≡ false
    → log id (rows ++ row ∷ []) ≡ log id rows
log-other id row rows h = ap sort_by_seq (keep-belongs-other id row rows h)

-- The number that a count of the table, or of the table as it was with fewer rows, leads to is free
-- exactly when the count is still right.
taken-counted :
    (id : String) (counted : ℕ) (rows : List EventRow)
    → NumberedFrom 0 (log id rows)
    → counted ≤ count id rows
    → taken id (counted + 1) rows ≡ ltb counted (count id rows)
taken-counted id counted rows h le =
    taken-log id (counted + 1) rows
    ∙ any-numbered 0 (counted + 1) (log id rows) h
    ∙ ground (arith, length-log id rows)

-- An append as it goes: the count was right, and the row is the next; or it was not, and the insertion
-- violates the unique constraint.
pub append-cases :
    (event : ExecutionEvent) (now : ℕ) (seen rows : List EventRow)
    → NumberedFrom 0 (log event.execution_id rows)
    → count event.execution_id seen ≤ count event.execution_id rows
    → ((count event.execution_id seen ≡ count event.execution_id rows)
        × (append event now seen rows ≡ (
          ok (count event.execution_id rows + 1),
          rows ++ row_of_event event (count event.execution_id rows + 1) now ∷ [],
        )))
      ⊎ ((count event.execution_id seen < count event.execution_id rows)
          × (append event now seen rows ≡ (err unique_violation, rows)))
unfolding append create_event
append-cases event now seen rows h le =
    let free = taken-counted event.execution_id (count event.execution_id seen) rows h le in
    elim (Bool-cases (ltb (count event.execution_id seen) (count event.execution_id rows))) [
      | inl fewer ↦ inr (ground arith, rw (free ∙ fewer) refl)
      | inr equal ↦
          let same : count event.execution_id seen ≡ count event.execution_id rows = ground arith in
          inl (same, rw (free ∙ equal) (rw same refl))
    ]
