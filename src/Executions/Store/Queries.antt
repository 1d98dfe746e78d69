-- ===== src/Executions/Store/Queries.antt =====
-- What a reader sees after an update.
use composer.Base.{
  sym, subst, ℕ, String, ◌≡◌, refl, ◌⊎◌, inl, inr, Bool, true, false, ◌&&◌, Option, none, some,
  List, [], ◌∷◌, Memᴰ, arith, Distinct, Bool-cases, Option-cases, ◌∙◌, map, ◌==◌, eq_iff,
  if◌then◌else◌,
}
use composer.Executions.Store.{Row, find_unique, update_many, update}

abbrev pub row_ids : List Row → List String
row_ids = map (λ r. r.id)

-- A change keeps the primary key.
abbrev pub KeepsId : (Row → Row) → Type 0
KeepsId change = (r : Row) → (change r).id ≡ r.id

-- The row of an id after an update: changed if it passes the test, and otherwise as it was.
abbrev pub updated : (Row → Bool) → (Row → Row) → Option Row → Option Row
updated test change none = none
updated test change (some r) = some (if test r then change r else r)

pub find_unique-update_many :
    (test : Row → Bool) (change : Row → Row)
    → KeepsId change
    → (rows : List Row) (id : String)
    → find_unique (update_many test change rows).1 id ≡ updated test change (find_unique rows id)
unfolding find_unique update_many
find_unique-update_many test change keeps [] id = refl
find_unique-update_many test change keeps (r ∷ rows) id =
    ground (arith, find_unique-update_many test change keeps rows id, keeps r)

find_unique-absent :
    (rows : List Row) (id : String) → ¬ Memᴰ id (row_ids rows) → find_unique rows id ≡ none
unfolding find_unique
find_unique-absent [] id h = refl
find_unique-absent (r ∷ rows) id h = elim (Bool-cases (r.id == id)) [
  | inl same ↦ absurd (h (Memᴰ.head (sym ((eq_iff r.id id).0 same))))
  | inr other ↦ rw other (find_unique-absent rows id (λ m. h (Memᴰ.tail m)))
]

-- The count of an update that names an id is 1 when the row is there and passes, and otherwise 0.
pub count-update_many :
    (id : String) (test : Row → Bool) (change : Row → Row) (rows : List Row)
    → Distinct (row_ids rows)
    → (update_many (λ r. r.id == id && test r) change rows).0
      ≡ elim (find_unique rows id) as (λ _. ℕ) [ none ↦ 0 | some r ↦ if test r then 1 else 0 ]
unfolding find_unique update_many
count-update_many id test change [] d = refl
count-update_many id test change (r ∷ rows) d = elim (Bool-cases (r.id == id)) [
  | inl same ↦
      let gone =
        find_unique-absent rows id
          (subst (λ i. ¬ Memᴰ i (row_ids rows)) ((eq_iff r.id id).0 same) d.0) in
      ground (arith, count-update_many id test change rows d.1, gone)
  | inr other ↦ ground (arith, count-update_many id test change rows d.1)
]

pub row_ids-update_many :
    (test : Row → Bool) (change : Row → Row)
    → KeepsId change
    → (rows : List Row) → row_ids (update_many test change rows).1 ≡ row_ids rows
unfolding update_many
row_ids-update_many test change keeps [] = refl
row_ids-update_many test change keeps (r ∷ rows) =
    ground (arith, row_ids-update_many test change keeps rows, keeps r)

pub find_unique-id :
    (rows : List Row) (id : String) (r : Row) → find_unique rows id ≡ some r → r.id ≡ id
unfolding find_unique
find_unique-id [] id r h = cc
find_unique-id (x ∷ rows) id r h = elim (Bool-cases (x.id == id)) [
  | inl same ↦
      let e : x ≡ r = ground arith in subst (λ (y : Row). y.id ≡ id) e ((eq_iff x.id id).0 same)
  | inr other ↦ find_unique-id rows id r (ground arith)
]

-- A guarded update that counts 1 found its row with the guard true, and left it changed.
pub update_many-won :
    (id : String) (test : Row → Bool) (change : Row → Row) (rows : List Row)
    → Distinct (row_ids rows)
    → KeepsId change
    → (update_many (λ r. r.id == id && test r) change rows).0 ≡ 1
    → (r : Row) × (find_unique rows id ≡ some r)
      × (test r ≡ true)
      × (find_unique (update_many (λ r. r.id == id && test r) change rows).1 id ≡ some (change r))
update_many-won id test change rows d keeps won = elim (Option-cases (find_unique rows id)) [
  | inl absent ↦ ground (arith, count-update_many id test change rows d)
  | inr (r, found) ↦
      let passed : test r ≡ true = ground (arith, count-update_many id test change rows d) in
      let own : (r.id == id) ≡ true = (eq_iff r.id id).1 (find_unique-id rows id r found) in
      (r, found, passed, find_unique-update_many _ change keeps rows id ∙ ground arith)
]

-- A guarded update does nothing to a row whose guard is false.
pub update_many-lost :
    (id : String) (test : Row → Bool) (change : Row → Row) (rows : List Row) (r : Row)
    → Distinct (row_ids rows)
    → find_unique rows id ≡ some r
    → test r ≡ false
    → (update_many (λ r. r.id == id && test r) change rows).0 ≡ 0
update_many-lost id test change rows r d found failed =
    ground (arith, count-update_many id test change rows d)

-- An update that changes no row leaves the table as it was.
pub update_many-zero :
    (test : Row → Bool) (change : Row → Row) (rows : List Row)
    → (update_many test change rows).0 ≡ 0
    → (update_many test change rows).1 ≡ rows
unfolding update_many
update_many-zero test change [] h = refl
update_many-zero test change (r ∷ rows) h = elim (Bool-cases (test r)) [
  | inl hit ↦ ground arith
  | inr miss ↦ ground (arith, update_many-zero test change rows)
]

-- A guarded update changes one row that passes the guard, or nothing.
pub update_many-cases :
    (id : String) (test : Row → Bool) (change : Row → Row) (rows : List Row)
    → Distinct (row_ids rows)
    → KeepsId change
    → ((update_many (λ r. r.id == id && test r) change rows).0 ≡ 0)
      ⊎ ((update_many (λ r. r.id == id && test r) change rows).0 ≡ 1)
update_many-cases id test change rows d keeps = elim (Option-cases (find_unique rows id)) [
  | inl absent ↦ inl (count-update_many id test change rows d ∙ ground arith)
  | inr (r, found) ↦ elim (Bool-cases (test r)) [
    | inl passed ↦ inr (count-update_many id test change rows d ∙ ground arith)
    | inr failed ↦ inl (update_many-lost id test change rows r d found failed)
  ]
]

-- What `find_unique` returns after an unguarded update of the same id.
pub find_unique-update :
    (id : String) (change : Row → Row) (rows : List Row) (r : Row)
    → KeepsId change
    → find_unique rows id ≡ some r
    → find_unique (update id change rows) id ≡ some (change r)
unfolding update
find_unique-update id change rows r keeps found =
    let own : (r.id == id) ≡ true = (eq_iff r.id id).1 (find_unique-id rows id r found) in
    find_unique-update_many _ change keeps rows id ∙ ground arith

-- An unguarded update leaves the rows of other ids alone.
pub find_unique-update_other :
    (id other : String) (change : Row → Row) (rows : List Row)
    → KeepsId change
    → (other == id) ≡ false
    → find_unique (update id change rows) other ≡ find_unique rows other
unfolding update
find_unique-update_other id other change rows keeps apart =
    elim (Option-cases (find_unique rows other)) [
      | inl absent ↦ find_unique-update_many _ change keeps rows other ∙ ground arith
      | inr (r, found) ↦
          let own : r.id ≡ other = find_unique-id rows other r found in
          let skipped : (r.id == id) ≡ false = subst (λ i. (i == id) ≡ false) (sym own) apart in
          find_unique-update_many _ change keeps rows other ∙ ground arith
    ]

pub row_ids-update :
    (id : String) (change : Row → Row) (rows : List Row)
    → KeepsId change
    → row_ids (update id change rows) ≡ row_ids rows
unfolding update
row_ids-update id change rows keeps = row_ids-update_many _ change keeps rows
