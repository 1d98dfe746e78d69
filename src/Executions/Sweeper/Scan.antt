-- ===== src/Executions/Sweeper/Scan.antt =====
-- A sweep walks over a snapshot of the table: the rows that pass its filter, each with an id of its own.
use mathlib.Core.List.Memᴰ
use composer.Base.{
  String, ◌≡◌, refl, Bool, true, false, some, List, [], ◌∷◌, Memᴰ, Distinct, keep, mem-keep,
  Bool-cases, inl, inr, ◌&&◌, ◌==◌, sym, subst, ◌∙◌, arith, ap,
}
use composer.Executions.Store.{Row, find_unique}
use composer.Executions.Store.Queries.{row_ids, find_unique-id}

pub mem-row_ids : (rows : List Row) (r : Row) → Memᴰ r rows → Memᴰ r.id (row_ids rows)
mem-row_ids [] r m = absurd (Memᴰ.not-nil m)
mem-row_ids (x ∷ rows) r m = elim (Memᴰ.cases_cons m) [
  | inl e ↦ Memᴰ.head (ap (λ (y : Row). y.id) e)
  | inr later ↦ Memᴰ.tail (mem-row_ids rows r later)
]

row_ids-keep :
    (test : Row → Bool) (rows : List Row) (id : String)
    → Memᴰ id (row_ids (keep test rows))
    → Memᴰ id (row_ids rows)
row_ids-keep test [] id m = m
row_ids-keep test (x ∷ rows) id m = elim (Bool-cases (test x)) [
  | inl hit ↦ elim (Memᴰ.cases_cons (rw hit at m)) [
    | inl e ↦ Memᴰ.head e
    | inr later ↦ Memᴰ.tail (row_ids-keep test rows id later)
  ]
  | inr miss ↦ Memᴰ.tail (row_ids-keep test rows id (rw miss at m))
]

pub Distinct-keep :
    (test : Row → Bool) (rows : List Row)
    → Distinct (row_ids rows)
    → Distinct (row_ids (keep test rows))
Distinct-keep test [] d = d
Distinct-keep test (x ∷ rows) d = elim (Bool-cases (test x)) [
  | inl hit ↦ rw hit ((λ m. d.0 (row_ids-keep test rows x.id m)), Distinct-keep test rows d.1)
  | inr miss ↦ rw miss (Distinct-keep test rows d.1)
]

pub find_unique-mem :
    (rows : List Row) (id : String) (r : Row) → find_unique rows id ≡ some r → Memᴰ r rows
unfolding find_unique
find_unique-mem [] id r h = cc
find_unique-mem (x ∷ rows) id r h = elim (Bool-cases (x.id == id)) [
  | inl same ↦ let e : x ≡ r = ground arith in Memᴰ.head (sym e)
  | inr other ↦ Memᴰ.tail (find_unique-mem rows id r (ground arith))
]

-- With distinct ids, two rows of one id are the same.
pub row_unique :
    (rows : List Row) (r s : Row)
    → Distinct (row_ids rows)
    → Memᴰ r rows
    → Memᴰ s rows
    → r.id ≡ s.id
    → r ≡ s
row_unique [] r s d m n e = absurd (Memᴰ.not-nil m)
row_unique (x ∷ rows) r s d m n e = elim (Memᴰ.cases_cons m) [
  | inl r_first ↦ elim (Memᴰ.cases_cons n) [
    | inl s_first ↦ r_first ∙ sym s_first
    | inr s_later ↦ absurd (
        d.0 (
          subst (λ i. Memᴰ i (row_ids rows)) (sym e ∙ ap (λ (y : Row). y.id) r_first)
            (mem-row_ids rows s s_later)))
  ]
  | inr r_later ↦ elim (Memᴰ.cases_cons n) [
    | inl s_first ↦ absurd (
        d.0 (
          subst (λ i. Memᴰ i (row_ids rows)) (e ∙ ap (λ (y : Row). y.id) s_first)
            (mem-row_ids rows r r_later)))
    | inr s_later ↦ row_unique rows r s d.1 r_later s_later e
  ]
]

-- An id of a list of rows is the id of one of them.
pub row_ids-mem :
    (rows : List Row) (id : String) → Memᴰ id (row_ids rows) → (r : Row) × Memᴰ r rows × (r.id ≡ id)
row_ids-mem [] id m = absurd (Memᴰ.not-nil m)
row_ids-mem (x ∷ rows) id m = elim (Memᴰ.cases_cons m) [
  | inl e ↦ (x, Memᴰ.head refl, sym e)
  | inr later ↦ let (r, at, own) = row_ids-mem rows id later in (r, Memᴰ.tail at, own)
]

-- A row that fails the filter is not in the snapshot, and neither is another row of its id.
pub not-scanned :
    (test : Row → Bool) (rows : List Row) (id : String) (r : Row)
    → Distinct (row_ids rows)
    → find_unique rows id ≡ some r
    → test r ≡ false
    → ¬ Memᴰ id (row_ids (keep test rows))
not-scanned test rows id r d found failed m =
    let (s, at, own) = row_ids-mem (keep test rows) id m in
    let (there, passed) = (mem-keep test s rows).0 at in
    let same : s ≡ r =
      row_unique rows s r d there (find_unique-mem rows id r found)
        (own ∙ sym (find_unique-id rows id r found)) in
    cc (passed, failed, ap test same)

pub scanned :
    (test : Row → Bool) (rows : List Row) (id : String) (r : Row)
    → find_unique rows id ≡ some r
    → test r ≡ true
    → Memᴰ r (keep test rows)
scanned test rows id r found passed =
    (mem-keep test r rows).1 (find_unique-mem rows id r found, passed)

pub keep-keep :
    (test test' : Row → Bool) (rows : List Row)
    → keep test' (keep test rows) ≡ keep (λ r. test r && test' r) rows
keep-keep test test' [] = refl
keep-keep test test' (x ∷ rows) = ground (arith, keep-keep test test' rows)
