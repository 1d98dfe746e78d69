-- ===== src/Executions/Lifecycle/Effects.antt =====
-- What one operation does to the rows, in four forms.
pub mod Requests
pub mod Background
pub mod Sweeps
use mathlib.Core.List.Memᴰ
use composer.Base.{
  ap, ℕ, suc, String, ◌≡◌, refl, Bool, true, false, not, ◌&&◌, ◌||◌, Option, none, some, List, [],
  ◌∷◌, ◌++◌, keep, mem-keep, Memᴰ, Distinct, contains, contains_iff, all, ◌==◌, eq_iff,
  if◌then◌else◌, arith, Bool-cases, Option-cases, ◌⊎◌, inl, inr, sym, subst, ◌∙◌,
}
use composer.Executions.Store.{Status, Row, Store, is_active, find_unique, update_many, update}
use composer.Executions.Store.Queries.{
  row_ids, KeepsId, updated, find_unique-update_many, find_unique-id, row_ids-update_many,
}
use composer.Executions.Sweeper.Scan.{find_unique-mem, row_unique}
use composer.Executions.Creating.{existing_for}
use composer.Executions.Lifecycle.{Move, run_again, cancel_it, fail_it}
use composer.Executions.Lifecycle.Keys.{
  Key, key_of, keys, clash, IsKeyed, KeepsKey, keys-update_many, keep-IsKeyed, append-IsKeyed,
}

-- Updates of rows that are in the table, each along the abstract machine.
pub data Change : List Row → List Row → Type 0 where
  same : {rows : List Row} → Change rows rows
  changed :
      {rows : List Row} (test : Row → Bool) (change : Row → Row)
      → KeepsKey change
      → ((r : Row) → Memᴰ r rows → test r ≡ true → Move r.status (change r).status)
      → Change rows (update_many test change rows).1
  also : {rows mid after : List Row} → Change rows mid → Change mid after → Change rows after

pub data Effect (rows after : List Row) : Type 0 where
  changes : Change rows after → Effect rows after
  deletes : (test : Row → Bool) → after ≡ keep test rows → Effect rows after
  adds :
      (new : Row)
      → find_unique rows new.id ≡ none
      → existing_for new.idempotency_key new.workflow_id rows ≡ none
      → after ≡ rows ++ new ∷ []
      → Effect rows after

Change-keys : {rows after : List Row} → Change rows after → keys after ≡ keys rows
Change-keys same = refl
Change-keys {rows} (changed test change keeps moves) = keys-update_many test change rows keeps
Change-keys (also first second) = Change-keys second ∙ Change-keys first

pub Effect-IsKeyed :
    {rows after : List Row} → Effect rows after → IsKeyed (keys rows) → IsKeyed (keys after)
Effect-IsKeyed (changes c) h = subst IsKeyed (sym (Change-keys c)) h
Effect-IsKeyed {rows} (deletes test e) h =
    subst (λ rs. IsKeyed (keys rs)) (sym e) (keep-IsKeyed test rows h)
Effect-IsKeyed {rows} (adds new fresh free e) h =
    subst (λ rs. IsKeyed (keys rs)) (sym e) (append-IsKeyed rows new fresh free h)

apart_ids :
    (k : String) (rows : List Row) (r : Row)
    → all (λ j. not (clash (key_of r) j)) (keys rows) ≡ true
    → r.id ≡ k
    → ¬ Memᴰ k (row_ids rows)
apart_ids k [] r h e m = Memᴰ.not-nil m
apart_ids k (x ∷ rows) r h e m = elim (Memᴰ.cases_cons m) [
  | inl first ↦ let hit = (eq_iff r.id x.id).1 (e ∙ first) in ground (arith, hit)
  | inr later ↦ apart_ids k rows r (ground arith) e later
]

-- Keyed rows have distinct ids.
pub IsKeyed-Distinct : (rows : List Row) → IsKeyed (keys rows) → Distinct (row_ids rows)
IsKeyed-Distinct [] h = tt
IsKeyed-Distinct (r ∷ rows) h = (apart_ids r.id rows r h.0 refl, IsKeyed-Distinct rows h.1)

pub from_active : {a b : Status} → Move a b → is_active a ≡ true
from_active (run_again h e) = h
from_active (cancel_it h e) = h
from_active (fail_it h e) = h

Move-trans : {a b c : Status} → Move a b → Move b c → Move a c
Move-trans m (run_again _ e) = run_again (from_active m) e
Move-trans m (cancel_it _ e) = cancel_it (from_active m) e
Move-trans m (fail_it _ e) = fail_it (from_active m) e

-- A row as it was, or moved on.
abbrev pub Moved : Row → Row → Type 0
Moved r r' = (r' ≡ r) ⊎ Move r.status r'.status

Moved-trans : (a b c : Row) → Moved a b → Moved b c → Moved a c
Moved-trans a b c (inl e) (inl e') = inl (e' ∙ e)
Moved-trans a b c (inl e) (inr m) = inr (subst (λ (x : Row). Move x.status c.status) e m)
Moved-trans a b c (inr m) (inl e) = inr (subst (λ (x : Row). Move a.status x.status) (sym e) m)
Moved-trans a b c (inr m) (inr n) = inr (Move-trans m n)

KeepsKey-KeepsId : (change : Row → Row) → KeepsKey change → KeepsId change
KeepsKey-KeepsId change keeps r = ap (λ (k : Key). k.id) (keeps r)

Change-Moved :
    {rows after : List Row}
    → Change rows after
    → (id : String) (r : Row) → find_unique rows id ≡ some r
    → (r' : Row) × (find_unique after id ≡ some r') × Moved r r'
Change-Moved same id r found = (r, found, inl refl)
Change-Moved (also first second) id r found =
    let (m, at_mid, one) = Change-Moved first id r found in
    let (r', at_end, two) = Change-Moved second id m at_mid in
    (r', at_end, Moved-trans r m r' one two)
Change-Moved {rows} (changed test change keeps moves) id r found =
    let now =
      find_unique-update_many test change (KeepsKey-KeepsId change keeps) rows id
      ∙ ap (updated test change) found in
    elim (Bool-cases (test r)) [
      | inl hit ↦
          (change r, now ∙ ground (arith, hit), inr (moves r (find_unique-mem rows id r found) hit))
      | inr miss ↦ (r, now ∙ ground (arith, miss), inl refl)
    ]

find_unique-keep :
    (test : Row → Bool) (rows : List Row) (id : String) (r r' : Row)
    → Distinct (row_ids rows)
    → find_unique rows id ≡ some r
    → find_unique (keep test rows) id ≡ some r'
    → r' ≡ r
find_unique-keep test rows id r r' d found found' =
    let (there, hit) = (mem-keep test r' rows).0 (find_unique-mem (keep test rows) id r' found') in
    row_unique rows r' r d there (find_unique-mem rows id r found)
      (find_unique-id (keep test rows) id r' found' ∙ sym (find_unique-id rows id r found))

find_unique-added :
    (rows : List Row) (new : Row) (id : String) (r : Row)
    → find_unique rows id ≡ some r
    → find_unique (rows ++ new ∷ []) id ≡ some r
unfolding find_unique
find_unique-added [] new id r h = cc
find_unique-added (x ∷ rows) new id r h = ground (arith, find_unique-added rows new id r)

-- A row that an operation leaves in the table is as it was, or has moved on.
pub Effect-Moved :
    {rows after : List Row}
    → Effect rows after
    → Distinct (row_ids rows)
    → (id : String) (r r' : Row) → find_unique rows id ≡ some r
    → find_unique after id ≡ some r'
    → Moved r r'
Effect-Moved (changes c) d id r r' found found' =
    let (m, at_m, moved) = Change-Moved c id r found in
    let e : m ≡ r' = cc (at_m, found') in subst (λ x. Moved r x) e moved
Effect-Moved {rows} (deletes test e) d id r r' found found' = inl (
    find_unique-keep test rows id r r' d found (subst (λ rs. find_unique rs id ≡ some r') e found'))
Effect-Moved {rows} (adds new fresh free e) d id r r' found found' =
    let still = find_unique-added rows new id r found in
    inl (cc (still, subst (λ rs. find_unique rs id ≡ some r') e found'))

pub Change-row_ids : {rows after : List Row} → Change rows after → row_ids after ≡ row_ids rows
Change-row_ids same = refl
Change-row_ids {rows} (changed test change keeps moves) =
    row_ids-update_many test change (KeepsKey-KeepsId change keeps) rows
Change-row_ids (also first second) = Change-row_ids second ∙ Change-row_ids first

-- An update by id alone, of a row that may move on so.
pub update-Change :
    (id : String) (change : Row → Row) (rows : List Row) (r : Row)
    → Distinct (row_ids rows)
    → KeepsKey change
    → find_unique rows id ≡ some r
    → Move r.status (change r).status
    → Change rows (update id change rows)
unfolding update
update-Change id change rows r d keeps found move =
    changed (λ x. x.id == id) change keeps
      (λ x m h.
        let same_row : x ≡ r =
          row_unique rows x r d m (find_unique-mem rows id r found)
            ((eq_iff x.id id).0 h ∙ sym (find_unique-id rows id r found)) in
        subst (λ (y : Row). Move y.status (change y).status) (sym same_row) move)
