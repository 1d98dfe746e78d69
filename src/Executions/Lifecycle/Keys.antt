-- ===== src/Executions/Lifecycle/Keys.antt =====
-- The unique columns of the table: the id, and the workflow with the idempotency key.
use composer.Base.{
  String, ◌≡◌, refl, Bool, true, false, not, ◌&&◌, ◌||◌, Option, none, some, List, [], ◌∷◌, ◌++◌,
  map, all, keep, ◌==◌, arith, Bool-cases, Option-cases, inl, inr,
}
use composer.Executions.Store.{Row, Store, find_unique, update_many, update}
use composer.Executions.Creating.{has_key, find_by_idempotency_key, existing_for}

-- The columns of a row that a unique constraint names.
pub record Key : Type 0 where
  pub id : String
  pub workflow_id : String
  pub idempotency_key : Option String

abbrev pub key_of : Row → Key
key_of r = record { id = r.id; workflow_id = r.workflow_id; idempotency_key = r.idempotency_key }

abbrev pub keys : List Row → List Key
keys = map key_of

abbrev pub same_text : Option String → Option String → Bool
same_text none b = false
same_text (some a) none = false
same_text (some a) (some b) = a == b

-- Two rows that the constraints would not have beside each other; NULL keys do not clash.
abbrev pub clash : Key → Key → Bool
clash a b =
    a.id == b.id
    || (a.workflow_id == b.workflow_id && same_text a.idempotency_key b.idempotency_key)

abbrev pub IsKeyed : List Key → Type 0
IsKeyed [] = Unit
IsKeyed (k ∷ ks) = (all (λ j. not (clash k j)) ks ≡ true) × IsKeyed ks

abbrev pub IsWellFormed : Store → Type 0
IsWellFormed s = IsKeyed (keys s.rows)

abbrev pub KeepsKey : (Row → Row) → Type 0
KeepsKey change = (r : Row) → key_of (change r) ≡ key_of r

pub keys-update_many :
    (test : Row → Bool) (change : Row → Row) (rows : List Row)
    → KeepsKey change
    → keys (update_many test change rows).1 ≡ keys rows
unfolding update_many
keys-update_many test change [] keeps = refl
keys-update_many test change (r ∷ rows) keeps = elim (Bool-cases (test r)) [
  | inl hit ↦ rw (hit, keys-update_many test change rows keeps, keeps r)
  | inr miss ↦ rw (miss, keys-update_many test change rows keeps)
]

pub keys-update :
    (id : String) (change : Row → Row) (rows : List Row)
    → KeepsKey change
    → keys (update id change rows) ≡ keys rows
unfolding update
keys-update id change rows keeps = keys-update_many (λ r. r.id == id) change rows keeps

all-keys-keep :
    (k : Key) (test : Row → Bool) (rows : List Row)
    → all (λ j. not (clash k j)) (keys rows) ≡ true
    → all (λ j. not (clash k j)) (keys (keep test rows)) ≡ true
all-keys-keep k test [] h = refl
all-keys-keep k test (r ∷ rows) h = elim (Bool-cases (test r)) [
  | inl hit ↦ rw hit (ground (arith, all-keys-keep k test rows))
  | inr miss ↦ rw miss (ground (arith, all-keys-keep k test rows))
]

-- Deleting rows breaks no constraint.
pub keep-IsKeyed :
    (test : Row → Bool) (rows : List Row) → IsKeyed (keys rows) → IsKeyed (keys (keep test rows))
keep-IsKeyed test [] h = tt
keep-IsKeyed test (r ∷ rows) h = elim (Bool-cases (test r)) [
  | inl hit ↦ rw hit (all-keys-keep (key_of r) test rows h.0, keep-IsKeyed test rows h.1)
  | inr miss ↦ rw miss (keep-IsKeyed test rows h.1)
]

all-append-keys :
    (k : Key) (rows : List Row) (new : Row)
    → all (λ j. not (clash k j)) (keys rows) ≡ true
    → clash k (key_of new) ≡ false
    → all (λ j. not (clash k j)) (keys (rows ++ new ∷ [])) ≡ true
all-append-keys k [] new h apart = ground arith
all-append-keys k (r ∷ rows) new h apart = ground (arith, all-append-keys k rows new)

-- What the two lookups say of the first row and of the rest.
fresh_cons :
    (r : Row) (rows : List Row) (id : String)
    → find_unique (r ∷ rows) id ≡ none
    → ((r.id == id) ≡ false) × (find_unique rows id ≡ none)
unfolding find_unique
fresh_cons r rows id h = ground arith

free_cons :
    (key : Option String) (workflow_id : String) (r : Row) (rows : List Row)
    → existing_for key workflow_id (r ∷ rows) ≡ none
    → ((r.workflow_id == workflow_id && same_text r.idempotency_key key) ≡ false)
      × (existing_for key workflow_id rows ≡ none)
unfolding existing_for find_by_idempotency_key has_key
free_cons none workflow_id r rows h = elim (Option-cases r.idempotency_key) [
  | inl e ↦ rw e (ground arith, refl)
  | inr (k, e) ↦ rw e (ground arith, refl)
]
free_cons (some key) workflow_id r rows h = elim (Option-cases r.idempotency_key) [
  | inl e ↦ ground arith
  | inr (k, e) ↦ ground arith
]

-- A row that neither constraint rejects may be added.
pub append-IsKeyed :
    (rows : List Row) (new : Row)
    → find_unique rows new.id ≡ none
    → existing_for new.idempotency_key new.workflow_id rows ≡ none
    → IsKeyed (keys rows)
    → IsKeyed (keys (rows ++ new ∷ []))
append-IsKeyed [] new fresh free h = (refl, tt)
append-IsKeyed (r ∷ rows) new fresh free h =
    let (other, fresh') = fresh_cons r rows new.id fresh in
    let (unkeyed, free') = free_cons new.idempotency_key new.workflow_id r rows free in
    (
      all-append-keys (key_of r) rows new h.0 (ground arith),
      append-IsKeyed rows new fresh' free' h.1,
    )
