-- ===== src/Value.antt =====
-- JSON-like values of the workflow state, and Python's reading of them.
use composer.Base.{
  ℕ, zero, suc, String, Bool, true, false, not, Option, none, some, ◌==◌, if◌then◌else◌,
}

-- `negsuc n` is -(n + 1). Floats are not modelled.
pub data ℤ : Type 0 where
  pos : ℕ → ℤ
  negsuc : ℕ → ℤ

mutual
  pub data Value : Type 0 where
    null : Value
    bool : Bool → Value
    int : ℤ → Value
    text : String → Value
    obj : Fields → Value
    arr : Items → Value

  -- A dict, in insertion order.
  pub data Fields : Type 0 where
    empty : Fields
    field : String → Value → Fields → Fields

  pub data Items : Type 0 where
    nil : Items
    cons : Value → Items → Items

-- `bool(value)`
abbrev pub truthy : Value → Bool
truthy null = false
truthy (bool b) = b
truthy (int (pos zero)) = false
truthy (int (pos (suc n))) = true
truthy (int (negsuc n)) = true
truthy (text s) = not (s == "")
truthy (arr nil) = false
truthy (arr (cons _ _)) = true
truthy (obj empty) = false
truthy (obj (field _ _ _)) = true

-- `fields.get(key)`; `none` when the key is missing.
unfoldable pub field_at : Fields → String → Option Value
field_at empty key = none
field_at (field k v rest) key = if k == key then some v else field_at rest key

-- `fields[key] = value`
unfoldable pub set_field : Fields → String → Value → Fields
set_field empty key value = field key value empty
set_field (field k v rest) key value =
    if k == key then field k value rest else field k v (set_field rest key value)

-- `{**left, **right}`
unfoldable pub merge_fields : Fields → Fields → Fields
unfolding set_field
merge_fields left empty = left
merge_fields left (field k v rest) = merge_fields (set_field left k v) rest

-- `isinstance(value, str) and value == s`
abbrev pub is_text : Option Value → String → Bool
is_text (some (text t)) s = t == s
is_text _ s = false
