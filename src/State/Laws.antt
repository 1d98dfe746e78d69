-- ===== src/State/Laws.antt =====
-- The shallow merge of src/engine/state.py, key by key.
use composer.Base.{String, ◌≡◌, refl, Option, none, some, arith, ◌==◌, eq_iff, if◌then◌else◌}
use composer.Value.{Value, Fields, empty, field, field_at, set_field, merge_fields}

pub field_at-set_field :
    (fs : Fields) (k j : String) (v : Value)
    → field_at (set_field fs k v) j ≡ (if k == j then some v else field_at fs j)
unfolding field_at set_field
field_at-set_field empty k j v = refl
field_at-set_field (field i w fs) k j v =
    ground (arith, eq_iff k j, eq_iff i k, eq_iff i j, field_at-set_field fs k j v)

-- The last binding of a key among the fields.
abbrev pub last_at : Fields → String → Option Value
last_at empty j = none
last_at (field k v fs) j = elim (last_at fs j) [
  | none ↦ if k == j then some v else none
  | some w ↦ some w
]

abbrev pub or_else : Option Value → Option Value → Option Value
or_else none o = o
or_else (some v) o = some v

-- After a merge every key reads as the right side has it, and as the left side had it where the
-- right side has no such key.
pub field_at-merge_fields :
    (left right : Fields) (j : String)
    → field_at (merge_fields left right) j ≡ or_else (last_at right j) (field_at left j)
unfolding merge_fields
field_at-merge_fields left empty j = refl
field_at-merge_fields left (field k v rest) j =
    ground (arith, field_at-merge_fields (set_field left k v) rest j, field_at-set_field left k j v)
