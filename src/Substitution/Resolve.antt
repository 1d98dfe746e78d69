-- ===== src/Substitution/Resolve.antt =====
-- Placeholders replaced by values: src/variable_substitution.py. `json.dumps` is an argument.
pub mod Named
pub mod Correct
pub mod Unchanged
use Prim.Native.Char.{Char, code}
use composer.Base.{
  String, Bool, true, false, ◌&&◌, ◌||◌, Option, none, some, List, [], ◌∷◌, ◌++◌, map, contains,
  eqb, leb, ◌==◌, if◌then◌else◌,
}
use composer.Value.{
  Value, null, bool, int, text, arr, obj, Fields, empty, field, Items, nil, cons, field_at,
}
use composer.Substitution.Scan.{Chars, chars, pack, same, is_nil, Piece, plain, hole, scan}

-- What `str.strip()` removes.
abbrev pub is_space : Char → Bool
is_space c =
    (leb 9 (code c) && leb (code c) 13)
    || (leb 28 (code c) && leb (code c) 32)
    || eqb (code c) 133
    || eqb (code c) 160
    || eqb (code c) 5760
    || (leb 8192 (code c) && leb (code c) 8202)
    || eqb (code c) 8232
    || eqb (code c) 8233
    || eqb (code c) 8239
    || eqb (code c) 8287
    || eqb (code c) 12288

unfoldable pub strip_left : (Char → Bool) → Chars → Chars
strip_left test [] = []
strip_left test (c ∷ s) = let rest = strip_left test s in if test c then rest else c ∷ s

unfoldable pub strip_right : (Char → Bool) → Chars → Chars
strip_right test [] = []
strip_right test (c ∷ s) =
    let rest = strip_right test s in if test c && is_nil rest then [] else c ∷ rest

-- `str.strip`, of the characters that a test accepts.
unfoldable pub strip_by : (Char → Bool) → Chars → Chars
unfolding strip_left strip_right
strip_by test s = strip_right test (strip_left test s)

unfoldable pub strip : Chars → Chars
unfolding strip_by
strip s = strip_by is_space s

abbrev pub onto_first : Char → List Chars → List Chars
onto_first c [] = (c ∷ []) ∷ []
onto_first c (s ∷ rest) = (c ∷ s) ∷ rest

-- `path.split(".")`, which is never empty.
unfoldable pub split_dots : Chars → List Chars
split_dots [] = [] ∷ []
split_dots (c ∷ s) = let rest = split_dots s in if same c "." then [] ∷ rest else onto_first c rest

unfoldable pub segments_of : Chars → List String
unfolding split_dots
segments_of path = map pack (split_dots path)

abbrev pub unsafe_segments : List String
unsafe_segments =
    "__proto__" ∷ "constructor" ∷ "prototype" ∷ "__class__" ∷ "__dict__" ∷ "__globals__"
    ∷ "__builtins__" ∷ "__subclasses__" ∷ []

-- The two dicts of the state that a path can start at.
pub record Roots : Type 0 where
  pub variables : Fields
  pub node_results : Fields

-- None, where the key is missing or its value is None, and where the current value is no dict.
abbrev pub present : Option Value → Option Value
present none = none
present (some null) = none
present (some value) = some value

abbrev pub child : Value → String → Option Value
child (obj fields) segment = present (field_at fields segment)
child _ segment = none

unfoldable pub walk : Value → List String → Option Value
unfolding field_at
walk current [] = some current
walk current (segment ∷ rest) =
    if contains unsafe_segments segment
    then none
    else elim (child current segment) [ none ↦ none | some next ↦ walk next rest ]

unfoldable pub walk_explicit : Roots → List String → Option Value
unfolding walk
walk_explicit roots [] = none
walk_explicit roots (root ∷ []) = none
walk_explicit roots (root ∷ segment ∷ rest) =
    if root == "variables"
    then walk (obj roots.variables) (segment ∷ rest)
    else if root == "nodeResults"
    then walk (obj roots.node_results) (segment ∷ rest)
    else none

unfoldable pub look_up : Roots → List String → Option Value
unfolding walk_explicit
look_up roots [] = none
look_up roots (first ∷ rest) =
    if first == "state" then walk_explicit roots rest else walk (obj roots.variables) (first ∷ rest)

abbrev pub literal : Chars → Chars
literal path = "{" ∷ "{" ∷ (path ++ "}" ∷ "}" ∷ [])

abbrev pub text_of : (Value → String) → Value → String
text_of dumps (text t) = t
text_of dumps value = dumps value

unfoldable pub resolve : (Value → String) → Roots → Chars → Chars
unfolding look_up segments_of
resolve dumps roots path = elim (look_up roots (segments_of path)) [
  | none ↦ literal path
  | some value ↦ chars (text_of dumps value)
]

unfoldable pub render : (Value → String) → Roots → List Piece → Chars
unfolding resolve strip
render dumps roots [] = []
render dumps roots (plain c ∷ pieces) = c ∷ render dumps roots pieces
render dumps roots (hole body ∷ pieces) =
    resolve dumps roots (strip body) ++ render dumps roots pieces

unfoldable pub substitute : (Value → String) → Roots → String → String
unfolding render scan
substitute dumps roots template = pack (render dumps roots (scan (chars template) 0))

unfoldable mutual
  unfolding substitute

  pub substitute_in_value : (Value → String) → Roots → Value → Value
  substitute_in_value dumps roots (text s) = text (substitute dumps roots s)
  substitute_in_value dumps roots (obj fields) = obj (substitute_in_fields dumps roots fields)
  substitute_in_value dumps roots (arr items) = arr (substitute_in_items dumps roots items)
  substitute_in_value dumps roots null = null
  substitute_in_value dumps roots (bool b) = bool b
  substitute_in_value dumps roots (int n) = int n

  pub substitute_in_fields : (Value → String) → Roots → Fields → Fields
  substitute_in_fields dumps roots empty = empty
  substitute_in_fields dumps roots (field key value rest) =
      field key (substitute_in_value dumps roots value) (substitute_in_fields dumps roots rest)

  pub substitute_in_items : (Value → String) → Roots → Items → Items
  substitute_in_items dumps roots nil = nil
  substitute_in_items dumps roots (cons item rest) =
      cons (substitute_in_value dumps roots item) (substitute_in_items dumps roots rest)
