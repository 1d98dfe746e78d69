-- ===== src/Substitution/Scan.antt =====
-- The matches of `\{\{([^}]+)\}\}` in a text, as `re.sub` and `finditer` find them: from the left, without
-- overlap. Texts are lists of characters here.
pub mod Correct
use Prim.Native.Char.{Char, code}
use Prim.Native.String as Text
use composer.Base.{
  ℕ, zero, suc, String, Bool, true, false, not, ◌&&◌, Option, none, some, List, [], ◌∷◌, ◌++◌,
  length, ◌+◌, eqb, if◌then◌else◌,
}

abbrev pub Chars : Type 0
Chars = List Char

abbrev pub chars : String → Chars
chars Text.[] = []
chars (Text.◌∷◌ c s) = c ∷ chars s

abbrev pub pack : Chars → String
pack [] = Text.[]
pack (c ∷ s) = Text.◌∷◌ c (pack s)

abbrev pub same : Char → Char → Bool
same c d = eqb (code c) (code d)

-- `[^}]+`, which takes all that it can.
unfoldable pub body_of : Chars → Chars
body_of [] = []
body_of (c ∷ s) = let rest = body_of s in if same c "}" then [] else c ∷ rest

unfoldable pub after_body : Chars → Chars
after_body [] = []
after_body (c ∷ s) = let rest = after_body s in if same c "}" then c ∷ s else rest

abbrev pub is_nil : Chars → Bool
is_nil [] = true
is_nil (c ∷ s) = false

abbrev pub closes : Chars → Bool
closes [] = false
closes (a ∷ []) = false
closes (a ∷ b ∷ s) = same a "}" && same b "}"

unfoldable pub match_body : Chars → Option Chars
unfolding body_of after_body
match_body s = if closes (after_body s) && not (is_nil (body_of s)) then some (body_of s) else none

-- The match that starts here: its group.
unfoldable pub match_here : Chars → Option Chars
unfolding match_body
match_here [] = none
match_here (a ∷ []) = none
match_here (a ∷ b ∷ s) = if same a "{" && same b "{" then match_body s else none

-- A text is characters outside of the matches, and the groups of the matches.
pub data Piece : Type 0 where
  plain : Char → Piece
  hole : Chars → Piece

-- The number is how many characters of the last match are left.
unfoldable pub scan : Chars → ℕ → List Piece
unfolding match_here
scan [] left = []
scan (c ∷ s) (suc left) = scan s left
scan (c ∷ s) zero = elim (match_here (c ∷ s)) [
  | none ↦ plain c ∷ scan s 0
  | some body ↦ hole body ∷ scan s (length body + 3)
]
