-- ===== src/Substitution/Resolve/Correct.antt =====
-- What a template renders to.
use Prim.Native.Char.{Char}
use composer.Base.{
  String, ◌≡◌, refl, true, Option-cases, List, [], ◌∷◌, ◌++◌, Memᴰ, contains, inl, inr, sym, subst,
}
use composer.Value.{Value}
use composer.Substitution.Scan.{Chars, chars, Piece, plain, hole, scan}
use composer.Substitution.Scan.Correct.{Pieces, chars-pack, scan_correct}
use composer.Substitution.Resolve.{
  strip, segments_of, unsafe_segments, Roots, look_up, literal, text_of, resolve, render,
  substitute,
}
use composer.Substitution.Resolve.Named.{Names, look_up_sound, look_up_complete, Names-safe}

pub resolve-literal :
    (dumps : Value → String) (roots : Roots) (path : Chars)
    → ((value : Value) → ¬ Names roots (segments_of path) value)
    → resolve dumps roots path ≡ literal path
unfolding resolve
resolve-literal dumps roots path none_named =
    elim (Option-cases (look_up roots (segments_of path))) [
      | inl missing ↦ rw (missing, resolve) refl
      | inr (value, found) ↦ absurd (none_named value (look_up_sound roots _ value found))
    ]

pub resolve-value :
    (dumps : Value → String) (roots : Roots) (path : Chars) (value : Value)
    → Names roots (segments_of path) value
    → resolve dumps roots path ≡ chars (text_of dumps value)
unfolding resolve
resolve-value dumps roots path value named = rw (look_up_complete named, resolve) refl

-- A path one of whose segments is unsafe stays the literal placeholder, whatever the state holds.
pub resolve_unsafe :
    (dumps : Value → String) (roots : Roots) (path : Chars) (segment : String)
    → Memᴰ segment (segments_of path)
    → contains unsafe_segments segment ≡ true
    → resolve dumps roots path ≡ literal path
resolve_unsafe dumps roots path segment m unsafe =
    resolve-literal dumps roots path (λ value named. cc (Names-safe segment named m, unsafe))

-- The text of a list of pieces: a placeholder is the text of the value that its stripped path names, or the
-- literal with the stripped path where it names none.
pub data Rendered (dumps : Value → String) (roots : Roots) : List Piece → Chars → Type 0 where
  done : Rendered dumps roots [] []
  kept :
      (c : Char) {pieces : List Piece} {out : Chars}
      → Rendered dumps roots pieces out
      → Rendered dumps roots (plain c ∷ pieces) (c ∷ out)
  replaced :
      (body : Chars) (value : Value) {pieces : List Piece} {out : Chars}
      → Names roots (segments_of (strip body)) value
      → Rendered dumps roots pieces out
      → Rendered dumps roots (hole body ∷ pieces) (chars (text_of dumps value) ++ out)
  unresolved :
      (body : Chars) {pieces : List Piece} {out : Chars}
      → ((value : Value) → ¬ Names roots (segments_of (strip body)) value)
      → Rendered dumps roots pieces out
      → Rendered dumps roots (hole body ∷ pieces) (literal (strip body) ++ out)

render_correct :
    (dumps : Value → String) (roots : Roots) (pieces : List Piece)
    → Rendered dumps roots pieces (render dumps roots pieces)
unfolding render
render_correct dumps roots [] = done
render_correct dumps roots (plain c ∷ pieces) = kept c (render_correct dumps roots pieces)
render_correct dumps roots (hole body ∷ pieces) =
    let later = render_correct dumps roots pieces in
    elim (Option-cases (look_up roots (segments_of (strip body)))) [
      | inl missing ↦
          let free = λ (value : Value) (named : Names roots (segments_of (strip body)) value).
            let clash : ⊥ = cc (missing, look_up_complete named) in clash in
          subst (λ t. Rendered dumps roots (hole body ∷ pieces) (t ++ render dumps roots pieces))
            (sym (resolve-literal dumps roots (strip body) free)) (unresolved body free later)
      | inr (value, found) ↦
          let named = look_up_sound roots _ value found in
          subst (λ t. Rendered dumps roots (hole body ∷ pieces) (t ++ render dumps roots pieces))
            (sym (resolve-value dumps roots (strip body) value named))
            (replaced body value named later)
    ]

-- A template is rendered piece by piece: its characters outside of placeholders are kept, and a placeholder
-- is replaced by the text of the value that its path names, or else by the literal with its path stripped.
-- What a path names is the value under its keys in the variables, or after `state` in the variables or the
-- node results, by keys that are not unsafe and lead to no None.
pub substitute_correct :
    (dumps : Value → String) (roots : Roots) (template : String)
    → (pieces : List Piece) × Pieces (chars template) pieces
      × Rendered dumps roots pieces (chars (substitute dumps roots template))
unfolding substitute
substitute_correct dumps roots template =
    let pieces = scan (chars template) 0 in
    (
      pieces,
      (scan_correct (chars template) pieces).1 refl,
      subst (Rendered dumps roots pieces) (sym (chars-pack (render dumps roots pieces)))
          (render_correct dumps roots pieces),
    )
