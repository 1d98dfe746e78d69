-- ===== src/Substitution/Resolve/Unchanged.antt =====
-- Values without references.
use composer.Base.{ap, String, ◌≡◌, refl, List, [], ◌∷◌, append-eq-nil, ◌∙◌}
use composer.Value.{Value, null, bool, int, text, arr, obj, Fields, empty, field, Items, nil, cons}
use composer.Substitution.Scan.{chars, pack, Piece, plain, hole, scan}
use composer.Substitution.Scan.Correct.{pack-chars, scan_correct, sources, Pieces-sources}
use composer.Substitution.Resolve.{
  Roots, render, substitute, substitute_in_value, substitute_in_fields, substitute_in_items,
}
use composer.Substitution.Validation.{bodies, extract_references, field_references, item_references}

render-sources :
    (dumps : Value → String) (roots : Roots) (pieces : List Piece)
    → bodies pieces ≡ []
    → render dumps roots pieces ≡ sources pieces
unfolding render bodies
render-sources dumps roots [] h = refl
render-sources dumps roots (plain c ∷ pieces) h =
    ap (λ s. c ∷ s) (render-sources dumps roots pieces h)
render-sources dumps roots (hole body ∷ pieces) h = cc

substitute_unreferenced :
    (dumps : Value → String) (roots : Roots) (s : String)
    → bodies (scan (chars s) 0) ≡ []
    → substitute dumps roots s ≡ s
unfolding substitute
substitute_unreferenced dumps roots s h =
    ap pack (
      render-sources dumps roots (scan (chars s) 0) h
      ∙ Pieces-sources ((scan_correct (chars s) (scan (chars s) 0)).1 refl))
    ∙ pack-chars s

mutual
  unfolding substitute_in_value extract_references

  value_unreferenced :
      (dumps : Value → String) (roots : Roots) (value : Value)
      → extract_references value ≡ []
      → substitute_in_value dumps roots value ≡ value
  value_unreferenced dumps roots (text s) h = ap text (substitute_unreferenced dumps roots s h)
  value_unreferenced dumps roots (obj fields) h = ap obj (fields_unreferenced dumps roots fields h)
  value_unreferenced dumps roots (arr items) h = ap arr (items_unreferenced dumps roots items h)
  value_unreferenced dumps roots null h = refl
  value_unreferenced dumps roots (bool b) h = refl
  value_unreferenced dumps roots (int n) h = refl

  fields_unreferenced :
      (dumps : Value → String) (roots : Roots) (fields : Fields)
      → field_references fields ≡ []
      → substitute_in_fields dumps roots fields ≡ fields
  fields_unreferenced dumps roots empty h = refl
  fields_unreferenced dumps roots (field key value rest) h =
      let (own, others) = (append-eq-nil (extract_references value) (field_references rest)).0 h in
      cc (value_unreferenced dumps roots value own, fields_unreferenced dumps roots rest others)

  items_unreferenced :
      (dumps : Value → String) (roots : Roots) (items : Items)
      → item_references items ≡ []
      → substitute_in_items dumps roots items ≡ items
  items_unreferenced dumps roots nil h = refl
  items_unreferenced dumps roots (cons item rest) h =
      let (own, others) = (append-eq-nil (extract_references item) (item_references rest)).0 h in
      cc (value_unreferenced dumps roots item own, items_unreferenced dumps roots rest others)

-- A value in which the validation finds no reference is left as it is by the substitution.
pub substitute_in_value_unreferenced :
    (dumps : Value → String) (roots : Roots) (value : Value)
    → extract_references value ≡ []
    → substitute_in_value dumps roots value ≡ value
substitute_in_value_unreferenced = value_unreferenced
