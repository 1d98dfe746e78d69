-- ===== src/Base/Dict.antt =====
-- Python's `dict` with text keys, as an association list in insertion order.
use composer.Base.Tests.{if◌then◌else◌}
use mathlib.Core.Path.{◌≡◌, refl}
use Prim.Native.String.{String}
use mathlib.Core.Option.{Option, none, some}
use mathlib.Core.List.{List, [], ◌∷◌}
use native.Mathlib.Omega.{arith}
use text.Mathlib.Text.{◌==◌}
use text.Mathlib.TextEquality.{eq_iff}

abbrev pub Dict {ℓ} : Type ℓ → Type ℓ
Dict V = List (String × V)

module _ {ℓ} {V : Type ℓ} where
  -- `d.get(k)`
  unfoldable pub get : Dict V → String → Option V
  get [] k = none
  get ((j, v) ∷ d) k = if j == k then some v else get d k

  -- `d[k] = v`
  unfoldable pub put : Dict V → String → V → Dict V
  put [] k v = (k, v) ∷ []
  put ((j, w) ∷ d) k v = if j == k then (j, v) ∷ d else (j, w) ∷ put d k v

  -- `d.pop(k, None)`
  unfoldable pub remove : Dict V → String → Dict V
  remove [] k = []
  remove ((j, w) ∷ d) k = let rest = remove d k in if j == k then rest else (j, w) ∷ rest

  -- `{**left, **right}`
  unfoldable pub merge : Dict V → Dict V → Dict V
  unfolding put
  merge left [] = left
  merge left ((k, v) ∷ right) = merge (put left k v) right

  pub get-put :
      (dict : Dict V) (key asked : String) (value : V)
      → get (put dict key value) asked ≡ (if key == asked then some value else get dict asked)
  unfolding get put
  get-put [] key asked value = refl
  get-put ((i, w) ∷ dict) key asked value =
      ground (arith, eq_iff key asked, eq_iff i key, eq_iff i asked, get-put dict key asked value)

  pub get-remove :
      (dict : Dict V) (key asked : String)
      → get (remove dict key) asked ≡ (if key == asked then none else get dict asked)
  unfolding get remove
  get-remove [] key asked = ground arith
  get-remove ((i, w) ∷ dict) key asked =
      ground (arith, get-remove dict key asked, eq_iff i key, eq_iff i asked, eq_iff key asked)
