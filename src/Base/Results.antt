-- ===== src/Base/Results.antt =====
-- Code that raises returns a `Result`: a value, or the exception.
use mathlib.Core.Path.{◌≡◌, refl}

pub data Result {ℓ} (E A : Type ℓ) : Type ℓ where
  ok : A → Result E A
  err : E → Result E A

infixl 5 ◌>>=◌ ◌>>◌
abbrev pub ◌>>=◌ {ℓ} : {E A B : Type ℓ} → Result E A → (A → Result E B) → Result E B
err raised >>= next = err raised
ok value >>= next = next value

abbrev pub ◌>>◌ {ℓ} : {E A B : Type ℓ} → Result E A → Result E B → Result E B
first >> second = first >>= λ _. second

-- A chain that returns has passed its first step.
pub >>=-eq-ok {ℓ} :
    {E A B : Type ℓ} (first : Result E A) (next : A → Result E B) {out : B}
    → (first >>= next) ≡ ok out
    → (value : A) × (first ≡ ok value) × (next value ≡ ok out)
>>=-eq-ok (err raised) next returned = cc
>>=-eq-ok (ok value) next returned = (value, refl, returned)

pub >>-eq-ok {ℓ} :
    {E A B : Type ℓ} (first : Result E A) (second : Result E B) {out : B}
    → (first >> second) ≡ ok out
    → (value : A) × (first ≡ ok value) × (second ≡ ok out)
>>-eq-ok (err raised) second returned = cc
>>-eq-ok (ok value) second returned = (value, refl, returned)
