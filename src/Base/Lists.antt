-- ===== src/Base/Lists.antt =====
-- Lists measured by native numbers, Boolean tests over lists, and Python's `in` on texts.
use Prim.Native.Nat.{ℕ, suc, ◌+◌}
use Prim.Native.String.{String}
use mathlib.Core.Path.{◌≡◌, refl, ap}
use mathlib.Core.Logic.{◌↔◌, ◌⊎◌, inl, inr, ⊎_elim}
use mathlib.Core.Bool.{Bool, true, false, ◌&&◌, ◌||◌}
use mathlib.Core.Option.{Option, none, some}
use mathlib.Core.List.{List, [], ◌∷◌, ◌++◌, Memᴰ}
use mathlib.Core.List.Memᴰ
use native.Mathlib.Omega.{arith}
use text.Mathlib.Text.{◌==◌}
use text.Mathlib.TextEquality.{eq_iff}
use composer.Base.Tests.{if◌then◌else◌, Bool-cases}

module _ {ℓ} {A : Type ℓ} where
  abbrev pub length : List A → ℕ
  length [] = 0
  length (x ∷ xs) = suc (length xs)

  pub length-append : (xs ys : List A) → length (xs ++ ys) ≡ length xs + length ys
  length-append [] ys = omega arith
  length-append (x ∷ xs) ys = omega (arith, length-append xs ys)

  pub List-cases : (xs : List A) → (xs ≡ []) ⊎ ((x : A) × (rest : List A) × (xs ≡ x ∷ rest))
  List-cases [] = inl refl
  List-cases (x ∷ xs) = inr (x, xs, refl)

  pub Memᴰ-cons : (a x : A) (xs : List A) → Memᴰ a (x ∷ xs) ↔ ((a ≡ x) ⊎ Memᴰ a xs)
  Memᴰ-cons a x xs = (Memᴰ.cases_cons, ⊎_elim Memᴰ.head Memᴰ.tail)

  pub append-eq-nil : (xs ys : List A) → (xs ++ ys ≡ []) ↔ ((xs ≡ []) × (ys ≡ []))
  append-eq-nil [] ys = (λ h. (refl, h), λ h. h.1)
  append-eq-nil (x ∷ xs) ys = (λ h. cc, λ h. cc)

  -- `any(test(x) for x in xs)` and `all(...)`
  abbrev pub any : (A → Bool) → List A → Bool
  any test [] = false
  any test (x ∷ xs) = test x || any test xs

  abbrev pub all : (A → Bool) → List A → Bool
  all test [] = true
  all test (x ∷ xs) = test x && all test xs

  -- `[x for x in xs if test(x)]`
  abbrev pub keep : (A → Bool) → List A → List A
  keep test [] = []
  keep test (x ∷ xs) = let rest = keep test xs in if test x then x ∷ rest else rest

  -- `next((x for x in xs if test(x)), None)`
  abbrev pub find : (A → Bool) → List A → Option A
  find test [] = none
  find test (x ∷ xs) = if test x then some x else find test xs

  -- `all(test(xs[i], xs[j]) for i in ... for j in range(i + 1, ...))`
  abbrev pub all_pairs : (A → A → Bool) → List A → Bool
  all_pairs test [] = true
  all_pairs test (x ∷ xs) = all (test x) xs && all_pairs test xs

  pub all_iff :
      (test : A → Bool) (xs : List A) → (all test xs ≡ true) ↔ ((x : A) → Memᴰ x xs → test x ≡ true)
  all_iff test [] = (λ _ x m. absurd (Memᴰ.not-nil m), λ _. refl)
  all_iff test (y ∷ xs) = (
    λ h x m. elim (Memᴰ.cases_cons m) [
      | inl e ↦ rw e (ground arith)
      | inr r ↦ (all_iff test xs).0 (ground arith) x r
    ],
    λ h. ground (arith, h y (Memᴰ.head refl), (all_iff test xs).1 (λ x m. h x (Memᴰ.tail m))),
  )

  pub any_iff :
      (test : A → Bool) (xs : List A)
      → (any test xs ≡ true) ↔ ((x : A) × Memᴰ x xs × (test x ≡ true))
  any_iff test [] = (λ h. cc, λ h. absurd (Memᴰ.not-nil h.1))
  any_iff test (y ∷ xs) = (
    λ h. elim (Bool-cases (test y)) [
      | inl e ↦ (y, Memᴰ.head refl, e)
      | inr e ↦ let (x, m, t) = (any_iff test xs).0 (ground arith) in (x, Memᴰ.tail m, t)
    ],
    λ (x, m, t). elim (Memᴰ.cases_cons m) [
      | inl e ↦ ground (arith, ap test e)
      | inr r ↦ ground (arith, (any_iff test xs).1 (x, r, t))
    ],
  )

  pub mem-keep :
      (test : A → Bool) (x : A) (xs : List A)
      → Memᴰ x (keep test xs) ↔ (Memᴰ x xs × (test x ≡ true))
  mem-keep test x [] = (λ m. absurd (Memᴰ.not-nil m), λ h. h.0)
  mem-keep test x (y ∷ xs) = ground (
    arith,
    mem-keep test x xs,
    Memᴰ-cons x y xs,
    Memᴰ-cons x y (keep test xs),
    λ (e : x ≡ y). ap test e,
  )

  pub keep-all :
      (test : A → Bool) (xs : List A) → ((x : A) → Memᴰ x xs → test x ≡ true) → keep test xs ≡ xs
  keep-all test [] h = refl
  keep-all test (x ∷ xs) h =
      ground (arith, h x (Memᴰ.head refl), keep-all test xs (λ y m. h y (Memᴰ.tail m)))

-- No text stands twice.
abbrev pub Distinct : List String → Type 0
Distinct [] = Unit
Distinct (x ∷ xs) = (¬ Memᴰ x xs) × Distinct xs

-- `a in xs`, for a set, a list or the keys of a dict of texts
abbrev pub contains : List String → String → Bool
contains [] a = false
contains (x ∷ xs) a = x == a || contains xs a

pub contains_iff : (xs : List String) (a : String) → (contains xs a ≡ true) ↔ Memᴰ a xs
contains_iff [] a = (λ h. cc, λ m. absurd (Memᴰ.not-nil m))
contains_iff (x ∷ xs) a = ground (arith, contains_iff xs a, Memᴰ-cons a x xs, eq_iff x a)

pub contains-append :
    (xs ys : List String) (a : String) → contains (xs ++ ys) a ≡ (contains xs a || contains ys a)
contains-append [] ys a = refl
contains-append (x ∷ xs) ys a = ground (arith, contains-append xs ys a)

module _ {ℓ κ} {A : Type ℓ} {B : Type κ} where
  -- `for x in xs: out.extend(f(x))`
  abbrev pub collect : (A → List B) → List A → List B
  collect f [] = []
  collect f (x ∷ xs) = f x ++ collect f xs

  pub collect-eq-nil :
      (f : A → List B) (xs : List A) → (collect f xs ≡ []) ↔ ((x : A) → Memᴰ x xs → f x ≡ [])
  collect-eq-nil f [] = (λ _ x m. absurd (Memᴰ.not-nil m), λ _. refl)
  collect-eq-nil f (y ∷ xs) = (
    λ h x m. elim (Memᴰ.cases_cons m) [
      | inl e ↦ rw e ((append-eq-nil (f y) _).0 h).0
      | inr r ↦ (collect-eq-nil f xs).0 ((append-eq-nil (f y) _).0 h).1 x r
    ],
    λ h.
        (append-eq-nil (f y) _).1
          (h y (Memᴰ.head refl), (collect-eq-nil f xs).1 (λ x m. h x (Memᴰ.tail m))),
  )

  pub mem-collect :
      (f : A → List B) (xs : List A) (b : B)
      → Memᴰ b (collect f xs)
      → (a : A) × Memᴰ a xs × Memᴰ b (f a)
  mem-collect f [] b m = absurd (Memᴰ.not-nil m)
  mem-collect f (x ∷ xs) b m = elim (Memᴰ.append_cases (f x) m) [
    | inl here ↦ (x, Memᴰ.head refl, here)
    | inr later ↦ let (a, at, here) = mem-collect f xs b later in (a, Memᴰ.tail at, here)
  ]
