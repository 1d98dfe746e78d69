-- ===== src/Builder/Entries.antt =====
-- The entries of a dict after its operations.
use mathlib.Core.List.Memᴰ
use composer.Base.{
  ap, String, ◌≡◌, refl, true, false, not, ◌&&◌, ◌||◌, some, [], ◌∷◌, Memᴰ, Distinct, contains_iff,
  ◌==◌, eq_iff, ◌⊎◌, inl, inr, Bool-cases, sym, subst, ◌∙◌, arith,
}
use composer.Base.Dict.{Dict, get, put, remove}
use composer.Builder.Tools.{keys, has}

module _ {V : Type 0} where
  pub mem-put :
      (dict : Dict V) (key : String) (value : V) (entry : String × V)
      → Memᴰ entry (put dict key value)
      → (entry ≡ (key, value)) ⊎ Memᴰ entry dict
  unfolding put
  mem-put [] key value entry m = elim (Memᴰ.cases_cons m) [
    | inl e ↦ inl e
    | inr r ↦ absurd (Memᴰ.not-nil r)
  ]
  mem-put ((j, w) ∷ dict) key value entry m = elim (Bool-cases (j == key)) [
    | inl same ↦ elim (Memᴰ.cases_cons (rw (same, put) at m)) [
      | inl e ↦ inl (e ∙ ap (λ k. (k, value)) ((eq_iff j key).0 same))
      | inr r ↦ inr (Memᴰ.tail r)
    ]
    | inr other ↦ elim (Memᴰ.cases_cons (rw (other, put) at m)) [
      | inl e ↦ inr (Memᴰ.head e)
      | inr r ↦ elim (mem-put dict key value entry r) [ inl e ↦ inl e | inr q ↦ inr (Memᴰ.tail q) ]
    ]
  ]

  pub put-mem_self :
      (dict : Dict V) (key : String) (value : V) → Memᴰ (key, value) (put dict key value)
  unfolding put
  put-mem_self [] key value = Memᴰ.head refl
  put-mem_self ((j, w) ∷ dict) key value = elim (Bool-cases (j == key)) [
    | inl same ↦ rw (same, put) (Memᴰ.head (ap (λ k. (k, value)) (sym ((eq_iff j key).0 same))))
    | inr other ↦ rw (other, put) (Memᴰ.tail (put-mem_self dict key value))
  ]

  pub put-mem_other :
      (dict : Dict V) (key : String) (value : V) (entry : String × V)
      → Memᴰ entry dict
      → (entry.0 == key) ≡ false
      → Memᴰ entry (put dict key value)
  unfolding put
  put-mem_other [] key value entry m apart = absurd (Memᴰ.not-nil m)
  put-mem_other ((j, w) ∷ dict) key value entry m apart = elim (Memᴰ.cases_cons m) [
    | inl e ↦
        let other : (j == key) ≡ false = subst (λ (p : String × V). (p.0 == key) ≡ false) e apart in
        rw (other, put) (Memᴰ.head e)
    | inr r ↦ elim (Bool-cases (j == key)) [
      | inl same ↦ rw (same, put) (Memᴰ.tail r)
      | inr other ↦ rw (other, put) (Memᴰ.tail (put-mem_other dict key value entry r apart))
    ]
  ]

  pub has-put :
      (dict : Dict V) (key : String) (value : V) (asked : String)
      → has (put dict key value) asked ≡ (key == asked || has dict asked)
  unfolding put
  has-put [] key value asked = refl
  has-put ((j, w) ∷ dict) key value asked =
      ground (arith, has-put dict key value asked, eq_iff j key, eq_iff j asked, eq_iff key asked)

  pub mem-remove :
      (dict : Dict V) (key : String) (entry : String × V)
      → Memᴰ entry (remove dict key)
      → Memᴰ entry dict × ((entry.0 == key) ≡ false)
  unfolding remove
  mem-remove [] key entry m = absurd (Memᴰ.not-nil m)
  mem-remove ((j, w) ∷ dict) key entry m = elim (Bool-cases (j == key)) [
    | inl same ↦
        let (at, apart) = mem-remove dict key entry (rw (same, remove) at m) in
        (Memᴰ.tail at, apart)
    | inr other ↦ elim (Memᴰ.cases_cons (rw (other, remove) at m)) [
      | inl e ↦ (Memᴰ.head e, subst (λ (p : String × V). (p.0 == key) ≡ false) (sym e) other)
      | inr r ↦ let (at, apart) = mem-remove dict key entry r in (Memᴰ.tail at, apart)
    ]
  ]

  pub has-remove :
      (dict : Dict V) (key asked : String)
      → has (remove dict key) asked ≡ (not (key == asked) && has dict asked)
  unfolding remove
  has-remove [] key asked = ground arith
  has-remove ((j, w) ∷ dict) key asked =
      ground (arith, has-remove dict key asked, eq_iff j key, eq_iff j asked, eq_iff key asked)

  lacks : (dict : Dict V) (key : String) → (¬ Memᴰ key (keys dict)) → has dict key ≡ false
  lacks dict key free = ground (arith, contains_iff (keys dict) key, free)

  lacked : (dict : Dict V) (key : String) → has dict key ≡ false → ¬ Memᴰ key (keys dict)
  lacked dict key h m = cc (h, (contains_iff (keys dict) key).1 m)

  pub Distinct-put :
      (dict : Dict V) (key : String) (value : V)
      → Distinct (keys dict)
      → Distinct (keys (put dict key value))
  unfolding put
  Distinct-put [] key value d = (Memᴰ.not-nil, tt)
  Distinct-put ((j, w) ∷ dict) key value (free, d) = elim (Bool-cases (j == key)) [
    | inl same ↦ rw (same, put) (free, d)
    | inr other ↦
        rw (other, put)
          (
            lacked (put dict key value) j (
                has-put dict key value j
                ∙ ground (arith, lacks dict j free, eq_iff j key, eq_iff key j)),
            Distinct-put dict key value d,
          )
  ]

  pub Distinct-remove :
      (dict : Dict V) (key : String) → Distinct (keys dict) → Distinct (keys (remove dict key))
  unfolding remove
  Distinct-remove [] key d = tt
  Distinct-remove ((j, w) ∷ dict) key (free, d) = elim (Bool-cases (j == key)) [
    | inl same ↦ rw (same, remove) (Distinct-remove dict key d)
    | inr other ↦
        rw (other, remove)
          (
            lacked (remove dict key) j (has-remove dict key j ∙ ground (arith, lacks dict j free)),
            Distinct-remove dict key d,
          )
  ]

  pub get-mem :
      (dict : Dict V) (key : String) (value : V)
      → get dict key ≡ some value
      → Memᴰ (key, value) dict
  unfolding get
  get-mem [] key value h = cc
  get-mem ((j, w) ∷ dict) key value h = elim (Bool-cases (j == key)) [
    | inl same ↦
        let it : some w ≡ some value = rw (same, get) at h in
        Memᴰ.head (cc (it, (eq_iff j key).0 same))
    | inr other ↦ Memᴰ.tail (get-mem dict key value (rw (other, get) at h))
  ]

  pub mem-has : (dict : Dict V) (entry : String × V) → Memᴰ entry dict → has dict entry.0 ≡ true
  mem-has dict entry m = (contains_iff (keys dict) entry.0).1 (Memᴰ.map (λ (p : String × V). p.0) m)
