-- ===== src/Substitution/Resolve/Named.antt =====
-- The value that a path names.
use composer.Base.{
  ap, String, ◌≡◌, refl, ◌≢◌, false, Option, none, some, Option-cases, Bool-cases, List, [], ◌∷◌,
  Memᴰ, contains, ◌==◌, eq_iff, inl, inr, sym, subst, ◌∙◌, arith,
}
use mathlib.Core.List.Memᴰ
use composer.Value.{Value, null, bool, int, text, arr, obj, Fields, field_at}
use composer.Substitution.Resolve.{
  unsafe_segments, Roots, present, child, walk, walk_explicit, look_up,
}

-- The value at the end of a path of keys, none of which is unsafe or leads to None.
pub data Reads : Value → List String → Value → Type 0 where
  here : (v : Value) → Reads v [] v
  under :
      {fields : Fields} {segment : String} {rest : List String} {value : Value} (next : Value)
      → contains unsafe_segments segment ≡ false
      → field_at fields segment ≡ some next
      → next ≢ null
      → Reads next rest value
      → Reads (obj fields) (segment ∷ rest) value

-- The value that a list of segments names.
pub data Names (roots : Roots) : List String → Value → Type 0 where
  variable :
      {first : String} {rest : List String} {value : Value}
      → first ≢ "state"
      → Reads (obj roots.variables) (first ∷ rest) value
      → Names roots (first ∷ rest) value
  state_variable :
      {segment : String} {rest : List String} {value : Value}
      → Reads (obj roots.variables) (segment ∷ rest) value
      → Names roots ("state" ∷ "variables" ∷ segment ∷ rest) value
  state_result :
      {segment : String} {rest : List String} {value : Value}
      → Reads (obj roots.node_results) (segment ∷ rest) value
      → Names roots ("state" ∷ "nodeResults" ∷ segment ∷ rest) value

present-eq-some :
    (found : Option Value) (next : Value)
    → present found ≡ some next
    → (found ≡ some next) × (next ≢ null)
present-eq-some none next h = cc
present-eq-some (some null) next h = cc
present-eq-some (some (bool b)) next h = (h, λ e. cc (h, e))
present-eq-some (some (int n)) next h = (h, λ e. cc (h, e))
present-eq-some (some (text t)) next h = (h, λ e. cc (h, e))
present-eq-some (some (arr items)) next h = (h, λ e. cc (h, e))
present-eq-some (some (obj fields)) next h = (h, λ e. cc (h, e))

present-some : (next : Value) → next ≢ null → present (some next) ≡ some next
present-some null h = absurd (h refl)
present-some (bool b) h = refl
present-some (int n) h = refl
present-some (text t) h = refl
present-some (arr items) h = refl
present-some (obj fields) h = refl

child-eq-some :
    (current : Value) (segment : String) (next : Value)
    → child current segment ≡ some next
    → (fields : Fields) × (current ≡ obj fields)
      × (field_at fields segment ≡ some next)
      × (next ≢ null)
child-eq-some null segment next h = cc
child-eq-some (bool b) segment next h = cc
child-eq-some (int n) segment next h = cc
child-eq-some (text t) segment next h = cc
child-eq-some (arr items) segment next h = cc
child-eq-some (obj fields) segment next h =
    let (there, real) = present-eq-some (field_at fields segment) next h in
    (fields, refl, there, real)

walk_sound :
    (current : Value) (segments : List String) (value : Value)
    → walk current segments ≡ some value
    → Reads current segments value
unfolding walk
walk_sound current [] value h = subst (Reads current []) (cc h) (here current)
walk_sound current (segment ∷ rest) value h = elim (Bool-cases (contains unsafe_segments segment)) [
  | inl unsafe ↦ absurd (cc (rw (unsafe, walk) at h))
  | inr safe ↦ elim (Option-cases (child current segment)) [
    | inl missing ↦ absurd (cc (rw (safe, missing, walk) at h))
    | inr (next, found) ↦
        let (fields, it, there, real) = child-eq-some current segment next found in
        let later : walk next rest ≡ some value = rw (safe, found, walk) at h in
        subst (λ v. Reads v (segment ∷ rest) value) (sym it)
          (under next safe there real (walk_sound next rest value later))
  ]
]

walk_complete :
    {current : Value} {segments : List String} {value : Value}
    → Reads current segments value
    → walk current segments ≡ some value
unfolding walk
walk_complete (here v) = refl
walk_complete (under {fields} {segment} {rest} next safe there real later) =
    let found : child (obj fields) segment ≡ some next =
      ap present there ∙ present-some next real in
    rw (safe, found, walk) (walk_complete later)

walk_explicit_sound :
    (roots : Roots) (segments : List String) (value : Value)
    → walk_explicit roots segments ≡ some value
    → Names roots ("state" ∷ segments) value
unfolding walk_explicit
walk_explicit_sound roots [] value h = cc
walk_explicit_sound roots (root ∷ []) value h = cc
walk_explicit_sound roots (root ∷ segment ∷ rest) value h =
    elim (Bool-cases (root == "variables")) [
      | inl it ↦
          let found : walk (obj roots.variables) (segment ∷ rest) ≡ some value =
            rw (it, walk_explicit) at h in
          subst (λ r. Names roots ("state" ∷ r ∷ segment ∷ rest) value)
            (sym ((eq_iff root "variables").0 it)) (state_variable (walk_sound _ _ value found))
      | inr other ↦ elim (Bool-cases (root == "nodeResults")) [
        | inl it ↦
            let found : walk (obj roots.node_results) (segment ∷ rest) ≡ some value =
              rw (other, it, walk_explicit) at h in
            subst (λ r. Names roots ("state" ∷ r ∷ segment ∷ rest) value)
              (sym ((eq_iff root "nodeResults").0 it)) (state_result (walk_sound _ _ value found))
        | inr neither ↦ absurd (cc (rw (other, neither, walk_explicit) at h))
      ]
    ]

pub look_up_sound :
    (roots : Roots) (segments : List String) (value : Value)
    → look_up roots segments ≡ some value
    → Names roots segments value
unfolding look_up
look_up_sound roots [] value h = cc
look_up_sound roots (first ∷ rest) value h = elim (Bool-cases (first == "state")) [
  | inl it ↦
      subst (λ f. Names roots (f ∷ rest) value) (sym ((eq_iff first "state").0 it))
        (walk_explicit_sound roots rest value (rw (it, look_up) at h))
  | inr other ↦
      variable (λ e. cc ((eq_iff first "state").1 e, other))
        (walk_sound _ _ value (rw (other, look_up) at h))
]

pub look_up_complete :
    {roots : Roots} {segments : List String} {value : Value}
    → Names roots segments value
    → look_up roots segments ≡ some value
unfolding look_up walk_explicit
look_up_complete {roots} (variable {first} {rest} apart reads) =
    ground (arith, eq_iff first "state", apart, walk_complete reads)
look_up_complete (state_variable reads) = walk_complete reads
look_up_complete (state_result reads) = walk_complete reads

pub look_up_iff :
    (roots : Roots) (segments : List String) (value : Value)
    → (look_up roots segments ≡ some value → Names roots segments value)
      × (Names roots segments value → look_up roots segments ≡ some value)
look_up_iff roots segments value = (look_up_sound roots segments value, look_up_complete)

Reads-safe :
    {current value : Value} {segments : List String} (segment : String)
    → Reads current segments value
    → Memᴰ segment segments
    → contains unsafe_segments segment ≡ false
Reads-safe segment (here v) m = absurd (Memᴰ.not-nil m)
Reads-safe segment (under next safe there real later) m = elim (Memᴰ.cases_cons m) [
  | inl e ↦ rw e safe
  | inr r ↦ Reads-safe segment later r
]

pub Names-safe :
    {roots : Roots} {segments : List String} {value : Value} (segment : String)
    → Names roots segments value
    → Memᴰ segment segments
    → contains unsafe_segments segment ≡ false
Names-safe segment (variable apart reads) m = Reads-safe segment reads m
Names-safe segment (state_variable reads) m = elim (Memᴰ.cases_cons m) [
  | inl e ↦ rw e refl
  | inr r ↦ elim (Memᴰ.cases_cons r) [ inl e ↦ rw e refl | inr q ↦ Reads-safe segment reads q ]
]
Names-safe segment (state_result reads) m = elim (Memᴰ.cases_cons m) [
  | inl e ↦ rw e refl
  | inr r ↦ elim (Memᴰ.cases_cons r) [ inl e ↦ rw e refl | inr q ↦ Reads-safe segment reads q ]
]
