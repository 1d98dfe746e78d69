-- ===== src/Executors/Start/Reserved.antt =====
-- What the caller's input cannot set.
use composer.Base.{
  ap, String, ◌≡◌, refl, Bool, true, false, none, Option-cases, List, [], ◌∷◌, ◌==◌, eq_iff,
  if◌then◌else◌, ok, ◌>>◌, >>-eq-ok, arith, Bool-cases, inl, inr, ◌∙◌,
}
use composer.Value.{
  Value, null, bool, int, text, obj, arr, Fields, empty, field, field_at, set_field, merge_fields,
}
use composer.Workflow.{StartInputVariable}
use composer.State.{WorkflowStateDict, Update, apply_update}
use composer.State.Laws.{last_at, field_at-merge_fields}
use composer.Executors.Start.{
  Python, StartError, is_reserved, is_declared, keys_where, raise_if_any, reject_reserved_keys,
  reject_undeclared_keys_in_strict_mode, reserved_keys, Defaults, add_default, is_provided,
  gather_defaults, coerce_default, parse_input, provided_by, add_input, start_update, raise_missing,
  start_parsed, start_arun, value_or_empty,
}

absent-tail :
    (k key : String) (v : Value) (fields : Fields)
    → last_at (field k v fields) key ≡ none
    → (k == key ≡ false) × (last_at fields key ≡ none)
absent-tail k key v fields h = elim (Option-cases (last_at fields key)) [
  | inl gone ↦ elim (Bool-cases (k == key)) [
    | inl same ↦ let e = rw gone at h in let e' = rw same at e in cc e'
    | inr other ↦ (other, gone)
  ]
  | inr (w, there) ↦ let e = rw there at h in cc e
]

absent-set_field :
    (fields : Fields) (name key : String) (value : Value)
    → name == key ≡ false
    → last_at fields key ≡ none
    → last_at (set_field fields name value) key ≡ none
unfolding set_field
absent-set_field empty name key value other h = ground arith
absent-set_field (field k v fields) name key value other h =
    ground (arith, eq_iff k name, absent-set_field fields name key value other)

absent-merge_fields :
    (left right : Fields) (key : String)
    → last_at left key ≡ none
    → last_at right key ≡ none
    → last_at (merge_fields left right) key ≡ none
unfolding merge_fields
absent-merge_fields left empty key h h' = h
absent-merge_fields left (field k v right) key h h' =
    absent-merge_fields (set_field left k v) right key
      (absent-set_field left k key v (absent-tail k key v right h').0 h)
      (absent-tail k key v right h').1

-- The keys of fields none of which pass a test.
absent-keys_where :
    (test : String → Bool) (fields : Fields) (key : String)
    → keys_where test fields ≡ []
    → test key ≡ true
    → last_at fields key ≡ none
unfolding keys_where
absent-keys_where test empty key h passes = refl
absent-keys_where test (field k v fields) key h passes = elim (Bool-cases (test k)) [
  | inl bad ↦ let e = rw bad at h in cc e
  | inr fine ↦
      let rest = absent-keys_where test fields key (rw fine at h) passes in
      let other : k == key ≡ false = ground (arith, eq_iff k key, λ (e : k ≡ key). ap test e) in
      rw rest (rw other refl)
]

absent-add_default :
    (var : StartInputVariable) (default : Value) (found : Defaults) (key : String)
    → var.name == key ≡ false
    → last_at found.variables_delta key ≡ none
    → last_at (add_default var default found).variables_delta key ≡ none
unfolding add_default
absent-add_default var null found key other h = elim (Bool-cases var.required) [
  | inl needed ↦ rw needed h
  | inr optional ↦ rw optional h
]
absent-add_default var (bool b) found key other h =
    absent-set_field found.variables_delta var.name key (bool b) other h
absent-add_default var (int n) found key other h =
    absent-set_field found.variables_delta var.name key (int n) other h
absent-add_default var (text t) found key other h =
    absent-set_field found.variables_delta var.name key (text t) other h
absent-add_default var (obj o) found key other h =
    absent-set_field found.variables_delta var.name key (obj o) other h
absent-add_default var (arr a) found key other h =
    absent-set_field found.variables_delta var.name key (arr a) other h

absent-provided :
    (py : Python) (provided : Fields) (var : StartInputVariable) (found : Defaults) (key : String)
    → var.name == key ≡ false
    → last_at found.variables_delta key ≡ none
    → last_at
        (if is_provided provided var.name
          then found
          else add_default var (coerce_default py var) found).variables_delta
        key
      ≡ none
absent-provided py provided var found key other h =
    elim (Bool-cases (is_provided provided var.name)) [
      | inl given ↦ rw given h
      | inr left ↦ rw left (absent-add_default var (coerce_default py var) found key other h)
    ]

absent-gather_defaults :
    (py : Python) (provided : Fields) (declared : List StartInputVariable) (found : Defaults)
    (key : String)
    → is_declared declared key ≡ false
    → last_at found.variables_delta key ≡ none
    → last_at (gather_defaults py provided declared found).variables_delta key ≡ none
unfolding gather_defaults
absent-gather_defaults py provided [] found key undeclared h = h
absent-gather_defaults py provided (var ∷ declared) found key undeclared h =
    absent-gather_defaults py provided declared
      (if is_provided provided var.name
        then found
        else add_default var (coerce_default py var) found)
      key (ground arith) (absent-provided py provided var found key (ground arith) h)

module _ (delta : Fields) (key : String) (last : "lastOutput" == key ≡ false)
    (input : "input" == key ≡ false) (h : last_at delta key ≡ none) where
  absent-no_dict :
      (parsed : Value)
      → last_at (set_field (set_field delta "input" parsed) "lastOutput" parsed) key ≡ none
  absent-no_dict parsed =
      absent-set_field (set_field delta "input" parsed) "lastOutput" key parsed last
        (absent-set_field delta "input" key parsed input h)

  absent-add_input :
      (parsed : Value)
      → last_at (provided_by parsed) key ≡ none
      → last_at (add_input parsed delta) key ≡ none
  unfolding add_input provided_by
  absent-add_input (obj fields) given =
      absent-set_field (merge_fields delta fields) "lastOutput" key (obj fields) last
        (absent-merge_fields delta fields key h given)
  absent-add_input null given = absent-no_dict null
  absent-add_input (bool b) given = absent-no_dict (bool b)
  absent-add_input (int n) given = absent-no_dict (int n)
  absent-add_input (text t) given = absent-no_dict (text t)
  absent-add_input (arr a) given = absent-no_dict (arr a)

raise_if_any-eq-ok :
    (error : List String → StartError) (keys : List String) (u : Unit)
    → raise_if_any error keys ≡ ok u
    → keys ≡ []
unfolding raise_if_any
raise_if_any-eq-ok error [] u done = refl
raise_if_any-eq-ok error (key ∷ keys) u done = cc done

raise_missing-eq-ok :
    (keys : List String) (update out : Update) → raise_missing keys update ≡ ok out → out ≡ update
unfolding raise_missing
raise_missing-eq-ok [] update out done = cc done
raise_missing-eq-ok (key ∷ keys) update out done = cc done

-- A key that is reserved is none of those that every start writes.
reserved-other :
    (key name : String) → is_reserved key ≡ true → is_reserved name ≡ false → name == key ≡ false
reserved-other key name reserved fine =
    ground (arith, eq_iff name key, λ (e : name ≡ key). ap is_reserved e)

-- The steps of a start that succeeds.
start_parsed-eq-ok :
    (py : Python) (strict : Bool) (id : String) (declared : List StartInputVariable)
    (raw parsed : Value) (update : Update)
    → start_parsed py strict id declared raw parsed ≡ ok update
    → (keys_where is_reserved (provided_by parsed) ≡ [])
      × (update
          ≡ start_update id raw parsed
              (gather_defaults py
                (provided_by parsed)
                declared
                (record { variables_delta = empty; missing = [] })).variables_delta)
unfolding start_parsed reject_reserved_keys
start_parsed-eq-ok py strict id declared raw parsed update done =
    let provided = provided_by parsed in
    let reserved = keys_where is_reserved provided in
    let strictly = reject_undeclared_keys_in_strict_mode strict provided declared in
    let found =
      gather_defaults py provided declared (record { variables_delta = empty; missing = [] }) in
    let written = start_update id raw parsed found.variables_delta in
    let (u, before, last) =
      >>-eq-ok (raise_if_any reserved_keys reserved >> strictly)
        (raise_missing found.missing written) done in
    let (u', first, second) = >>-eq-ok (raise_if_any reserved_keys reserved) strictly before in
    (
      raise_if_any-eq-ok reserved_keys reserved u' first,
      raise_missing-eq-ok found.missing written update last,
    )

last_at-start_update :
    (id : String) (raw parsed : Value) (delta : Fields) (key : String) (state : WorkflowStateDict)
    → last_at (add_input parsed delta) key ≡ none
    → field_at (apply_update state (start_update id raw parsed delta)).variables key
      ≡ field_at state.variables key
unfolding apply_update start_update
last_at-start_update id raw parsed delta key state absent =
    field_at-merge_fields state.variables (add_input parsed delta) key ∙ rw absent refl

-- A start node succeeds. A key that the engine reserves, and that the workflow does not declare as a start
-- variable, has after the node the value that it had before, whatever the caller's input was.
pub start_arun-reserved :
    (py : Python) (strict : Bool) (id key : String) (declared : List StartInputVariable)
    (state : WorkflowStateDict) (update : Update)
    → start_arun py strict id declared state ≡ ok update
    → is_reserved key ≡ true
    → is_declared declared key ≡ false
    → field_at (apply_update state update).variables key ≡ field_at state.variables key
unfolding start_arun
start_arun-reserved py strict id key declared state update done reserved undeclared =
    let raw = value_or_empty (field_at state.variables "input") in
    let parsed = parse_input py raw in
    let start : Defaults = record { variables_delta = empty; missing = [] } in
    let (checked, is) = start_parsed-eq-ok py strict id declared raw parsed update done in
    let delta = (gather_defaults py (provided_by parsed) declared start).variables_delta in
    ap (λ u. field_at (apply_update state u).variables key) is
    ∙ last_at-start_update id raw parsed delta key state (
        absent-add_input delta key (reserved-other key "lastOutput" reserved refl)
          (reserved-other key "input" reserved refl)
          (absent-gather_defaults py (provided_by parsed) declared start key undeclared refl) parsed
          (absent-keys_where is_reserved (provided_by parsed) key checked reserved))
