-- ===== src/Substitution/Validation/Available.antt =====
-- The names that a reference may start with.
use mathlib.Core.List.Memᴰ
use composer.Base.{
  ap, String, ◌≡◌, refl, Option, none, some, Option-cases, List, [], ◌∷◌, map, Memᴰ, collect,
  mem-collect, inl, inr, sym, subst, ◌∙◌,
}
use composer.Value.{Value, Fields, field}
use composer.Workflow.{StartInputVariable, NodeData, start, WorkflowNode, Workflow}
use composer.Substitution.Validation.{
  sanitize_node_id, sanitize_node_name, builtin_variables, alias_names, input_names, names_of,
  available_variable_names,
}

-- The names that a reference may start with.
pub data IsAvailable (workflow : Workflow) : String → Type 0 where
  builtin : (name : String) → Memᴰ name builtin_variables → IsAvailable workflow name
  node_id :
      (node : WorkflowNode)
      → Memᴰ node workflow.nodes
      → IsAvailable workflow (sanitize_node_id node.id)
  node_alias :
      (node : WorkflowNode) (name alias : String)
      → Memᴰ node workflow.nodes
      → node.node_name ≡ some name
      → sanitize_node_name name ≡ some alias
      → IsAvailable workflow alias
  start_input :
      (node : WorkflowNode) (inputs : List StartInputVariable) (input : StartInputVariable)
      → Memᴰ node workflow.nodes
      → node.payload ≡ start inputs
      → Memᴰ input inputs
      → IsAvailable workflow input.name

-- A field of a node's data.
pub data HasField : Fields → String → Value → Type 0 where
  first :
      (path : String) (value : Value) (rest : Fields) → HasField (field path value rest) path value
  later :
      (other : String) (unread : Value) {rest : Fields} {path : String} {value : Value}
      → HasField rest path value
      → HasField (field other unread rest) path value

pub mem_collect-intro {ℓ κ} :
    {A : Type ℓ} {B : Type κ} (f : A → List B) (xs : List A) (a : A) (b : B)
    → Memᴰ a xs
    → Memᴰ b (f a)
    → Memᴰ b (collect f xs)
mem_collect-intro f [] a b m here = absurd (Memᴰ.not-nil m)
mem_collect-intro f (x ∷ xs) a b m here = elim (Memᴰ.cases_cons m) [
  | inl e ↦ Memᴰ.append_left (collect f xs) (subst (λ y. Memᴰ b (f y)) e here)
  | inr r ↦ Memᴰ.append_right (f x) (mem_collect-intro f xs a b r here)
]

alias_names_sound :
    (node_name : Option String) (alias : String)
    → Memᴰ alias (alias_names node_name)
    → (name : String) × (node_name ≡ some name) × (sanitize_node_name name ≡ some alias)
unfolding alias_names
alias_names_sound none alias m = absurd (Memᴰ.not-nil m)
alias_names_sound (some name) alias m = elim (Option-cases (sanitize_node_name name)) [
  | inl free ↦ absurd (Memᴰ.not-nil (rw (free, alias_names) at m))
  | inr (a, found) ↦ elim (Memᴰ.cases_cons (rw (found, alias_names) at m)) [
    | inl e ↦ (name, refl, found ∙ ap some (sym e))
    | inr r ↦ absurd (Memᴰ.not-nil r)
  ]
]

alias_names_complete :
    (node_name : Option String) (name alias : String)
    → node_name ≡ some name
    → sanitize_node_name name ≡ some alias
    → Memᴰ alias (alias_names node_name)
unfolding alias_names
alias_names_complete node_name name alias named found =
    rw (named, found, alias_names) (Memᴰ.head refl)

input_names-start :
    (payload : NodeData) (name : String)
    → Memᴰ name (input_names payload)
    → (inputs : List StartInputVariable) × (payload ≡ start inputs)
      × Memᴰ name (map (λ (v : StartInputVariable). v.name) inputs)
input_names-start (start inputs) name m = (inputs, refl, m)
input_names-start _ name m = absurd (Memᴰ.not-nil m)

pub available_variable_names-IsAvailable :
    (workflow : Workflow) (name : String)
    → Memᴰ name (available_variable_names workflow)
    → IsAvailable workflow name
unfolding available_variable_names names_of
available_variable_names-IsAvailable workflow name m =
    elim (Memᴰ.append_cases builtin_variables m) [
      | inl known ↦ builtin name known
      | inr of_node ↦
          let (node, at, named) = mem-collect names_of workflow.nodes name of_node in
          elim (Memᴰ.cases_cons named) [
            | inl e ↦ subst (IsAvailable workflow) (sym e) (node_id node at)
            | inr others ↦ elim (Memᴰ.append_cases (alias_names node.node_name) others) [
              | inl a ↦
                  let (given, has, found) = alias_names_sound node.node_name name a in
                  node_alias node given name at has found
              | inr i ↦
                  let (inputs, it, there) = input_names-start node.payload name i in
                  let (input, declared, e) =
                    Memᴰ.of_map (λ (v : StartInputVariable). v.name) inputs there in
                  subst (IsAvailable workflow) e (start_input node inputs input at it declared)
            ]
          ]
    ]

of_node_available :
    (workflow : Workflow) (node : WorkflowNode) (name : String)
    → Memᴰ node workflow.nodes
    → Memᴰ name (names_of node)
    → Memᴰ name (available_variable_names workflow)
unfolding available_variable_names
of_node_available workflow node name at here =
    Memᴰ.append_right builtin_variables
      (mem_collect-intro names_of workflow.nodes node name at here)

pub available_complete :
    (workflow : Workflow) (name : String)
    → IsAvailable workflow name
    → Memᴰ name (available_variable_names workflow)
unfolding available_variable_names names_of
available_complete workflow _ (builtin name known) =
    Memᴰ.append_left (collect names_of workflow.nodes) known
available_complete workflow _ (node_id node at) =
    of_node_available workflow node _ at (Memᴰ.head refl)
available_complete workflow _ (node_alias node given alias at has found) =
    of_node_available workflow node _ at (
      Memᴰ.tail (
        Memᴰ.append_left (input_names node.payload)
          (alias_names_complete node.node_name given _ has found)))
available_complete workflow _ (start_input node inputs input at it declared) =
    of_node_available workflow node _ at (
      Memᴰ.tail (
        Memᴰ.append_right (alias_names node.node_name)
          (rw it (Memᴰ.map (λ (v : StartInputVariable). v.name) declared))))
