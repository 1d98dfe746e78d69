-- ===== src/Substitution/Validation/Correct.antt =====
-- What the validation of references reports.
use mathlib.Core.List.Memᴰ
use composer.Base.{
  String, ◌≡◌, refl, ◌≢◌, List, [], Memᴰ, Memᴰ-cons, collect, mem-collect, contains_iff, eq_iff,
  ◌↔◌, inl, inr, sym, subst, arith,
}
use composer.Value.{Value, Fields, empty, field}
use composer.Workflow.{WorkflowNode, Workflow}
use composer.Substitution.Validation.{
  UnknownVariableReference, extract_references, available_variable_names, root_of,
  unknown_reference, unknown_in_fields, find_unknown_variable_references,
}
use composer.Substitution.Validation.Available.{
  IsAvailable, HasField, available_variable_names-IsAvailable, available_complete, first, later,
  mem_collect-intro,
}

-- The report of a reference of a node, in a field that a node has.
abbrev pub Unknown : (WorkflowNode → Fields) → Workflow → UnknownVariableReference → Type 0
Unknown dump workflow u =
    (node : WorkflowNode) × (value : Value) × Memᴰ node workflow.nodes
    × (u.node_id ≡ node.id)
    × HasField (dump node) u.field_path value
    × Memᴰ u.placeholder (extract_references value)
    × (u.placeholder ≢ "")
    × (u.root_name ≡ root_of u.placeholder)
    × (u.root_name ≢ "state")
    × (¬ IsAvailable workflow u.root_name)

unknown_reference_iff :
    (available : List String) (id path placeholder : String) (u : UnknownVariableReference)
    → Memᴰ u (unknown_reference available id path placeholder) ↔ (
        (u ≡ record {
          node_id = id;
          field_path = path;
          placeholder = placeholder;
          root_name = root_of placeholder;
        })
        × (placeholder ≢ "")
        × (root_of placeholder ≢ "state")
        × (¬ Memᴰ (root_of placeholder) available))
unfolding unknown_reference
unknown_reference_iff available id path placeholder u = ground (
  arith,
  eq_iff placeholder "",
  eq_iff (root_of placeholder) "state",
  contains_iff available (root_of placeholder),
  Memᴰ-cons u
      (record {
        node_id = id;
        field_path = path;
        placeholder = placeholder;
        root_name = root_of placeholder;
      })
      [],
  λ (m : Memᴰ u []). Memᴰ.not-nil m,
)

-- A reference of one of the fields, with the report that is made of it.
abbrev InFields : List String → String → Fields → UnknownVariableReference → Type 0
InFields available id fields u =
    (value : Value) × (u.node_id ≡ id)
    × HasField fields u.field_path value
    × Memᴰ u.placeholder (extract_references value)
    × (u.placeholder ≢ "")
    × (u.root_name ≡ root_of u.placeholder)
    × (u.root_name ≢ "state")
    × (¬ Memᴰ u.root_name available)

unknown_in_fields_sound :
    (available : List String) (id : String) (fields : Fields) (u : UnknownVariableReference)
    → Memᴰ u (unknown_in_fields available id fields)
    → InFields available id fields u
unfolding unknown_in_fields
unknown_in_fields_sound available id empty u m = absurd (Memᴰ.not-nil m)
unknown_in_fields_sound available id (field path value rest) u m =
    elim (Memᴰ.append_cases
      (collect (unknown_reference available id path) (extract_references value)) m) [
        | inl own ↦
            let (placeholder, at, here) =
              mem-collect (unknown_reference available id path) (extract_references value) u own in
            let (e, full, outside, missing) =
              (unknown_reference_iff available id path placeholder u).0 here in
            subst (InFields available id (field path value rest)) (sym e)
              (value, refl, first path value rest, at, full, refl, outside, missing)
        | inr others ↦
            let (found, same, there, at, full, root, outside, missing) =
              unknown_in_fields_sound available id rest u others in
            (found, same, later path value there, at, full, root, outside, missing)
      ]

unknown_in_fields_complete :
    (available : List String) (id : String) {fields : Fields} {path : String} {value : Value}
    (placeholder : String)
    → HasField fields path value
    → Memᴰ placeholder (extract_references value)
    → placeholder ≢ ""
    → root_of placeholder ≢ "state"
    → ¬ Memᴰ (root_of placeholder) available
    → Memᴰ
        (record {
          node_id = id;
          field_path = path;
          placeholder = placeholder;
          root_name = root_of placeholder;
        })
        (unknown_in_fields available id fields)
unfolding unknown_in_fields
unknown_in_fields_complete available id placeholder (first path value rest) at full outside
      missing =
    Memᴰ.append_left (unknown_in_fields available id rest) (
      mem_collect-intro (unknown_reference available id path) (extract_references value) placeholder
        _ at
        ((unknown_reference_iff available id path placeholder _).1 (refl, full, outside, missing)))
unknown_in_fields_complete available id placeholder (later other unread there) at full outside
      missing =
    Memᴰ.append_right (collect (unknown_reference available id other) (extract_references unread))
      (unknown_in_fields_complete available id placeholder there at full outside missing)

find_unknown_variable_references-Unknown :
    (dump : WorkflowNode → Fields) (workflow : Workflow) (u : UnknownVariableReference)
    → Memᴰ u (find_unknown_variable_references dump workflow)
    → Unknown dump workflow u
unfolding find_unknown_variable_references
find_unknown_variable_references-Unknown dump workflow u m =
    let (node, at, here) =
      mem-collect
        (λ (n : WorkflowNode). unknown_in_fields (available_variable_names workflow) n.id (dump n))
        workflow.nodes u m in
    let (value, same, there, reference, full, root, outside, missing) =
      unknown_in_fields_sound (available_variable_names workflow) node.id (dump node) u here in
    (
      node,
      value,
      at,
      same,
      there,
      reference,
      full,
      root,
      outside,
      λ known. missing (available_complete workflow u.root_name known),
    )

-- The record of a report is made of its fields.
report_eta :
    (u : UnknownVariableReference) (id : String)
    → u.node_id ≡ id
    → u.root_name ≡ root_of u.placeholder
    → record {
      node_id = id;
      field_path = u.field_path;
      placeholder = u.placeholder;
      root_name = root_of u.placeholder;
    }
      ≡ u
report_eta u id same root = cc (same, root)

find_unknown_complete :
    (dump : WorkflowNode → Fields) (workflow : Workflow) (u : UnknownVariableReference)
    → Unknown dump workflow u
    → Memᴰ u (find_unknown_variable_references dump workflow)
unfolding find_unknown_variable_references
find_unknown_complete dump workflow u
      (node, value, at, same, there, reference, full, root, outside, missing) =
    let apart = λ (m : Memᴰ u.root_name (available_variable_names workflow)).
      let clash : ⊥ = missing (available_variable_names-IsAvailable workflow u.root_name m) in
      clash in
    mem_collect-intro
      (λ (n : WorkflowNode). unknown_in_fields (available_variable_names workflow) n.id (dump n))
      workflow.nodes node u at
      (subst
        (λ r. Memᴰ r (unknown_in_fields (available_variable_names workflow) node.id (dump node)))
        (report_eta u node.id same root)
        (unknown_in_fields_complete (available_variable_names workflow) node.id u.placeholder there
          reference full (subst (λ r. r ≢ "state") root outside)
          (subst (λ r. ¬ Memᴰ r (available_variable_names workflow)) root apart)))

-- The validation reports exactly the references of the nodes' fields that start with no available name: a
-- placeholder that is not empty, whose first segment is not `state`, and is no built-in name, no id of a
-- node with its dashes replaced, no alias made of a node's name and no input of a start node.
pub find_unknown_variable_references_correct :
    (dump : WorkflowNode → Fields) (workflow : Workflow) (u : UnknownVariableReference)
    → Memᴰ u (find_unknown_variable_references dump workflow) ↔ Unknown dump workflow u
find_unknown_variable_references_correct dump workflow u = (
  find_unknown_variable_references-Unknown dump workflow u,
  find_unknown_complete dump workflow u,
)
