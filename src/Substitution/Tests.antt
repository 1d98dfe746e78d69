-- ===== src/Substitution/Tests.antt =====
-- Templates and a workflow of a start node and an agent.
use composer.Base.{String, ◌≡◌, refl, ◌↔◌, true, none, some, List, [], ◌∷◌, Memᴰ}
use composer.Value.{Value, null, int, pos, text, obj, Fields, empty, field, field_at}
use composer.Workflow.{start, agent, WorkflowNode, Workflow}
use composer.Substitution.Scan.{chars, Piece}
use composer.Substitution.Scan.Correct.{Pieces}
use composer.Substitution.Resolve.{
  Roots, segments_of, literal, resolve, substitute, substitute_in_value,
}
use composer.Substitution.Resolve.Correct.{Rendered, substitute_correct, resolve_unsafe}
use composer.Substitution.Resolve.Unchanged.{substitute_in_value_unreferenced}
use composer.Substitution.Validation.{
  UnknownVariableReference, extract_references, sanitize_node_name,
  find_unknown_variable_references,
}
use composer.Substitution.Validation.Correct.{Unknown, find_unknown_variable_references_correct}

abbrev dumps : Value → String
dumps _ = "..."

abbrev roots : Roots
roots = record {
  variables =
      field "name" (text "Ann")
        (field "user" (obj (field "age" (int (pos 3)) empty)) (field "gone" null empty));
  node_results = field "a" (obj (field "output" (text "done") empty)) empty;
}

substituted :
    substitute dumps roots
      "{{ name }} {{user.age}} {{gone}} {{ state.nodeResults.a.output}} {{{name}} {{}} {{user.__class__}}"
    ≡ "Ann ... {{gone}} done {{{name}} {{}} {{user.__class__}}"
unfolding substitute field_at
substituted = refl

substitute_correct_example :
    (pieces : List Piece) × Pieces (chars "Hi {{ name }}{{x}}") pieces
    × Rendered dumps roots pieces (chars (substitute dumps roots "Hi {{ name }}{{x}}"))
substitute_correct_example = substitute_correct dumps roots "Hi {{ name }}{{x}}"

dunder_mem : Memᴰ "__class__" (segments_of (chars "user.__class__"))
unfolding segments_of
dunder_mem = Memᴰ.tail (Memᴰ.head refl)

resolve_unsafe_example :
    resolve dumps roots (chars "user.__class__") ≡ literal (chars "user.__class__")
resolve_unsafe_example =
    resolve_unsafe dumps roots (chars "user.__class__") "__class__" dunder_mem refl

abbrev plain_value : Value
plain_value = obj (field "k" (text "{{}} {x}") empty)

plain_unreferenced : extract_references plain_value ≡ []
unfolding extract_references
plain_unreferenced = refl

plain_unchanged : substitute_in_value dumps roots plain_value ≡ plain_value
plain_unchanged = substitute_in_value_unreferenced dumps roots plain_value plain_unreferenced

cleaned : sanitize_node_name "  My Agent (2)! " ≡ some "my_agent_2"
unfolding sanitize_node_name
cleaned = refl

abbrev start_node : WorkflowNode
start_node = record {
  id = "n-1";
  node_name = some "Start";
  payload =
      start (record { name = "MB"; kind = "string"; required = true; default_value = null } ∷ []);
}

abbrev agent_node : WorkflowNode
agent_node = record { id = "n-2"; node_name = none; payload = agent }

abbrev workflow : Workflow
workflow = record { nodes = start_node ∷ agent_node ∷ []; edges = [] }

abbrev dump : WorkflowNode → Fields
dump node = field "instructions" (text "{{MB}} {{n_1.x}} {{start}} {{state.x}} {{key}}") empty

abbrev key_of : String → UnknownVariableReference
key_of id = record {
  node_id = id;
  field_path = "instructions";
  placeholder = "key";
  root_name = "key";
}

reported : find_unknown_variable_references dump workflow ≡ key_of "n-1" ∷ key_of "n-2" ∷ []
unfolding find_unknown_variable_references
reported = refl

find_unknown_variable_references_correct_example :
    Memᴰ (key_of "n-2") (find_unknown_variable_references dump workflow)
    ↔ Unknown dump workflow (key_of "n-2")
find_unknown_variable_references_correct_example =
    find_unknown_variable_references_correct dump workflow (key_of "n-2")
