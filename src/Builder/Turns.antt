-- ===== src/Builder/Turns.antt =====
-- Whole turns of the builder agent: calls of the tools in any order, and the repair after each turn
-- (build_turn of src/builder/builder_agent.py).
use composer.Base.{String, ◌≡◌, Option, some, List}
use composer.Value.{Fields}
use composer.Builder.Tools.{
  Draft, Models, create_node, update_node, remove_node, connect_nodes, set_start_inputs,
}
use composer.Builder.WellFormed.{
  IsWellFormed, KeepsIds, create_node-IsWellFormed, update_node-IsWellFormed,
  remove_node-IsWellFormed, connect_nodes-IsWellFormed, set_start_inputs-IsWellFormed,
}
use composer.Builder.Normalize.{Draws, normalize_orchestration}
use composer.Builder.Normalize.Keeps.{normalize_orchestration-IsWellFormed}

-- What can happen to a draft, with any arguments and drawn ids.
pub data Step (models : Models) (draft : Draft) : Draft → Type 0 where
  create :
      (node_type id label : String) (given : Fields)
      → Step models draft (create_node models node_type id label given draft).1
  rewrite : (id : String) (given : Fields) → Step models draft (update_node models id given draft).1
  delete : (id : String) → Step models draft (remove_node id draft).1
  connect :
      (edge_id source target : String) (branch : Option String)
      → Step models draft (connect_nodes edge_id source target branch draft).1
  declare_inputs :
      (variables : List Fields) → Step models draft (set_start_inputs models variables draft).1
  repair :
      (draws : Draws) (after : Draft)
      → normalize_orchestration draws draft ≡ some after
      → Step models draft after

pub data Reach (models : Models) (from : Draft) : Draft → Type 0 where
  here : Reach models from from
  next :
      {now after : Draft} → Reach models from now → Step models now after → Reach models from after

Step-IsWellFormed :
    {models : Models} {draft after : Draft}
    → KeepsIds models
    → IsWellFormed draft
    → Step models draft after
    → IsWellFormed after
Step-IsWellFormed {models} {draft} keeps w (create node_type id label given) =
    create_node-IsWellFormed models node_type id label given draft keeps w
Step-IsWellFormed {models} {draft} keeps w (rewrite id given) =
    update_node-IsWellFormed models id given draft keeps w
Step-IsWellFormed {models} {draft} keeps w (delete id) = remove_node-IsWellFormed id draft w
Step-IsWellFormed {models} {draft} keeps w (connect edge_id source target branch) =
    connect_nodes-IsWellFormed edge_id source target branch draft w
Step-IsWellFormed {models} {draft} keeps w (declare_inputs variables) =
    set_start_inputs-IsWellFormed models variables draft w
Step-IsWellFormed {models} {draft} keeps w (repair draws after e) =
    normalize_orchestration-IsWellFormed draws draft after w e

-- From a well-formed draft, the empty one among them, every sequence of tool calls and repairs, with any
-- arguments and drawn ids, leaves a well-formed draft: each node stands under its id and under no other, and
-- each edge stands under its id and joins two nodes of the draft.
pub turns-IsWellFormed :
    {models : Models} {draft after : Draft}
    → KeepsIds models
    → IsWellFormed draft
    → Reach models draft after
    → IsWellFormed after
turns-IsWellFormed keeps w here = w
turns-IsWellFormed keeps w (next reach step) =
    Step-IsWellFormed keeps (turns-IsWellFormed keeps w reach) step
