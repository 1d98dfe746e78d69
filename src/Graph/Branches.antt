-- ===== src/Graph/Branches.antt =====
-- `_branch_mapping` of src/engine/graph_builder.py.
pub mod Correct
use composer.Base.{
  String, Bool, true, false, not, Option, none, some, List, [], ◌∷◌, keep, contains, map, ◌==◌,
  if◌then◌else◌, Result, ok, err, ◌>>=◌,
}
use composer.Base.Dict
use composer.Base.Dict.{Dict}
use composer.Workflow.{WorkflowEdge}

-- The messages of the `WorkflowValidationError`s, with the edge or the labels that they name.
pub data BranchError : Type 0 where
  no_label : String → BranchError
  duplicate_branch : String → BranchError
  unexpected_branch : String → String → BranchError
  missing_branches : List String → BranchError

-- `[e for e in edges if e.source == node.id]`
unfoldable pub out_edges : String → List WorkflowEdge → List WorkflowEdge
out_edges id = keep (λ e. e.source == id)

-- `b in seen`
abbrev pub is_key : Dict String → String → Bool
is_key seen b = contains (map (λ p. p.0) seen) b

-- The loop over the edges; `seen` starts empty.
unfoldable pub branch_loop :
    List String → Dict String → List WorkflowEdge → Result BranchError (Dict String)
unfolding Dict.put
branch_loop required seen [] = ok seen
branch_loop required seen (e ∷ es) = elim e.branch [
  | none ↦ err (no_label e.id)
  | some b ↦
      if is_key seen b
      then err (duplicate_branch b)
      else if not (contains required b)
      then err (unexpected_branch e.id b)
      else branch_loop required (Dict.put seen b e.target) es
]

-- `required_branches - seen.keys()`
abbrev pub missing : List String → Dict String → List String
missing required seen = keep (λ b. not (is_key seen b)) required

-- The check behind the loop.
unfoldable pub all_present : List String → Dict String → Result BranchError (Dict String)
all_present required seen = elim (missing required seen) [
  | [] ↦ ok seen
  | b ∷ bs ↦ err (missing_branches (b ∷ bs))
]

unfoldable pub branch_mapping :
    String → List WorkflowEdge → List String → Result BranchError (Dict String)
unfolding out_edges branch_loop all_present
branch_mapping id edges required = do
  seen ← branch_loop required [] (out_edges id edges)
  all_present required seen
