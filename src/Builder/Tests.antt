-- ===== src/Builder/Tests.antt =====
-- Short turns on small drafts.
use mathlib.Core.List.Memᴰ
use composer.Base.{
  ap, ℕ, zero, suc, ◌<◌, String, ◌≡◌, refl, true, none, some, [], ◌∷◌, ◌==◌, if◌then◌else◌, ok, err,
  sym, ◌∙◌, arith, inl, inr,
}
use composer.Base.Dict.{get, put}
use composer.Value.{empty}
use composer.Workflow.{NodeData, start, end, agent, WorkflowNode, WorkflowEdge, Workflow}
use composer.Graph.Nodes.{is_end}
use composer.Graph.Shape.{end_incoming, validate_workflow_shape}
use composer.Builder.Tools.{
  Draft, Models, values, node_exists, create_node, connect_nodes, matches_id,
}
use composer.Builder.WellFormed.{KeepsIds, IsWellFormed}
use composer.Builder.Normalize.{Draws, candidate, normalize_orchestration}
use composer.Builder.Normalize.Starts.{Some}
use composer.Builder.Normalize.Endpoints.{OneStart, normalize_orchestration_ends}
use composer.Builder.Turns.{here, next, create, connect, turns-IsWellFormed}

abbrev payload_of : String → NodeData
payload_of node_type =
    if node_type == "start" then start [] else if node_type == "end" then end else agent

abbrev models : Models
models = record {
  construct = λ node_type id fields.
      ok (record { id = id; node_name = none; payload = payload_of node_type });
  dump = λ node. empty;
  read_input = λ fields. none;
}

models-KeepsIds : KeepsIds models
models-KeepsIds node_type id fields node h =
    let same : record { id = id; node_name = none; payload = payload_of node_type } ≡ node = cc h in
    sym (ap (λ (n : WorkflowNode). n.id) same)

abbrev blank : Draft
blank = record { nodes = []; edges = [] }

abbrev with_agent : Draft
with_agent = (create_node models "agent" "a" "A" empty blank).1

agent_created : create_node models "agent" "a" "A" empty with_agent ≡ (err node_exists, with_agent)
unfolding create_node get put
agent_created = refl

id_with_newline : matches_id "node-1\n" ≡ true
unfolding matches_id
id_with_newline = refl

-- An agent is made, and an edge to a node that is missing is refused.
abbrev two_calls : Draft
two_calls = (connect_nodes "e-1" "a" "b" none with_agent).1

blank-IsWellFormed : IsWellFormed blank
blank-IsWellFormed = (tt, λ k n m. absurd (Memᴰ.not-nil m), λ k e m. absurd (Memᴰ.not-nil m))

turns-IsWellFormed_example : IsWellFormed two_calls
turns-IsWellFormed_example =
    turns-IsWellFormed models-KeepsIds blank-IsWellFormed
      (next (next here (create "agent" "a" "A" empty)) (connect "e-1" "a" "b" none))

abbrev token : ℕ → String
token zero = "a"
token (suc zero) = "b"
token (suc (suc n)) = "c"

abbrev index : String → String → ℕ
index base s =
    if s == base
    then 0
    else if s == candidate token base 1
    then 1
    else if s == candidate token base 2
    then 2
    else 3

start_index : (j : ℕ) → j < 4 → index "start" (candidate token "start" j) ≡ j
start_index zero h = refl
start_index (suc zero) h = refl
start_index (suc (suc zero)) h = refl
start_index (suc (suc (suc zero))) h = refl
start_index (suc (suc (suc (suc n)))) h = absurd (omega (arith, h))

end_index : (j : ℕ) → j < 4 → index "end" (candidate token "end" j) ≡ j
end_index zero h = refl
end_index (suc zero) h = refl
end_index (suc (suc zero)) h = refl
end_index (suc (suc (suc zero))) h = refl
end_index (suc (suc (suc (suc n)))) h = absurd (omega (arith, h))

abbrev draws : Draws
draws = record { edge_id = token; start_token = token; end_token = token }

abbrev one_agent : Draft
one_agent = record {
  nodes = ("a", record { id = "a"; node_name = none; payload = agent }) ∷ [];
  edges = [];
}

one_agent-IsWellFormed : IsWellFormed one_agent
one_agent-IsWellFormed = (
  (Memᴰ.not-nil, tt),
  λ k n m. elim (Memᴰ.cases_cons m) [
    | inl e ↦
        ap (λ (p : String × WorkflowNode). p.1.id) e
        ∙ sym (ap (λ (p : String × WorkflowNode). p.0) e)
    | inr r ↦ absurd (Memᴰ.not-nil r)
  ],
  λ k e m. absurd (Memᴰ.not-nil m),
)

normalize_orchestration_ends_example :
    (after : Draft) × (normalize_orchestration draws one_agent ≡ some after)
    × OneStart after.nodes
    × Some is_end after.nodes
normalize_orchestration_ends_example =
    normalize_orchestration_ends draws one_agent one_agent-IsWellFormed (_, Memᴰ.head refl)
      (λ j k a b c d e. sym (start_index j b) ∙ ap (index "start") e ∙ start_index k d)
      (λ j k a b c d e. sym (end_index j b) ∙ ap (index "end") e ∙ end_index k d)

abbrev node : String → NodeData → String × WorkflowNode
node id payload = (id, record { id = id; node_name = none; payload = payload })

abbrev edge : String → String → String → String × WorkflowEdge
edge id source target = (id, record { id = id; source = source; target = target; branch = none })

-- Start leads to an end, and by an agent to another end.
abbrev two_ends : Draft
two_ends = record {
  nodes = node "start" (start []) ∷ node "a" agent ∷ node "end-1" end ∷ node "end-2" end ∷ [];
  edges = edge "e-1" "start" "end-1" ∷ edge "e-2" "start" "a" ∷ edge "e-3" "a" "end-2" ∷ [];
}

abbrev workflow_of : Draft → Workflow
workflow_of draft = record { nodes = values draft.nodes; edges = values draft.edges }

two_ends_valid : validate_workflow_shape (workflow_of two_ends) ≡ ok tt
unfolding validate_workflow_shape
two_ends_valid = refl

abbrev repaired : Draft
repaired = record two_ends { edges = edge "e-2" "start" "a" ∷ edge "e-3" "a" "end-2" ∷ [] }

two_ends-repaired : normalize_orchestration draws two_ends ≡ some repaired
unfolding normalize_orchestration get
two_ends-repaired = refl

-- The end node is cut off.
repaired_invalid : validate_workflow_shape (workflow_of repaired) ≡ err (end_incoming "end-1" 0)
unfolding validate_workflow_shape
repaired_invalid = refl
