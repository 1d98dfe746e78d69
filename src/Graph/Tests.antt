-- ===== src/Graph/Tests.antt =====
-- Runs of the graph builder on a triage workflow, and its theorems at that workflow.
use composer.Base.{String, ◌≡◌, refl, ◌↔◌, true, none, some, List, [], ◌∷◌, Memᴰ, contains, ok, err}
use composer.Base.Dict
use composer.Workflow.{
  NodeData, start, if_else, agent, note, end, WorkflowNode, WorkflowEdge, Workflow,
}
use composer.Value.{Value, bool}
use composer.State.{initial_state}
use composer.Graph.Reachability.{reachable_from, Reach}
use composer.Graph.Reachability.Correct.{reachable_from_correct}
use composer.Graph.Markers.{branch_markers}
use composer.Graph.Markers.Sound.{Origin, branch_markers_sound}
use composer.Graph.Shape.{
  Violation, end_incoming, collect_workflow_violations, validate_workflow_shape, ids_of,
}
use composer.Graph.Shape.WellFormed.{IsWellFormed}
use composer.Graph.Shape.Correct.{validate_workflow_shape_correct}
use composer.Graph.Branches.{branch_mapping}
use composer.Graph.Branches.Correct.{IsMapping, branch_mapping_correct}
use composer.Graph.Routers.{Evaluator, route_payload}
use composer.Graph.Build.{Compiled, build_state_graph, add_nodes, add_edges, add_conditionals}
use composer.Graph.Build.Routing.{router_has_target}
use composer.Graph.Build.Targets.{executed, build_state_graph-nodes}

abbrev node : String → NodeData → WorkflowNode
node id payload = record { id = id; node_name = none; payload = payload }

abbrev edge : String → String → String → WorkflowEdge
edge id source target = record { id = id; source = source; target = target; branch = none }

abbrev branch : String → String → String → String → WorkflowEdge
branch id source target label = record {
  id = id;
  source = source;
  target = target;
  branch = some label;
}

abbrev check : WorkflowNode
check = node "check" (if_else (some "urgent"))

abbrev triage_nodes : List WorkflowNode
triage_nodes =
    node "start" (start [])
    ∷ check
    ∷ node "fast" agent
    ∷ node "slow" agent
    ∷ node "end" end
    ∷ node "memo" note
    ∷ []

abbrev triage_edges : List WorkflowEdge
triage_edges =
    edge "e1" "start" "check"
    ∷ branch "e2" "check" "fast" "true"
    ∷ branch "e3" "check" "slow" "false"
    ∷ edge "e4" "fast" "end"
    ∷ edge "e5" "slow" "end"
    ∷ []

abbrev triage : Workflow
triage = record { nodes = triage_nodes; edges = triage_edges }

triage_accepted : validate_workflow_shape triage ≡ ok tt
unfolding validate_workflow_shape
triage_accepted = refl

-- Without the branches the two agents may both run into the end.
abbrev unguarded : Workflow
unguarded = record {
  nodes = node "start" (start []) ∷ node "fast" agent ∷ node "slow" agent ∷ node "end" end ∷ [];
  edges =
      edge "e1" "start" "fast"
      ∷ edge "e2" "start" "slow"
      ∷ edge "e3" "fast" "end"
      ∷ edge "e4" "slow" "end"
      ∷ [];
}

unguarded_rejected : validate_workflow_shape unguarded ≡ err (end_incoming "end" 2)
unfolding validate_workflow_shape
unguarded_rejected = refl

reachable_from_correct_example :
    (contains (reachable_from triage_edges "start") "end" ≡ true) ↔ Reach triage_edges "start" "end"
reachable_from_correct_example = reachable_from_correct triage_edges "start" "end"

validate_workflow_shape_correct_example :
    ((validate_workflow_shape triage ≡ ok tt) ↔ ((s : String) × IsWellFormed triage s))
    × ((v : Violation)
        → (validate_workflow_shape triage ≡ err v)
          ↔ ((rest : List Violation) × (collect_workflow_violations triage ≡ v ∷ rest)))
validate_workflow_shape_correct_example = validate_workflow_shape_correct triage

abbrev check_mapping : Dict.Dict String
check_mapping = ("true", "fast") ∷ ("false", "slow") ∷ []

branch_mapping_correct_example :
    IsMapping "check" triage_edges ("true" ∷ "false" ∷ []) check_mapping
unfolding branch_mapping
branch_mapping_correct_example =
    branch_mapping_correct "check" triage_edges ("true" ∷ "false" ∷ []) check_mapping refl

abbrev triage_graph : Compiled
triage_graph = record {
  nodes = "start" ∷ "check" ∷ "fast" ∷ "slow" ∷ "end" ∷ [];
  edges = ("start", "check") ∷ ("fast", "end") ∷ ("slow", "end") ∷ [];
  conditional = record { node = check; mapping = check_mapping } ∷ [];
  entry = "start";
  exits = "end" ∷ [];
}

triage_builds : build_state_graph triage ≡ ok triage_graph
unfolding build_state_graph validate_workflow_shape add_nodes add_edges add_conditionals
triage_builds = refl

-- An evaluator under which every condition holds.
abbrev always : Evaluator
always expr state = some (bool true)

router_has_target_example :
    (e : WorkflowEdge) × Memᴰ e triage_edges
    × (e.source ≡ "check")
    × (e.branch ≡ some "true")
    × (Dict.get check_mapping "true" ≡ some e.target)
unfolding route_payload
router_has_target_example =
    router_has_target triage triage_graph triage_builds
      (record { node = check; mapping = check_mapping }) (Memᴰ.head refl) always
      (initial_state Value.null) "true" refl

triage_graph_nodes :
    (triage_graph.nodes ≡ ids_of executed triage_nodes)
    × ((s t : String)
        → Memᴰ (s, t) triage_graph.edges
        → Memᴰ s triage_graph.nodes × Memᴰ t triage_graph.nodes)
triage_graph_nodes = build_state_graph-nodes triage triage_graph triage_builds

branch_markers_sound_example : Origin triage_edges (record { cond = "check"; label = "true" }) "end"
unfolding branch_markers
branch_markers_sound_example =
    branch_markers_sound triage_nodes triage_edges "end" (record { cond = "check"; label = "true" })
      (Memᴰ.head refl)

-- `fast` also hangs off the start, so it runs whatever the check says, and so may `slow`; yet the
-- two count as mutually exclusive and may both lead into the end.
abbrev bypass : Workflow
bypass = record { nodes = triage_nodes; edges = edge "e0" "start" "fast" ∷ triage_edges }

bypass_accepted : validate_workflow_shape bypass ≡ ok tt
unfolding validate_workflow_shape
bypass_accepted = refl
