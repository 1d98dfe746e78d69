-- ===== src/Graph/Reachability.antt =====
-- The breadth-first search from the start node in src/engine/graph_builder.py.
mod Loop
pub mod Correct
use composer.Base.{
  ℕ, zero, suc, String, ◌≡◌, true, false, List, [], ◌∷◌, ◌++◌, Memᴰ, length, contains, ◌==◌,
  if◌then◌else◌,
}
use composer.Workflow.{WorkflowEdge}

-- `outgoing[u]`, when `outgoing` was filled from `es`.
unfoldable pub targets : String → List WorkflowEdge → List String
targets u [] = []
targets u (e ∷ es) = let rest = targets u es in if e.source == u then e.target ∷ rest else rest

-- `while queue: current = queue.popleft() ...`
unfoldable pub bfs : List WorkflowEdge → ℕ → List String → List String → List String
unfolding targets
bfs es zero queue reachable = reachable
bfs es (suc fuel) [] reachable = reachable
bfs es (suc fuel) (current ∷ queue) reachable = elim (contains reachable current) [
  | true ↦ bfs es fuel queue reachable
  | false ↦ bfs es fuel (queue ++ targets current es) (current ∷ reachable)
]

-- Every round takes one entry off the queue, and an edge puts its target there once.
unfoldable pub reachable_from : List WorkflowEdge → String → List String
unfolding bfs
reachable_from es start_id = bfs es (suc (length es)) (start_id ∷ []) []

-- Some edge leads from `u` to `v`.
abbrev pub Step : List WorkflowEdge → String → String → Type 0
Step es u v = (e : WorkflowEdge) × Memᴰ e es × (e.source ≡ u) × (e.target ≡ v)

-- The walks from `s`.
pub data Reach (es : List WorkflowEdge) (s : String) : String → Type 0 where
  here : Reach es s s
  step : {u v : String} → Reach es s u → Step es u v → Reach es s v
