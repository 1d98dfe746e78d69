-- ===== src/Graph/Reachability/Correct.antt =====
-- The search marks exactly the nodes that a walk leads to.
use composer.Base.{
  suc, ◌≡◌, ◌↔◌, true, List, [], ◌∷◌, String, arith, length, contains, eq_iff, subst,
}
use composer.Workflow.{WorkflowEdge}
use composer.Graph.Reachability.{reachable_from, Reach, here, step}
use composer.Graph.Reachability.Loop.{IsClosure, bfs_sound, bfs-IsClosure, unvisited-nil}

closure : (es : List WorkflowEdge) (s : String) → IsClosure es (s ∷ []) [] (reachable_from es s)
unfolding reachable_from
closure es s =
    bfs-IsClosure es (suc (length es)) (s ∷ []) [] (omega (arith, unvisited-nil es)) (λ u v h. cc)

complete :
    (es : List WorkflowEdge) (s : String) {v : String}
    → Reach es s v
    → contains (reachable_from es s) v ≡ true
complete es s here = (closure es s).taken s (ground (arith, eq_iff s s))
complete es s (step {u} {v} w e) = (closure es s).closed u v (complete es s w) e

-- The search from the start node ends with every reachable node marked, and no other: a text is in
-- the result exactly when some walk along the edges leads from the start to it.
pub reachable_from_correct :
    (es : List WorkflowEdge) (s v : String)
    → (contains (reachable_from es s) v ≡ true) ↔ Reach es s v
unfolding reachable_from
reachable_from_correct es s v = (
  bfs_sound es s (suc (length es)) (s ∷ []) [] (λ x h. cc)
      (λ x h. subst (Reach es s) ((eq_iff s x).0 (ground arith)) here) v,
  complete es s,
)
