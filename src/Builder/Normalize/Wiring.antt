-- ===== src/Builder/Normalize/Wiring.antt =====
-- The edges that a repair adds join nodes of the draft.
use mathlib.Core.List.Memᴰ
use composer.Base.{
  String, ◌≡◌, refl, true, ◌&&◌, none, Option-cases, List, [], ◌∷◌, map, Memᴰ, contains, keep,
  mem-keep, find, ◌==◌, inl, inr, Bool-cases, subst,
}
use composer.Base.Dict.{Dict}
use composer.Workflow.{WorkflowNode, WorkflowEdge}
use composer.Graph.Nodes.{is_start, is_end}
use composer.Builder.Tools.{Draft, values, keys, has}
use composer.Builder.Entries.{mem-remove, mem-has}
use composer.Builder.WellFormed.{Keyed, Joined, IsWellFormed, put_edge-Joined, find_start}
use composer.Builder.Normalize.{
  Draws, Work, add_edge, has_executable_incoming, needs_head, attach_heads, has_others,
  drop_shortcuts, needs_tail, attach_tails, attach_end, shortened, feed_ends, end_ids_of, wire,
}

-- The ids of nodes are the keys of the dict.
pub ids-keys :
    (nodes : Dict WorkflowNode)
    → Keyed nodes
    → map (λ (n : WorkflowNode). n.id) (values nodes) ≡ keys nodes
ids-keys [] keyed = refl
ids-keys ((k, n) ∷ nodes) keyed =
    cc (keyed k n (Memᴰ.head refl), ids-keys nodes (λ j m at. keyed j m (Memᴰ.tail at)))

pub value-has :
    (nodes : Dict WorkflowNode) (node : WorkflowNode)
    → Keyed nodes
    → Memᴰ node (values nodes)
    → Memᴰ (node.id, node) nodes
value-has nodes node keyed m =
    let ((k, n), at, e) = Memᴰ.of_map (λ (p : String × WorkflowNode). p.1) nodes m in
    subst (λ (p : String × WorkflowNode). Memᴰ p nodes)
      (let same : (k, n) ≡ (node.id, node) = cc (keyed k n at, e) in same) at

-- The edges of work on fixed nodes.
abbrev Over : Dict WorkflowNode → Work → Type 0
Over nodes work = (work.draft.nodes ≡ nodes) × Joined nodes work.draft.edges

add_edge-Over :
    (draws : Draws) (source target : String) (nodes : Dict WorkflowNode) (work : Work)
    → Over nodes work
    → has nodes source ≡ true
    → has nodes target ≡ true
    → Over nodes (add_edge draws source target work)
unfolding add_edge
add_edge-Over draws source target nodes work (same, joined) from to = (
  same,
  put_edge-Joined nodes work.draft.edges
      (record { id = draws.edge_id work.drawn; source = source; target = target; branch = none })
      joined from to,
)

attach_heads-Over :
    (draws : Draws) (start_id : String) (nodes : Dict WorkflowNode) (listed : List WorkflowNode)
    (work : Work)
    → Over nodes work
    → has nodes start_id ≡ true
    → ((n : WorkflowNode) → Memᴰ n listed → has nodes n.id ≡ true)
    → Over nodes (attach_heads draws start_id listed work)
unfolding attach_heads
attach_heads-Over draws start_id nodes [] work over from there = over
attach_heads-Over draws start_id nodes (n ∷ listed) work over from there =
    attach_heads-Over draws start_id nodes listed _
      (elim (Bool-cases (needs_head start_id work.draft n)) [
        | inl needed ↦
            rw needed
              (add_edge-Over draws start_id n.id nodes work over from (there n (Memᴰ.head refl)))
        | inr spared ↦ rw spared over
      ])
      from (λ m at. there m (Memᴰ.tail at))

attach_tails-Over :
    (draws : Draws) (start_id end_id : String) (nodes : Dict WorkflowNode)
    (listed : List WorkflowNode) (work : Work)
    → Over nodes work
    → has nodes end_id ≡ true
    → ((n : WorkflowNode) → Memᴰ n listed → has nodes n.id ≡ true)
    → Over nodes (attach_tails draws start_id end_id listed work)
unfolding attach_tails
attach_tails-Over draws start_id end_id nodes [] work over to there = over
attach_tails-Over draws start_id end_id nodes (n ∷ listed) work over to there =
    attach_tails-Over draws start_id end_id nodes listed _
      (elim (Bool-cases (needs_tail start_id end_id work.draft n)) [
        | inl needed ↦
            rw needed
              (add_edge-Over draws n.id end_id nodes work over (there n (Memᴰ.head refl)) to)
        | inr spared ↦ rw spared over
      ])
      to (λ m at. there m (Memᴰ.tail at))

attach_end-Over :
    (draws : Draws) (start_id end_id : String) (nodes : Dict WorkflowNode) (work : Work)
    → Over nodes work
    → has nodes start_id ≡ true
    → has nodes end_id ≡ true
    → Over nodes (attach_end draws start_id end_id work)
unfolding attach_end
attach_end-Over draws start_id end_id nodes work over from to =
    elim (Bool-cases (has_executable_incoming work.draft end_id)) [
      | inl fed ↦ rw (fed, attach_end) over
      | inr unfed ↦
          rw (unfed, attach_end) (add_edge-Over draws start_id end_id nodes work over from to)
    ]

drop_shortcuts-Joined :
    (start_id : String) (end_ids : List String) (nodes : Dict WorkflowNode)
    (listed edges : Dict WorkflowEdge)
    → Joined nodes edges
    → Joined nodes (drop_shortcuts start_id end_ids listed edges)
unfolding drop_shortcuts
drop_shortcuts-Joined start_id end_ids nodes [] edges joined = joined
drop_shortcuts-Joined start_id end_ids nodes ((k, e) ∷ listed) edges joined =
    drop_shortcuts-Joined start_id end_ids nodes listed _
      (elim (Bool-cases
        (e.source == start_id && contains end_ids e.target && has_others start_id k e edges)) [
          | inl drops ↦ rw drops (λ j f m. joined j f (mem-remove edges k (j, f) m).0)
          | inr stays ↦ rw stays joined
        ])

shortened-Over :
    (start_id : String) (end_ids : List String) (nodes : Dict WorkflowNode) (work : Work)
    → Over nodes work
    → Over nodes (shortened start_id end_ids work)
shortened-Over start_id end_ids nodes work (same, joined) =
    (same, drop_shortcuts-Joined start_id end_ids nodes work.draft.edges work.draft.edges joined)

feed_ends-Over :
    (draws : Draws) (start_id : String) (end_ids : List String) (nodes : Dict WorkflowNode)
    (listed : List WorkflowNode) (work : Work)
    → Over nodes work
    → has nodes start_id ≡ true
    → ((id : String) → Memᴰ id end_ids → has nodes id ≡ true)
    → ((n : WorkflowNode) → Memᴰ n listed → has nodes n.id ≡ true)
    → Over nodes (feed_ends draws start_id end_ids listed work)
unfolding feed_ends
feed_ends-Over draws start_id [] nodes listed work over from ends there = over
feed_ends-Over draws start_id (end_id ∷ []) nodes listed work over from ends there =
    let to = ends end_id (Memᴰ.head refl) in
    attach_end-Over draws start_id end_id nodes _
      (attach_tails-Over draws start_id end_id nodes listed work over to there) from to
feed_ends-Over draws start_id (end_id ∷ other ∷ more) nodes listed work over from ends there = over

-- Wiring changes the edges alone, and keeps them between nodes.
pub wire-kept :
    (draws : Draws) (draft : Draft)
    → IsWellFormed draft
    → ((wire draws draft).nodes ≡ draft.nodes) × Joined draft.nodes (wire draws draft).edges
unfolding wire
wire-kept draws draft (d, keyed, joined) =
    elim (Option-cases (find (λ (n : WorkflowNode). is_start n.payload) (values draft.nodes))) [
      | inl missing ↦ rw (missing, wire) (refl, joined)
      | inr (s, found) ↦
          let there = λ (n : WorkflowNode) (m : Memᴰ n (values draft.nodes)).
            let known : has draft.nodes n.id ≡ true =
              mem-has draft.nodes (n.id, n) (value-has draft.nodes n keyed m) in
            known in
          let from = there s (find_start draft s found) in
          let headed =
            attach_heads draws s.id (values draft.nodes) (record { draft = draft; drawn = 0 }) in
          rw (found, wire)
            (feed_ends-Over draws s.id (end_ids_of draft) draft.nodes (values draft.nodes)
              (shortened s.id (end_ids_of draft) headed)
              (shortened-Over s.id (end_ids_of draft) draft.nodes headed (
                attach_heads-Over draws s.id draft.nodes (values draft.nodes)
                  (record { draft = draft; drawn = 0 }) (refl, joined) from there))
              from
              (λ id m.
                let (n, at, e) =
                  Memᴰ.of_map (λ (x : WorkflowNode). x.id)
                    (keep (λ (x : WorkflowNode). is_end x.payload) (values draft.nodes)) m in
                subst (λ k. has draft.nodes k ≡ true) e
                  (there n
                    ((mem-keep (λ (x : WorkflowNode). is_end x.payload) n (values draft.nodes)).0
                      at).0))
              there)
    ]
