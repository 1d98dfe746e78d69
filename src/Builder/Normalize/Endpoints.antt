-- ===== src/Builder/Normalize/Endpoints.antt =====
-- A normalized draft has one start node and an end node.
use mathlib.Core.List.Memᴰ
use composer.Base.{
  ap, ℕ, ◌+◌, ◌≤◌, String, ◌≡◌, refl, Bool, true, false, none, some, [], ◌∷◌, Memᴰ, length, any,
  any_iff, ◌==◌, eq_iff, ◌⊎◌, inl, inr, Bool-cases, sym, subst, ◌∙◌, arith,
}
use composer.Base.Dict.{put}
use composer.Workflow.{NodeData, start, end, WorkflowNode}
use composer.Graph.Nodes.{is_start, is_end}
use composer.Builder.Tools.{Draft, values, keys, has, with_node}
use composer.Builder.Entries.{mem-put, put-mem_self, put-mem_other, mem-has}
use composer.Builder.WellFormed.{IsWellFormed}
use composer.Builder.Normalize.{
  Draws, candidate, merge_extra_starts, is_empty, ensure_node, ensure_endpoints, wire,
  normalize_orchestration,
}
use composer.Builder.Normalize.Fresh.{Different, unique_id-some}
use composer.Builder.Normalize.Wiring.{wire-kept}
use composer.Builder.Normalize.Keeps.{
  merge_extra_starts-IsWellFormed, ensure_endpoints-IsWellFormed,
}
use composer.Builder.Normalize.Starts.{
  Nodes, AtMostOne, Some, NonEmpty, value_of, length-put, merge_extra_starts-AtMostOne,
  merge_extra_starts-NonEmpty, length-merge_extra_starts,
}

abbrev new_node : String → NodeData → WorkflowNode
new_node id payload = record { id = id; node_name = none; payload = payload }

-- The draft as it was, with a node that passes the test, or with a new one under a free id.
abbrev Ensured : (NodeData → Bool) → NodeData → Draft → Draft → Type 0
Ensured test payload draft after =
    ((after ≡ draft) × Some test draft.nodes)
    ⊎ ((id : String) × (has draft.nodes id ≡ false)
        × ((k : String) (n : WorkflowNode) → Memᴰ (k, n) draft.nodes → test n.payload ≡ false)
        × (after ≡ with_node draft id (new_node id payload)))

NonEmpty-is_empty : (draft : Draft) → NonEmpty draft.nodes → is_empty draft ≡ false
NonEmpty-is_empty draft (entry, m) = go draft.nodes m
  where
    go :
        (nodes : Nodes)
        → Memᴰ entry nodes
        → elim nodes as (λ _. Bool) [ [] ↦ true | e ∷ rest ↦ false ] ≡ false
    go [] at = absurd (Memᴰ.not-nil at)
    go (e ∷ rest) at = refl

ensure_node-Ensured :
    (test : NodeData → Bool) (payload : NodeData) (base : String) (token : ℕ → String)
    (draft : Draft)
    → NonEmpty draft.nodes
    → Different (candidate token base) 0 (0 + (length (keys draft.nodes) + 1))
    → (after : Draft) × (ensure_node test payload base token draft ≡ some after)
      × Ensured test payload draft after
unfolding ensure_node
ensure_node-Ensured test payload base token draft full different =
    let passes = λ (n : WorkflowNode). test n.payload in
    let filled = NonEmpty-is_empty draft full in
    elim (Bool-cases (any passes (values draft.nodes))) [
      | inl found ↦
          let (n, m, it) = (any_iff passes (values draft.nodes)).0 found in
          let ((k, other), at, e) =
            Memᴰ.of_map (λ (p : String × WorkflowNode). p.1) draft.nodes m in
          (
            draft,
            rw (found, ensure_node) refl,
            inl (
              refl,
              (k, other, at, subst (λ (x : WorkflowNode). test x.payload ≡ true) (sym e) it),
            ),
          )
      | inr missing ↦
          let (k, above, below, found, free) =
            unique_id-some (candidate token base) (keys draft.nodes) (length (keys draft.nodes) + 1)
              0 different (omega arith) in
          let id = candidate token base k in
          (
            with_node draft id (new_node id payload),
            rw (missing, filled, found, ensure_node) refl,
            inr (
              id,
              free,
              λ j n m. elim (Bool-cases (test n.payload)) [
                | inr fails ↦ fails
                | inl it ↦ cc (
                  missing,
                  (any_iff passes (values draft.nodes)).1 (n, value_of draft.nodes j n m, it),
                )
              ],
              refl,
            ),
          )
    ]

-- An entry stays where a new one is put under a free id.
stays :
    (draft : Draft) (id : String) (node : WorkflowNode) (entry : String × WorkflowNode)
    → has draft.nodes id ≡ false
    → Memᴰ entry draft.nodes
    → Memᴰ entry (put draft.nodes id node)
stays draft id node entry free m =
    put-mem_other draft.nodes id node entry m (elim (Bool-cases (entry.0 == id)) [
      | inr apart ↦ apart
      | inl same ↦ cc ((eq_iff entry.0 id).0 same, mem-has draft.nodes entry m, free)
    ])

-- One start node, under one key.
abbrev pub OneStart : Nodes → Type 0
OneStart nodes = Some is_start nodes × AtMostOne nodes

start-Ensured :
    (draft after : Draft)
    → NonEmpty draft.nodes
    → AtMostOne draft.nodes
    → Ensured is_start (start []) draft after
    → OneStart after.nodes
      × NonEmpty after.nodes
      × (length (keys after.nodes) ≤ length (keys draft.nodes) + 1)
start-Ensured draft after full one (inl (same, there)) =
    subst
      (λ (d : Draft).
        OneStart d.nodes
        × NonEmpty d.nodes
        × (length (keys d.nodes) ≤ length (keys draft.nodes) + 1))
      (sym same) ((there, one), full, omega arith)
start-Ensured draft after full one (inr (id, free, none_before, same)) =
    let node = new_node id (start []) in
    let here = put-mem_self draft.nodes id node in
    let under =
      λ (k : String) (n : WorkflowNode) (m : Memᴰ (k, n) (put draft.nodes id node))
          (it : is_start n.payload ≡ true).
        let key : k ≡ id = elim (mem-put draft.nodes id node (k, n) m) [
          | inl e ↦ ap (λ (p : String × WorkflowNode). p.0) e
          | inr old ↦ cc (none_before k n old, it)
        ] in
        key in
    subst
      (λ (d : Draft).
        OneStart d.nodes
        × NonEmpty d.nodes
        × (length (keys d.nodes) ≤ length (keys draft.nodes) + 1))
      (sym same)
      (
        ((id, node, here, refl), λ j k t s m it m' it'. under j t m it ∙ sym (under k s m' it')),
        ((id, node), here),
        length-put draft.nodes id node,
      )

end-Ensured :
    (draft after : Draft)
    → OneStart draft.nodes
    → Ensured is_end end draft after
    → OneStart after.nodes × Some is_end after.nodes
end-Ensured draft after one (inl (same, there)) =
    subst (λ (d : Draft). OneStart d.nodes × Some is_end d.nodes) (sym same) (one, there)
end-Ensured draft after ((s, n, m, it), one) (inr (id, free, none_before, same)) =
    let node = new_node id end in
    let before =
      λ (k : String) (x : WorkflowNode) (at : Memᴰ (k, x) (put draft.nodes id node))
          (yes_start : is_start x.payload ≡ true).
        let old : Memᴰ (k, x) draft.nodes = elim (mem-put draft.nodes id node (k, x) at) [
          | inl e ↦ absurd (
              let clash : ⊥ =
                cc (
                  subst (λ (p : String × WorkflowNode). is_start p.1.payload ≡ true) e yes_start) in
              clash)
          | inr there ↦ there
        ] in
        old in
    subst (λ (d : Draft). OneStart d.nodes × Some is_end d.nodes) (sym same)
      (
        (
          (s, n, stays draft id node (s, n) free m, it),
          λ j k t u at it' at' it''. one j k t u (before j t at it') it' (before k u at' it'') it'',
        ),
        (id, node, put-mem_self draft.nodes id node, refl),
      )

ensure_endpoints-ends :
    (draws : Draws) (draft : Draft)
    → NonEmpty draft.nodes
    → AtMostOne draft.nodes
    → Different (candidate draws.start_token "start") 0 (length (keys draft.nodes) + 2)
    → Different (candidate draws.end_token "end") 0 (length (keys draft.nodes) + 2)
    → (after : Draft) × (ensure_endpoints draws draft ≡ some after)
      × OneStart after.nodes
      × Some is_end after.nodes
unfolding ensure_endpoints
ensure_endpoints-ends draws draft full one starts ends =
    let (started, first, ensured) =
      ensure_node-Ensured is_start (start []) "start" draws.start_token draft full
        (λ j k a b c d. starts j k a (omega arith) c (omega arith)) in
    let (one_start, full', longer) = start-Ensured draft started full one ensured in
    let (after, second, ensured') =
      ensure_node-Ensured is_end end "end" draws.end_token started full'
        (λ j k a b c d. ends j k a (omega (arith, longer)) c (omega (arith, longer))) in
    let (still, there) = end-Ensured started after one_start ensured' in
    (after, rw (first, ensure_endpoints) second, still, there)

-- The repair of a well-formed draft that has nodes ends, with a draft that has exactly one start node and at
-- least one end node, if the candidates for the two ids that it may need do not repeat among the first ones,
-- three more than the draft has nodes.
pub normalize_orchestration_ends :
    (draws : Draws) (draft : Draft)
    → IsWellFormed draft
    → NonEmpty draft.nodes
    → Different (candidate draws.start_token "start") 0 (length (keys draft.nodes) + 3)
    → Different (candidate draws.end_token "end") 0 (length (keys draft.nodes) + 3)
    → (after : Draft) × (normalize_orchestration draws draft ≡ some after)
      × OneStart after.nodes
      × Some is_end after.nodes
unfolding normalize_orchestration
normalize_orchestration_ends draws draft w full starts ends =
    let merged = merge_extra_starts draft in
    let longer = length-merge_extra_starts draft in
    let (completed, found, one, there) =
      ensure_endpoints-ends draws merged (merge_extra_starts-NonEmpty draft full)
        (merge_extra_starts-AtMostOne draft w)
        (λ j k a b c d. starts j k a (omega (arith, longer)) c (omega (arith, longer)))
        (λ j k a b c d. ends j k a (omega (arith, longer)) c (omega (arith, longer))) in
    let (same, edges) = wire-kept draws completed (
      ensure_endpoints-IsWellFormed draws merged completed (merge_extra_starts-IsWellFormed draft w)
        found) in
    (
      wire draws completed,
      rw (found, normalize_orchestration) refl,
      subst OneStart (sym same) one,
      subst (Some is_end) (sym same) there,
    )
