-- ===== src/Builder/Normalize/Keeps.antt =====
-- Normalizing keeps a draft well formed.
use mathlib.Core.List.Memᴰ
use composer.Base.{
  ℕ, String, ◌≡◌, refl, Bool, true, false, ◌||◌, none, some, Option-cases, List, [], ◌∷◌, map, Memᴰ,
  Distinct, keep, mem-keep, ◌==◌, eq_iff, inl, inr, ◌+◌, Bool-cases, sym, subst, ◌∙◌, arith, length,
  any,
}
use composer.Base.Dict.{Dict, remove}
use composer.Workflow.{StartInputVariable, NodeData, start, end, WorkflowNode, WorkflowEdge}
use composer.Graph.Nodes.{is_start, is_end}
use composer.Builder.Tools.{Draft, values, keys, has, with_node, with_inputs}
use composer.Builder.Entries.{mem-remove, has-remove, Distinct-remove, mem-has}
use composer.Builder.WellFormed.{Keyed, Joins, Joined, IsWellFormed, with_node-IsWellFormed}
use composer.Builder.Normalize.{
  Draws, candidate, unique_id, inputs_of, redirect, merge_into, starts_of, merge_starts,
  merge_extra_starts, is_empty, ensure_node, ensure_endpoints, wire, normalize_orchestration,
}
use composer.Builder.Normalize.Wiring.{ids-keys, value-has, wire-kept}

redirect-Joined :
    (extra kept : String) (nodes : Dict WorkflowNode) (edges : Dict WorkflowEdge)
    → Joined nodes edges
    → has nodes kept ≡ true
    → (kept == extra) ≡ false
    → Joined (remove nodes extra) (redirect extra kept edges)
unfolding redirect
redirect-Joined extra kept nodes [] joined there apart k e m = absurd (Memᴰ.not-nil m)
redirect-Joined extra kept nodes ((j, f) ∷ edges) joined there apart k e m =
    let later =
      redirect-Joined extra kept nodes edges (λ i g at. joined i g (Memᴰ.tail at)) there apart k
        e in
    let (named, from, to) = joined j f (Memᴰ.head refl) in
    elim (Bool-cases (f.target == extra)) [
      | inl into ↦ later (rw (into, redirect) at m)
      | inr elsewhere ↦
          let to_stays : has (remove nodes extra) f.target ≡ true =
            has-remove nodes extra f.target
            ∙ ground (arith, eq_iff f.target extra, eq_iff extra f.target) in
          elim (Bool-cases (f.source == extra)) [
            | inl out_of ↦ elim (Memᴰ.cases_cons (rw (elsewhere, out_of, redirect) at m)) [
              | inl same ↦
                  subst (λ (p : String × WorkflowEdge). Joins (remove nodes extra) p.0 p.1)
                    (sym same)
                    (
                      named,
                      has-remove nodes extra kept
                          ∙ ground (arith, eq_iff kept extra, eq_iff extra kept),
                      to_stays,
                    )
              | inr r ↦ later r
            ]
            | inr other ↦ elim (Memᴰ.cases_cons (rw (elsewhere, other, redirect) at m)) [
              | inl same ↦
                  subst (λ (p : String × WorkflowEdge). Joins (remove nodes extra) p.0 p.1)
                    (sym same)
                    (
                      named,
                      has-remove nodes extra f.source
                          ∙ ground (arith, eq_iff f.source extra, eq_iff extra f.source),
                      to_stays,
                    )
              | inr r ↦ later r
            ]
          ]
    ]

Distinct-keep :
    (test : WorkflowNode → Bool) (nodes : List WorkflowNode)
    → Distinct (map (λ (n : WorkflowNode). n.id) nodes)
    → Distinct (map (λ (n : WorkflowNode). n.id) (keep test nodes))
Distinct-keep test [] d = tt
Distinct-keep test (n ∷ nodes) (free, d) = elim (Bool-cases (test n)) [
  | inl kept ↦ rw kept (
    λ m.
        let (other, at, e) = Memᴰ.of_map (λ (x : WorkflowNode). x.id) (keep test nodes) m in
        free (
          subst (λ i. Memᴰ i (map (λ (x : WorkflowNode). x.id) nodes)) e
            (Memᴰ.map (λ (x : WorkflowNode). x.id) ((mem-keep test other nodes).0 at).0)),
    Distinct-keep test nodes d,
  )
  | inr left ↦ rw left (Distinct-keep test nodes d)
]

pub starts-Distinct :
    (draft : Draft)
    → IsWellFormed draft
    → Distinct (map (λ (n : WorkflowNode). n.id) (starts_of draft))
starts-Distinct draft (d, keyed, joined) =
    Distinct-keep (λ (n : WorkflowNode). is_start n.payload) (values draft.nodes)
      (subst Distinct (sym (ids-keys draft.nodes keyed)) d)

pub apart_from :
    (kept : WorkflowNode) (extras : List WorkflowNode)
    → (¬ Memᴰ kept.id (map (λ (n : WorkflowNode). n.id) extras))
    → (extra : WorkflowNode) → Memᴰ extra extras
    → (kept.id == extra.id) ≡ false
apart_from kept extras free extra m = elim (Bool-cases (kept.id == extra.id)) [
  | inr apart ↦ apart
  | inl same ↦ absurd (
      free (
        subst (λ i. Memᴰ i (map (λ (n : WorkflowNode). n.id) extras))
          (sym ((eq_iff kept.id extra.id).0 same)) (Memᴰ.map (λ (n : WorkflowNode). n.id) m)))
]

merge_into-IsWellFormed :
    (kept : WorkflowNode) (extras : List WorkflowNode) (variables : List StartInputVariable)
    (draft : Draft)
    → IsWellFormed draft
    → has draft.nodes kept.id ≡ true
    → ((extra : WorkflowNode) → Memᴰ extra extras → (kept.id == extra.id) ≡ false)
    → IsWellFormed (merge_into kept extras variables draft).1
unfolding merge_into
merge_into-IsWellFormed kept [] variables draft w there apart = w
merge_into-IsWellFormed kept (extra ∷ extras) variables draft (d, keyed, joined) there apart =
    let away = apart extra (Memᴰ.head refl) in
    merge_into-IsWellFormed kept extras _
      (record {
        nodes = remove draft.nodes extra.id;
        edges = redirect extra.id kept.id draft.edges;
      })
      (
        Distinct-remove draft.nodes extra.id d,
        λ k n m. keyed k n (mem-remove draft.nodes extra.id (k, n) m).0,
        redirect-Joined extra.id kept.id draft.nodes draft.edges joined there away,
      )
      (has-remove draft.nodes extra.id kept.id
        ∙ ground (arith, eq_iff kept.id extra.id, eq_iff extra.id kept.id))
      (λ other m. apart other (Memᴰ.tail m))

merge_starts-IsWellFormed :
    (starts : List WorkflowNode) (draft : Draft)
    → IsWellFormed draft
    → Distinct (map (λ (n : WorkflowNode). n.id) starts)
    → ((n : WorkflowNode) → Memᴰ n starts → Memᴰ n (values draft.nodes))
    → IsWellFormed (merge_starts starts draft)
unfolding merge_starts
merge_starts-IsWellFormed [] draft w distinct among = w
merge_starts-IsWellFormed (kept ∷ []) draft w distinct among = w
merge_starts-IsWellFormed (kept ∷ extra ∷ extras) draft (d, keyed, joined) (free, distinct) among =
    let there =
      mem-has draft.nodes (kept.id, kept)
        (value-has draft.nodes kept keyed (among kept (Memᴰ.head refl))) in
    let merged = merge_into kept (extra ∷ extras) (inputs_of kept.payload) draft in
    with_node-IsWellFormed merged.1 kept.id (with_inputs kept merged.0)
      (merge_into-IsWellFormed kept (extra ∷ extras) (inputs_of kept.payload) draft
        (d, keyed, joined) there (apart_from kept (extra ∷ extras) free))
      refl

pub merge_extra_starts-IsWellFormed :
    (draft : Draft) → IsWellFormed draft → IsWellFormed (merge_extra_starts draft)
unfolding merge_extra_starts
merge_extra_starts-IsWellFormed draft w =
    merge_starts-IsWellFormed (starts_of draft) draft w (starts-Distinct draft w)
      (λ n m. ((mem-keep (λ (x : WorkflowNode). is_start x.payload) n (values draft.nodes)).0 m).0)

pub ensure_node-IsWellFormed :
    (test : NodeData → Bool) (payload : NodeData) (base : String) (token : ℕ → String)
    (draft after : Draft)
    → IsWellFormed draft
    → ensure_node test payload base token draft ≡ some after
    → IsWellFormed after
unfolding ensure_node
ensure_node-IsWellFormed test payload base token draft after w h =
    elim (Bool-cases
      (any (λ (n : WorkflowNode). test n.payload) (values draft.nodes) || is_empty draft)) [
        | inl fine ↦
            let same : some draft ≡ some after = rw (fine, ensure_node) at h in
            subst IsWellFormed (cc same) w
        | inr lacks ↦
            elim (Option-cases (
              unique_id (candidate token base) (keys draft.nodes) (length (keys draft.nodes) + 1)
                0)) [
                  | inl looping ↦ absurd (cc (rw (lacks, looping, ensure_node) at h))
                  | inr (id, free) ↦
                      let same : some (
                            with_node draft id
                              (record { id = id; node_name = none; payload = payload }))
                          ≡ some after =
                        rw (lacks, free, ensure_node) at h in
                      subst IsWellFormed (cc same) (
                        with_node-IsWellFormed draft id
                          (record { id = id; node_name = none; payload = payload }) w refl)
                ]
      ]

pub ensure_endpoints-IsWellFormed :
    (draws : Draws) (draft after : Draft)
    → IsWellFormed draft
    → ensure_endpoints draws draft ≡ some after
    → IsWellFormed after
unfolding ensure_endpoints
ensure_endpoints-IsWellFormed draws draft after w h =
    elim (Option-cases (ensure_node is_start (start []) "start" draws.start_token draft)) [
      | inl looping ↦ absurd (cc (rw (looping, ensure_endpoints) at h))
      | inr (started, first) ↦
          ensure_node-IsWellFormed is_end end "end" draws.end_token started after
            (ensure_node-IsWellFormed is_start (start []) "start" draws.start_token draft started w
              first)
            (rw (first, ensure_endpoints) at h)
    ]

pub normalize_orchestration-IsWellFormed :
    (draws : Draws) (draft after : Draft)
    → IsWellFormed draft
    → normalize_orchestration draws draft ≡ some after
    → IsWellFormed after
unfolding normalize_orchestration
normalize_orchestration-IsWellFormed draws draft after w h =
    elim (Option-cases (ensure_endpoints draws (merge_extra_starts draft))) [
      | inl looping ↦ absurd (cc (rw (looping, normalize_orchestration) at h))
      | inr (completed, ends) ↦
          let wired : some (wire draws completed) ≡ some after =
            rw (ends, normalize_orchestration) at h in
          let (d, keyed, joined) =
            ensure_endpoints-IsWellFormed draws (merge_extra_starts draft) completed
              (merge_extra_starts-IsWellFormed draft w) ends in
          let (same, edges) = wire-kept draws completed (d, keyed, joined) in
          subst IsWellFormed (cc wired) (
            subst (λ (ns : Dict WorkflowNode). Distinct (keys ns)) (sym same) d,
            subst Keyed (sym same) keyed,
            subst (λ ns. Joined ns (wire draws completed).edges) (sym same) edges,
          )
    ]
