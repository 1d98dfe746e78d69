-- ===== src/Builder/Normalize/Starts.antt =====
-- After the merge of extra start nodes, at most one is left.
use mathlib.Core.List.Memᴰ
use composer.Base.{
  ap, ◌+◌, ◌≤◌, String, ◌≡◌, refl, Bool, true, false, List, [], ◌∷◌, Memᴰ, mem-keep, length, ◌==◌,
  eq_iff, inl, inr, sym, subst, ◌∙◌, arith,
}
use composer.Base.Dict.{Dict, put, remove}
use composer.Workflow.{StartInputVariable, NodeData, WorkflowNode}
use composer.Graph.Nodes.{is_start}
use composer.Builder.Tools.{Draft, values, keys, with_inputs}
use composer.Builder.Entries.{mem-put, put-mem_self, mem-remove}
use composer.Builder.WellFormed.{Keyed, IsWellFormed}
use composer.Builder.Normalize.{
  inputs_of, merge_into, starts_of, merge_starts, merge_extra_starts, add_variables, redirect,
}

abbrev pub Nodes : Type 0
Nodes = Dict WorkflowNode

-- Two start nodes stand under one key.
abbrev pub AtMostOne : Nodes → Type 0
AtMostOne nodes =
    (j k : String) (t s : WorkflowNode)
    → Memᴰ (j, t) nodes
    → is_start t.payload ≡ true
    → Memᴰ (k, s) nodes
    → is_start s.payload ≡ true
    → j ≡ k

abbrev pub Some : (NodeData → Bool) → Nodes → Type 0
Some test nodes = (k : String) × (n : WorkflowNode) × Memᴰ (k, n) nodes × (test n.payload ≡ true)

abbrev pub NonEmpty : Nodes → Type 0
NonEmpty nodes = (entry : String × WorkflowNode) × Memᴰ entry nodes

pub value_of :
    (nodes : Nodes) (k : String) (n : WorkflowNode) → Memᴰ (k, n) nodes → Memᴰ n (values nodes)
value_of nodes k n m = Memᴰ.map (λ (p : String × WorkflowNode). p.1) m

start_listed :
    (draft : Draft) (k : String) (n : WorkflowNode)
    → Memᴰ (k, n) draft.nodes
    → is_start n.payload ≡ true
    → Memᴰ n (starts_of draft)
start_listed draft k n m it =
    (mem-keep (λ (x : WorkflowNode). is_start x.payload) n (values draft.nodes)).1
      (value_of draft.nodes k n m, it)

-- What a merge leaves stands under the id of no merged start.
merge_into-mem :
    (kept : WorkflowNode) (extras : List WorkflowNode) (variables : List StartInputVariable)
    (draft : Draft) (entry : String × WorkflowNode)
    → Memᴰ entry (merge_into kept extras variables draft).1.nodes
    → Memᴰ entry draft.nodes
      × ((extra : WorkflowNode) → Memᴰ extra extras → (entry.0 == extra.id) ≡ false)
unfolding merge_into
merge_into-mem kept [] variables draft entry m = (m, λ extra at. absurd (Memᴰ.not-nil at))
merge_into-mem kept (extra ∷ extras) variables draft entry m =
    let (left, apart) =
      merge_into-mem kept extras (add_variables variables (inputs_of extra.payload))
        (record {
          nodes = remove draft.nodes extra.id;
          edges = redirect extra.id kept.id draft.edges;
        })
        entry m in
    let (before, other) = mem-remove draft.nodes extra.id entry left in
    (
      before,
      λ x at. elim (Memᴰ.cases_cons at) [
        | inl e ↦ subst (λ (n : WorkflowNode). (entry.0 == n.id) ≡ false) (sym e) other
        | inr r ↦ apart x r
      ],
    )

-- A start after a merge stands under the id of the kept one.
merged_start :
    (kept extra : WorkflowNode) (extras : List WorkflowNode) (draft : Draft) (j : String)
    (t : WorkflowNode)
    → Keyed draft.nodes
    → starts_of draft ≡ kept ∷ extra ∷ extras
    → Memᴰ (j, t) (merge_starts (kept ∷ extra ∷ extras) draft).nodes
    → is_start t.payload ≡ true
    → j ≡ kept.id
unfolding merge_starts
merged_start kept extra extras draft j t keyed listed m it =
    let merged = merge_into kept (extra ∷ extras) (inputs_of kept.payload) draft in
    elim (mem-put merged.1.nodes kept.id (with_inputs kept merged.0) (j, t) m) [
      | inl e ↦ ap (λ (p : String × WorkflowNode). p.0) e
      | inr old ↦
          let (before, apart) =
            merge_into-mem kept (extra ∷ extras) (inputs_of kept.payload) draft (j, t) old in
          elim (Memᴰ.cases_cons (subst (Memᴰ t) listed (start_listed draft j t before it))) [
            | inl e ↦ sym (keyed j t before) ∙ ap (λ (n : WorkflowNode). n.id) e
            | inr r ↦ absurd (
                let clash : ⊥ = cc (apart t r, (eq_iff j t.id).1 (sym (keyed j t before))) in clash)
          ]
    ]

merge_starts-AtMostOne :
    (starts : List WorkflowNode) (draft : Draft)
    → Keyed draft.nodes
    → starts_of draft ≡ starts
    → AtMostOne (merge_starts starts draft).nodes
unfolding merge_starts
merge_starts-AtMostOne [] draft keyed listed j k t s m it m' it' =
    absurd (Memᴰ.not-nil (subst (Memᴰ t) listed (start_listed draft j t m it)))
merge_starts-AtMostOne (only ∷ []) draft keyed listed j k t s m it m' it' =
    let first = Memᴰ.cases_cons (subst (Memᴰ t) listed (start_listed draft j t m it)) in
    let second = Memᴰ.cases_cons (subst (Memᴰ s) listed (start_listed draft k s m' it')) in
    elim first [
      | inr r ↦ absurd (Memᴰ.not-nil r)
      | inl e ↦ elim second [
        | inr r ↦ absurd (Memᴰ.not-nil r)
        | inl e' ↦ cc (keyed j t m, keyed k s m', e, e')
      ]
    ]
merge_starts-AtMostOne (kept ∷ extra ∷ extras) draft keyed listed j k t s m it m' it' =
    merged_start kept extra extras draft j t keyed listed m it
    ∙ sym (merged_start kept extra extras draft k s keyed listed m' it')

merge_starts-NonEmpty :
    (starts : List WorkflowNode) (draft : Draft)
    → NonEmpty draft.nodes
    → NonEmpty (merge_starts starts draft).nodes
unfolding merge_starts
merge_starts-NonEmpty [] draft full = full
merge_starts-NonEmpty (only ∷ []) draft full = full
merge_starts-NonEmpty (kept ∷ extra ∷ extras) draft full =
    let merged = merge_into kept (extra ∷ extras) (inputs_of kept.payload) draft in
    (
      (kept.id, with_inputs kept merged.0),
      put-mem_self merged.1.nodes kept.id (with_inputs kept merged.0),
    )

length-remove :
    (nodes : Nodes) (id : String) → length (keys (remove nodes id)) ≤ length (keys nodes)
unfolding remove
length-remove [] id = omega arith
length-remove ((k, n) ∷ nodes) id = ground (arith, length-remove nodes id)

pub length-put :
    (nodes : Nodes) (id : String) (n : WorkflowNode)
    → length (keys (put nodes id n)) ≤ length (keys nodes) + 1
unfolding put
length-put [] id n = omega arith
length-put ((k, m) ∷ nodes) id n = ground (arith, length-put nodes id n)

length-merge_into :
    (kept : WorkflowNode) (extras : List WorkflowNode) (variables : List StartInputVariable)
    (draft : Draft)
    → length (keys (merge_into kept extras variables draft).1.nodes) ≤ length (keys draft.nodes)
unfolding merge_into
length-merge_into kept [] variables draft = omega arith
length-merge_into kept (extra ∷ extras) variables draft =
    let rest =
      length-merge_into kept extras (add_variables variables (inputs_of extra.payload)) (record {
        nodes = remove draft.nodes extra.id;
        edges = redirect extra.id kept.id draft.edges;
      }) in
    omega (arith, rest, length-remove draft.nodes extra.id)

length-merge_starts :
    (starts : List WorkflowNode) (draft : Draft)
    → length (keys (merge_starts starts draft).nodes) ≤ length (keys draft.nodes) + 1
unfolding merge_starts
length-merge_starts [] draft = omega arith
length-merge_starts (only ∷ []) draft = omega arith
length-merge_starts (kept ∷ extra ∷ extras) draft =
    let merged = merge_into kept (extra ∷ extras) (inputs_of kept.payload) draft in
    omega (
      arith,
      length-merge_into kept (extra ∷ extras) (inputs_of kept.payload) draft,
      length-put merged.1.nodes kept.id (with_inputs kept merged.0),
    )

pub merge_extra_starts-AtMostOne :
    (draft : Draft) → IsWellFormed draft → AtMostOne (merge_extra_starts draft).nodes
unfolding merge_extra_starts
merge_extra_starts-AtMostOne draft (d, keyed, joined) =
    merge_starts-AtMostOne (starts_of draft) draft keyed refl

pub merge_extra_starts-NonEmpty :
    (draft : Draft) → NonEmpty draft.nodes → NonEmpty (merge_extra_starts draft).nodes
unfolding merge_extra_starts
merge_extra_starts-NonEmpty draft full = merge_starts-NonEmpty (starts_of draft) draft full

pub length-merge_extra_starts :
    (draft : Draft) → length (keys (merge_extra_starts draft).nodes) ≤ length (keys draft.nodes) + 1
unfolding merge_extra_starts
length-merge_extra_starts draft = length-merge_starts (starts_of draft) draft
