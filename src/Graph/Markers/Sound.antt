-- ===== src/Graph/Markers/Sound.antt =====
-- Where the marks of a node come from.
use mathlib.Core.List.Memᴰ
use composer.Base.{
  ℕ, zero, suc, String, ◌≡◌, refl, sym, ap, subst, Bool, false, not, Option, none, some, List, [],
  ◌∷◌, ◌++◌, Memᴰ, map, keep, mem-keep, mem-collect, arith, eq_iff, Bool-cases, Option-cases, inl,
  inr, ◌==◌, if◌then◌else◌, length,
}
use composer.Base.Dict
use composer.Base.Dict.{Dict, get-put}
use composer.Workflow.{WorkflowNode, WorkflowEdge}
use composer.Graph.Nodes.{is_conditional, find_node}
use composer.Graph.Reachability.{Reach, here, step}
use composer.Graph.Markers.{
  Marker, has, marks_at, own_mark, edge_marks, new_marks, add_marks, mark_node, incoming_keys,
  mark_round, mark_loop, branch_markers,
}

-- Some walk to `id` begins with an edge that leaves the marker's node by the marker's branch.
abbrev pub Origin : List WorkflowEdge → Marker → String → Type 0
Origin edges m id =
    (e : WorkflowEdge) × Memᴰ e edges
    × (e.source ≡ m.cond)
    × (e.branch ≡ some m.label)
    × Reach edges e.target id

marks_at-put :
    (d : Dict (List Marker)) (k j : String) (v : List Marker)
    → marks_at (Dict.put d k v) j ≡ (if k == j then v else marks_at d j)
unfolding marks_at
marks_at-put d k j v = ground (arith, get-put d k j v)

-- A fresh dict has no marks.
marks_at-blank :
    (nodes : List WorkflowNode) (id : String) → marks_at (map (λ n. (n.id, [])) nodes) id ≡ []
unfolding marks_at Dict.get
marks_at-blank [] id = refl
marks_at-blank (n ∷ nodes) id = ground (arith, marks_at-blank nodes id)

module _ (nodes : List WorkflowNode) (edges : List WorkflowEdge) where
  abbrev IsSound : Dict (List Marker) → Type 0
  IsSound markers = (id : String) (m : Marker) → Memᴰ m (marks_at markers id) → Origin edges m id

  own_mark-Origin :
      (source : WorkflowNode) (e : WorkflowEdge) (m : Marker)
      → Memᴰ e edges
      → Memᴰ m (own_mark source e)
      → Origin edges m e.target
  unfolding own_mark
  own_mark-Origin source e m at mine = elim (Bool-cases (is_conditional source.payload)) [
    | inr plain ↦ absurd (Memᴰ.not-nil (rw (plain, own_mark) at mine))
    | inl cond ↦ elim (Option-cases e.branch) [
      | inl none_e ↦ absurd (Memᴰ.not-nil (rw (cond, none_e, own_mark) at mine))
      | inr (b, some_b) ↦
          let same : m ≡ record { cond = e.source; label = b } =
            Memᴰ.eq_of_singleton (rw (cond, some_b, own_mark) at mine) in
          (e, at, ap (λ (x : Marker). x.cond) (sym same), ground arith, here)
    ]
  ]

  edge_marks-Origin :
      (markers : Dict (List Marker)) (e : WorkflowEdge) (m : Marker)
      → IsSound markers
      → Memᴰ e edges
      → Memᴰ m (edge_marks nodes markers e)
      → Origin edges m e.target
  unfolding edge_marks
  edge_marks-Origin markers e m sound at mine = elim (Option-cases (find_node nodes e.source)) [
    | inl absent ↦ absurd (Memᴰ.not-nil (rw (absent, edge_marks) at mine))
    | inr (source, found) ↦
        elim (Memᴰ.append_cases (marks_at markers e.source) (rw (found, edge_marks) at mine)) [
          | inl before ↦
              let (d, md, p, q, w) = sound e.source m before in
              (d, md, p, q, step w (e, at, refl, refl))
          | inr own ↦ own_mark-Origin source e m at own
        ]
  ]

  new_marks-Origin :
      (markers : Dict (List Marker)) (id : String) (m : Marker)
      → IsSound markers
      → Memᴰ m (new_marks nodes edges id markers)
      → Origin edges m id
  unfolding new_marks
  new_marks-Origin markers id m sound mine =
      let (got, _) = (mem-keep (λ (x : Marker). not (has (marks_at markers id) x)) m _).0 mine in
      let (e, at, from) =
        mem-collect (edge_marks nodes markers) (keep (λ (x : WorkflowEdge). x.target == id) edges) m
          got in
      let (here_e, into) = (mem-keep (λ (x : WorkflowEdge). x.target == id) e edges).0 at in
      subst (Origin edges m) ((eq_iff e.target id).0 into)
        (edge_marks-Origin markers e m sound here_e from)

  add_marks-IsSound :
      (id : String) (markers : Dict (List Marker)) (ms : List Marker)
      → IsSound markers
      → ((m : Marker) → Memᴰ m ms → Origin edges m id)
      → IsSound (add_marks id markers ms).0
  unfolding add_marks
  add_marks-IsSound id markers [] sound new = sound
  add_marks-IsSound id markers (x ∷ ms) sound new = λ j m mine. elim (Bool-cases (id == j)) [
    | inl same ↦
        let e = (eq_iff id j).0 same in
        let all_marks =
          rw (marks_at-put markers id j (marks_at markers id ++ x ∷ ms), same) at mine in
        elim (Memᴰ.append_cases (marks_at markers id) all_marks) [
          | inl old ↦ subst (Origin edges m) e (sound id m old)
          | inr fresh ↦ subst (Origin edges m) e (new m fresh)
        ]
    | inr other ↦
        sound j m (rw (marks_at-put markers id j (marks_at markers id ++ x ∷ ms), other) at mine)
  ]

  mark_node-IsSound :
      (start_id : Option String) (id : String) (markers : Dict (List Marker))
      → IsSound markers
      → IsSound (mark_node nodes edges start_id id markers).0
  unfolding mark_node
  mark_node-IsSound none id markers sound =
      add_marks-IsSound id markers (new_marks nodes edges id markers) sound
        (λ m mine. new_marks-Origin markers id m sound mine)
  mark_node-IsSound (some s) id markers sound = elim (Bool-cases (s == id)) [
    | inl first ↦ rw first sound
    | inr other ↦ rw other (
        add_marks-IsSound id markers (new_marks nodes edges id markers) sound
          (λ m mine. new_marks-Origin markers id m sound mine))
  ]

  mark_round-IsSound :
      (start_id : Option String) (ids : List String) (markers : Dict (List Marker)) (changed : Bool)
      → IsSound markers
      → IsSound (mark_round nodes edges start_id ids markers changed).0
  unfolding mark_round
  mark_round-IsSound start_id [] markers changed sound = sound
  mark_round-IsSound start_id (id ∷ ids) markers changed sound =
      mark_round-IsSound start_id ids _ _ (mark_node-IsSound start_id id markers sound)

  mark_loop-IsSound :
      (start_id : Option String) (rounds : ℕ) (markers : Dict (List Marker))
      → IsSound markers
      → IsSound (mark_loop nodes edges start_id rounds markers)
  unfolding mark_loop
  mark_loop-IsSound start_id zero markers sound = sound
  mark_loop-IsSound start_id (suc rounds) markers sound =
      let ids = incoming_keys [] edges in
      let next = mark_round-IsSound start_id ids markers false sound in
      elim (Bool-cases (mark_round nodes edges start_id ids markers false).1) [
        | inl more ↦ rw (more, mark_loop) (mark_loop-IsSound start_id rounds _ next)
        | inr done ↦ rw (done, mark_loop) next
      ]

  -- Every mark of a node, a conditional node's id with a branch label, comes from some walk to the
  -- node that begins with an edge leaving the conditional node by that branch.
  pub branch_markers_sound :
      (id : String) (m : Marker)
      → Memᴰ m (marks_at (branch_markers nodes edges) id)
      → Origin edges m id
  unfolding branch_markers
  branch_markers_sound =
      mark_loop-IsSound _ (suc (length nodes)) _
        (λ id m mine. absurd (Memᴰ.not-nil (rw (marks_at-blank nodes id) at mine)))
