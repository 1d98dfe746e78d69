-- ===== src/Graph/Branches/Correct.antt =====
-- A mapping that is returned has exactly the required labels, each with its one edge's target.
use mathlib.Core.List.Memᴰ
use composer.Base.{
  sym, ◌∙◌, subst, String, ◌≡◌, refl, ◌↔◌, inl, inr, true, false, not, Option, none, some, List, [],
  ◌∷◌, Memᴰ, contains, ◌==◌, if◌then◌else◌, ok, arith, eq_iff, >>=-eq-ok, mem-keep, contains_iff,
  Bool-cases, Option-cases,
}
use composer.Base.Dict
use composer.Base.Dict.{Dict, get-put}
use composer.Workflow.{WorkflowEdge}
use composer.Graph.Branches.{out_edges, is_key, branch_loop, missing, all_present, branch_mapping}

-- The target of the first edge with the label.
abbrev pub target_of : String → List WorkflowEdge → Option String
target_of b [] = none
target_of b (e ∷ es) = elim e.branch [
  | none ↦ target_of b es
  | some c ↦ if c == b then some e.target else target_of b es
]

is_key-get : (seen : Dict String) (b : String) → (is_key seen b ≡ false) ↔ (Dict.get seen b ≡ none)
unfolding Dict.get
is_key-get [] b = (λ _. refl, λ _. refl)
is_key-get ((k, t) ∷ seen) b = ground (arith, is_key-get seen b)

-- What the loop returns: the labels seen before, and the first edge of each other label.
branch_loop-get :
    (required : List String) (seen : Dict String) (es : List WorkflowEdge) (m : Dict String)
    (b : String)
    → branch_loop required seen es ≡ ok m
    → Dict.get m b
      ≡ elim (Dict.get seen b) as (λ _. Option String) [ none ↦ target_of b es | some t ↦ some t ]
unfolding branch_loop
branch_loop-get required seen [] m b h = ground arith
branch_loop-get required seen (e ∷ es) m b h = elim (Option-cases e.branch) [
  | inl none_e ↦ ground arith
  | inr (c, some_c) ↦ ground (
    arith,
    branch_loop-get required (Dict.put seen c e.target) es m b,
    get-put seen c b e.target,
    is_key-get seen c,
    eq_iff c b,
  )
]

-- Every edge that the loop passed has a required label.
branch_loop-label :
    (required : List String) (seen : Dict String) (es : List WorkflowEdge) (m : Dict String)
    → branch_loop required seen es ≡ ok m
    → (e : WorkflowEdge) → Memᴰ e es
    → (b : String) × (e.branch ≡ some b)
      × (contains required b ≡ true)
      × (Dict.get m b ≡ some e.target)
unfolding branch_loop
branch_loop-label required seen [] m h e at = absurd (Memᴰ.not-nil at)
branch_loop-label required seen (d ∷ es) m h e at = elim (Option-cases d.branch) [
  | inl none_d ↦ ground arith
  | inr (c, some_c) ↦
      let rest : branch_loop required (Dict.put seen c d.target) es ≡ ok m = ground arith in
      elim (Memᴰ.cases_cons at) [
        | inl same ↦ rw same (
          c,
          some_c,
          ground arith,
          ground (
            arith,
            branch_loop-get required (Dict.put seen c d.target) es m c rest,
            get-put seen c c d.target,
            eq_iff c c,
          ),
        )
        | inr later ↦ branch_loop-label required (Dict.put seen c d.target) es m rest e later
      ]
]

target_of-mem :
    (b t : String) (es : List WorkflowEdge)
    → target_of b es ≡ some t
    → (e : WorkflowEdge) × Memᴰ e es × (e.branch ≡ some b) × (e.target ≡ t)
target_of-mem b t [] h = cc
target_of-mem b t (e ∷ es) h = elim (Option-cases e.branch) [
  | inl none_e ↦ let (d, m, p, q) = target_of-mem b t es (ground arith) in (d, Memᴰ.tail m, p, q)
  | inr (c, some_c) ↦ elim (Bool-cases (c == b)) [
    | inl same ↦ (e, Memᴰ.head refl, ground (arith, eq_iff c b), ground arith)
    | inr other ↦ let (d, m, p, q) = target_of-mem b t es (ground arith) in (d, Memᴰ.tail m, p, q)
  ]
]

missing-eq-nil :
    (required : List String) (m : Dict String) (b : String)
    → missing required m ≡ []
    → contains required b ≡ true
    → is_key m b ≡ true
missing-eq-nil required m b h at = elim (Bool-cases (is_key m b)) [
  | inl k ↦ k
  | inr k ↦ absurd (
      Memᴰ.not-nil (
        subst (Memᴰ b) h
          ((mem-keep (λ c. not (is_key m c)) b required).1 ((contains_iff required b).0 at, rw k))))
]

all_present-eq-ok :
    (required : List String) (seen m : Dict String)
    → all_present required seen ≡ ok m
    → (seen ≡ m) × (missing required m ≡ [])
unfolding all_present
all_present-eq-ok required seen m h = ground arith

-- What a mapping promises to the router of its node.
pub record IsMapping (id : String) (edges : List WorkflowEdge) (required : List String)
    (m : Dict String) : Type 0 where
  pub covers : (b : String) → contains required b ≡ true → (t : String) × (Dict.get m b ≡ some t)
  pub allowed : (b t : String) → Dict.get m b ≡ some t → contains required b ≡ true
  pub labels :
      (e : WorkflowEdge)
      → Memᴰ e edges
      → e.source ≡ id
      → (b : String) × (e.branch ≡ some b) × (Dict.get m b ≡ some e.target)
  pub from_edge :
      (b t : String)
      → Dict.get m b ≡ some t
      → (e : WorkflowEdge) × Memᴰ e edges × (e.source ≡ id) × (e.branch ≡ some b) × (e.target ≡ t)

-- An entry of what the loop returns has its edge, and a required label.
entry :
    (required : List String) (es : List WorkflowEdge) (m : Dict String)
    → branch_loop required [] es ≡ ok m
    → (b t : String) → Dict.get m b ≡ some t
    → (e : WorkflowEdge) × Memᴰ e es
      × (e.branch ≡ some b)
      × (e.target ≡ t)
      × (contains required b ≡ true)
unfolding Dict.get
entry required es m h b t g =
    let (e, at, p, q) = target_of-mem b t es (sym (branch_loop-get required [] es m b h) ∙ g) in
    let (c, p', r, k) = branch_loop-label required [] es m h e at in
    let same : b ≡ c = cc (p, p') in
    (e, at, p, q, subst (λ x. contains required x ≡ true) (sym same) r)

mem-out_edges :
    (id : String) (edges : List WorkflowEdge) (e : WorkflowEdge)
    → Memᴰ e (out_edges id edges) ↔ (Memᴰ e edges × (e.source ≡ id))
unfolding out_edges
mem-out_edges id edges e =
    ground (arith, mem-keep (λ (x : WorkflowEdge). x.source == id) e edges, eq_iff e.source id)

IsMapping-of_loop :
    (id : String) (edges : List WorkflowEdge) (required : List String) (m : Dict String)
    → branch_loop required [] (out_edges id edges) ≡ ok m
    → missing required m ≡ []
    → IsMapping id edges required m
IsMapping-of_loop id edges required m h full = record {
  covers = λ b r. elim (Option-cases (Dict.get m b)) [
    | inl absent ↦ absurd (cc ((is_key-get m b).1 absent, missing-eq-nil required m b full r))
    | inr found ↦ found
  ];
  allowed = λ b t g. let (e, at, p, q, r) = entry required (out_edges id edges) m h b t g in r;
  labels = λ e at s.
      let (b, p, r, k) =
        branch_loop-label required [] (out_edges id edges) m h e
          ((mem-out_edges id edges e).1 (at, s)) in
      (b, p, k);
  from_edge = λ b t g.
      let (e, at, p, q, r) = entry required (out_edges id edges) m h b t g in
      let (at', s) = (mem-out_edges id edges e).0 at in (e, at', s, p, q);
}

-- If the branch mapping of a node is built, its keys are exactly the required branches, every edge
-- that leaves the node has a branch label that is mapped to its target, and every entry comes from
-- an edge that leaves the node.
pub branch_mapping_correct :
    (id : String) (edges : List WorkflowEdge) (required : List String) (m : Dict String)
    → branch_mapping id edges required ≡ ok m
    → IsMapping id edges required m
unfolding branch_mapping
branch_mapping_correct id edges required m h =
    let (seen, looped, ended) =
      >>=-eq-ok (branch_loop required [] (out_edges id edges)) (all_present required) h in
    let (same, none_missing) = all_present-eq-ok required seen m ended in
    IsMapping-of_loop id edges required m (rw (← same) looped) none_missing
