-- ===== src/Graph/Reachability/Loop.antt =====
-- The search loop: its rounds, and what it has marked when the queue is empty.
use mathlib.Core.List.Memᴰ
use composer.Base.{
  ℕ, zero, suc, ◌+◌, ◌≤◌, String, ◌≡◌, refl, ap, subst, ◌↔◌, ◌⊎◌, inl, inr, true, false, ◌&&◌, List,
  [], ◌∷◌, ◌++◌, Memᴰ, arith, length, length-append, contains, contains-append, Bool-cases, ◌==◌,
  eq_iff, if◌then◌else◌,
}
use composer.Workflow.{WorkflowEdge}
use composer.Graph.Reachability.{targets, bfs, Step, Reach, step}

pub contains-targets :
    (es : List WorkflowEdge) (u v : String) → (contains (targets u es) v ≡ true) ↔ Step es u v
unfolding targets
contains-targets [] u v = (λ h. cc, λ s. absurd (Memᴰ.not-nil s.1))
contains-targets (e ∷ es) u v = (
  λ h. elim (Bool-cases (e.source == u && e.target == v)) [
    | inl yes_e ↦ (e, Memᴰ.head refl, (eq_iff _ _).0 (ground arith), (eq_iff _ _).0 (ground arith))
    | inr no_e ↦
        let (x, m, p, q) = (contains-targets es u v).0 (ground arith) in (x, Memᴰ.tail m, p, q)
  ],
  λ (x, m, p, q). elim (Memᴰ.cases_cons m) [
    | inl same ↦ ground (
      arith,
      eq_iff e.source u,
      eq_iff e.target v,
      ap (λ (w : WorkflowEdge). w.source) same,
      ap (λ (w : WorkflowEdge). w.target) same,
    )
    | inr later ↦ ground (arith, (contains-targets es u v).1 (x, later, p, q))
  ],
)

-- The edges whose source is not marked yet.
abbrev pub unvisited : List WorkflowEdge → List String → ℕ
unvisited [] seen = 0
unvisited (e ∷ es) seen =
    let rest = unvisited es seen in if contains seen e.source then rest else suc rest

unvisited-visit :
    (es : List WorkflowEdge) (seen : List String) (u : String)
    → contains seen u ≡ false
    → unvisited es (u ∷ seen) + length (targets u es) ≡ unvisited es seen
unfolding targets
unvisited-visit [] seen u h = refl
unvisited-visit (e ∷ es) seen u h =
    ground (arith, unvisited-visit es seen u h, eq_iff e.source u, eq_iff u e.source)

pub unvisited-nil : (es : List WorkflowEdge) → unvisited es [] ≡ length es
unvisited-nil [] = refl
unvisited-nil (e ∷ es) = omega (arith, unvisited-nil es)

-- Every mark and every entry of the queue stands at the end of a walk.
pub bfs_sound :
    (es : List WorkflowEdge) (s : String) (fuel : ℕ) (queue seen : List String)
    → ((v : String) → contains seen v ≡ true → Reach es s v)
    → ((v : String) → contains queue v ≡ true → Reach es s v)
    → (v : String) → contains (bfs es fuel queue seen) v ≡ true
    → Reach es s v
unfolding bfs
bfs_sound es s zero queue seen marked queued = marked
bfs_sound es s (suc fuel) [] seen marked queued = marked
bfs_sound es s (suc fuel) (u ∷ queue) seen marked queued = elim (Bool-cases (contains seen u)) [
  | inl old ↦ rw (old, bfs) (bfs_sound es s fuel queue seen marked (λ v h. queued v (ground arith)))
  | inr new ↦
      let here_u = queued u (ground (arith, eq_iff u u)) in
      rw (new, bfs)
        (bfs_sound es s fuel (queue ++ targets u es) (u ∷ seen)
          (λ v h. elim (Bool-cases (u == v)) [
            | inl e ↦ subst (Reach es s) ((eq_iff u v).0 e) here_u
            | inr ne ↦ marked v (ground arith)
          ])
          (λ v h. elim (Bool-cases (contains queue v)) [
            | inl e ↦ queued v (ground arith)
            | inr ne ↦ step here_u (
                (contains-targets es u v).0
                  (ground (arith, contains-append queue (targets u es) v)))
          ]))
]

-- What the loop owes: the marks are kept, the queue is marked, and the marks are closed under edges.
pub record IsClosure (es : List WorkflowEdge) (queue seen result : List String) : Type 0 where
  pub kept : (v : String) → contains seen v ≡ true → contains result v ≡ true
  pub taken : (v : String) → contains queue v ≡ true → contains result v ≡ true
  pub closed : (u v : String) → contains result u ≡ true → Step es u v → contains result v ≡ true

IsClosure-nil :
    (es : List WorkflowEdge) (seen : List String)
    → ((u v : String)
        → contains seen u ≡ true
        → Step es u v
        → (contains seen v ≡ true) ⊎ (contains [] v ≡ true))
    → IsClosure es [] seen seen
IsClosure-nil es seen open_edges = record {
  kept = λ v h. h;
  taken = λ v h. cc;
  closed = λ u v h e. ground (arith, open_edges u v h e);
}

pub bfs-IsClosure :
    (es : List WorkflowEdge) (fuel : ℕ) (queue seen : List String)
    → unvisited es seen + length queue ≤ fuel
    → ((u v : String)
        → contains seen u ≡ true
        → Step es u v
        → (contains seen v ≡ true) ⊎ (contains queue v ≡ true))
    → IsClosure es queue seen (bfs es fuel queue seen)
unfolding bfs
bfs-IsClosure es zero [] seen enough open_edges = IsClosure-nil es seen open_edges
bfs-IsClosure es zero (u ∷ queue) seen enough open_edges = absurd (omega arith)
bfs-IsClosure es (suc fuel) [] seen enough open_edges = IsClosure-nil es seen open_edges
bfs-IsClosure es (suc fuel) (u ∷ queue) seen enough open_edges =
    elim (Bool-cases (contains seen u)) [
      | inl old ↦
          let c =
            bfs-IsClosure es fuel queue seen (omega arith)
              (λ x v m e. ground (arith, open_edges x v m e, eq_iff u v)) in
          rw (old, bfs)
            (record {
              kept = c.kept;
              taken = λ v h. ground (arith, c.kept v, c.taken v, eq_iff u v);
              closed = c.closed;
            })
      | inr new ↦
          let c =
            bfs-IsClosure es fuel (queue ++ targets u es) (u ∷ seen)
              (omega (arith, unvisited-visit es seen u new, length-append queue (targets u es)))
              (λ x v m e. ground (
                arith,
                open_edges x v,
                e,
                contains-append queue (targets u es) v,
                contains-targets es x v,
                eq_iff u v,
                eq_iff u x,
              )) in
          rw (new, bfs)
            (record {
              kept = λ v h. c.kept v (ground arith);
              taken = λ v h.
                  ground (
                    arith,
                    c.kept v,
                    c.taken v,
                    eq_iff u v,
                    contains-append queue (targets u es) v,
                  );
              closed = c.closed;
            })
    ]
