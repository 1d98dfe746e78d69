-- ===== src/Executions/Sweeper/Leases.antt =====
-- One row of `sweep_expired_leases`.
use mathlib.Core.List.Memᴰ
use composer.Base.{
  ℕ, String, ◌≡◌, refl, Bool, true, false, some, List, [], ◌∷◌, ◌++◌, Memᴰ, Bool-cases, ◌⊎◌, inl,
  inr, ◌==◌, sym, subst, leb,
}
use composer.Executions.Store.{Row, Store, Task, find_unique}
use composer.Executions.Store.Queries.{KeepsId, find_unique-update, find_unique-update_other}
use composer.Executions.Handlers.{enqueue_execution}
use composer.Executions.Sweeper.{
  mark_dead, clear_lease, recovery_kind, Fate, dead, recovered, try_update, clear_if_enqueued,
  sweep_lease,
}

abbrev pub recovery_task : Row → Task
recovery_task r = record { execution_id = r.id; kind = recovery_kind r }

-- What a lease sweep leaves of a row whose lease has run out: dead-lettered after the last attempt,
-- queued again with the lease cleared, or as it was when a write or the enqueueing raised.
abbrev pub Settled : Bool → Bool → ℕ → ℕ → Row → Store → Type 0
Settled written enqueued max_attempts now r after =
    ((leb max_attempts r.delivery_attempts ≡ true)
      × (written ≡ true)
      × (find_unique after.rows r.id ≡ some (mark_dead r.delivery_attempts now r)))
    ⊎ ((leb max_attempts r.delivery_attempts ≡ false)
        × (enqueued ≡ true)
        × (written ≡ true)
        × (find_unique after.rows r.id ≡ some (clear_lease r))
        × Memᴰ (recovery_task r) after.tasks)
    ⊎ (((written ≡ false) ⊎ ((leb max_attempts r.delivery_attempts ≡ false) × (enqueued ≡ false)))
        × (find_unique after.rows r.id ≡ some r))

mark_dead-KeepsId : (attempts now : ℕ) → KeepsId (mark_dead attempts now)
unfolding mark_dead
mark_dead-KeepsId attempts now r = refl

clear_lease-KeepsId : KeepsId clear_lease
unfolding clear_lease
clear_lease-KeepsId r = refl

mem-snoc : (tasks : List Task) (t : Task) → Memᴰ t (tasks ++ t ∷ [])
mem-snoc [] t = Memᴰ.head refl
mem-snoc (x ∷ tasks) t = Memᴰ.tail (mem-snoc tasks t)

mem-append : (tasks more : List Task) (t : Task) → Memᴰ t tasks → Memᴰ t (tasks ++ more)
mem-append [] more t m = absurd (Memᴰ.not-nil m)
mem-append (x ∷ tasks) more t m = elim (Memᴰ.cases_cons m) [
  | inl e ↦ Memᴰ.head e
  | inr later ↦ Memᴰ.tail (mem-append tasks more t later)
]

pub sweep_lease-last :
    (written enqueued : Bool) (max_attempts now : ℕ) (r : Row) (store : Store)
    → leb max_attempts r.delivery_attempts ≡ true
    → sweep_lease written enqueued max_attempts now r store
      ≡ try_update written dead r.id (mark_dead r.delivery_attempts now) store
unfolding sweep_lease
sweep_lease-last written enqueued max_attempts now r store h = rw h

pub sweep_lease-again :
    (written enqueued : Bool) (max_attempts now : ℕ) (r : Row) (store : Store)
    → leb max_attempts r.delivery_attempts ≡ false
    → sweep_lease written enqueued max_attempts now r store
      ≡ clear_if_enqueued written r.id (enqueue_execution enqueued r.id (recovery_kind r) store)
unfolding sweep_lease
sweep_lease-again written enqueued max_attempts now r store h = rw h

last_settles :
    (written enqueued : Bool) (max_attempts now : ℕ) (r : Row) (store : Store)
    → find_unique store.rows r.id ≡ some r
    → leb max_attempts r.delivery_attempts ≡ true
    → Settled written enqueued max_attempts now r
        (try_update written dead r.id (mark_dead r.delivery_attempts now) store).1
unfolding try_update
last_settles false enqueued max_attempts now r store found last = inr (inr (inl refl, found))
last_settles true enqueued max_attempts now r store found last =
    let keeps = mark_dead-KeepsId r.delivery_attempts now in
    inl (last, refl, find_unique-update r.id _ store.rows r keeps found)

again_settles :
    (written enqueued : Bool) (max_attempts now : ℕ) (r : Row) (store : Store)
    → find_unique store.rows r.id ≡ some r
    → leb max_attempts r.delivery_attempts ≡ false
    → Settled written enqueued max_attempts now r
        (clear_if_enqueued written r.id (enqueue_execution enqueued r.id (recovery_kind r) store)).1
unfolding clear_if_enqueued enqueue_execution try_update
again_settles false true max_attempts now r store found again = inr (inr (inl refl, found))
again_settles false false max_attempts now r store found again = inr (inr (inl refl, found))
again_settles true false max_attempts now r store found again = inr (inr (inr (again, refl), found))
again_settles true true max_attempts now r store found again = inr (
    inl (
      again,
      refl,
      refl,
      find_unique-update r.id _ store.rows r clear_lease-KeepsId found,
      mem-snoc store.tasks (recovery_task r),
    ))

pub sweep_lease_settles :
    (written enqueued : Bool) (max_attempts now : ℕ) (r : Row) (store : Store)
    → find_unique store.rows r.id ≡ some r
    → Settled written enqueued max_attempts now r
        (sweep_lease written enqueued max_attempts now r store).1
sweep_lease_settles written enqueued max_attempts now r store found =
    elim (Bool-cases (leb max_attempts r.delivery_attempts)) [
      | inl last ↦
          subst (λ (a : Fate × Store). Settled written enqueued max_attempts now r a.1)
            (sym (sweep_lease-last written enqueued max_attempts now r store last))
            (last_settles written enqueued max_attempts now r store found last)
      | inr again ↦
          subst (λ (a : Fate × Store). Settled written enqueued max_attempts now r a.1)
            (sym (sweep_lease-again written enqueued max_attempts now r store again))
            (again_settles written enqueued max_attempts now r store found again)
    ]

-- What one row's step does to the other rows and to the queue: nothing is taken away.
abbrev pub Untouched : String → Store → Store → Type 0
Untouched id before after =
    ((other : String)
      → (other == id) ≡ false
      → find_unique after.rows other ≡ find_unique before.rows other)
    × ((t : Task) → Memᴰ t before.tasks → Memᴰ t after.tasks)

try_update-Untouched :
    (written : Bool) (fate : Fate) (id : String) (change : Row → Row) (store : Store)
    → KeepsId change
    → Untouched id store (try_update written fate id change store).1
unfolding try_update
try_update-Untouched false fate id change store keeps = ((λ other apart. refl), λ t m. m)
try_update-Untouched true fate id change store keeps =
    ((λ other apart. find_unique-update_other id other change store.rows keeps apart), λ t m. m)

again-Untouched :
    (written enqueued : Bool) (r : Row) (store : Store)
    → Untouched r.id store
        (clear_if_enqueued written r.id (enqueue_execution enqueued r.id (recovery_kind r) store)).1
unfolding clear_if_enqueued enqueue_execution
again-Untouched written false r store = ((λ other apart. refl), λ t m. m)
again-Untouched written true r store =
    let queue = record store { tasks = store.tasks ++ recovery_task r ∷ [] } in
    let (rows, tasks) =
      try_update-Untouched written recovered r.id clear_lease queue clear_lease-KeepsId in
    (rows, λ t m. tasks t (mem-append store.tasks (recovery_task r ∷ []) t m))

pub sweep_lease-Untouched :
    (written enqueued : Bool) (max_attempts now : ℕ) (r : Row) (store : Store)
    → Untouched r.id store (sweep_lease written enqueued max_attempts now r store).1
sweep_lease-Untouched written enqueued max_attempts now r store =
    elim (Bool-cases (leb max_attempts r.delivery_attempts)) [
      | inl last ↦
          subst (λ (a : Fate × Store). Untouched r.id store a.1)
            (sym (sweep_lease-last written enqueued max_attempts now r store last))
            (try_update-Untouched written dead r.id _ store
              (mark_dead-KeepsId r.delivery_attempts now))
      | inr again ↦
          subst (λ (a : Fate × Store). Untouched r.id store a.1)
            (sym (sweep_lease-again written enqueued max_attempts now r store again))
            (again-Untouched written enqueued r store)
    ]
