-- ===== src/TaskService/Running.antt =====
-- The operations on tasks keep the scheduler's state valid.
use mathlib.Core.Path.{subst}
use bubackos.Prelude.{
  ℕ, ◌≡◌, ◌≢◌, refl, Bool, true, false, Option, none, some, ◌==◌, All, Bool-cases, inl, inr, arith,
  sym, some_eq, Option-cases, ◌⊎◌, ap, ◌∙◌,
}
use bubackos.IdMapper.{IdMapper, add}
use bubackos.Task.{
  Status, created, ready, not_ready, Task, NativeTask, Kernel, put, native_task_create,
  update_current_state,
}
use bubackos.Scheduler.Queue.{All-zip, put_self, put_other}
use bubackos.Scheduler.Invariant.{IsRunnable, IsValid, queued-put, task_ready-IsValid}
use bubackos.TaskService.{is_created, new_task, create, set_kernel_mode, run}

-- A write to the struct of a task that is neither queued nor current.
pub put-IsValid :
    (k : Kernel) (t : ℕ) (w : Task)
    → IsValid k
    → All (λ u. u ≢ t) k.scheduled_tasks
    → (k.current_task ≢ 0 → k.current_task ≢ t)
    → IsValid (record k { tasks = put t w k.tasks })
put-IsValid k t w v absent nc = record {
  queued = queued-put t w k.tasks k.scheduled_tasks v.queued absent;
  distinct = v.distinct;
  running = λ ne. (
    subst IsRunnable (sym (put_other t k.current_task w k.tasks (nc ne))) (v.running ne).0,
    (v.running ne).1,
    (v.running ne).2
        ∙ sym (ap (λ (x : Task). x.memory_handler) (put_other t k.current_task w k.tasks (nc ne))),
  );
}

-- The scheduler does not look at the ids.
pub mapper-IsValid :
    (k : Kernel) (m : IdMapper) → IsValid k → IsValid (record k { task_id_mapper = m })
mapper-IsValid k m v = record { queued = v.queued; distinct = v.distinct; running = v.running }

is_created-unready : (v : Task) → is_created v.status ≡ true → v.status ≢ ready
is_created-unready v e r = go v.status e r
  where
    go : (s : Status) → is_created s ≡ true → s ≢ ready
    go created e r = cc
    go ready e r = cc
    go not_ready e r = cc

-- A task that is CREATED is neither queued nor current.
pub created-absent :
    (k : Kernel) (t : ℕ)
    → IsValid k
    → is_created (k.tasks t).status ≡ true
    → All (λ u. u ≢ t) k.scheduled_tasks × (k.current_task ≢ 0 → k.current_task ≢ t)
created-absent k t v c = (
  All-zip (λ u p _ e. other u p.1 e) k.scheduled_tasks v.queued v.queued,
  λ ne e. other k.current_task (v.running ne).0 e,
)
  where
    other : (u : ℕ) → IsRunnable (k.tasks u) → u ≢ t
    other u r e = is_created-unready (k.tasks t) c (ap (λ x. (k.tasks x).status) (sym e) ∙ r.0)

-- `task_set_kernel_mode` keeps a valid state valid.
pub set_kernel_mode-IsValid : (k : Kernel) (t : ℕ) → IsValid k → IsValid (set_kernel_mode k t).1
unfolding set_kernel_mode
set_kernel_mode-IsValid k t v = elim (Bool-cases (t == 0)) [
  | inl nil ↦ rw nil v
  | inr some_t ↦ elim (Bool-cases (is_created (k.tasks t).status)) [
    | inl c ↦
        let a = created-absent k t v c in
        rw (some_t, c) (put-IsValid k t (record (k.tasks t) { kernel = true }) v a.0 a.1)
    | inr c ↦ rw (some_t, c) v
  ]
]

-- `task_run` keeps a valid state valid.
pub run-IsValid :
    (region : Option (ℕ × ℕ)) (alloc_ok node_ok : Bool) (k : Kernel) (t code : ℕ)
    → IsValid k
    → IsValid (run region alloc_ok node_ok k t code).1
run-IsValid none alloc_ok node_ok k t code v = unfold run in v
run-IsValid (some (start, size)) alloc_ok node_ok k t code v = elim (Bool-cases (t == 0)) [
  | inl nil ↦ unfold run in rw nil v
  | inr some_t ↦ elim (Bool-cases (is_created (k.tasks t).status)) [
    | inl c ↦ start_it alloc_ok some_t c
    | inr c ↦ unfold run in rw (some_t, c) v
  ]
]
  where
    nonzero : (t == 0) ≡ false → t ≢ 0
    nonzero some_t = λ e. ground arith

    start_it :
        (alloc_ok : Bool)
        → (t == 0) ≡ false
        → is_created (k.tasks t).status ≡ true
        → IsValid (run (some (start, size)) alloc_ok node_ok k t code).1
    start_it false some_t c = unfold run native_task_create in rw (some_t, c) v
    start_it true some_t c =
        unfold run native_task_create in
        let a = created-absent k t v c in
        rw (some_t, c)
          (task_ready-IsValid node_ok _ t (put-IsValid k t _ v a.0 a.1) (nonzero some_t)
            (λ e. a.1 (λ z. nonzero some_t (sym e ∙ z)) e) a.0
            (subst (λ (x : Task). IsRunnable (record x { status = ready }))
              (sym (put_self t _ k.tasks)) (refl, _, refl, refl, refl)))

-- `task_create` keeps a valid state valid, where the new struct is not that of a task in use.
pub create-IsValid :
    (addr : ℕ) (entry_ok node_ok : Bool) (k : Kernel) (name vmem : ℕ)
    → IsValid k
    → All (λ u. u ≢ addr) k.scheduled_tasks
    → (k.current_task ≢ 0 → k.current_task ≢ addr)
    → IsValid (create addr entry_ok node_ok k name vmem).1
unfolding create
create-IsValid addr entry_ok node_ok k name vmem v absent nc = elim (Bool-cases (addr == 0)) [
  | inl nil ↦ rw nil v
  | inr some_addr ↦ rw some_addr (
      mapper-IsValid _ _ (
        put-IsValid k addr
          (record (new_task name vmem) { task_id = (add entry_ok node_ok k.task_id_mapper addr).0 })
          v absent nc))
]

-- Saving the registers of the current task is defined on a valid state and keeps it valid: the task
-- has registers, and keeps the segments of its privilege.
pub update_current_state-IsValid :
    (on_stack : NativeTask) (k : Kernel)
    → IsValid k
    → (k' : Kernel) × (update_current_state on_stack k ≡ some k')
      × IsValid k'
      × (k'.task_id_mapper ≡ k.task_id_mapper)
unfolding update_current_state
update_current_state-IsValid on_stack k v = elim (Bool-cases (k.current_task == 0)) [
  | inl idle ↦ (k, rw idle refl, v, refl)
  | inr busy ↦ save (v.running (λ e. ground arith)) busy
]
  where
    save :
        IsRunnable (k.tasks k.current_task)
          × All (λ u. u ≢ k.current_task) k.scheduled_tasks
          × (k.page_table ≡ (k.tasks k.current_task).memory_handler)
        → (k.current_task == 0) ≡ false
        → (k' : Kernel) × (update_current_state on_stack k ≡ some k')
          × IsValid k'
          × (k'.task_id_mapper ≡ k.task_id_mapper)
    save ((st, n, nat, cs, ss), absent, table) busy =
        let w = record (k.tasks k.current_task) {
          native_task = some (record on_stack { cs = n.cs; ss = n.ss });
        } in
        (
          record k { tasks = put k.current_task w k.tasks },
          rw (busy, nat) refl,
          record {
            queued = queued-put k.current_task w k.tasks k.scheduled_tasks v.queued absent;
            distinct = v.distinct;
            running = λ _. (
              subst IsRunnable (sym (put_self k.current_task w k.tasks)) (st, _, refl, cs, ss),
              absent,
              table ∙ sym (ap (λ (x : Task). x.memory_handler) (put_self k.current_task w k.tasks)),
            );
          },
          refl,
        )

-- What saving the registers writes.
pub update_current_state-writes :
    (on_stack : NativeTask) (k k' : Kernel)
    → update_current_state on_stack k ≡ some k'
    → (k' ≡ k) ⊎ ((w : Task) × (k' ≡ record k { tasks = put k.current_task w k.tasks }))
update_current_state-writes on_stack k k' e = elim (Bool-cases (k.current_task == 0)) [
  | inl idle ↦ inl (some_eq (sym e ∙ unfold update_current_state in rw idle refl))
  | inr busy ↦ elim (Option-cases (k.tasks k.current_task).native_task) [
    | inl missing ↦ absurd (nothing (sym (faults busy missing) ∙ e))
    | inr (n, nat) ↦ inr (_, some_eq (sym e ∙ writes busy n nat))
  ]
]
  where
    nothing : none ≡ some k' → ⊥
    nothing e = cc

    faults :
        (k.current_task == 0) ≡ false
        → (k.tasks k.current_task).native_task ≡ none
        → update_current_state on_stack k ≡ none
    faults busy missing = unfold update_current_state in rw (busy, missing) refl

    writes :
        (k.current_task == 0) ≡ false
        → (n : NativeTask) → (k.tasks k.current_task).native_task ≡ some n
        → update_current_state on_stack k
          ≡ some (record k {
            tasks =
                put k.current_task
                  (record (k.tasks k.current_task) {
                    native_task = some (record on_stack { cs = n.cs; ss = n.ss });
                  })
                  k.tasks;
          })
    writes busy n nat = unfold update_current_state in rw (busy, nat) refl
