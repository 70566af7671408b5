-- ===== src/TaskService/Death.antt =====
-- A task that was destroyed does not run again.
use mathlib.Core.Path.{subst}
use mathlib.Core.Bool.{false≢true}
use bubackos.Prelude.{
  ℕ, ◌≡◌, ◌≢◌, ◌⊎◌, refl, Bool, true, false, Option, none, some, List, [], ◌∷◌, ◌==◌, All,
  Bool-cases, inl, inr, sym, ap, ◌∙◌, arith, some_eq,
}
use bubackos.IdMapper.{add}
use bubackos.Task.{ready, not_ready, Task, Kernel, put, native_task_create}
use bubackos.Scheduler.{task_ready, switch_task}
use bubackos.Scheduler.Queue.{
  All-without_first, without_first-absent, All-grow, put_self, put_other,
}
use bubackos.Scheduler.Invariant.{IsValid, stopped}
use bubackos.Scheduler.Turn.{
  switch_task-cons, switch_task-nil, IsValid-tail, next_state, clear_current_task-fields,
}
use bubackos.TaskService.{is_created, new_task, create, set_kernel_mode, run, destroy}
use bubackos.TaskService.Running.{update_current_state-writes}
use bubackos.TaskService.Events.{
  state, Event, creating, setting_kernel_mode, running, destroying, killing, switching, saving,
  step, IsSound, destroy-stopped, destroy-IsSound, kill_current-some, Reach, here, next,
  Reach-IsSound,
}

-- The task is NOT_READY, in no queue, and not the current one.
abbrev pub IsDead : ℕ → Kernel → Type 0
IsDead t k =
    ((k.tasks t).status ≡ not_ready) × All (λ u. u ≢ t) k.scheduled_tasks × (k.current_task ≢ t)

-- The event does not make a new task of the struct at `t`.
abbrev pub Spares : ℕ → Event → Type 0
Spares t (creating addr _ _ _ _) = addr ≢ t
Spares t _ = Unit {0}

IsDead-put :
    (t u : ℕ) (w : Task) (k : Kernel)
    → IsDead t k
    → t ≢ u
    → IsDead t (record k { tasks = put u w k.tasks })
IsDead-put t u w k (s, a, c) ne =
    (ap (λ (x : Task). x.status) (put_other u t w k.tasks ne) ∙ s, a, c)

-- A dead task is not CREATED.
uncreated : (t u : ℕ) (k : Kernel) → IsDead t k → is_created (k.tasks u).status ≡ true → t ≢ u
uncreated t u k (s, _, _) c e = no_case (ap (λ x. is_created (k.tasks x).status) e ∙ c)
  where
    no_case : is_created (k.tasks t).status ≡ true → ⊥
    no_case e = absurd (false≢true (sym (ap is_created s) ∙ e))

create-IsDead :
    (t addr : ℕ) (entry_ok node_ok : Bool) (k : Kernel) (name vmem : ℕ)
    → IsDead t k
    → addr ≢ t
    → IsDead t (create addr entry_ok node_ok k name vmem).1
unfolding create
create-IsDead t addr entry_ok node_ok k name vmem d ne = elim (Bool-cases (addr == 0)) [
  | inl nil ↦ rw nil d
  | inr some_addr ↦ rw some_addr (
      IsDead-put t addr
        (record (new_task name vmem) { task_id = (add entry_ok node_ok k.task_id_mapper addr).0 }) k
        d (λ e. ne (sym e)))
]

set_kernel_mode-IsDead : (t u : ℕ) (k : Kernel) → IsDead t k → IsDead t (set_kernel_mode k u).1
unfolding set_kernel_mode
set_kernel_mode-IsDead t u k d = elim (Bool-cases (u == 0)) [
  | inl nil ↦ rw nil d
  | inr some_u ↦ elim (Bool-cases (is_created (k.tasks u).status)) [
    | inl c ↦
        rw (some_u, c)
          (IsDead-put t u (record (k.tasks u) { kernel = true }) k d (uncreated t u k d c))
    | inr c ↦ rw (some_u, c) d
  ]
]

task_ready-IsDead :
    (node_ok : Bool) (t u : ℕ) (k : Kernel)
    → IsDead t k
    → t ≢ u
    → IsDead t (task_ready node_ok k u).1
unfolding task_ready
task_ready-IsDead node_ok t u k d ne = elim (Bool-cases (u == 0)) [
  | inl nil ↦ rw nil d
  | inr some_u ↦
      let p = IsDead-put t u (record (k.tasks u) { status = ready }) k d ne in
      rw some_u (p.0, All-grow _ node_ok k.scheduled_tasks u p.1 (λ e. ne (sym e)), p.2)
]

run-IsDead :
    (region : Option (ℕ × ℕ)) (alloc_ok node_ok : Bool) (t u code : ℕ) (k : Kernel)
    → IsDead t k
    → IsDead t (run region alloc_ok node_ok k u code).1
unfolding run native_task_create
run-IsDead none alloc_ok node_ok t u code k d = d
run-IsDead (some (start, size)) false node_ok t u code k d = elim (Bool-cases (u == 0)) [
  | inl nil ↦ rw nil d
  | inr some_u ↦ elim (Bool-cases (is_created (k.tasks u).status)) [
    | inl c ↦ rw (some_u, c) d
    | inr c ↦ rw (some_u, c) d
  ]
]
run-IsDead (some (start, size)) true node_ok t u code k d = elim (Bool-cases (u == 0)) [
  | inl nil ↦ rw nil d
  | inr some_u ↦ elim (Bool-cases (is_created (k.tasks u).status)) [
    | inl c ↦
        let ne = uncreated t u k d c in
        rw (some_u, c) (task_ready-IsDead node_ok t u _ (IsDead-put t u _ k d ne) ne)
    | inr c ↦ rw (some_u, c) d
  ]
]

-- Stopping a task, the dead one or another, leaves the dead one dead.
stopped-IsDead : (t u : ℕ) (k : Kernel) → t ≢ 0 → IsDead t k → IsDead t (stopped k u)
stopped-IsDead t u k nz (s, a, c) = (
  elim (Bool-cases (u == t)) [ inl e ↦ rw e refl | inr e ↦ rw e s ],
  All-without_first _ u k.scheduled_tasks a,
  elim (Bool-cases (k.current_task == u)) [ inl e ↦ rw e (λ z. nz (sym z)) | inr e ↦ rw e c ],
)

-- A task that was stopped in a valid state is dead.
stopped-dies : (t : ℕ) (k : Kernel) → t ≢ 0 → IsValid k → IsDead t (stopped k t)
stopped-dies t k nz v = (
  ap (λ (x : Task). x.status) (put_self t _ k.tasks),
  without_first-absent t k.scheduled_tasks v.distinct,
  elim (Bool-cases (k.current_task == t)) [
    | inl e ↦ rw e (λ z. nz (sym z))
    | inr e ↦ rw e (λ z. ground arith)
  ],
)

switch_task-IsDead :
    (node_ok : Bool) (t : ℕ) (k : Kernel)
    → t ≢ 0
    → IsSound k
    → IsDead t k
    → IsDead t (switch_task node_ok k).1
switch_task-IsDead node_ok t k nz s d = split k.scheduled_tasks refl
  where
    split : (ts : List ℕ) → k.scheduled_tasks ≡ ts → IsDead t (switch_task node_ok k).1
    split [] e =
        let f =
          clear_current_task-fields (λ u. u ≢ t) node_ok (record k { scheduled_tasks = [] }) tt
            (λ _. d.2) in
        rw (switch_task-nil node_ok k e)
          (ap (λ (g : ℕ → Task). (g t).status) f.0 ∙ d.0, f.2, λ z. nz (sym z ∙ f.1))
    split (h ∷ ts) e =
        let w = IsValid-tail s.0 e in
        let a = subst (λ l. All (λ u. u ≢ t) l) e d.1 in
        let f =
          clear_current_task-fields (λ u. u ≢ t) node_ok (record k { scheduled_tasks = ts }) a.1
            (λ _. d.2) in
        rw (switch_task-cons node_ok k h ts e w.1 w.4)
          (unfold next_state in (ap (λ (g : ℕ → Task). (g t).status) f.0 ∙ d.0, f.2, a.0))

destroy-IsDead :
    (node_ok : Bool) (t u : ℕ) (k : Kernel) (r : Bool × Kernel)
    → t ≢ 0
    → IsSound k
    → IsDead t k
    → destroy node_ok k u ≡ some r
    → IsDead t r.1
destroy-IsDead node_ok t u k r nz s d e = elim (Bool-cases (u == 0)) [
  | inl nil ↦ subst (λ (x : Bool × Kernel). IsDead t x.1) (some_eq (sym (none_destroyed nil) ∙ e)) d
  | inr some_u ↦
      let (m, eq, _) = destroy-stopped node_ok k u s.1 (nonzero some_u) in
      subst (λ (x : Bool × Kernel). IsDead t x.1) (some_eq (sym eq ∙ e)) (stopped-IsDead t u k nz d)
]
  where
    nonzero : (u == 0) ≡ false → u ≢ 0
    nonzero some_u = λ e. ground arith

    none_destroyed : (u == 0) ≡ true → destroy node_ok k u ≡ some (false, k)
    none_destroyed nil = unfold destroy in rw nil refl

-- Every event that does not reuse the struct leaves a dead task dead.
step-IsDead :
    (t : ℕ) (e : Event) (k k' : Kernel)
    → t ≢ 0
    → IsSound k
    → Spares t e
    → IsDead t k
    → step k e ≡ some k'
    → IsDead t k'
unfolding step
step-IsDead t (creating addr entry_ok node_ok name vmem) k k' nz s sp d e =
    subst (IsDead t) (some_eq e) (create-IsDead t addr entry_ok node_ok k name vmem d sp)
step-IsDead t (setting_kernel_mode u) k k' nz s sp d e =
    subst (IsDead t) (some_eq e) (set_kernel_mode-IsDead t u k d)
step-IsDead t (running region alloc_ok node_ok u code) k k' nz s sp d e =
    subst (IsDead t) (some_eq e) (run-IsDead region alloc_ok node_ok t u code k d)
step-IsDead t (destroying node_ok u) k k' nz s sp d e =
    let (r, eq, _) = destroy-IsSound node_ok k u s in
    subst (IsDead t) (some_eq (sym (ap state eq) ∙ e)) (destroy-IsDead node_ok t u k r nz s d eq)
step-IsDead t (killing node_ok) k k' nz s sp d e =
    let (r, eq, s') = destroy-IsSound node_ok k k.current_task s in
    subst (IsDead t) (some_eq (sym (ap state (kill_current-some node_ok k r eq)) ∙ e)) (
      switch_task-IsDead node_ok t r.1 nz s'
        (destroy-IsDead node_ok t k.current_task k r nz s d eq))
step-IsDead t (switching node_ok) k k' nz s sp d e =
    subst (IsDead t) (some_eq e) (switch_task-IsDead node_ok t k nz s d)
step-IsDead t (saving on_stack) k k' nz s sp d e =
    save (update_current_state-writes on_stack k k' e)
  where
    save :
        (k' ≡ k) ⊎ ((w : Task) × (k' ≡ record k { tasks = put k.current_task w k.tasks }))
        → IsDead t k'
    save (inl same) = subst (IsDead t) (sym same) d
    save (inr (w, wrote)) =
        subst (IsDead t) (sym wrote) (IsDead-put t k.current_task w k d (λ z. d.2 (sym z)))

Reach-IsDead :
    (t : ℕ) {s : Kernel} {es : List Event} {k : Kernel}
    → t ≢ 0
    → IsSound s
    → IsDead t s
    → Reach s es k
    → All (Spares t) es
    → IsDead t k
Reach-IsDead t nz s d here a = d
Reach-IsDead t nz s d (next {e = e} {k = k} {k' = k'} r _ eq) a =
    step-IsDead t e k k' nz (Reach-IsSound r s) a.0 (Reach-IsDead t nz s d r a.1) eq

-- From a sound state in which `task_destroy` destroyed a task that is not NULL, no events lead to a
-- state in which the task is the current one or in the queue, as long as none of them makes a new
-- task of its struct.
pub destroy-forever :
    (node_ok : Bool) (t : ℕ) {k : Kernel} {r : Bool × Kernel} {es : List Event} {k' : Kernel}
    → t ≢ 0
    → IsSound k
    → destroy node_ok k t ≡ some r
    → Reach r.1 es k'
    → All (Spares t) es
    → (k'.current_task ≢ t) × All (λ u. u ≢ t) k'.scheduled_tasks
destroy-forever node_ok t {k} {r} {es} {k'} nz s e reach a =
    let (m, eq, l) = destroy-stopped node_ok k t s.1 nz in
    let (r', eq', s') = destroy-IsSound node_ok k t s in
    let d =
      Reach-IsDead t nz (subst (λ (x : Bool × Kernel). IsSound x.1) (some_eq (sym eq' ∙ e)) s')
        (subst (λ (x : Bool × Kernel). IsDead t x.1) (some_eq (sym eq ∙ e))
          (stopped-dies t k nz s.0))
        reach a in
    (d.2, d.1)
