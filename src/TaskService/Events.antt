-- ===== src/TaskService/Events.antt =====
-- Every history of the kernel's tasks, as steps of the operations.
use mathlib.Core.Path.{subst}
use bubackos.Prelude.{
  ==_ne, ℕ, ◌≡◌, ◌≢◌, refl, Bool, true, false, Option, none, some, List, [], ◌∷◌, ◌==◌, All,
  Bool-cases, inl, inr, some_eq, sym, ◌∙◌, arith,
}
use bubackos.IdMapper.{IdMapper, del}
use bubackos.IdMapper.Invariant.{HasList, add-HasList, del-HasList}
use bubackos.Task.{NativeTask, Kernel, native_task_create, update_current_state}
use bubackos.Scheduler.{task_ready, clear_current_task, switch_task}
use bubackos.Scheduler.Invariant.{IsValid, stopped, task_not_ready-IsValid, task_not_ready-stopped}
use bubackos.Scheduler.Turn.{switch_task-IsValid}
use bubackos.TaskService.{
  create, set_kernel_mode, run, remove_id, release_resources, destroy, kill_current,
}
use bubackos.TaskService.Running.{
  mapper-IsValid, create-IsValid, set_kernel_mode-IsValid, run-IsValid,
  update_current_state-IsValid,
}

-- What happens to the tasks: a call of the task services, a fault or the exit of the current task,
-- the timer, and the entry to the kernel, which saves the registers.
pub data Event : Type 0 where
  creating : (addr : ℕ) (entry_ok node_ok : Bool) (name vmem : ℕ) → Event
  setting_kernel_mode : (task : ℕ) → Event
  running : (region : Option (ℕ × ℕ)) (alloc_ok node_ok : Bool) (task code : ℕ) → Event
  destroying : (node_ok : Bool) (task : ℕ) → Event
  killing : (node_ok : Bool) → Event
  switching : (node_ok : Bool) → Event
  saving : NativeTask → Event

abbrev pub state {ℓ} : {A : Type ℓ} → Option (A × Kernel) → Option Kernel
state none = none
state (some r) = some r.1

-- The state after an event; `none` is an access through NULL or an uninitialised pointer.
unfoldable pub step : Kernel → Event → Option Kernel
step k (creating addr entry_ok node_ok name vmem) =
    some (create addr entry_ok node_ok k name vmem).1
step k (setting_kernel_mode task) = some (set_kernel_mode k task).1
step k (running region alloc_ok node_ok task code) =
    some (run region alloc_ok node_ok k task code).1
step k (destroying node_ok task) = state (destroy node_ok k task)
step k (killing node_ok) = state (kill_current node_ok k)
step k (switching node_ok) = some (switch_task node_ok k).1
step k (saving on_stack) = update_current_state on_stack k

-- A new task struct is not the memory of a task in use.
abbrev pub IsAllowed : Kernel → Event → Type 0
IsAllowed k (creating addr _ _ _ _) =
    All (λ u. u ≢ addr) k.scheduled_tasks × (k.current_task ≢ 0 → k.current_task ≢ addr)
IsAllowed k _ = Unit {0}

abbrev pub IsSound : Kernel → Type 0
IsSound k = IsValid k × HasList k.task_id_mapper

switch_task-mapper :
    (node_ok : Bool) (k : Kernel) → (switch_task node_ok k).1.task_id_mapper ≡ k.task_id_mapper
unfolding switch_task clear_current_task
switch_task-mapper node_ok k = ground arith

create-mapper :
    (addr : ℕ) (entry_ok node_ok : Bool) (k : Kernel) (name vmem : ℕ)
    → HasList k.task_id_mapper
    → HasList (create addr entry_ok node_ok k name vmem).1.task_id_mapper
unfolding create
create-mapper addr entry_ok node_ok k name vmem h = elim (Bool-cases (addr == 0)) [
  | inl nil ↦ rw nil h
  | inr some_addr ↦ rw some_addr (add-HasList entry_ok node_ok k.task_id_mapper addr h)
]

set_kernel_mode-mapper :
    (k : Kernel) (t : ℕ) → (set_kernel_mode k t).1.task_id_mapper ≡ k.task_id_mapper
unfolding set_kernel_mode
set_kernel_mode-mapper k t = ground arith

run-mapper :
    (region : Option (ℕ × ℕ)) (alloc_ok node_ok : Bool) (k : Kernel) (t code : ℕ)
    → (run region alloc_ok node_ok k t code).1.task_id_mapper ≡ k.task_id_mapper
unfolding run native_task_create task_ready
run-mapper none alloc_ok node_ok k t code = refl
run-mapper (some r) alloc_ok node_ok k t code = ground arith

remove_id-some :
    (k : Kernel) (t : ℕ) (r : Bool × IdMapper)
    → del k.task_id_mapper (k.tasks t).task_id ≡ some r
    → remove_id k t ≡ some (record k { task_id_mapper = r.1 })
unfolding remove_id
remove_id-some k t r e = rw (remove_id, e) refl

pub kill_current-some :
    (node_ok : Bool) (k : Kernel) (r : Bool × Kernel)
    → destroy node_ok k k.current_task ≡ some r
    → kill_current node_ok k ≡ some (switch_task node_ok r.1)
unfolding kill_current
kill_current-some node_ok k r e = rw (kill_current, e) refl

release_resources-stopped :
    (node_ok : Bool) (k : Kernel) (t : ℕ) (r : Bool × IdMapper)
    → t ≢ 0
    → del k.task_id_mapper ((stopped k t).tasks t).task_id ≡ some r
    → release_resources node_ok k t ≡ some (record (stopped k t) { task_id_mapper = r.1 })
unfolding release_resources
release_resources-stopped node_ok k t r ne e =
    rw (task_not_ready-stopped node_ok k t ne) (remove_id-some (stopped k t) t r e)

-- What `task_destroy` does to a task that is not NULL: it is stopped, and its id removed.
pub destroy-stopped :
    (node_ok : Bool) (k : Kernel) (t : ℕ)
    → HasList k.task_id_mapper
    → t ≢ 0
    → (m : IdMapper) × (destroy node_ok k t
        ≡ some (true, record (stopped k t) { task_id_mapper = m }))
      × HasList m
unfolding destroy
destroy-stopped node_ok k t h ne =
    let (r, e, l) = del-HasList k.task_id_mapper ((stopped k t).tasks t).task_id h in
    (r.1, rw (==_ne t 0 ne, release_resources-stopped node_ok k t r ne e) refl, l)

-- `task_destroy` is defined on a sound state and leaves one.
pub destroy-IsSound :
    (node_ok : Bool) (k : Kernel) (t : ℕ)
    → IsSound k
    → (r : Bool × Kernel) × (destroy node_ok k t ≡ some r) × IsSound r.1
destroy-IsSound node_ok k t (v, h) = elim (Bool-cases (t == 0)) [
  | inl nil ↦ ((false, k), unfold destroy in rw nil refl, (v, h))
  | inr some_t ↦
      let ne = nonzero some_t in
      let (m, e, l) = destroy-stopped node_ok k t h ne in
      (
        (true, record (stopped k t) { task_id_mapper = m }),
        e,
        (
          mapper-IsValid (stopped k t) m (
              subst (λ (r : Bool × Kernel). IsValid r.1) (task_not_ready-stopped node_ok k t ne)
                (task_not_ready-IsValid node_ok k t v)),
          l,
        ),
      )
]
  where
    nonzero : (t == 0) ≡ false → t ≢ 0
    nonzero some_t = λ e. ground arith

-- From a sound state, every event that is allowed leads to a state that is sound again: nothing is
-- read through a native task or a list that is NULL.
pub step-IsSound :
    (k : Kernel) (e : Event)
    → IsSound k
    → IsAllowed k e
    → (k' : Kernel) × (step k e ≡ some k') × IsSound k'
unfolding step
step-IsSound k (creating addr entry_ok node_ok name vmem) (v, h) a = (
  _,
  refl,
  (
    create-IsValid addr entry_ok node_ok k name vmem v a.0 a.1,
    create-mapper addr entry_ok node_ok k name vmem h,
  ),
)
step-IsSound k (setting_kernel_mode task) (v, h) a = (
  _,
  refl,
  (set_kernel_mode-IsValid k task v, subst HasList (sym (set_kernel_mode-mapper k task)) h),
)
step-IsSound k (running region alloc_ok node_ok task code) (v, h) a = (
  _,
  refl,
  (
    run-IsValid region alloc_ok node_ok k task code v,
    subst HasList (sym (run-mapper region alloc_ok node_ok k task code)) h,
  ),
)
step-IsSound k (destroying node_ok task) s a =
    let (r, e, s') = destroy-IsSound node_ok k task s in (r.1, rw e refl, s')
step-IsSound k (killing node_ok) s a =
    let (r, e, s') = destroy-IsSound node_ok k k.current_task s in
    (
      (switch_task node_ok r.1).1,
      rw (kill_current-some node_ok k r e) refl,
      (
        switch_task-IsValid node_ok r.1 s'.0,
        subst HasList (sym (switch_task-mapper node_ok r.1)) s'.1,
      ),
    )
step-IsSound k (switching node_ok) (v, h) a = (
  _,
  refl,
  (switch_task-IsValid node_ok k v, subst HasList (sym (switch_task-mapper node_ok k)) h),
)
step-IsSound k (saving on_stack) (v, h) a =
    let (k', e, v', m) = update_current_state-IsValid on_stack k v in
    (k', e, (v', subst HasList (sym m) h))

-- The states that events lead to from a state, the latest event first.
pub data Reach (s : Kernel) : List Event → Kernel → Type 0 where
  here : Reach s [] s
  next :
      {es : List Event} {e : Event} {k k' : Kernel}
      → Reach s es k
      → IsAllowed k e
      → step k e ≡ some k'
      → Reach s (e ∷ es) k'

-- Every state that is reached from a sound one is sound: the queue holds tasks that are READY and
-- have registers with the segments of their privilege, each once and not the current one, which is
-- such a task itself and has its page table in use.
pub Reach-IsSound :
    {s : Kernel} {es : List Event} {k : Kernel} → Reach s es k → IsSound s → IsSound k
Reach-IsSound here h = h
Reach-IsSound (next {e = e} {k = k} {k' = k'} r a eq) h =
    let (k'', eq', s) = step-IsSound k e (Reach-IsSound r h) a in
    subst IsSound (some_eq (sym eq' ∙ eq)) s
