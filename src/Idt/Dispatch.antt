-- ===== src/Idt/Dispatch.antt =====
-- Every interrupt leaves the tasks in order.
use mathlib.Core.Path.{subst}
use bubackos.Prelude.{
  ℕ, ◌≡◌, refl, Bool, true, false, Option, some, List, [], ◌∷◌, ◌==◌, if◌then◌else◌, length,
  Bool-cases, inl, inr, sym, some_eq, ◌^◌, ◌-◌,
}
use bubackos.Task.{NativeTask, Kernel, update_current_state}
use bubackos.Scheduler.{switch_task}
use bubackos.Syscall.{syscall_max_number, Dispatch, refused, calls}
use bubackos.Syscall.Table.{handle_syscall-defined}
use bubackos.TaskService.{kill_current}
use bubackos.TaskService.Events.{
  switching, saving, step, IsSound, step-IsSound, destroy-IsSound, kill_current-some,
}
use bubackos.Idt.{
  Ending, switched, resumed, ends, then_switch, handle_task_switch, system_call, interrupt_handler,
}

-- The ending is defined, and the tasks are in order.
abbrev pub EndsSound : Option (Ending × Kernel) → Type 0
EndsSound o = (r : Ending × Kernel) × (o ≡ some r) × IsSound r.1

switch-EndsSound :
    (node_ok : Bool) (k : Kernel) → IsSound k → EndsSound (then_switch node_ok (some k))
switch-EndsSound node_ok k s =
    let (k', e, s') = step-IsSound k (switching node_ok) s tt in
    (
      (switched (switch_task node_ok k).0, (switch_task node_ok k).1),
      refl,
      subst IsSound (sym (reached e)) s',
    )
  where
    reached : {k' : Kernel} → step k (switching node_ok) ≡ some k' → (switch_task node_ok k).1 ≡ k'
    reached e = some_eq (unfold step in e)

save-EndsSound :
    (node_ok : Bool) (native : NativeTask) (k : Kernel)
    → IsSound k
    → EndsSound (then_switch node_ok (update_current_state native k))
save-EndsSound node_ok native k s =
    let (k', e, s') = step-IsSound k (saving native) s tt in
    rw (saved e) (switch-EndsSound node_ok k' s')
  where
    saved :
        {k' : Kernel} → step k (saving native) ≡ some k' → update_current_state native k ≡ some k'
    saved e = unfold step in e

kill-EndsSound :
    (node_ok : Bool) (k : Kernel) → IsSound k → EndsSound (ends (kill_current node_ok k))
kill-EndsSound node_ok k s =
    let (r, e, s') = destroy-IsSound node_ok k k.current_task s in
    rw (kill_current-some node_ok k r e) (switch-EndsSound node_ok r.1 s')

system_call-EndsSound :
    (vector : List ℕ) (task_exit : ℕ) (answer : ℕ → List ℕ → ℕ) (node_ok : Bool)
    (native : NativeTask) (k : Kernel)
    → length vector ≡ syscall_max_number
    → IsSound k
    → EndsSound (system_call vector task_exit answer node_ok native k)
unfolding system_call
system_call-EndsSound vector task_exit answer node_ok native k l s =
    let arguments = native.rsi ∷ native.rdx ∷ native.r10 ∷ native.r8 ∷ native.r9 ∷ [] in
    let (d, e) = handle_syscall-defined vector native.rdi arguments l in
    rw (system_call, e) (dispatch d)
  where
    dispatch :
        (d : Dispatch)
        → EndsSound (elim d [
          | refused ↦ some (resumed (record native { rax = 2 ^ 64 - 1 }), k)
          | calls handler arguments ↦
              if handler == task_exit
              then ends (kill_current node_ok k)
              else some (resumed (record native { rax = answer handler arguments }), k)
        ])
    dispatch refused = (_, refl, s)
    dispatch (calls handler arguments) = elim (Bool-cases (handler == task_exit)) [
      | inl exits ↦ rw exits (kill-EndsSound node_ok k s)
      | inr other ↦ rw other (_, refl, s)
    ]

-- From a sound state, with a whole vector of system calls, `interrupt_handler` of every interrupt is
-- defined and ends in a sound state: another task runs, the processor sleeps, or the interrupted
-- task resumes, and nothing was read through a pointer that is NULL.
pub interrupt_handler-EndsSound :
    (vector : List ℕ) (task_exit : ℕ) (answer : ℕ → List ℕ → ℕ) (node_ok : Bool)
    (native : NativeTask) (interrupt : ℕ) (k : Kernel)
    → length vector ≡ syscall_max_number
    → IsSound k
    → EndsSound (interrupt_handler vector task_exit answer node_ok native interrupt k)
unfolding interrupt_handler
interrupt_handler-EndsSound vector task_exit answer node_ok native interrupt k l s =
    branch (interrupt == 8) timer (
      branch (interrupt == 13) (kill-EndsSound node_ok k s) (
        branch (interrupt == 14) (kill-EndsSound node_ok k s) (
          branch (interrupt == 6) (kill-EndsSound node_ok k s) (
            branch (interrupt == 50)
              (system_call-EndsSound vector task_exit answer node_ok native k l s)
              (save-EndsSound node_ok native k s)))))
  where
    branch :
        (b : Bool) {o p : Option (Ending × Kernel)}
        → EndsSound o
        → EndsSound p
        → EndsSound (if b then o else p)
    branch true o p = o
    branch false o p = p

    timer : EndsSound (handle_task_switch node_ok native k)
    timer =
        unfold handle_task_switch in
        branch (k.current_task == 0) (switch-EndsSound node_ok k s)
          (save-EndsSound node_ok native k s)
