-- ===== src/TaskService/Tests.antt =====
-- Two tasks, at the addresses 4096 and 8192, the first of which runs.
use bubackos.Prelude.{
  ℕ, ◌≡◌, ◌≢◌, ◌⊎◌, refl, Bool, true, false, some, List, [], ◌∷◌, ◌==◌, if◌then◌else◌, All, arith,
}
use bubackos.Task.{ready, Task, NativeTask, Kernel}
use bubackos.Scheduler.{append, sleeps, switch_task}
use bubackos.Scheduler.Invariant.{IsValid}
use bubackos.Scheduler.Fair.{Runs, switch_task-Runs, switches, switches-current}
use bubackos.TaskService.{new_task, destroy}
use bubackos.TaskService.Events.{
  switching, step, IsSound, destroy-IsSound, Reach, here, next, Reach-IsSound,
}
use bubackos.TaskService.Death.{destroy-forever}

abbrev registers : NativeTask
registers = record {
  r15 = 0;
  r14 = 0;
  r13 = 0;
  r12 = 0;
  rbp = 0;
  rbx = 0;
  r11 = 0;
  r10 = 0;
  r9 = 0;
  r8 = 0;
  rax = 0;
  rcx = 0;
  rdx = 0;
  rsi = 0;
  rdi = 0;
  orig_rax = 0;
  codeptr = 4194304;
  cs = 51;
  eflags = 514;
  stackptr = 8388608;
  ss = 67;
}

abbrev task : ℕ → Task
task id = record (new_task 0 16384) { task_id = id; status = ready; native_task = some registers }

abbrev kernel : Kernel
kernel = record {
  tasks = λ t. if t == 4096 then task 1 else task 2;
  current_task = 4096;
  scheduled_tasks = 8192 ∷ [];
  task_id_mapper = record {
    next = 3;
    list = some (record { id = 1; val = 4096 } ∷ record { id = 2; val = 8192 } ∷ []);
  };
  page_table = 16384;
}

kernel-IsValid : IsValid kernel
kernel-IsValid = record {
  queued = ((λ e. omega (arith, e), (refl, registers, refl, refl, refl)), tt);
  distinct = (tt, tt);
  running = λ _. ((refl, registers, refl, refl, refl), (λ e. omega (arith, e), tt), refl);
}

kernel-IsSound : IsSound kernel
kernel-IsSound = (kernel-IsValid, (_, refl))

switch_task-Runs_example :
    ((kernel.scheduled_tasks ≡ [])
      × ((switch_task true kernel).0 ≡ sleeps)
      × ((switch_task true kernel).1.current_task ≡ 0))
    ⊎ ((t : ℕ) × (ts : List ℕ) × (kernel.scheduled_tasks ≡ t ∷ ts)
        × Runs kernel (switch_task true kernel) t
        × ((switch_task true kernel).1.scheduled_tasks
            ≡ (if kernel.current_task == 0 then ts else append true ts kernel.current_task)))
switch_task-Runs_example = switch_task-Runs true kernel kernel-IsValid

switches-current_example : (switches (false ∷ []) kernel).current_task ≡ 8192
switches-current_example = switches-current (false ∷ []) 0 kernel 8192 kernel-IsValid refl refl

step_switching : step kernel (switching true) ≡ some (switch_task true kernel).1
unfolding step
step_switching = refl

switched : Reach kernel (switching true ∷ []) (switch_task true kernel).1
switched = next here tt step_switching

Reach-IsSound_example : IsSound (switch_task true kernel).1
Reach-IsSound_example = Reach-IsSound switched kernel-IsSound

-- The first task is destroyed, and another switch follows.
destroyed : (r : Bool × Kernel) × (destroy true kernel 4096 ≡ some r)
destroyed = let (r, e, _) = destroy-IsSound true kernel 4096 kernel-IsSound in (r, e)

step_later : step destroyed.0.1 (switching true) ≡ some (switch_task true destroyed.0.1).1
unfolding step
step_later = refl

destroy-forever_example :
    ((switch_task true destroyed.0.1).1.current_task ≢ 4096)
    × All (λ u. u ≢ 4096) (switch_task true destroyed.0.1).1.scheduled_tasks
destroy-forever_example =
    destroy-forever true 4096 (λ e. omega (arith, e)) kernel-IsSound destroyed.1
      (next here tt step_later) (tt, tt)
