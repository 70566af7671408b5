-- ===== src/Scheduler/Invariant.antt =====
-- What the scheduler keeps true of its queue and of the task that runs.
use mathlib.Core.Path.{subst}
use bubackos.Prelude.{
  ℕ, ◌≡◌, ◌≢◌, refl, Bool, true, false, some, List, ◌==◌, if◌then◌else◌, All, Bool-cases, inl, inr,
  ==_eq, ==_ne, arith, sym, ap, ◌∙◌,
}
use bubackos.LinkedList.View.{without_first}
use bubackos.Task.{ready, not_ready, Task, NativeTask, Kernel, put, code_segment, data_segment}
use bubackos.Scheduler.{is_ready, clear_current_task, task_not_ready, task_ready}
use bubackos.Scheduler.Queue.{
  Nodup, All-zip, All-without_first, Nodup-without_first, without_first-absent, Nodup-append,
  All-grow, put_self, put_other,
}

-- The task is READY and has registers to resume, with the segments of its privilege.
abbrev pub IsRunnable : Task → Type 0
IsRunnable v =
    (v.status ≡ ready)
    × (n : NativeTask) × (v.native_task ≡ some n)
    × (n.cs ≡ code_segment v.kernel)
    × (n.ss ≡ data_segment v.kernel)

-- The queue holds runnable tasks, each once; the current task is runnable, not in the queue, and
-- its page table is in use.
pub record IsValid (k : Kernel) : Type 0 where
  pub queued : All (λ t. (t ≢ 0) × IsRunnable (k.tasks t)) k.scheduled_tasks
  pub distinct : Nodup k.scheduled_tasks
  pub running :
      k.current_task ≢ 0
      → IsRunnable (k.tasks k.current_task)
        × All (λ u. u ≢ k.current_task) k.scheduled_tasks
        × (k.page_table ≡ (k.tasks k.current_task).memory_handler)

-- Clearing the current task of a valid state.
pub clear_current_task-IsValid :
    (node_ok : Bool) (k : Kernel) → IsValid k → IsValid (clear_current_task node_ok k)
unfolding clear_current_task
clear_current_task-IsValid node_ok k v = elim (Bool-cases (k.current_task == 0)) [
  | inl idle ↦ rw idle v
  | inr busy ↦
      rw (busy, (running busy).0.0)
        (record {
          queued =
              All-grow _ node_ok k.scheduled_tasks k.current_task v.queued
                (nonzero busy, (running busy).0);
          distinct =
              Nodup-append node_ok k.scheduled_tasks k.current_task v.distinct (running busy).1;
          running = λ ne. absurd (ne refl);
        })
]
  where
    nonzero : (k.current_task == 0) ≡ false → k.current_task ≢ 0
    nonzero busy = λ e. ground arith

    running :
        (k.current_task == 0) ≡ false
        → IsRunnable (k.tasks k.current_task)
          × All (λ u. u ≢ k.current_task) k.scheduled_tasks
          × (k.page_table ≡ (k.tasks k.current_task).memory_handler)
    running busy = v.running (nonzero busy)

-- A write to a task that is neither queued nor current, or its removal from both, keeps the rest.
pub queued-put :
    (t : ℕ) (w : Task) (tasks : ℕ → Task) (ts : List ℕ)
    → All (λ u. (u ≢ 0) × IsRunnable (tasks u)) ts
    → All (λ u. u ≢ t) ts
    → All (λ u. (u ≢ 0) × IsRunnable (put t w tasks u)) ts
queued-put t w tasks ts q a =
    All-zip (λ u p ne. (p.0, subst IsRunnable (sym (put_other t u w tasks ne)) p.1)) ts q a

-- A current task that is not READY is not put back into the queue.
clear_current_task-unready :
    (node_ok : Bool) (k : Kernel)
    → is_ready (k.tasks k.current_task).status ≡ false
    → k.current_task ≢ 0
    → clear_current_task node_ok k ≡ record k { current_task = 0 }
unfolding clear_current_task
clear_current_task-unready node_ok k e ne = rw (==_ne k.current_task 0 ne, e) refl

-- What `scheduler_task_not_ready` does to a task that is not NULL.
abbrev pub stopped : Kernel → ℕ → Kernel
stopped k t = record k {
  tasks = put t (record (k.tasks t) { status = not_ready }) k.tasks;
  scheduled_tasks = without_first t k.scheduled_tasks;
  current_task = if k.current_task == t then 0 else k.current_task;
}

pub task_not_ready-stopped :
    (node_ok : Bool) (k : Kernel) (t : ℕ) → t ≢ 0 → task_not_ready node_ok k t ≡ (true, stopped k t)
unfolding task_not_ready
task_not_ready-stopped node_ok k t ne = elim (Bool-cases (k.current_task == t)) [
  | inl hit ↦
      rw (==_ne t 0 ne, hit, clear_current_task-unready node_ok marked (unready hit) (nonzero hit))
        refl
  | inr miss ↦ rw (==_ne t 0 ne, miss) refl
]
  where
    marked : Kernel
    marked = record k {
      tasks = put t (record (k.tasks t) { status = not_ready }) k.tasks;
      scheduled_tasks = without_first t k.scheduled_tasks;
    }

    unready :
        (k.current_task == t) ≡ true
        → is_ready (put t (record (k.tasks t) { status = not_ready }) k.tasks k.current_task).status
          ≡ false
    unready hit =
        rw
          (
            ==_eq k.current_task t hit,
            put_self t (record (k.tasks t) { status = not_ready }) k.tasks,
          )
          refl

    nonzero : (k.current_task == t) ≡ true → k.current_task ≢ 0
    nonzero hit = λ e. ne (sym (==_eq k.current_task t hit) ∙ e)

-- It keeps a valid state valid.
pub task_not_ready-IsValid :
    (node_ok : Bool) (k : Kernel) (t : ℕ) → IsValid k → IsValid (task_not_ready node_ok k t).1
task_not_ready-IsValid node_ok k t v = elim (Bool-cases (t == 0)) [
  | inl nil ↦ unfold task_not_ready in rw nil v
  | inr some_t ↦ rw (task_not_ready-stopped node_ok k t (λ e. ground arith)) (record {
    queued =
        queued-put t _ k.tasks (without_first t k.scheduled_tasks)
          (All-without_first _ t k.scheduled_tasks v.queued)
          (without_first-absent t k.scheduled_tasks v.distinct);
    distinct = Nodup-without_first t k.scheduled_tasks v.distinct;
    running = elim (Bool-cases (k.current_task == t)) [
      | inl hit ↦ rw hit (λ ne. absurd (ne refl))
      | inr miss ↦ rw miss (λ ne. (
        subst IsRunnable (sym (other miss)) (v.running ne).0,
        All-without_first _ t k.scheduled_tasks (v.running ne).1,
        (v.running ne).2 ∙ sym (ap (λ (w : Task). w.memory_handler) (other miss)),
      ))
    ];
  })
]
  where
    other :
        (k.current_task == t) ≡ false
        → put t (record (k.tasks t) { status = not_ready }) k.tasks k.current_task
          ≡ k.tasks k.current_task
    other miss = put_other t k.current_task _ k.tasks (λ e. ground arith)

-- `scheduler_task_ready` keeps a valid state valid, of a task that is neither queued nor current
-- and has its registers.
pub task_ready-IsValid :
    (node_ok : Bool) (k : Kernel) (t : ℕ)
    → IsValid k
    → t ≢ 0
    → k.current_task ≢ t
    → All (λ u. u ≢ t) k.scheduled_tasks
    → IsRunnable (record (k.tasks t) { status = ready })
    → IsValid (task_ready node_ok k t).1
unfolding task_ready
task_ready-IsValid node_ok k t v nz nc absent r = rw (==_ne t 0 nz) (record {
  queued =
      All-grow _ node_ok k.scheduled_tasks t
        (queued-put t _ k.tasks k.scheduled_tasks v.queued absent)
        (nz, subst IsRunnable (sym (put_self t _ k.tasks)) r);
  distinct = Nodup-append node_ok k.scheduled_tasks t v.distinct absent;
  running = λ ne. (
    subst IsRunnable (sym other) (v.running ne).0,
    All-grow _ node_ok k.scheduled_tasks t (v.running ne).1 (λ e. nc (sym e)),
    (v.running ne).2 ∙ sym (ap (λ (w : Task). w.memory_handler) other),
  );
})
  where
    other :
        put t (record (k.tasks t) { status = ready }) k.tasks k.current_task
        ≡ k.tasks k.current_task
    other = put_other t k.current_task _ k.tasks nc
