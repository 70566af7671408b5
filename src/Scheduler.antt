-- ===== src/Scheduler.antt =====
-- The scheduler, core/src/scheduler/services.c of src/kernel. `scheduled_tasks` is the sequence of
-- its list's values (LinkedList/View); `node_ok` says whether linkedlist_append got its node.
pub mod Queue
pub mod Invariant
pub mod Turn
pub mod Fair
use bubackos.Prelude.{ℕ, Bool, true, false, List, [], ◌∷◌, ◌++◌, ◌==◌, if◌then◌else◌}
use bubackos.LinkedList.View.{without_first}
use bubackos.Task.{Status, created, ready, not_ready, Task, Kernel, put}

abbrev pub is_ready : Status → Bool
is_ready ready = true
is_ready _ = false

-- `linkedlist_append` of a task.
abbrev pub append : Bool → List ℕ → ℕ → List ℕ
append node_ok ts t = if node_ok then ts ++ (t ∷ []) else ts

-- `task->status = status`
abbrev pub set_status : ℕ → Status → Kernel → Kernel
set_status t status k = record k { tasks = put t (record (k.tasks t) { status = status }) k.tasks }

-- `scheduler_clear_current_task`
unfoldable pub clear_current_task : (node_ok : Bool) → Kernel → Kernel
clear_current_task node_ok k =
    if k.current_task == 0
    then k
    else let scheduled =
        if is_ready (k.tasks k.current_task).status
        then append node_ok k.scheduled_tasks k.current_task
        else k.scheduled_tasks in
      record k { scheduled_tasks = scheduled; current_task = 0 }

-- `scheduler_task_not_ready`
unfoldable pub task_not_ready : (node_ok : Bool) → Kernel → ℕ → Bool × Kernel
task_not_ready node_ok k task =
    if task == 0
    then (false, k)
    else let marked = set_status task not_ready k in
      let k' = record marked { scheduled_tasks = without_first task marked.scheduled_tasks } in
      (true, if k'.current_task == task then clear_current_task node_ok k' else k')

-- `scheduler_task_ready`, which answers true also where the append fails.
unfoldable pub task_ready : (node_ok : Bool) → Kernel → ℕ → Bool × Kernel
task_ready node_ok k task =
    if task == 0
    then (false, k)
    else let k' = set_status task ready k in
      (true, record k' { scheduled_tasks = append node_ok k'.scheduled_tasks task })

-- `get_next_task`: NULL of an empty list.
unfoldable pub get_next_task : List ℕ → ℕ × List ℕ
get_next_task [] = (0, [])
get_next_task (t ∷ ts) = (t, ts)

-- How `scheduler_switch_task` leaves the processor: `native_task_switch` or `native_task_sleep`.
pub data Processor : Type 0 where
  runs : ℕ → Processor
  sleeps : Processor

-- `scheduler_switch_task`
unfoldable pub switch_task : (node_ok : Bool) → Kernel → Processor × Kernel
switch_task node_ok k =
    let (next_task, rest) = get_next_task k.scheduled_tasks in
    let popped = record k { scheduled_tasks = rest } in
    let switched = record (clear_current_task node_ok popped) {
      page_table = (k.tasks next_task).memory_handler;
    } in
    if next_task == 0 then (sleeps, clear_current_task node_ok popped) else (
      runs next_task,
      record (if next_task == k.current_task then popped else switched) {
        current_task = next_task;
      },
    )
