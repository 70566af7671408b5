-- ===== src/TaskService.antt =====
-- The task services, core/src/task/services.c and syscalls.c, and the handlers of hardware events,
-- core/src/hw_events.c of src/kernel. The outcome of each allocation is an argument: the address of
-- a new task struct (0 is NULL), and whether the entry, the node or the native task got memory.
pub mod Running
pub mod Events
pub mod Death
mod Tests
use bubackos.Prelude.{
  ℕ, ◌+◌, Bool, true, false, Option, none, some, ◌==◌, if◌then◌else◌, not, ◌||◌, add64, sub64,
}
use bubackos.IdMapper.{get, add, del}
use bubackos.Task.{
  Status, created, ready, not_ready, Task, NativeTask, Kernel, put, native_task_create,
  update_current_state,
}
use bubackos.Scheduler.{Processor, task_not_ready, task_ready, switch_task}

-- `task_get`
pub get_task : Kernel → ℕ → Option ℕ
get_task k task_id = get (some k.task_id_mapper) task_id

abbrev pub is_created : Status → Bool
is_created created = true
is_created _ = false

-- The struct literal of `task_create`, before the task has an id.
abbrev pub new_task : (name vmem : ℕ) → Task
new_task name vmem = record {
  task_id = 0;
  name = name;
  kernel = false;
  priority = 1;
  userdata = 0;
  status = created;
  native_task = none;
  memory_handler = vmem;
}

-- `task_create`: the address, or 0, and the state.
unfoldable pub create : (addr : ℕ) (entry_ok node_ok : Bool) → Kernel → (name vmem : ℕ) → ℕ × Kernel
create addr entry_ok node_ok k name vmem =
    if addr == 0
    then (0, k)
    else let (id, mapper) = add entry_ok node_ok k.task_id_mapper addr in
      let k' = record k {
        tasks = put addr (record (new_task name vmem) { task_id = id }) k.tasks;
        task_id_mapper = mapper;
      } in
      (if id == 0 then 0 else addr, k')

-- `task_set_kernel_mode`
unfoldable pub set_kernel_mode : Kernel → ℕ → Bool × Kernel
set_kernel_mode k task =
    if task == 0
    then (false, k)
    else if is_created (k.tasks task).status
    then (true, record k { tasks = put task (record (k.tasks task) { kernel = true }) k.tasks })
    else (false, k)

-- `task_run`, where `region` is the start and the size of the region that vmem_region_create
-- returns for the stack.
unfoldable pub run :
    (region : Option (ℕ × ℕ)) (alloc_ok node_ok : Bool) → Kernel → (task code : ℕ) → Bool × Kernel
run none alloc_ok node_ok k task code = (false, k)
run (some (start, size)) alloc_ok node_ok k task code =
    if task == 0
    then (false, k)
    else if is_created (k.tasks task).status
    then (let v = k.tasks task in
        let (ok, v') =
          native_task_create alloc_ok v code (sub64 (add64 start size) 8) v.kernel v.userdata in
        if ok
        then (true, (task_ready node_ok (record k { tasks = put task v' k.tasks }) task).1)
        else (false, k))
    else (false, k)

-- The call of `id_mapper_del` in `task_release_resources`. `none` is its walk over a list that is
-- NULL.
unfoldable pub remove_id : Kernel → ℕ → Option Kernel
remove_id k task = elim (del k.task_id_mapper (k.tasks task).task_id) [
  | none ↦ none
  | some r ↦ some (record k { task_id_mapper = r.1 })
]

-- `task_release_resources` of a task that is not NULL.
unfoldable pub release_resources : (node_ok : Bool) → Kernel → ℕ → Option Kernel
release_resources node_ok k task = remove_id (task_not_ready node_ok k task).1 task

-- `task_destroy`
unfoldable pub destroy : (node_ok : Bool) → Kernel → ℕ → Option (Bool × Kernel)
destroy node_ok k task =
    if task == 0
    then some (false, k)
    else elim (release_resources node_ok k task) [ none ↦ none | some k' ↦ some (true, k') ]

-- `task_destroy` of the current task, if there is one, and a switch to another: all that the handlers
-- below do but for their logs and dumps.
unfoldable pub kill_current : (node_ok : Bool) → Kernel → Option (Processor × Kernel)
kill_current node_ok k = elim (destroy node_ok k k.current_task) [
  | none ↦ none
  | some r ↦ some (switch_task node_ok r.1)
]

abbrev pub handle_protection_fault : (node_ok : Bool) → Kernel → Option (Processor × Kernel)
handle_protection_fault node_ok k = kill_current node_ok k

abbrev pub handle_page_fault : (node_ok : Bool) → Kernel → Option (Processor × Kernel)
handle_page_fault node_ok k = kill_current node_ok k

abbrev pub handle_invalid_operation : (node_ok : Bool) → Kernel → Option (Processor × Kernel)
handle_invalid_operation node_ok k = kill_current node_ok k

abbrev pub syscall_handler_task_exit : (node_ok : Bool) → Kernel → Option (Processor × Kernel)
syscall_handler_task_exit node_ok k = kill_current node_ok k
