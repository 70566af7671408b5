-- ===== src/TaskArguments.antt =====
-- The arguments of a task: task_set_arguments and copy_arguments_to_task of
-- core/src/task/services.c in src/kernel. They use the virtual memories, to find the physical
-- address of the region that takes the arguments, and write the bytes of the physical memory.
mod Words
pub mod Packing
pub mod Within
pub mod Userdata
mod Tests
use bubackos.Prelude.{
  ℕ, zero, suc, ◌+◌, ◌-◌, ◌*◌, ◌/◌, ◌%◌, ◌^◌, Bool, true, false, not, ◌||◌, ◌&&◌, Option, none,
  some, List, [], ◌∷◌, ◌==◌, leb, ltb, if◌then◌else◌, length, add64, sub64, word_mod,
  system_page_size,
}
use bubackos.CString.{memcpy}
use bubackos.Multiboot.{Bytes}
use bubackos.Task.{Kernel, Task}
use bubackos.Task as Tasks
use bubackos.TaskService.{is_created}
use bubackos.VirtualMemory.{Memory, vmem_attach, vmem_get_physical_address}
use bubackos.VirtualMemory.Regions.{vmem_region_create}

-- A write of eight bytes, the lowest first
abbrev pub store64 : (ptr value : ℕ) → Bytes → Bytes
store64 ptr value m a =
    if leb ptr a && ltb a (ptr + 8) then (value / 2 ^ (8 * (a - ptr))) % 256 else m a

-- TASK_DEFAULT_STACK_SIZE
abbrev pub task_default_stack_size : ℕ
task_default_stack_size = system_page_size * 10

-- `sizeof(task_userdata_t)`
abbrev pub userdata_size : ℕ
userdata_size = 16

-- An argument: its entries of `sizes` and `arguments`
abbrev pub Argument : Type 0
Argument = ℕ × ℕ

-- The loop of `copy_arguments_to_task` over the arguments that are left: where the data ends,
-- virtually and physically, or none where there is no room; `ptr_phys` is
-- `&arguments_ptr_phys[i]`, and `limit` is the end of the room.
unfoldable pub copy_loop :
    (limit : ℕ)
    → List Argument
    → (ptr_phys arguments_data arguments_data_phys : ℕ) → Bytes
    → Option (ℕ × ℕ) × Bytes
copy_loop limit [] ptr vdata phys m = (some (vdata, phys), m)
copy_loop limit ((size, argument) ∷ rest) ptr vdata phys m =
    let copied =
      copy_loop limit rest (add64 ptr 8) (add64 vdata size) (add64 phys size)
        (store64 ptr vdata (memcpy phys argument size m)) in
    if ltb limit (add64 vdata size) then (none, m) else copied

-- The `task_userdata_t` behind the data, and the answer
store_userdata : (num_arguments argument_list_ptr : ℕ) → Option (ℕ × ℕ) × Bytes → ℕ × Bytes
store_userdata num ptr (none, m) = (0, m)
store_userdata num ptr (some (vdata, phys), m) =
    (vdata, store64 (add64 phys 8) ptr (store64 phys num m))

-- `copy_arguments_to_task`; `handler` is `task->memory_handler`.
unfoldable pub copy_arguments_to_task :
    Memory → (handler stack stack_size : ℕ) → List Argument → Bytes → ℕ × Bytes
unfolding store_userdata
copy_arguments_to_task k handler stack stack_size arguments m =
    let ptr_phys = vmem_get_physical_address k handler stack in
    let vdata = add64 stack ((8 * (length arguments + 1)) % word_mod) in
    let data_phys = vmem_get_physical_address k handler vdata in
    if ptr_phys == 0
    then (0, m)
    else if data_phys == 0
    then (0, m)
    else store_userdata (length arguments) stack (
        copy_loop (sub64 (add64 stack stack_size) userdata_size) arguments ptr_phys vdata data_phys
          m)

-- The tasks, the virtual memories and the physical bytes
pub record System : Type 0 where
  pub kernel : Kernel
  pub memory : Memory
  pub bytes : Bytes

-- The region is attached to the kernel, and filled.
fill_region : System → (task region : ℕ) → List Argument → Bool × System
fill_region s task region arguments =
    let (attached, k) = vmem_attach s.memory s.memory.kernel_vmem region in
    let t = s.kernel.tasks task in
    let x = k.regions region in
    let (userdata, m) =
      copy_arguments_to_task k t.memory_handler x.start x.size arguments s.bytes in
    if attached
    then (
      true,
      record {
        kernel = record s.kernel {
          tasks = Tasks.put task (record t { userdata = userdata }) s.kernel.tasks;
        };
        memory = k;
        bytes = m;
      },
    )
    else (false, record s { memory = k })

-- `task_set_arguments`; `name` is the address of the region's name. None where a call of the
-- virtual memory is.
unfoldable pub task_set_arguments :
    (name : ℕ) → System → (task : ℕ) → List Argument → Option (Bool × System)
unfolding fill_region
task_set_arguments name s task arguments =
    let t = s.kernel.tasks task in
    if (task == 0) || (not (is_created t.status) || not (t.userdata == 0))
    then some (false, s)
    else elim (vmem_region_create s.memory t.memory_handler name 0 task_default_stack_size true true
        true) [
          | none ↦ none
          | some (region, k) ↦
              if region == 0
              then some (false, record s { memory = k })
              else some (fill_region (record s { memory = k }) task region arguments)
        ]
