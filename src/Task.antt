-- ===== src/Task.antt =====
-- Tasks: core/include/core/task/services.h, hal/include/x86_64/native_task.h and
-- hal/src/x86_64/native_task.c of src/kernel, and the state that the scheduler and the task
-- services share.
use bubackos.Prelude.{ℕ, ◌+◌, ◌*◌, Bool, true, false, Option, none, some, List, ◌==◌, if◌then◌else◌}
use bubackos.IdMapper.{IdMapper}

-- `task_status_t`
pub data Status : Type 0 where
  created : Status
  ready : Status
  not_ready : Status

-- `native_task_t`, the registers that are kept for a task.
pub record NativeTask : Type 0 where
  pub r15 : ℕ
  pub r14 : ℕ
  pub r13 : ℕ
  pub r12 : ℕ
  pub rbp : ℕ
  pub rbx : ℕ
  pub r11 : ℕ
  pub r10 : ℕ
  pub r9 : ℕ
  pub r8 : ℕ
  pub rax : ℕ
  pub rcx : ℕ
  pub rdx : ℕ
  pub rsi : ℕ
  pub rdi : ℕ
  pub orig_rax : ℕ
  pub codeptr : ℕ
  pub cs : ℕ
  pub eflags : ℕ
  pub stackptr : ℕ
  pub ss : ℕ

-- `task_t`; the native task is owned by its task, NULL is `none`. The name and the memory handler
-- are pointers.
pub record Task : Type 0 where
  pub task_id : ℕ
  pub name : ℕ
  pub kernel : Bool
  pub priority : ℕ
  pub userdata : ℕ
  pub status : Status
  pub native_task : Option NativeTask
  pub memory_handler : ℕ

-- The static variables of the scheduler and the task services, the task structs by their address
-- (0 is NULL) and the memory handler whose page table the processor uses.
pub record Kernel : Type 0 where
  pub tasks : ℕ → Task
  pub current_task : ℕ
  pub scheduled_tasks : List ℕ
  pub task_id_mapper : IdMapper
  pub page_table : ℕ

-- The task structs after a write to the one at `t`.
abbrev pub put : ℕ → Task → (ℕ → Task) → ℕ → Task
put t v tasks u = if t == u then v else tasks u

-- GDT_SEGMENT of gdt.h
abbrev gdt_segment : ℕ → ℕ
gdt_segment index = index * 16

-- The code and data segments of native_task_create, by the permission mode.
abbrev pub code_segment : Bool → ℕ
code_segment permission_mode = if permission_mode then gdt_segment 1 + 0 else gdt_segment 3 + 3

abbrev pub data_segment : Bool → ℕ
data_segment permission_mode = if permission_mode then gdt_segment 2 + 0 else gdt_segment 4 + 3

-- X86_EFLAGS_FIXED | X86_EFLAGS_IF
abbrev initial_eflags : ℕ
initial_eflags = 2 + 512

-- What kalloc fills with zeros.
abbrev zeroed : NativeTask
zeroed = record {
  r15 = 0;
  r14 = 0;
  r13 = 0;
  r12 = 0;
  rbp = 0;
  rbx = 0;
  r11 = 0;
  r10 = 0;
  r9 = 0;
  r8 = 0;
  rax = 0;
  rcx = 0;
  rdx = 0;
  rsi = 0;
  rdi = 0;
  orig_rax = 0;
  codeptr = 0;
  cs = 0;
  eflags = 0;
  stackptr = 0;
  ss = 0;
}

-- `native_task_create`; `alloc_ok` says whether kalloc returns memory.
unfoldable pub native_task_create :
    (alloc_ok : Bool)
    → Task
    → (code stack : ℕ) (permission_mode : Bool) (userdata : ℕ) → Bool × Task
native_task_create alloc_ok task code stack permission_mode userdata =
    if alloc_ok
    then (
      true,
      record task {
        native_task = some (record zeroed {
          rbp = stack;
          stackptr = stack;
          codeptr = code;
          eflags = initial_eflags;
          cs = code_segment permission_mode;
          ss = data_segment permission_mode;
          rdi = userdata;
        });
      },
    )
    else (false, task)

-- `hal_update_current_state`: the registers saved on the stack become those of the current task,
-- but for its segments. `none` is the access through a native task that is NULL.
unfoldable pub update_current_state : NativeTask → Kernel → Option Kernel
update_current_state on_stack k =
    let t = k.current_task in
    if t == 0 then some k else elim (k.tasks t).native_task [
      | none ↦ none
      | some n ↦ some (record k {
        tasks =
            put t
              (record (k.tasks t) { native_task = some (record on_stack { cs = n.cs; ss = n.ss }) })
              k.tasks;
      })
    ]
