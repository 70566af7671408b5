-- ===== src/Idt.antt =====
-- The interrupt descriptor table and the handler of interrupts, hal/src/x86_64/lib/idt.c and
-- hal/include/x86_64/idt.h of src/kernel. The acknowledgement of the timer is port I/O.
pub mod Dispatch
mod Tests
use bubackos.Prelude.{
  ℕ, ◌*◌, ◌/◌, ◌%◌, ◌^◌, ◌-◌, Bool, Option, none, some, List, [], ◌∷◌, ◌==◌, if◌then◌else◌,
}
use bubackos.Task.{NativeTask, Kernel, update_current_state}
use bubackos.Scheduler.{Processor, switch_task}
use bubackos.TaskService.{
  handle_protection_fault, handle_page_fault, handle_invalid_operation, syscall_handler_task_exit,
}
use bubackos.Syscall
use bubackos.Syscall.{handle_syscall}

-- `idt_entry`
pub record IdtEntry : Type 0 where
  pub base_0_15 : ℕ
  pub segment : ℕ
  pub ist : ℕ
  pub type : ℕ
  pub ring : ℕ
  pub present : ℕ
  pub base_16_31 : ℕ
  pub base_32_63 : ℕ

-- The entry that `idt_set_gate` writes, its bit fields cut to their widths.
unfoldable pub gate : (base type ring : ℕ) → IdtEntry
gate base type ring = record {
  base_0_15 = base % 2 ^ 16;
  base_16_31 = (base / 2 ^ 16) % 2 ^ 16;
  base_32_63 = (base / 2 ^ 32) % 2 ^ 32;
  segment = 1 * 16;
  ist = 1;
  type = type % 2 ^ 4;
  ring = ring % 2 ^ 2;
  present = 1;
}

-- How the handler ends: another task runs or the processor sleeps, or the interrupted task resumes
-- with these registers.
pub data Ending : Type 0 where
  switched : Processor → Ending
  resumed : NativeTask → Ending

abbrev pub ends : Option (Processor × Kernel) → Option (Ending × Kernel)
ends none = none
ends (some (p, k)) = some (switched p, k)

-- `scheduler_switch_task` at the end of a branch.
abbrev pub then_switch : Bool → Option Kernel → Option (Ending × Kernel)
then_switch node_ok none = none
then_switch node_ok (some k) = ends (some (switch_task node_ok k))

-- `handle_task_switch`
unfoldable pub handle_task_switch :
    (node_ok : Bool) → NativeTask → Kernel → Option (Ending × Kernel)
handle_task_switch node_ok native k =
    if k.current_task == 0
    then then_switch node_ok (some k)
    else then_switch node_ok (update_current_state native k)

-- `pre_syscall` and the return to the caller. The handler at the address `task_exit` is
-- `syscall_handler_task_exit`; any other answers a number, without an effect on the tasks.
unfoldable pub system_call :
    (vector : List ℕ) (task_exit : ℕ) (answer : ℕ → List ℕ → ℕ) (node_ok : Bool)
    → NativeTask
    → Kernel
    → Option (Ending × Kernel)
system_call vector task_exit answer node_ok native k =
    elim (handle_syscall vector native.rdi
      (native.rsi ∷ native.rdx ∷ native.r10 ∷ native.r8 ∷ native.r9 ∷ [])) [
        | none ↦ none
        | some d ↦ elim d [
          | Syscall.refused ↦ some (resumed (record native { rax = 2 ^ 64 - 1 }), k)
          | Syscall.calls handler arguments ↦
              if handler == task_exit
              then ends (syscall_handler_task_exit node_ok k)
              else some (resumed (record native { rax = answer handler arguments }), k)
        ]
      ]

-- `interrupt_handler`
unfoldable pub interrupt_handler :
    (vector : List ℕ) (task_exit : ℕ) (answer : ℕ → List ℕ → ℕ) (node_ok : Bool)
    → NativeTask
    → (interrupt : ℕ) → Kernel
    → Option (Ending × Kernel)
interrupt_handler vector task_exit answer node_ok native interrupt k =
    if interrupt == 8
    then handle_task_switch node_ok native k
    else if interrupt == 13
    then ends (handle_protection_fault node_ok k)
    else if interrupt == 14
    then ends (handle_page_fault node_ok k)
    else if interrupt == 6
    then ends (handle_invalid_operation node_ok k)
    else if interrupt == 50
    then system_call vector task_exit answer node_ok native k
    else then_switch node_ok (update_current_state native k)
