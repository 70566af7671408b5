-- ===== src/Idt/Tests.antt =====
-- A system call of a kernel without tasks, whose mapper has its list.
use bubackos.Prelude.{refl, true, some, []}
use bubackos.Task.{NativeTask, Kernel}
use bubackos.TaskService.{new_task}
use bubackos.TaskService.Events.{IsSound}
use bubackos.Syscall.{syscall_vector}
use bubackos.Syscall.Table.{length-syscall_vector}
use bubackos.Idt.{interrupt_handler}
use bubackos.Idt.Dispatch.{EndsSound, interrupt_handler-EndsSound}

abbrev registers : NativeTask
registers = record {
  r15 = 0;
  r14 = 0;
  r13 = 0;
  r12 = 0;
  rbp = 0;
  rbx = 0;
  r11 = 0;
  r10 = 0;
  r9 = 0;
  r8 = 0;
  rax = 0;
  rcx = 0;
  rdx = 0;
  rsi = 4096;
  rdi = 2;
  orig_rax = 0;
  codeptr = 4194304;
  cs = 51;
  eflags = 514;
  stackptr = 8388608;
  ss = 67;
}

abbrev idle : Kernel
idle = record {
  tasks = λ t. new_task 0 0;
  current_task = 0;
  scheduled_tasks = [];
  task_id_mapper = record { next = 1; list = some [] };
  page_table = 0;
}

idle-IsSound : IsSound idle
idle-IsSound = (record { queued = tt; distinct = tt; running = λ ne. absurd (ne refl) }, ([], refl))

interrupt_handler-EndsSound_example :
    EndsSound (interrupt_handler syscall_vector 4096 (λ _ _. 0) true registers 50 idle)
interrupt_handler-EndsSound_example =
    interrupt_handler-EndsSound syscall_vector 4096 (λ _ _. 0) true registers 50 idle
      length-syscall_vector idle-IsSound
