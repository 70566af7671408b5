-- ===== src/Lib.antt =====
-- The core of BubackOS, the kernel under src/kernel: physical memory, the list and the map of ids that
-- its services are built on, tasks, the scheduler, system calls and the reservation of memory at boot.
--
-- The parts and how they interact.
--   Prelude           Boolean tests, lists and machine words that all files share.
--   Pmem              kernel/core/src/pmem/services.c. The state is the record Pmem; initialize,
--                     allocate, set_as_system and release are the functions pmem_..., and set_page and
--                     next_page_available their helpers. Run has every sequence of their calls.
--   LinkedList        kernel/libutils/src/algorithms/linkedlist.c, every function, as a program over a
--                     heap of nodes (LinkedList/Heap) that can fault or run out of rounds. Chain says
--                     when a heap holds a list; View is the sequence that the clients see.
--   IdMapper          kernel/libutils/src/libutils/id_mapper.c, over that sequence.
--   Task              the structs of kernel/core/include/core/task/services.h and of
--                     kernel/hal/include/x86_64/native_task.h, and kernel/hal/src/x86_64/native_task.c.
--                     The record Kernel is the state that the scheduler and the task services share.
--   Scheduler         kernel/core/src/scheduler/services.c; its queue is a sequence of task addresses.
--   TaskService       kernel/core/src/task/services.c and syscalls.c, and the handlers of
--                     kernel/core/src/hw_events.c. Events has the steps of all of them.
--   Syscall           kernel/core/src/syscall/services.c and syscalls.c.
--   Idt               kernel/hal/src/x86_64/lib/idt.c and kernel/hal/include/x86_64/idt.h: the dispatch
--                     of interrupts to TaskService, Scheduler and Syscall.
--   PageTable         kernel/hal/src/x86_64/native_pagging.c: indices, entries, memory for tables;
--                     Writing has the writes, Walk what the processor reaches through them, Pages the
--                     map of pages that they stand for.
--   CString           memset, memcpy and strncmp of kernel/libc/src/string.c.
--   Logging           the filter of kernel/libutils/src/logging.c.
--   Gdt               kernel/hal/src/x86_64/lib/gdt.c and kernel/hal/include/x86_64/gdt.h.
--   Boot              the reservation of memory in kernel/core/src/init.c.
--   Multiboot         kernel/hal/src/common/multiboot2.c: the boot information, whose reserved segments
--                     and memory size Boot takes. Layout has the tags as the boot loader means them.
--   VirtualMemory     kernel/core/src/vmem/services.c, and region_services.c in Regions. The record
--                     Memory has the virtual memories and the regions by their addresses, so that a
--                     region that several virtual memories share is one structure. Pages come from
--                     Pmem, ids from IdMapper. Mirror says when maps and pages agree.
--   KernelAllocator   kernel/core/src/alloc.c: kalloc, over the region of the kernel's data.
--   Formatting        kernel/libc/src/formatting.c. Rendering has the text that a format means.
--   Loader            kernel/core/src/loader/elfparser.c and module_loader.c, over VirtualMemory and
--                     the modules that Multiboot finds.
--   TaskArguments     task_set_arguments and copy_arguments_to_task of kernel/core/src/task/services.c,
--                     over Task, VirtualMemory and the bytes of physical memory. An argument is its size
--                     and its address.
--   Translation       VirtualMemory over PageTable: the calls of native_vmem_set that a virtual memory
--                     made, carried out. Dump has parse_intel_memory of native_pagging.c, with the
--                     ranges that it logs, and Mapping a walk with large pages to compare it with.
--   Console           modules/console/console.c, the terminal of a user module. Reference has the
--                     terminal of single characters that it is compared with.
--
-- Numbers. Sizes, addresses and ids are natural numbers; where the source adds or subtracts in 64 bits,
-- add64 and sub64 wrap. NULL is the number 0, or none where a pointer is owned.
--
-- Allocation. What kalloc and MEM_ALLOC answer is an argument of the function that calls them: an
-- address, or whether memory was there. In VirtualMemory and Loader the answers to come are a sequence
-- in the state, and a call of kalloc in them grows no region of the kernel. KernelAllocator has kalloc
-- itself; the bytes that the calls of kalloc within its growth take are an argument of it. kfree of kernel/core/src/alloc.c frees nothing, so a struct stays where it was, and
-- kalloc fills a new one with zeros.
--
-- Rounds. The loops over a list take as many rounds as its size field counts, plus one, and report
-- `spent` when they run out; the theorems about lists conclude that they do not. The loops of Pmem count
-- their rounds from the numbers that bound them in the source. The loops of VirtualMemory take a round
-- for each page of the space that they are given and one for the last test; those of Multiboot take the
-- rounds as an argument. All are none where the rounds do not suffice, and the theorems conclude that
-- they do.
--
-- Not modelled. The log calls of the other parts; loading the page tables, and native_vmem_create; the
-- assembly and port I/O of kernel/hal; the unit tests with their vendored framework; modules/hello, a
-- demonstration program; a growth of the kernel's data in the midst of an operation on a region; a
-- structure that goes on with a list that is NULL, where the result is none; the rest of libc. task_run
-- takes the region that vmem_region_create returns as an argument.
pub mod Prelude
pub mod Pmem
pub mod LinkedList
pub mod IdMapper
pub mod Task
pub mod Scheduler
pub mod TaskService
pub mod Syscall
pub mod Boot
pub mod Idt
pub mod PageTable
pub mod Gdt
pub mod CString
pub mod Logging
pub mod VirtualMemory
pub mod Multiboot
pub mod Loader
pub mod KernelAllocator
pub mod Formatting
pub mod TaskArguments
pub mod Translation
pub mod Console
