-- ===== src/TaskArguments/Tests.antt =====
-- The arguments "hi" and "you" of a task.
use bubackos.Prelude.{◌+◌, ◌*◌, ◌≡◌, refl, true, [], ◌∷◌, List, some, ltb, if◌then◌else◌}
use bubackos.Multiboot.{Bytes}
use bubackos.VirtualMemory.{
  Memory, Vmem, VmemRegion, new_vmem, physical_address_in, vmem_get_physical_address,
}
use bubackos.TaskArguments.{Argument}

abbrev bytes : Bytes
bytes a = if ltb a 200 then a else 0

-- The virtual memory maps the page at 1 MB to that at 8192.
abbrev mapped : Vmem
mapped = record new_vmem {
  map = record { virtual_addr = 1048576; physical_addr = 8192; region = 5 } ∷ [];
}

abbrev unused : VmemRegion
unused = record {
  vmem_region_id = 1;
  attached = [];
  name = 64;
  start = 1048576;
  size = 4096;
  allocated_size = 4096;
  user = true;
  writable = true;
  executable = true;
  pages = 8192 ∷ [];
}

abbrev memory : Memory
memory = record {
  vmems = λ v. mapped;
  regions = λ r. unused;
  pmem = record { total_of_pages = 0; total_memory = 0; pages = [] };
  answers = λ i. 65536 + 64 * i;
  vmem_id_mapper = record { next = 1; list = some [] };
  vmem_region_mapper = record { next = 1; list = some [] };
  kernel_vmem = 0;
}

abbrev arguments : List Argument
arguments = (2, 104) ∷ (3, 121) ∷ []

physical : vmem_get_physical_address memory 3 1048576 ≡ 8192
unfolding vmem_get_physical_address physical_address_in
physical = refl
