-- ===== src/KernelAllocator/Tests.antt =====
-- A block of 64 bytes of an allocator whose data has 40 pages.
use bubackos.Prelude.{ℕ, ◌+◌, ◌*◌, some, true, List, [], replicate}
use bubackos.VirtualMemory.{Memory, VmemRegion, new_vmem}
use bubackos.KernelAllocator.{Allocator}

abbrev pages : List ℕ
pages = replicate 40 2097152

abbrev data_region : VmemRegion
data_region = record {
  vmem_region_id = 2;
  attached = [];
  name = 64;
  start = 2097152;
  size = 163840;
  allocated_size = 163840;
  user = true;
  writable = true;
  executable = true;
  pages = pages;
}

abbrev memory : Memory
memory = record {
  vmems = λ v. new_vmem;
  regions = λ r. data_region;
  pmem = record { total_of_pages = 0; total_memory = 0; pages = [] };
  answers = λ i. 65536 + 64 * i;
  vmem_id_mapper = record { next = 1; list = some [] };
  vmem_region_mapper = record { next = 1; list = some [] };
  kernel_vmem = 3;
}

abbrev running : Allocator
running = record {
  memory = memory;
  current_mem_ptr = 2101248;
  mem_allocator_initialised = true;
  kernel_code_vmem_region = 4;
  kernel_data_vmem_region = 5;
  kernel = record { addr_start = 1048576; addr_end = 1310720; size = 262144 };
  kernel_data = record { addr_start = 2097152; addr_end = 2260992; size = 163840 };
}
