-- ===== src/KernelAllocator/Fits.antt =====
-- The blocks of `kalloc` lie one after the other, and in the pages of the kernel's data.
use bubackos.Prelude.{ℕ, ◌+◌, ◌*◌, ◌≡◌, ◌≢◌, ◌<◌, ◌≤◌, ◌⊎◌, Bool, true, length, add64, word_mod}
use bubackos.VirtualMemory.{Memory}
use bubackos.VirtualMemory.Growth.{AllSound}
use bubackos.KernelAllocator.{Allocator}

-- An allocator that is in use: the pointer stands in the data of the kernel, the region is there,
-- and its bytes are as many as the pages that it has.
pub record IsRunning (s : Allocator) : Type 0 where
  pub initialised : s.mem_allocator_initialised ≡ true
  pub sound : AllSound s.memory
  pub region : s.kernel_data_vmem_region ≢ 0
  pub pointer : (s.current_mem_ptr ≢ 0) × (s.kernel_data.addr_start ≤ s.current_mem_ptr)
  pub pages : 4096 * length (s.memory.regions s.kernel_data_vmem_region).pages < word_mod

-- The bytes of the pages of the kernel's data
abbrev pub capacity : Allocator → ℕ
capacity s = 4096 * length (s.memory.regions s.kernel_data_vmem_region).pages

-- What `ensure_free_memory` of `size` bytes leaves, with its answer.
record Ensured (nested size : ℕ) (s : Allocator) (free : Bool) (s' : Allocator) : Type 0 where
  sound : AllSound s'.memory
  pointer_moved :
      (s'.current_mem_ptr ≡ s.current_mem_ptr) ⊎ (s'.current_mem_ptr ≡ s.current_mem_ptr + nested)
  region_kept : s'.kernel_data_vmem_region ≡ s.kernel_data_vmem_region
  start_kept : s'.kernel_data.addr_start ≡ s.kernel_data.addr_start
  room : free ≡ true → s'.current_mem_ptr + size + 40960 ≤ s.kernel_data.addr_start + capacity s'

abbrev expanded : (nested : ℕ) → Allocator → (new_size : ℕ) → Memory → Allocator
expanded nested s new_size k = record s {
  memory = k;
  current_mem_ptr = add64 s.current_mem_ptr nested;
  kernel_data = record {
    addr_start = s.kernel_data.addr_start;
    addr_end = add64 s.kernel_data.addr_start new_size;
    size = new_size;
  };
}
