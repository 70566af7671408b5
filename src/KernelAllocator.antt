-- ===== src/KernelAllocator.antt =====
-- The allocator of the kernel, core/src/alloc.c of src/kernel: a pointer that moves through the
-- region of the kernel's data.
pub mod Fits
mod Tests
use bubackos.Prelude.{
  ℕ, ◌+◌, ◌*◌, Bool, true, false, Option, none, some, ◌==◌, ltb, if◌then◌else◌, add64, sub64,
  align_next, system_page_size,
}
use bubackos.Boot.{Region}
use bubackos.VirtualMemory.{Memory}
use bubackos.VirtualMemory.Regions.{
  vmem_region_create, vmem_region_map_physical_address, vmem_region_resize,
  vmem_region_current_size,
}

-- The globals of the file, the two regions of the platform that it uses, and the virtual memories.
pub record Allocator : Type 0 where
  pub memory : Memory
  pub current_mem_ptr : ℕ
  pub mem_allocator_initialised : Bool
  pub kernel_code_vmem_region : ℕ
  pub kernel_data_vmem_region : ℕ
  pub kernel : Region
  pub kernel_data : Region

-- KERNEL_MEMORY_PAGE_RESERVE
abbrev pub kernel_memory_page_reserve : ℕ
kernel_memory_page_reserve = 10 * system_page_size

-- `get_current_memory_ptr`, which sets the pointer where it is NULL
unfoldable pub get_current_memory_ptr : Allocator → ℕ × Allocator
get_current_memory_ptr s =
    if s.current_mem_ptr == 0
    then (s.kernel_data.addr_end, record s { current_mem_ptr = s.kernel_data.addr_end })
    else (s.current_mem_ptr, s)

-- `current_size` of `ensure_free_memory`
unfoldable pub current_size : Allocator → ℕ
current_size s =
    if s.kernel_data_vmem_region == 0
    then s.kernel_data.size
    else (s.memory.regions s.kernel_data_vmem_region).allocated_size

-- The growth to `new_size` in `ensure_free_memory`. The resize calls `kalloc` itself, for the nodes
-- and maps of the new pages: their addresses are the answers in `Memory`, and `nested` is how many
-- bytes they move the pointer by.
unfoldable pub expand : (nested : ℕ) → Allocator → (new_size : ℕ) → Option (Bool × Allocator)
expand nested s new_size =
    let s1 = record s {
      kernel_data = record {
        addr_start = s.kernel_data.addr_start;
        addr_end = add64 s.kernel_data.addr_start new_size;
        size = new_size;
      };
    } in
    if s.mem_allocator_initialised
    then elim (vmem_region_resize s.memory s.kernel_data_vmem_region new_size) [
      | none ↦ none
      | some (done, memory) ↦
          some
            (done, record s1 { memory = memory; current_mem_ptr = add64 s.current_mem_ptr nested })
    ]
    else some (true, s1)

-- `ensure_free_memory`, `none` where `vmem_region_resize` is.
unfoldable pub ensure_free_memory :
    (nested : ℕ) → Allocator → (size : ℕ) → Option (Bool × Allocator)
ensure_free_memory nested s size =
    let (ptr, s1) = get_current_memory_ptr s in
    let minimum_required_size =
      sub64 (add64 (add64 ptr size) kernel_memory_page_reserve) s1.kernel_data.addr_start in
    let new_size =
      align_next (add64 minimum_required_size kernel_memory_page_reserve) system_page_size in
    if ltb (current_size s1) minimum_required_size
    then expand nested s1 new_size
    else some (true, s1)

-- `kalloc`; the block is filled with zeros. It reads the pointer after the growth.
unfoldable pub kalloc : (nested : ℕ) → Allocator → (size : ℕ) → Option (ℕ × Allocator)
kalloc nested s size = elim (ensure_free_memory nested s size) [
  | none ↦ none
  | some (free, s1) ↦
      let (ptr, s2) = get_current_memory_ptr s1 in
      some (if free then (ptr, record s2 { current_mem_ptr = add64 ptr size }) else (0, s1))
]

-- The region of the kernel's data in `vmem_map_current_kernel_memory_address`
unfoldable pub map_data : (name : ℕ) → Allocator → Option (Bool × Allocator)
map_data name s =
    let new_size =
      align_next (add64 s.kernel_data.size kernel_memory_page_reserve) system_page_size in
    elim (vmem_region_create s.memory s.memory.kernel_vmem name s.kernel_data.addr_start 0 false
      true true) [
        | none ↦ none
        | some (r, k) ↦
            elim (vmem_region_map_physical_address k r s.kernel_data.addr_start new_size) [
              | none ↦ none
              | some (vaddr, k1) ↦
                  let s1 = record s { memory = k1; kernel_data_vmem_region = r } in
                  some (
                    if vaddr == 0
                    then (
                      false,
                      record s1 { kernel_data = record s.kernel_data { size = new_size } },
                    )
                    else (true, s1))
            ]
      ]

-- `vmem_map_current_kernel_memory_address`; `name` is the address of the text of the name.
unfoldable pub vmem_map_current_kernel_memory_address :
    (name : ℕ) → Allocator → Option (Bool × Allocator)
vmem_map_current_kernel_memory_address name s =
    elim (vmem_region_create s.memory s.memory.kernel_vmem name s.kernel.addr_start 0 false true
      true) [
        | none ↦ none
        | some (r, k) ↦
            elim (vmem_region_map_physical_address k r s.kernel.addr_start
              (align_next s.kernel.size system_page_size)) [
                | none ↦ none
                | some (vaddr, k1) ↦
                    let s1 = record s { memory = k1; kernel_code_vmem_region = r } in
                    if vaddr == 0 then some (false, s1) else map_data name s1
              ]
      ]

-- `memory_allocator_initialize`, before it switches to the page table of the kernel
unfoldable pub memory_allocator_initialize : (name : ℕ) → Allocator → Option (Bool × Allocator)
memory_allocator_initialize name s = elim (vmem_map_current_kernel_memory_address name s) [
  | none ↦ none
  | some (mapped, s1) ↦
      let allocated_size = vmem_region_current_size s1.memory s1.kernel_data_vmem_region in
      some (
        if mapped
        then (if ltb allocated_size s1.kernel_data.size
            then (false, s1)
            else (true, record s1 { mem_allocator_initialised = true }))
        else (false, s1))
]
