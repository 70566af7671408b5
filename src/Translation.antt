-- ===== src/Translation.antt =====
-- The virtual memories of core/src/vmem/services.c over the page tables of
-- hal/src/x86_64/native_pagging.c, both of src/kernel: the calls of native_vmem_set that a virtual
-- memory made, carried out.
pub mod Steps
pub mod Agreement
pub mod Operations
pub mod Reach
pub mod Dump
pub mod Ranges
pub mod Gather
pub mod Spans
pub mod Leaves
pub mod Room
pub mod Follows
pub mod Mapping
mod Tests
use bubackos.Prelude.{ℕ, ◌/◌, ◌%◌, ◌^◌, Bool, not, List, [], ◌∷◌, ◌==◌}
use bubackos.VirtualMemory.{PageMapEntry}
use bubackos.PageTable.Writing.{Paging, native_vmem_set}

-- READ_BIT
abbrev pub read_bit : (x y : ℕ) → Bool
read_bit x y = (x / 2 ^ y) % 2 == 1

-- PERM_IS_WRITE, PERM_IS_EXEC and PERM_IS_KERNEL_MODE
abbrev pub is_write : ℕ → Bool
is_write p = read_bit p 1

abbrev pub is_exec : ℕ → Bool
is_exec p = read_bit p 2

abbrev pub is_kernel_mode : ℕ → Bool
is_kernel_mode p = read_bit p 3

-- The arguments of `native_vmem_set` as an entry has them
unfoldable pub set_page : Paging → (entries : ℕ) → PageMapEntry → Paging
set_page s entries e =
    (native_vmem_set s entries e.virtual_addr e.physical_addr e.size
      (not (is_kernel_mode e.permission)) (is_exec e.permission) (is_write e.permission)).1

-- The calls in their order
unfoldable pub set_pages : Paging → (entries : ℕ) → List PageMapEntry → Paging
set_pages s entries [] = s
set_pages s entries (e ∷ es) = set_pages (set_page s entries e) entries es
