-- ===== src/Boot.antt =====
-- The boot of the kernel, `kernel_main` of core/src/init.c in src/kernel: its part that reserves
-- memory. The other calls of it belong to their components.
pub mod Reserved
mod Tests
use bubackos.Prelude.{ℕ, List, [], ◌∷◌}
use bubackos.Pmem.{Pmem, PageType, initialize, set_as_system}

-- `region_t`
pub record Region : Type 0 where
  pub addr_start : ℕ
  pub addr_end : ℕ
  pub size : ℕ

abbrev pub reserve : Pmem → Region → Pmem
reserve s r = (set_as_system s r.addr_start r.size).1

-- The loop over `reserved_segments`, a list of regions that are not NULL.
unfoldable pub reserve_segments : Pmem → List Region → Pmem
reserve_segments s [] = s
reserve_segments s (r ∷ rs) = reserve_segments (reserve s r) rs

-- From `pmem_initialize` to the marking of the kernel.
unfoldable pub boot :
    (block : List PageType) (total_memory : ℕ) (reserved_segments : List Region) (kernel : Region)
    → Pmem
boot block total_memory reserved_segments kernel =
    reserve (reserve_segments (initialize block total_memory) reserved_segments) kernel
