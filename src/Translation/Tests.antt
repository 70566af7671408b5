-- ===== src/Translation/Tests.antt =====
-- A virtual memory of two pages.
use bubackos.Prelude.{
  ℕ, ◌+◌, ◌*◌, ◌%◌, ◌≡◌, ◌&&◌, refl, Bool, true, false, some, [], ◌∷◌, ◌==◌, ==_ne, if◌then◌else◌,
  arith,
}
use bubackos.VirtualMemory.{
  Memory, Vmem, VmemRegion, PageMapEntry, new_vmem, vmem_get_physical_address, vmem_attach,
}
use bubackos.PageTable.{PageEntry}
use bubackos.PageTable.Writing.{Tables, Paging}
use bubackos.PageTable.Levels.{IsRanked}
use bubackos.PageTable.Processor.{translate, IsPlain}
use bubackos.Translation.{set_pages}
use bubackos.Translation.Dump.{parse_intel_memory}
use bubackos.Translation.Ranges.{Query}
use bubackos.Translation.Operations.{AllInStep}
use bubackos.Translation.Reach.{here, next, attached, Reach-AllInStep}
use bubackos.Translation.Agreement.{answer, get_physical_address-translate}

abbrev mapped : (vaddr paddr : ℕ) → PageMapEntry
mapped vaddr paddr = record {
  virtual_addr = vaddr;
  physical_addr = paddr;
  size = 4096;
  permission = 7;
  present = true;
}

abbrev two_pages : Vmem
two_pages = record new_vmem {
  map =
      record { virtual_addr = 1048576; physical_addr = 20480; region = 5 }
      ∷ record { virtual_addr = 1052672; physical_addr = 16384; region = 5 }
      ∷ [];
  native_vmem = mapped 1048576 20480 ∷ mapped 1052672 16384 ∷ [];
}

abbrev region : VmemRegion
region = record {
  vmem_region_id = 1;
  attached = 3 ∷ [];
  name = 64;
  start = 1048576;
  size = 8192;
  allocated_size = 8192;
  user = false;
  writable = true;
  executable = true;
  pages = 20480 ∷ 16384 ∷ [];
}

abbrev memory : Memory
memory = record {
  vmems = λ v. two_pages;
  regions = λ r. region;
  pmem = record { total_of_pages = 0; total_memory = 0; pages = [] };
  answers = λ i. 65536 + 64 * i;
  vmem_id_mapper = record { next = 1; list = some [] };
  vmem_region_mapper = record { next = 1; list = some [] };
  kernel_vmem = 0;
}

abbrev no_page : PageEntry
no_page = record {
  present = false;
  writable = false;
  user = false;
  write_through = false;
  cache_disable = false;
  accessed = false;
  dirty = false;
  entry_or_pat = false;
  addr_12_shifted = 0;
  execute_disable = false;
}

abbrev one_table : Paging
one_table = record { tables = λ t i. no_page; created = λ j. 8192 + 4096 * j }

abbrev top : ℕ → ℕ
top t = if t == 4096 then 4 else 0

one_table-IsRanked : IsRanked top 6 one_table
one_table-IsRanked = record {
  linked = λ t i n e p. cc;
  separate = λ t i u j n m e e' p. cc;
  unranked = λ j. rw (==_ne (8192 + 4096 * j) 4096 (λ z. omega (arith, z))) refl;
  different = λ j k n z. n (omega (arith, z));
  blank = λ j i. refl;
  placed = λ j l. (omega (arith, l), omega arith);
}

Reach-AllInStep_example : AllInStep (vmem_attach memory 3 5).1
Reach-AllInStep_example =
    Reach-AllInStep (next here (attached memory 3 5))
      (record { each = λ u. (refl, refl, refl, (refl, refl, refl, tt)) })

one_table-IsPlain : IsPlain 6 one_table
one_table-IsPlain = record { plain = λ t i. (refl, omega arith); low = λ j l. omega (arith, l) }

get_physical_address-translate_example :
    vmem_get_physical_address memory 3 1052700
    ≡ answer
        (translate 4 (set_pages one_table 4096 two_pages.native_vmem).tables 4096 1052700)
        (1052700 % 4096)
get_physical_address-translate_example =
    get_physical_address-translate memory 3 6 top one_table 4096 1052700
      (refl, refl, refl, (refl, refl, refl, tt)) (omega arith) (omega arith) one_table-IsRanked
      one_table-IsPlain (omega arith) refl (λ i. refl) (omega arith)

-- A table of each level, with two pages that lie together and one of 2 MB
abbrev linked : (addr : ℕ) (large : Bool) → PageEntry
linked addr large = record no_page {
  present = true;
  writable = true;
  addr_12_shifted = addr;
  entry_or_pat = large;
}

abbrev small_tables : Tables
small_tables t i =
    if (t == 4096) && (i == 0)
    then linked 2 false
    else if (t == 8192) && (i == 0)
    then linked 3 false
    else if (t == 12288) && (i == 0)
    then linked 4 false
    else if (t == 12288) && (i == 1)
    then linked 512 true
    else if (t == 16384) && (i == 5)
    then linked 16 false
    else if (t == 16384) && (i == 6)
    then linked 17 false
    else no_page

abbrev query : Query
query = record { virtual = 24580; physical = 69636; kernel_mode = true; write = true; exec = true }

parse_intel_memory_test :
    parse_intel_memory small_tables 4096
    ≡ record {
      virtual_addr = 20480;
      physical_addr = 65536;
      size = 8192;
      permission = 14;
      present = true;
    }
      ∷ record {
        virtual_addr = 2097152;
        physical_addr = 2097152;
        size = 2097152;
        permission = 14;
        present = true;
      }
      ∷ []
unfolding parse_intel_memory bubackos.Translation.Dump.parse_entries
    bubackos.Translation.Dump.entries_loop bubackos.Translation.Dump.accumulate_entries
    bubackos.Translation.Dump.permission_after
parse_intel_memory_test = refl
