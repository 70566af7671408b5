-- ===== src/PageTable/Tests.antt =====
-- An address in the middle of the address space, and a supply that needs a block.
use bubackos.Prelude.{
  ℕ, ◌+◌, ◌*◌, ◌/◌, ◌%◌, ◌≤◌, ◌<◌, ◌≡◌, refl, some, true, false, ◌==◌, ==_ne, if◌then◌else◌, [],
  ◌∷◌, arith,
}
use bubackos.PageTable.{PageEntry, Supply, entries_alignment, entries_size, create_entries}
use bubackos.PageTable.Writing.{Paging, native_vmem_set}
use bubackos.PageTable.Levels.{IsRanked}
use bubackos.PageTable.Processor.{translate, IsPlain, native_vmem_set-translate}
use bubackos.PageTable.Blocks.{Refilled, Taken, create_entries-Taken}

abbrev address : ℕ
address = 70368744181765

abbrev short : Supply
short = record { allocated_memory = 40961 ∷ []; mem_available_addr = 81920; mem_available_size = 1 }

create_entries-Taken_example :
    ((create_entries true 102401 short).0 % entries_alignment ≡ 0)
    × (entries_size ≤ short.mem_available_size → Taken short (create_entries true 102401 short))
    × (short.mem_available_size < entries_size
        → (s : Supply) × Refilled 102401 s × Taken s (create_entries true 102401 short))
create_entries-Taken_example =
    create_entries-Taken true 102401 short (record { aligned = refl; bounded = omega arith })
      (omega arith)

abbrev blank : PageEntry
blank = record {
  present = false;
  writable = false;
  user = false;
  write_through = false;
  cache_disable = false;
  accessed = false;
  dirty = false;
  entry_or_pat = false;
  addr_12_shifted = 0;
  execute_disable = false;
}

-- One table of level 4 at 4096, and the tables to come after it
abbrev no_page : PageEntry
no_page = record {
  present = false;
  writable = false;
  user = false;
  write_through = false;
  cache_disable = false;
  accessed = false;
  dirty = false;
  entry_or_pat = false;
  addr_12_shifted = 0;
  execute_disable = false;
}

abbrev one_table : Paging
one_table = record { tables = λ t i. no_page; created = λ j. 8192 + 4096 * j }

abbrev top : ℕ → ℕ
top t = if t == 4096 then 4 else 0

one_table-IsRanked : IsRanked top 3 one_table
one_table-IsRanked = record {
  linked = λ t i n e p. cc;
  separate = λ t i u j n m e e' p. cc;
  unranked = λ j. rw (==_ne (8192 + 4096 * j) 4096 (λ z. omega (arith, z))) refl;
  different = λ j k n z. n (omega (arith, z));
  blank = λ j i. refl;
  placed = λ j l. (omega (arith, l), omega arith);
}

one_table-IsPlain : IsPlain 3 one_table
one_table-IsPlain = record { plain = λ t i. (refl, omega arith); low = λ j l. omega (arith, l) }

native_vmem_set-translate_example :
    translate 4
      (native_vmem_set one_table 4096 70368744181760 20480 4096 true false true).1.tables
      4096
      70368744185856
    ≡ (if 70368744185856 / 4096 == 70368744181760 / 4096
        then some 20480
        else translate 4 one_table.tables 4096 70368744185856)
native_vmem_set-translate_example =
    native_vmem_set-translate 3 top one_table 4096 70368744181760 70368744185856 20480 4096 true
      false true one_table-IsRanked one_table-IsPlain (omega arith) (omega arith) refl refl
      (omega arith) (omega arith) refl (omega arith)
