-- ===== src/PageTable/Writing.antt =====
-- The writes to the page tables: set_entry and native_vmem_set of hal/src/x86_64/native_pagging.c.
use bubackos.Prelude.{
  ℕ, zero, suc, ◌+◌, ◌*◌, ◌/◌, ◌%◌, ◌^◌, Bool, true, false, not, ◌&&◌, ◌||◌, ◌==◌, if◌then◌else◌,
  mem_align,
}
use bubackos.PageTable.{PageEntry, index_for_level, fill_entry_value}

-- The entries by the address of their table and their index
abbrev pub Tables : Type 0
Tables = ℕ → ℕ → PageEntry

-- The tables, and the answers of the calls of `create_entries` to come.
pub record Paging : Type 0 where
  pub tables : Tables
  pub created : ℕ → ℕ

abbrev pub set_table : Tables → (entries index : ℕ) → PageEntry → Tables
set_table tables entries index e t i = if (t == entries) && (i == index) then e else tables t i

-- `entry.addr_12_shifted << 12`, of a bit field of 48 bits, which keeps its width
abbrev pub entry_ptr : PageEntry → ℕ
entry_ptr e = (e.addr_12_shifted * 4096) % 2 ^ 48

-- The table that is made for an entry that is not present
unfoldable pub link_entries : Paging → (entries index : ℕ) → Paging
link_entries s entries index = record {
  tables =
      set_table s.tables entries index
        (fill_entry_value (s.tables entries index) (s.created 0) true true true);
  created = λ j. s.created (j + 1);
}

-- `set_entry`, for levels from 1 on
unfoldable pub set_entry :
    (level : ℕ)
    → Paging
    → (entries virtual_addr physical_address : ℕ) → (user code writable : Bool) → Paging
set_entry zero s entries v p user code writable = s
set_entry (suc zero) s entries v p user code writable =
    let index = index_for_level 1 v in
    record s {
      tables =
          set_table s.tables entries index
            (fill_entry_value (s.tables entries index) p user code writable);
    }
set_entry (suc (suc n)) s entries v p user code writable =
    let index = index_for_level (suc (suc n)) v in
    elim (s.tables entries index).present [
      | true ↦ set_entry (suc n) s (entry_ptr (s.tables entries index)) v p user code writable
      | false ↦
          set_entry (suc n) (link_entries s entries index) (s.created 0) v p user code writable
    ]

-- The loop of `native_vmem_set`, which sets the same address in each round
unfoldable pub set_loop :
    (rounds : ℕ)
    → Paging
    → (entries virtual_addr physical_addr : ℕ) → (user code writable : Bool) → Paging
set_loop zero s entries v p user code writable = s
set_loop (suc n) s entries v p user code writable =
    set_entry 4 (set_loop n s entries v p user code writable) entries v p user code writable

-- `entries` is the table of level 4, and `size` that of the mapping in bytes.
unfoldable pub native_vmem_set :
    Paging
    → (entries virtual_addr physical_addr size : ℕ) → (user code writable : Bool) → Bool × Paging
native_vmem_set s entries v p size user code writable =
    if not (v == mem_align v) || not (p == mem_align p)
    then (false, s)
    else (true, set_loop (size / 4096) s entries v p user code writable)
