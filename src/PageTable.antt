-- ===== src/PageTable.antt =====
-- The page tables of the processor, hal/src/x86_64/native_pagging.c of src/kernel: the indices, the
-- entries and the memory for tables. Addresses have 48 bits.
pub mod Index
pub mod Blocks
pub mod Writing
pub mod Levels
pub mod Links
pub mod Ranks
pub mod Walk
pub mod Frame
pub mod Pages
pub mod Processor
mod Tests
use bubackos.Prelude.{
  ℕ, ◌+◌, ◌-◌, ◌*◌, ◌/◌, ◌%◌, ◌^◌, Bool, true, false, List, [], ◌∷◌, ◌++◌, ltb, ◌==◌, if◌then◌else◌,
  align, add64, sub64,
}

-- `shifting_bits`
abbrev pub shifting_bits : ℕ → ℕ
shifting_bits level = level * 9 + 12

-- `index_for_level`, for levels from 1 on.
unfoldable pub index_for_level : (level virtual_addr : ℕ) → ℕ
index_for_level level virtual_addr =
    (virtual_addr % 2 ^ shifting_bits level) / 2 ^ shifting_bits (level - 1)

-- `page_entry_t`
pub record PageEntry : Type 0 where
  pub present : Bool
  pub writable : Bool
  pub user : Bool
  pub write_through : Bool
  pub cache_disable : Bool
  pub accessed : Bool
  pub dirty : Bool
  pub entry_or_pat : Bool
  pub addr_12_shifted : ℕ
  pub execute_disable : Bool

-- `fill_entry_value`: the three permissions are written, and then overwritten.
unfoldable pub fill_entry_value : PageEntry → (ptr : ℕ) (user code writable : Bool) → PageEntry
fill_entry_value entry ptr user code writable =
    let entry1 = record entry { present = true; addr_12_shifted = (ptr / 4096) % 2 ^ 48 } in
    let entry2 = if user then record entry1 { user = true } else entry1 in
    let entry3 = if writable then record entry2 { writable = true } else entry2 in
    let entry4 = if code then entry3 else record entry3 { execute_disable = true } in
    record entry4 { user = true; writable = true; execute_disable = false }

-- PAGE_TABLE_ENTRIES_ALIGNMENT, and the size of a table of 512 entries of 8 bytes
abbrev pub entries_alignment : ℕ
entries_alignment = 4096

abbrev pub entries_size : ℕ
entries_size = 512 * 8

-- NATIVE_PAGETABLE_MEM_BUFFER_SIZE
abbrev pub mem_buffer_size : ℕ
mem_buffer_size = 10 * 512 * 8

-- The memory for tables in `native_page_table_t`; the list of blocks is a sequence.
pub record Supply : Type 0 where
  pub allocated_memory : List ℕ
  pub mem_available_addr : ℕ
  pub mem_available_size : ℕ

-- The block that kalloc answers becomes the memory that is available, from its first aligned
-- address on. `node_ok` says whether linkedlist_append got its node; its answer is not tested.
unfoldable pub refill : (node_ok : Bool) (new_block : ℕ) → Supply → Supply
refill node_ok new_block pt =
    let aligned = align new_block entries_alignment in
    let allocated =
      if node_ok then pt.allocated_memory ++ (new_block ∷ []) else pt.allocated_memory in
    if aligned == new_block
    then record {
      allocated_memory = allocated;
      mem_available_addr = aligned;
      mem_available_size = mem_buffer_size;
    }
    else (let next = add64 aligned entries_alignment in
        record {
          allocated_memory = allocated;
          mem_available_addr = next;
          mem_available_size = sub64 mem_buffer_size (sub64 next new_block);
        })

-- `allocated_aligned_memory`
unfoldable pub allocated_aligned_memory :
    (node_ok : Bool) (new_block : ℕ) → Supply → (size : ℕ) → ℕ × Supply
allocated_aligned_memory node_ok new_block pt size =
    let pt' = if ltb pt.mem_available_size size then refill node_ok new_block pt else pt in
    (
      pt'.mem_available_addr,
      record pt' {
        mem_available_size = sub64 pt'.mem_available_size size;
        mem_available_addr = add64 pt'.mem_available_addr size;
      },
    )

-- `create_entries`
unfoldable pub create_entries : (node_ok : Bool) (new_block : ℕ) → Supply → ℕ × Supply
create_entries node_ok new_block pt = allocated_aligned_memory node_ok new_block pt entries_size
