-- ===== src/Translation/Dump.antt =====
-- The dump of the page tables in hal/src/x86_64/native_pagging.c of src/kernel: the ranges that
-- parse_intel_memory logs.
use bubackos.Prelude.{
  ℕ, zero, suc, ◌+◌, ◌-◌, ◌*◌, ◌%◌, ◌^◌, Bool, true, false, not, ◌&&◌, ◌||◌, ◌==◌, if◌then◌else◌,
  List, [], ◌∷◌, ◌++◌, add64, word_mod,
}
use bubackos.VirtualMemory.{PageMapEntry}
use bubackos.PageTable.{PageEntry, shifting_bits}
use bubackos.PageTable.Writing.{Tables, entry_ptr}
use bubackos.Translation.{read_bit, is_write, is_exec, is_kernel_mode}

-- SET_BIT or CLEAR_BIT, as `v` says
abbrev pub put_bit : (x y : ℕ) → Bool → ℕ
put_bit x y v = (x - (if read_bit x y then 2 ^ y else 0)) + (if v then 2 ^ y else 0)

-- The range that is gathered, and those that were logged
pub record Dump : Type 0 where
  pub acc : PageMapEntry
  pub logged : List PageMapEntry

-- `==` on flags
abbrev pub same : Bool → Bool → Bool
same true b = b
same false b = not b

abbrev pub merges : PageMapEntry → PageEntry → (vaddr : ℕ) → Bool
merges acc entry vaddr =
    acc.present
    && (add64 acc.physical_addr acc.size == entry_ptr entry)
    && (add64 acc.virtual_addr acc.size == vaddr)
    && same (is_exec acc.permission) (not entry.execute_disable)
    && same (is_write acc.permission) entry.writable
    && same (is_kernel_mode acc.permission) (not entry.user)

abbrev pub entry_size : (level : ℕ) → ℕ
entry_size level = 2 ^ shifting_bits (level - 1)

-- The log of the last range that was gathered
abbrev pub flushed : Dump → List PageMapEntry
flushed d = if d.acc.present then d.logged ++ (d.acc ∷ []) else d.logged

-- The permission of the new range
unfoldable pub permission_after : (permission : ℕ) → PageEntry → ℕ
permission_after permission entry =
    put_bit (put_bit (put_bit permission 3 (not entry.user)) 1 entry.writable) 2
      (not entry.execute_disable)

-- `accumulate_entries`
unfoldable pub accumulate_entries : (level : ℕ) → Dump → PageEntry → (vaddr : ℕ) → Dump
accumulate_entries level d entry vaddr =
    if merges d.acc entry vaddr
    then record d { acc = record (d.acc) { size = add64 d.acc.size (entry_size level) } }
    else record {
      acc = record {
        virtual_addr = vaddr;
        physical_addr = entry_ptr entry;
        size = entry_size level;
        permission = permission_after d.acc.permission entry;
        present = true;
      };
      logged = flushed d;
    }

-- The loop of `parse_entries` at a level, over `rounds` entries from `index` on; `below` is its call
-- of itself.
unfoldable pub entries_loop :
    (level : ℕ) (below : ℕ → Dump → ℕ → Dump)
    → Tables
    → (entries rounds index : ℕ) → Dump
    → (base : ℕ) → Dump
entries_loop level below tables entries zero index d base = d
entries_loop level below tables entries (suc n) index d base =
    let e = tables entries index in
    let next =
      if e.present
      then (if (level == 1) || e.entry_or_pat
          then accumulate_entries level d e ((base * 4096) % word_mod)
          else below (entry_ptr e) d base)
      else d in
    entries_loop level below tables entries n (suc index) next (add64 base (2 ^ ((level - 1) * 9)))

-- `parse_entries`, for levels from 1 on
unfoldable pub parse_entries : (level : ℕ) → Tables → (entries : ℕ) → Dump → (base : ℕ) → Dump
parse_entries zero tables entries d base = d
parse_entries (suc n) tables entries d base =
    entries_loop (suc n) (parse_entries n tables) tables entries 512 0 d base

abbrev pub empty : Dump
empty = record {
  acc = record { virtual_addr = 0; physical_addr = 0; size = 0; permission = 0; present = false };
  logged = [];
}

-- `parse_intel_memory`: the ranges in the order of their log
unfoldable pub parse_intel_memory : Tables → (entries : ℕ) → List PageMapEntry
parse_intel_memory tables entries = flushed (parse_entries 4 tables entries empty 0)
