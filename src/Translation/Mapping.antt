-- ===== src/Translation/Mapping.antt =====
-- The dump of the page tables against the processor's walk.
use bubackos.Prelude.{ℕ, zero, suc, ◌+◌, ◌%◌, Bool, false, not, ◌&&◌, ◌||◌, ◌==◌, if◌then◌else◌}
use bubackos.PageTable.Writing.{Tables}
use bubackos.Translation.Dump.{entry_size}
use bubackos.PageTable.{index_for_level}
use bubackos.PageTable.Processor.{frame}
use bubackos.Translation.Ranges.{Query, allows}

-- The processor's walk from a table of a level, with large pages: whether it reaches the physical
-- address, by an entry with the permissions. At level 4 the bit of a large page is reserved.
unfoldable pub reaches : (level : ℕ) → Tables → (entries : ℕ) → Query → Bool
reaches zero tables entries q = false
reaches (suc n) tables entries q =
    let e = tables entries (index_for_level (suc n) q.virtual) in
    if e.present
    then (if (suc n == 1) || e.entry_or_pat
        then not (suc n == 4)
          && ((q.physical == frame e + q.virtual % entry_size (suc n))
              && allows (not e.user) e.writable (not e.execute_disable) q)
        else reaches n tables (frame e) q)
    else false
