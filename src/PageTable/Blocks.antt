-- ===== src/PageTable/Blocks.antt =====
-- The memory that tables are made of.
use bubackos.Prelude.{
  ℕ, ◌+◌, ◌%◌, ◌≤◌, ◌<◌, ◌≡◌, refl, Bool, true, false, arith, ltb, ◌==◌, align, add64, sub64,
  word_mod, Bool-cases, inl, inr,
}
use bubackos.PageTable.{
  Supply, entries_alignment, entries_size, mem_buffer_size, refill, allocated_aligned_memory,
  create_entries,
}

-- The memory that is available begins at an aligned address and lies in the address space.
pub record IsStocked (pt : Supply) : Type 0 where
  pub aligned : pt.mem_available_addr % entries_alignment ≡ 0
  pub bounded : pt.mem_available_addr + pt.mem_available_size < word_mod

-- What is left after a refill: the part of the block from its first aligned address on.
pub record Refilled (new_block : ℕ) (pt : Supply) : Type 0 where
  pub stocked : IsStocked pt
  pub first : new_block ≤ pt.mem_available_addr
  pub last : pt.mem_available_addr + pt.mem_available_size ≡ new_block + mem_buffer_size
  pub room : entries_size ≤ pt.mem_available_size

refill-Refilled :
    (node_ok : Bool) (new_block : ℕ) (pt : Supply)
    → new_block + mem_buffer_size < word_mod
    → Refilled new_block (refill node_ok new_block pt)
unfolding refill
refill-Refilled node_ok new_block pt fits =
    elim (Bool-cases (align new_block entries_alignment == new_block)) [
      | inl e ↦ rw e (record {
        stocked = record { aligned = ground arith; bounded = ground arith };
        first = ground arith;
        last = ground arith;
        room = omega arith;
      })
      | inr e ↦ rw e (record {
        stocked = record { aligned = ground arith; bounded = ground arith };
        first = ground arith;
        last = ground arith;
        room = ground arith;
      })
    ]

-- A table taken from a supply: it is aligned, and what is left begins right behind it.
pub record Taken (pt : Supply) (r : ℕ × Supply) : Type 0 where
  pub at : r.0 ≡ pt.mem_available_addr
  pub next : r.1.mem_available_addr ≡ r.0 + entries_size
  pub same_end :
      r.1.mem_available_addr + r.1.mem_available_size
      ≡ pt.mem_available_addr + pt.mem_available_size
  pub stocked : IsStocked r.1

take : Supply → ℕ × Supply
take pt = (
  pt.mem_available_addr,
  record pt {
    mem_available_size = sub64 pt.mem_available_size entries_size;
    mem_available_addr = add64 pt.mem_available_addr entries_size;
  },
)

take-Taken :
    (pt : Supply) → IsStocked pt → entries_size ≤ pt.mem_available_size → Taken pt (take pt)
unfolding take
take-Taken pt s room = record {
  at = refl;
  next = ground (arith, s.bounded);
  same_end = ground (arith, s.bounded);
  stocked = record {
    aligned = ground (arith, s.bounded, s.aligned);
    bounded = ground (arith, s.bounded);
  };
}

-- `create_entries` from aligned memory in the address space, with a block of kalloc that lies in
-- the address space: the table begins at an aligned address; if a table fitted into the memory
-- that was left, it is the first part of that memory, and otherwise of the new block; the memory
-- that is left afterwards begins behind the table, ends where it ended, and is aligned again.
pub create_entries-Taken :
    (node_ok : Bool) (new_block : ℕ) (pt : Supply)
    → IsStocked pt
    → new_block + mem_buffer_size < word_mod
    → ((create_entries node_ok new_block pt).0 % entries_alignment ≡ 0)
      × (entries_size ≤ pt.mem_available_size → Taken pt (create_entries node_ok new_block pt))
      × (pt.mem_available_size < entries_size
          → (s : Supply) × Refilled new_block s × Taken s (create_entries node_ok new_block pt))
create_entries-Taken node_ok new_block pt st fits =
    elim (Bool-cases (ltb pt.mem_available_size entries_size)) [
      | inl short ↦
          let f = refill-Refilled node_ok new_block pt fits in
          let t = take-Taken (refill node_ok new_block pt) f.stocked f.room in
          rw (create_entries-short short) (
            ground (arith, t.at, f.stocked.aligned),
            λ enough. absurd (ground arith),
            λ _. (refill node_ok new_block pt, f, t),
          )
      | inr enough ↦
          let t = take-Taken pt st (ground arith) in
          rw (create_entries-enough enough)
            (ground (arith, t.at, st.aligned), λ _. t, λ short. absurd (ground arith))
    ]
  where
    create_entries-short :
        ltb pt.mem_available_size entries_size ≡ true
        → create_entries node_ok new_block pt ≡ take (refill node_ok new_block pt)
    create_entries-short short =
        unfold create_entries allocated_aligned_memory take in rw short refl

    create_entries-enough :
        ltb pt.mem_available_size entries_size ≡ false
        → create_entries node_ok new_block pt ≡ take pt
    create_entries-enough enough =
        unfold create_entries allocated_aligned_memory take in rw enough refl
