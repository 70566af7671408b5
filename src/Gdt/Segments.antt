-- ===== src/Gdt/Segments.antt =====
-- The segments of the table, and those that tasks are given.
use bubackos.Prelude.{
  ℕ, ◌*◌, ◌/◌, ◌%◌, ◌≡◌, refl, Bool, true, false, some, List, [], ◌∷◌, get_elem?, length, arith,
}
use bubackos.Task.{code_segment, data_segment}
use bubackos.Gdt.Fields.{base_of}
use bubackos.Gdt.{GdtEntry, new_entry, set_gate, initialize, maximum_size, maximum_memory, tss_size}

-- What the processor takes from a segment selector: bit 2 is clear, so that it is for this table, and
-- its bits from 3 on count 8 bytes up to the start of an entry of 16 bytes, which is a present
-- segment of this type with base 0 and the ring that the lowest two bits ask for.
abbrev pub Selects : List GdtEntry → (selector type : ℕ) → Type 0
Selects gdt selector type =
    (index : ℕ) × (e : GdtEntry) × (selector / 4 % 2 ≡ 0)
    × (selector / 8 * 8 ≡ index * 16)
    × (get_elem? gdt index ≡ some e)
    × (e.type ≡ type)
    × (e.ring ≡ selector % 4)
    × (e.present ≡ 1)
    × (base_of e ≡ 0)

-- `gdt_initialize` on a table of ten entries succeeds; then the selectors of the code and of the data
-- segment that `native_task_create` gives to a task are, in either mode, for this table, and point
-- to the start of an entry of it that is a present segment of that kind with base 0, whose ring is
-- that of the selector: 0 in kernel mode and 3 in user mode.
pub initialize-Selects :
    (gdt : List GdtEntry) (tss_entry : ℕ)
    → length gdt ≡ maximum_size
    → (gdt' : List GdtEntry) × (initialize gdt tss_entry ≡ some gdt')
      × ((mode : Bool) → Selects gdt' (code_segment mode) 26 × Selects gdt' (data_segment mode) 18)
      × (code_segment true % 4 ≡ 0)
      × (code_segment false % 4 ≡ 3)
unfolding initialize set_gate new_entry
initialize-Selects [] tss_entry l = absurd (omega (arith, l))
initialize-Selects (a ∷ []) tss_entry l = absurd (omega (arith, l))
initialize-Selects (a ∷ b ∷ []) tss_entry l = absurd (omega (arith, l))
initialize-Selects (a ∷ b ∷ c ∷ []) tss_entry l = absurd (omega (arith, l))
initialize-Selects (a ∷ b ∷ c ∷ d ∷ []) tss_entry l = absurd (omega (arith, l))
initialize-Selects (a ∷ b ∷ c ∷ d ∷ e ∷ []) tss_entry l = absurd (omega (arith, l))
initialize-Selects (a ∷ b ∷ c ∷ d ∷ e ∷ f ∷ gdt) tss_entry l = (filled, refl, segments, refl, refl)
  where
    filled : List GdtEntry
    filled =
        a
        ∷ new_entry 0 maximum_memory 26 0
        ∷ new_entry 0 maximum_memory 18 0
        ∷ new_entry 0 maximum_memory 26 3
        ∷ new_entry 0 maximum_memory 18 3
        ∷ new_entry tss_entry tss_size 9 0
        ∷ gdt

    segments :
        (mode : Bool)
        → Selects filled (code_segment mode) 26 × Selects filled (data_segment mode) 18
    segments true = (
      (1, _, refl, refl, refl, refl, refl, refl, refl),
      (2, _, refl, refl, refl, refl, refl, refl, refl),
    )
    segments false = (
      (3, _, refl, refl, refl, refl, refl, refl, refl),
      (4, _, refl, refl, refl, refl, refl, refl, refl),
    )
