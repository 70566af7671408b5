-- ===== src/Gdt/Fields.antt =====
-- What the processor reads from the fields of the entries.
use bubackos.Prelude.{ℕ, ◌+◌, ◌*◌, ◌/◌, ◌^◌, ◌<◌, ◌≡◌, arith, word_mod}
use bubackos.Gdt.{GdtEntry, new_entry, TssEntry, tss_set}

-- The base and the limit that the processor puts together from an entry.
abbrev pub base_of : GdtEntry → ℕ
base_of e = e.base_0_15 + e.base_16_23 * 2 ^ 16 + e.base_24_31 * 2 ^ 24 + e.base_32_63 * 2 ^ 32

abbrev pub limit_of : GdtEntry → ℕ
limit_of e = e.limit_0_15 + e.limit_16_19 * 2 ^ 16

-- For a base of 64 bits, a limit of 32, a type of five and a ring of two, the entry of
-- `gdt_set_gate` has this base, type and ring, and the limit in units of 4096 bytes.
new_entry-fields :
    (base limit type ring : ℕ)
    → base < word_mod
    → limit < 2 ^ 32
    → type < 32
    → ring < 4
    → (base_of (new_entry base limit type ring) ≡ base)
      × (limit_of (new_entry base limit type ring) ≡ limit / 4096)
      × ((new_entry base limit type ring).type ≡ type)
      × ((new_entry base limit type ring).ring ≡ ring)
unfolding new_entry
new_entry-fields base limit type ring b l t r =
    (omega (arith, b), omega (arith, l), omega (arith, t), omega (arith, r))

-- Both stack pointers that `tss_set` stores in halves are the kernel's stack, for an address of 64
-- bits: the one for an entry from user mode and the one that interrupts use.
pub tss_set-stack :
    (stack : ℕ) (tss : TssEntry)
    → stack < word_mod
    → ((tss_set stack tss).rsp0_0_31 + (tss_set stack tss).rsp0_32_63 * 2 ^ 32 ≡ stack)
      × ((tss_set stack tss).ist1_0_31 + (tss_set stack tss).ist1_32_63 * 2 ^ 32 ≡ stack)
unfolding tss_set
tss_set-stack stack tss small = (omega (arith, small), omega (arith, small))
