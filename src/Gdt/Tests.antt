-- ===== src/Gdt/Tests.antt =====
-- A table of ten blank entries, and the fields of a task state segment's entry.
use bubackos.Prelude.{
  ℕ, ◌+◌, ◌*◌, ◌%◌, ◌^◌, ◌≡◌, Bool, true, false, some, List, arith, replicate, length-replicate,
}
use bubackos.Task.{code_segment, data_segment}
use bubackos.Gdt.{GdtEntry, initialize, TssEntry, tss_set}
use bubackos.Gdt.Fields.{tss_set-stack}
use bubackos.Gdt.Segments.{Selects, initialize-Selects}

abbrev blank : GdtEntry
blank = record {
  limit_0_15 = 0;
  base_0_15 = 0;
  base_16_23 = 0;
  type = 0;
  ring = 0;
  present = 0;
  limit_16_19 = 0;
  available = 0;
  longmode = 0;
  op_size = 0;
  granularity = 0;
  base_24_31 = 0;
  base_32_63 = 0;
}

initialize-Selects_example :
    (gdt' : List GdtEntry) × (initialize (replicate 10 blank) 1183744 ≡ some gdt')
    × ((mode : Bool) → Selects gdt' (code_segment mode) 26 × Selects gdt' (data_segment mode) 18)
    × (code_segment true % 4 ≡ 0)
    × (code_segment false % 4 ≡ 3)
initialize-Selects_example =
    initialize-Selects (replicate 10 blank) 1183744 (length-replicate 10 blank)

abbrev zeroed : TssEntry
zeroed = record {
  reserved0 = 0;
  rsp0_0_31 = 0;
  rsp0_32_63 = 0;
  rsp1_0_31 = 0;
  rsp1_32_63 = 0;
  rsp2_0_31 = 0;
  rsp2_32_63 = 0;
  reserved1 = 0;
  ist1_0_31 = 0;
  ist1_32_63 = 0;
  ist2_0_31 = 0;
  ist2_32_63 = 0;
  ist3_0_31 = 0;
  ist3_32_63 = 0;
  ist4_0_31 = 0;
  ist4_32_63 = 0;
  ist5_0_31 = 0;
  ist5_32_63 = 0;
  ist6_0_31 = 0;
  ist6_32_63 = 0;
  ist7_0_31 = 0;
  ist7_32_63 = 0;
  reserved2 = 0;
  reserved3 = 0;
  iomap = 0;
}

abbrev stack : ℕ
stack = 18446603336221192192

tss_set-stack_example :
    ((tss_set stack zeroed).rsp0_0_31 + (tss_set stack zeroed).rsp0_32_63 * 2 ^ 32 ≡ stack)
    × ((tss_set stack zeroed).ist1_0_31 + (tss_set stack zeroed).ist1_32_63 * 2 ^ 32 ≡ stack)
tss_set-stack_example = tss_set-stack stack zeroed (omega arith)
