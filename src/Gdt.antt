-- ===== src/Gdt.antt =====
-- The global descriptor table, hal/src/x86_64/lib/gdt.c and hal/include/x86_64/gdt.h of src/kernel.
-- Loading the table and the task register is assembly.
pub mod Fields
pub mod Segments
mod Tests
use bubackos.Prelude.{
  ℕ, ◌+◌, ◌*◌, ◌/◌, ◌%◌, ◌^◌, Option, none, some, List, ltb, if◌then◌else◌, set, replicate,
}

-- `gdt_entry_t`
pub record GdtEntry : Type 0 where
  pub limit_0_15 : ℕ
  pub base_0_15 : ℕ
  pub base_16_23 : ℕ
  pub type : ℕ
  pub ring : ℕ
  pub present : ℕ
  pub limit_16_19 : ℕ
  pub available : ℕ
  pub longmode : ℕ
  pub op_size : ℕ
  pub granularity : ℕ
  pub base_24_31 : ℕ
  pub base_32_63 : ℕ

-- GDT_MAXIMUM_SIZE and GDT_MAXIMUM_MEMORY
abbrev pub maximum_size : ℕ
maximum_size = 10

abbrev pub maximum_memory : ℕ
maximum_memory = 4294967295

-- The entry that `gdt_set_gate` builds, its bit fields cut to their widths.
unfoldable pub new_entry : (base limit type ring : ℕ) → GdtEntry
new_entry base limit type ring =
    let pages = limit / 4096 in
    record {
      base_0_15 = base % 2 ^ 16;
      base_16_23 = (base / 2 ^ 16) % 2 ^ 8;
      base_24_31 = (base / 2 ^ 24) % 2 ^ 8;
      base_32_63 = (base / 2 ^ 32) % 2 ^ 32;
      limit_0_15 = pages % 2 ^ 16;
      limit_16_19 = (pages / 2 ^ 16) % 2 ^ 4;
      available = 1;
      longmode = 1;
      op_size = 0;
      granularity = 1;
      type = type % 2 ^ 5;
      ring = ring % 2 ^ 2;
      present = 1;
    }

-- `gdt_set_gate`, for the table; `none` is a write past it.
unfoldable pub set_gate : List GdtEntry → (num base limit type ring : ℕ) → Option (List GdtEntry)
set_gate gdt num base limit type ring =
    if ltb num maximum_size then some (set gdt num (new_entry base limit type ring)) else none

abbrev pub and_then :
    Option (List GdtEntry) → (List GdtEntry → Option (List GdtEntry)) → Option (List GdtEntry)
and_then none f = none
and_then (some gdt) f = f gdt

-- sizeof(tss_entry_t)
abbrev pub tss_size : ℕ
tss_size = 108

-- The calls of `gdt_set_gate` in `gdt_initialize`: the two code segments are GDT_TYPE_SEG_CODE_EXRD,
-- 26, the two data segments GDT_TYPE_SEG_DATA_RDWR, 18, and the last entry GDT_TYPE_TSS_AVAILABLE, 9.
unfoldable pub initialize : List GdtEntry → (tss_entry : ℕ) → Option (List GdtEntry)
initialize gdt tss_entry = and_then (set_gate gdt 1 0 maximum_memory 26 0) (λ gdt1.
    and_then (set_gate gdt1 2 0 maximum_memory 18 0) (λ gdt2.
      and_then (set_gate gdt2 3 0 maximum_memory 26 3) (λ gdt3.
        and_then (set_gate gdt3 4 0 maximum_memory 18 3)
          (λ gdt4. set_gate gdt4 5 tss_entry tss_size 9 0))))

-- `tss_entry_t`
pub record TssEntry : Type 0 where
  pub reserved0 : ℕ
  pub rsp0_0_31 : ℕ
  pub rsp0_32_63 : ℕ
  pub rsp1_0_31 : ℕ
  pub rsp1_32_63 : ℕ
  pub rsp2_0_31 : ℕ
  pub rsp2_32_63 : ℕ
  pub reserved1 : ℕ
  pub ist1_0_31 : ℕ
  pub ist1_32_63 : ℕ
  pub ist2_0_31 : ℕ
  pub ist2_32_63 : ℕ
  pub ist3_0_31 : ℕ
  pub ist3_32_63 : ℕ
  pub ist4_0_31 : ℕ
  pub ist4_32_63 : ℕ
  pub ist5_0_31 : ℕ
  pub ist5_32_63 : ℕ
  pub ist6_0_31 : ℕ
  pub ist6_32_63 : ℕ
  pub ist7_0_31 : ℕ
  pub ist7_32_63 : ℕ
  pub reserved2 : ℕ
  pub reserved3 : ℕ
  pub iomap : ℕ

-- `tss_set`, with the address that `get_kernel_stack` points to.
unfoldable pub tss_set : (kernel_stack_address : ℕ) → TssEntry → TssEntry
tss_set kernel_stack_address tss = record tss {
  rsp0_0_31 = kernel_stack_address % 2 ^ 32;
  rsp0_32_63 = (kernel_stack_address / 2 ^ 32) % 2 ^ 32;
  ist1_0_31 = kernel_stack_address % 2 ^ 32;
  ist1_32_63 = (kernel_stack_address / 2 ^ 32) % 2 ^ 32;
}
