-- ===== src/Prelude/Words.antt =====
-- 64-bit words as native numbers, and the macros of utils.h over them.
use Prim.Native.Nat.{ℕ, ◌+◌, ◌-◌, ◌%◌, ◌^◌}

abbrev pub word_mod : ℕ
word_mod = 2 ^ 64

-- `a + b` on `uintptr_t` and `size_t`
abbrev pub add64 : ℕ → ℕ → ℕ
add64 a b = (a + b) % word_mod

-- `a - b` on `uintptr_t` and `size_t`
abbrev pub sub64 : ℕ → ℕ → ℕ
sub64 a b = (a + word_mod - b) % word_mod

-- `ALIGN(addr, a)`, `addr & ~(a - 1)`, for a power of two `a`: it clears the bits below `a`.
abbrev pub align : ℕ → ℕ → ℕ
align addr a = addr - addr % a

-- `ALIGN_NEXT(addr, a)`, `ALIGN((addr + a - 1), a)`
abbrev pub align_next : ℕ → ℕ → ℕ
align_next addr a = align (sub64 (add64 addr a) 1) a

-- SYSTEM_PAGE_SIZE, `2 << (SYSTEM_PAGE_ALIGN - 1)`, and MEM_ALIGN
abbrev pub system_page_size : ℕ
system_page_size = 4096

abbrev pub mem_align : ℕ → ℕ
mem_align addr = align addr system_page_size
