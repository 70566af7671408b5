-- ===== src/Loader/Parsing.antt =====
-- What `elf_parser` accepts, and the program headers that it finds.
use bubackos.Prelude.{ℕ, zero, suc, ◌+◌, ◌≡◌, ◌≢◌, ◌≤◌, List, [], ◌∷◌, add64}
use bubackos.Multiboot.{Bytes, read32}
use bubackos.Loader.{read16}

-- A header of an ELF file of 64 bits, little endian, for x86-64, at `a` in `size` bytes, which are
-- not fewer than its 64
pub record IsElf (m : Bytes) (a size : ℕ) : Type 0 where
  pub there : (a ≢ 0) × (64 ≤ size)
  pub magic : (m a ≡ 127) × (m (a + 1) ≡ 69) × (m (a + 2) ≡ 76) × (m (a + 3) ≡ 70)
  pub versions : (m (a + 6) ≡ 1) × (read32 m (a + 20) ≡ 1)
  pub compatible : (m (a + 4) ≡ 2) × (m (a + 5) ≡ 1) × (m (a + 7) ≡ 0) × (read16 m (a + 18) ≡ 62)

-- `n` addresses of program headers from `a` on
table : (n a : ℕ) → List ℕ
table zero a = []
table (suc n) a = a ∷ table n (add64 a 56)
