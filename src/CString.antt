-- ===== src/CString.antt =====
-- The functions on bytes of libc/src/string.c in src/kernel: `memset`, `memcpy` and `strncmp`. A
-- memory is a function from addresses to bytes; a string is the list of its bytes before the NUL.
pub mod Bytes
pub mod Compare
mod Tests
use bubackos.Prelude.{
  ℕ, zero, suc, ◌%◌, ◌≡◌, ◌≢◌, Bool, true, false, List, [], ◌∷◌, ◌==◌, if◌then◌else◌, All,
}

abbrev pub Memory : Type 0
Memory = ℕ → ℕ

-- `*ptr = val`, which keeps the low eight bits.
abbrev pub store : ℕ → ℕ → Memory → Memory
store ptr val m a = if ptr == a then val % 256 else m a

-- `memset`, with `len` counting down.
unfoldable pub memset : (dest val len : ℕ) → Memory → Memory
memset dest val zero m = m
memset dest val (suc len) m = memset (suc dest) val len (store dest val m)

-- `memcpy`
unfoldable pub memcpy : (dest src len : ℕ) → Memory → Memory
memcpy dest src zero m = m
memcpy dest src (suc len) m = memcpy (suc dest) (suc src) len (store dest (m src) m)

-- The byte that a pointer into a string reads; at the end it is NUL.
abbrev pub byte : List ℕ → ℕ
byte [] = 0
byte (c ∷ cs) = c

-- The loop of `strncmp`: the two bytes it stops at.
unfoldable pub strncmp_loop : (l r : List ℕ) (n : ℕ) → ℕ × ℕ
strncmp_loop (a ∷ l) (b ∷ r) (suc n) =
    let rest = strncmp_loop l r n in if a == b then rest else (a, b)
strncmp_loop l r n = (byte l, byte r)

-- `strncmp`: the two bytes whose difference it answers.
unfoldable pub strncmp : (l r : List ℕ) (n : ℕ) → ℕ × ℕ
strncmp l r zero = (0, 0)
strncmp l r (suc n) = strncmp_loop l r n

-- `strncmp(l, r, n) == 0`
abbrev pub is_same : ℕ × ℕ → Bool
is_same (a, b) = a == b

abbrev pub IsString : List ℕ → Type 0
IsString = All (λ c. c ≢ 0)
