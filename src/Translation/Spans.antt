-- ===== src/Translation/Spans.antt =====
-- The part of the address space that a table of the page tables is for.
use bubackos.Prelude.{
  ℕ, zero, suc, ◌+◌, ◌*◌, ◌%◌, ◌^◌, ◌≡◌, ◌<◌, ◌≤◌, Bool, true, ◌&&◌, ◌==◌, add64, word_mod, leb,
  ltb, arith,
}
use bubackos.PageTable.{index_for_level}
use bubackos.Translation.Dump.{entry_size}
use bubackos.Translation.Ranges.{in_range}

-- The pages that an entry of a table is for, `n` levels below the table
abbrev pub span : ℕ → ℕ
span n = 2 ^ (n * 9)

-- The pages from `first` on, before `last`
abbrev pub between : (first last v : ℕ) → Bool
between first last v = leb (first * 4096) v && ltb v (last * 4096)

-- `base` is the first page of the entry `index` of a table for the pages from `first` on.
abbrev pub IsPlaced : (n first base index : ℕ) → Type 0
IsPlaced n first base index =
    (n < 4)
    × (first % (512 * span n) ≡ 0)
    × (base ≡ first + index * span n)
    × (first + 512 * span n ≤ 2 ^ 36)

pub next_base :
    (n first base index : ℕ)
    → IsPlaced n first base index
    → index < 512
    → (add64 base (span n) ≡ base + span n)
      × IsPlaced n first (base + span n) (suc index)
      × (base + span n ≤ first + 512 * span n)
next_base zero first base index (l, a, p, b) h =
    (omega (arith, p, b, h), (l, a, omega (arith, p), b), omega (arith, p, h))
next_base (suc zero) first base index (l, a, p, b) h =
    (omega (arith, p, b, h), (l, a, omega (arith, p), b), omega (arith, p, h))
next_base (suc (suc zero)) first base index (l, a, p, b) h =
    (omega (arith, p, b, h), (l, a, omega (arith, p), b), omega (arith, p, h))
next_base (suc (suc (suc zero))) first base index (l, a, p, b) h =
    (omega (arith, p, b, h), (l, a, omega (arith, p), b), omega (arith, p, h))
next_base (suc (suc (suc (suc n)))) first base index (l, a, p, b) h = absurd (omega (arith, l))

pub last_base : (n first base : ℕ) → IsPlaced n first base 512 → base ≡ first + 512 * span n
last_base n first base p = p.2

-- An address of the entry's pages has its index.
pub index_of :
    (n first base index v : ℕ)
    → IsPlaced n first base index
    → index < 512
    → between base (base + span n) v ≡ true
    → index_for_level (suc n) v ≡ index
unfolding index_for_level
index_of zero first base index v (l, a, p, b) h t = ground (arith, a, p, h, t)
index_of (suc zero) first base index v (l, a, p, b) h t = ground (arith, a, p, h, t)
index_of (suc (suc zero)) first base index v (l, a, p, b) h t = ground (arith, a, p, h, t)
index_of (suc (suc (suc zero))) first base index v (l, a, p, b) h t = ground (arith, a, p, h, t)
index_of (suc (suc (suc (suc n)))) first base index v (l, a, p, b) h t = absurd (omega (arith, l))

-- The range of an entry that maps memory
pub in_range-between :
    (n first base index ptr v p : ℕ)
    → IsPlaced n first base index
    → index < 512
    → in_range ((base * 4096) % word_mod) ptr (entry_size (suc n)) v p
      ≡ between base (base + span n) v && (p == ptr + v % entry_size (suc n))
unfolding in_range
in_range-between zero first base index ptr v p (l, a, q, b) h = ground (arith, a, q, b, h)
in_range-between (suc zero) first base index ptr v p (l, a, q, b) h = ground (arith, a, q, b, h)
in_range-between (suc (suc zero)) first base index ptr v p (l, a, q, b) h =
    ground (arith, a, q, b, h)
in_range-between (suc (suc (suc zero))) first base index ptr v p (l, a, q, b) h =
    ground (arith, a, q, b, h)
in_range-between (suc (suc (suc (suc n)))) first base index ptr v p (l, a, q, b) h =
    absurd (omega (arith, l))

-- The range lies within 48 bits, and its physical side within 64.
pub entry_fits :
    (n first base index addr : ℕ)
    → IsPlaced n first base index
    → index < 512
    → addr < 2 ^ 36
    → ((base * 4096) % word_mod + entry_size (suc n) < word_mod)
      × ((addr * 4096) % 2 ^ 48 + entry_size (suc n) < word_mod)
entry_fits zero first base index addr (l, a, p, b) h s = (omega (arith, p, b, h), omega (arith, s))
entry_fits (suc zero) first base index addr (l, a, p, b) h s =
    (omega (arith, p, b, h), omega (arith, s))
entry_fits (suc (suc zero)) first base index addr (l, a, p, b) h s =
    (omega (arith, p, b, h), omega (arith, s))
entry_fits (suc (suc (suc zero))) first base index addr (l, a, p, b) h s =
    (omega (arith, p, b, h), omega (arith, s))
entry_fits (suc (suc (suc (suc n)))) first base index addr (l, a, p, b) h s =
    absurd (omega (arith, l))

-- The table that an entry leads to
pub below_IsPlaced :
    (n first base index : ℕ)
    → IsPlaced (suc n) first base index
    → index < 512
    → IsPlaced n base base 0 × (base + 512 * span n ≡ base + span (suc n))
below_IsPlaced zero first base index (l, a, p, b) h =
    ((omega (arith, l), omega (arith, a, p), omega arith, omega (arith, p, b, h)), omega arith)
below_IsPlaced (suc zero) first base index (l, a, p, b) h =
    ((omega (arith, l), omega (arith, a, p), omega arith, omega (arith, p, b, h)), omega arith)
below_IsPlaced (suc (suc zero)) first base index (l, a, p, b) h =
    ((omega (arith, l), omega (arith, a, p), omega arith, omega (arith, p, b, h)), omega arith)
below_IsPlaced (suc (suc (suc n))) first base index (l, a, p, b) h = absurd (omega (arith, l))
