-- ===== src/Multiboot/Parsing.antt =====
-- The parser takes from the tags what they say, and ends.
use bubackos.Prelude.{
  ℕ, zero, suc, ◌+◌, ◌*◌, ◌/◌, ◌%◌, ◌^◌, ◌≡◌, ◌≢◌, ◌<◌, refl, sym, ap, ◌∙◌, true, some, List, [],
  ◌∷◌, ◌++◌, arith, ==_ne, length, All,
}
use mathlib.Core.List.{append_assoc, append-nil}
use bubackos.Multiboot.{
  Bytes, Platform, read32, handle_module, handle_meminfo, handle_tag, tag_loop, mmap_loop,
  multiboot2_parser, padded, bootloader_magic, tag_end,
}
use bubackos.Multiboot.Layout.{
  Tag, module_tag, meminfo_tag, mmap_tag, other_tag, TagAt, TagsAt, BodyAt, size_of, modules_of,
  reserved_of, total_of, segments_of, memory_of, IsBelow4Gb,
}
use bubackos.Multiboot.Entries.{mmap_loop-reserve}

-- The platform with what the tags say
abbrev pub informed : List Tag → Platform → Platform
informed ts p = record {
  total_memory = total_of p.total_memory ts;
  reserved_segments = p.reserved_segments ++ reserved_of ts;
  modules = p.modules ++ modules_of ts;
}

handle_tag-one :
    (m : Bytes) (a : ℕ) (t : Tag) (p : Platform)
    → TagAt m a t
    → handle_tag m a p ≡ some (informed (t ∷ []) p)
unfolding handle_tag handle_module handle_meminfo modules_of reserved_of total_of
handle_tag-one m a (module_tag size s e c) p ((z, l, l'), (k, start, end, chars)) =
    rw (k, handle_module, z, chars, start, end, append-nil p.reserved_segments) refl
handle_tag-one m a (meminfo_tag size lo up) p ((z, l, l'), (k, low, high)) =
    rw (k, high, append-nil p.reserved_segments, append-nil p.modules) refl
handle_tag-one m a (mmap_tag entry_size es) p ((z, l, l'), (k, width, some_width, at)) =
    rw (k, z, width, append-nil (segments_of es), append-nil p.modules)
      (ap (λ b. mmap_loop (suc (16 + entry_size * length es)) m (a + 16) b entry_size p) limit
        ∙ mmap_loop-reserve (suc (16 + entry_size * length es)) m (a + 16) entry_size es p
            (enough entry_size (length es) some_width) some_width at)
  where
    limit : a + (16 + entry_size * length es) ≡ a + 16 + entry_size * length es
    limit = omega arith

    enough : (w n : ℕ) → 0 < w → n < suc (16 + w * n)
    enough zero n h = absurd (omega arith)
    enough (suc w) n h = omega arith
handle_tag-one m a (other_tag type size) p ((z, l, l'), (k, n0, n3, n4, n6)) =
    rw
      (
        k,
        ==_ne type 3 n3,
        ==_ne type 4 n4,
        ==_ne type 6 n6,
        append-nil p.reserved_segments,
        append-nil p.modules,
      )
      refl

informed-cons :
    (t : Tag) (ts : List Tag) (p : Platform)
    → informed ts (informed (t ∷ []) p) ≡ informed (t ∷ ts) p
unfolding modules_of reserved_of total_of
informed-cons (module_tag size s e c) ts p =
    rw (append-nil p.reserved_segments, append_assoc p.modules (_ ∷ []) (modules_of ts)) refl
informed-cons (meminfo_tag size l u) ts p =
    rw (append-nil p.reserved_segments, append-nil p.modules) refl
informed-cons (mmap_tag entry_size es) ts p =
    rw
      (
        append-nil (segments_of es),
        append-nil p.modules,
        append_assoc p.reserved_segments (segments_of es) (reserved_of ts),
      )
      refl
informed-cons (other_tag type size) ts p =
    rw (append-nil p.reserved_segments, append-nil p.modules) refl

not_end : (m : Bytes) (a : ℕ) (t : Tag) → BodyAt m a t → read32 m a ≢ tag_end
not_end m a (module_tag size s e c) b = λ z. omega (arith, b.0, z)
not_end m a (meminfo_tag size l u) b = λ z. omega (arith, b.0, z)
not_end m a (mmap_tag entry_size es) b = λ z. omega (arith, b.0, z)
not_end m a (other_tag type size) b = λ z. b.1 (sym b.0 ∙ z)

padded-multiple : (size : ℕ) → size + 7 < 2 ^ 32 → padded size ≡ (size + 7) / 8 * 8
padded-multiple size l = omega arith

tag_loop-informed :
    (n : ℕ) (m : Bytes) (a : ℕ) (ts : List Tag) (p : Platform)
    → length ts < n
    → TagsAt m a ts
    → tag_loop n m a p ≡ some (informed ts p)
unfolding tag_loop modules_of reserved_of total_of
tag_loop-informed zero m a ts p l at = absurd (omega arith)
tag_loop-informed (suc n) m a [] p l at = rw (at, nothing) refl
  where
    nothing : informed [] p ≡ p
    nothing = rw (append-nil p.reserved_segments, append-nil p.modules) refl
tag_loop-informed (suc n) m a (t ∷ ts) p l at =
    rw
      (
        ==_ne (read32 m a) 0 (not_end m a t at.0.1),
        handle_tag-one m a t p at.0,
        at.0.0.0,
        padded-multiple (size_of t) at.0.0.2,
      )
      (tag_loop-informed n m (a + (size_of t + 7) / 8 * 8) ts (informed (t ∷ []) p) (omega arith)
          at.1
        ∙ ap some (informed-cons t ts p))

pub parser-informed :
    (rounds : ℕ) (m : Bytes) (magic addr : ℕ) (ts : List Tag) (p : Platform)
    → magic % 2 ^ 32 ≡ bootloader_magic
    → addr % 8 ≡ 0
    → TagsAt m (addr + 8) ts
    → length ts < rounds
    → multiboot2_parser rounds m magic addr p ≡ some (true, informed ts p)
unfolding multiboot2_parser
parser-informed rounds m magic addr ts p e a at l =
    rw (e, a, tag_loop-informed rounds m (addr + 8) ts p l at) refl

total_of-memory_of :
    (total : ℕ) (ts : List Tag) → All IsBelow4Gb ts → total_of total ts ≡ memory_of total ts
unfolding total_of memory_of
total_of-memory_of total [] b = refl
total_of-memory_of total (module_tag size s e c ∷ ts) b = total_of-memory_of total ts b.1
total_of-memory_of total (mmap_tag entry_size es ∷ ts) b = total_of-memory_of total ts b.1
total_of-memory_of total (other_tag type size ∷ ts) b = total_of-memory_of total ts b.1
total_of-memory_of total (meminfo_tag size l u ∷ ts) (b, bs) =
    ap (λ n. total_of n ts) (omega (arith, b)) ∙ total_of-memory_of ((1024 + u) * 1024) ts bs

-- For the magic number of the boot loader and an address that is a multiple of 8, from which the
-- tags `ts` stand after 8 bytes, each that counts the memory with less than 4 GB:
-- `multiboot2_parser` ends after a round for each tag and one for the end, and answers true. The
-- platform has the memory size of the last tag that has one, the segments of all entries that are
-- not available, in their order after those it had, and the modules in their order after those it
-- had.
pub parser-platform :
    (rounds : ℕ) (m : Bytes) (magic addr : ℕ) (ts : List Tag) (p : Platform)
    → magic % 2 ^ 32 ≡ bootloader_magic
    → addr % 8 ≡ 0
    → TagsAt m (addr + 8) ts
    → All IsBelow4Gb ts
    → length ts < rounds
    → multiboot2_parser rounds m magic addr p
      ≡ some (
        true,
        record {
          total_memory = memory_of p.total_memory ts;
          reserved_segments = p.reserved_segments ++ reserved_of ts;
          modules = p.modules ++ modules_of ts;
        },
      )
parser-platform rounds m magic addr ts p e a at small l =
    parser-informed rounds m magic addr ts p e a at l
    ∙ ap
        (λ n. some (
          true,
          record {
            total_memory = n;
            reserved_segments = p.reserved_segments ++ reserved_of ts;
            modules = p.modules ++ modules_of ts;
          },
        ))
        (total_of-memory_of p.total_memory ts small)
