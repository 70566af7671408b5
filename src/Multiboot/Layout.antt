-- ===== src/Multiboot/Layout.antt =====
-- The boot information as the loader means it: a sequence of tags, where they stand in memory, and
-- what they say of the platform.
use bubackos.Prelude.{
  ℕ, ◌+◌, ◌*◌, ◌-◌, ◌/◌, ◌%◌, ◌^◌, ◌≡◌, ◌≢◌, ◌<◌, ◌≤◌, some, List, [], ◌∷◌, ◌++◌, ◌==◌,
  if◌then◌else◌, length, add64,
}
use bubackos.Boot.{Region}
use bubackos.Multiboot.{
  Bytes, InfoModule, read32, read64, text, memory_available, tag_end, tag_module, tag_basic_meminfo,
  tag_mmap,
}

-- An entry of the memory map
pub record MmapEntry : Type 0 where
  pub addr : ℕ
  pub len : ℕ
  pub type : ℕ

pub data Tag : Type 0 where
  module_tag : (size mod_start mod_end : ℕ) (cmdline : List ℕ) → Tag
  meminfo_tag : (size mem_lower mem_upper : ℕ) → Tag
  mmap_tag : (entry_size : ℕ) (entries : List MmapEntry) → Tag
  other_tag : (type size : ℕ) → Tag

abbrev pub EntriesAt : Bytes → (a entry_size : ℕ) → List MmapEntry → Type 0
EntriesAt m a entry_size [] = Unit {0}
EntriesAt m a entry_size (e ∷ es) =
    ((read64 m a ≡ e.addr) × (read64 m (a + 8) ≡ e.len) × (read32 m (a + 16) ≡ e.type))
    × EntriesAt m (a + entry_size) entry_size es

abbrev pub size_of : Tag → ℕ
size_of (module_tag size s e c) = size
size_of (meminfo_tag size l u) = size
size_of (mmap_tag entry_size entries) = 16 + entry_size * length entries
size_of (other_tag type size) = size

abbrev pub BodyAt : Bytes → (a : ℕ) → Tag → Type 0
BodyAt m a (module_tag size s e c) =
    (read32 m a ≡ tag_module)
    × (read32 m (a + 8) ≡ s)
    × (read32 m (a + 12) ≡ e)
    × (text (size - 16) m (a + 16) ≡ some c)
BodyAt m a (meminfo_tag size l u) =
    (read32 m a ≡ tag_basic_meminfo) × (read32 m (a + 8) ≡ l) × (read32 m (a + 12) ≡ u)
BodyAt m a (mmap_tag entry_size entries) =
    (read32 m a ≡ tag_mmap)
    × (read32 m (a + 8) ≡ entry_size)
    × (0 < entry_size)
    × EntriesAt m (a + 16) entry_size entries
BodyAt m a (other_tag type size) =
    (read32 m a ≡ type)
    × (type ≢ tag_end)
    × (type ≢ tag_module)
    × (type ≢ tag_basic_meminfo)
    × (type ≢ tag_mmap)

-- A tag at `a`, with its size of at least the 8 bytes of `multiboot_tag` that does not overflow
-- when it is rounded up
abbrev pub TagAt : Bytes → (a : ℕ) → Tag → Type 0
TagAt m a t =
    ((read32 m (a + 4) ≡ size_of t) × (8 ≤ size_of t) × (size_of t + 7 < 2 ^ 32)) × BodyAt m a t

-- The tags from `a` on, each at the next multiple of 8, up to the one that ends them
abbrev pub TagsAt : Bytes → (a : ℕ) → List Tag → Type 0
TagsAt m a [] = read32 m a ≡ tag_end
TagsAt m a (t ∷ ts) = TagAt m a t × TagsAt m (a + (size_of t + 7) / 8 * 8) ts

-- What the tags say: the modules, the memory that is reserved, and the size of the memory
unfoldable pub modules_of : List Tag → List InfoModule
modules_of [] = []
modules_of (module_tag size s e c ∷ ts) =
    record {
      param = c;
      region = record { addr_start = s; addr_end = e; size = (e + 2 ^ 32 - s) % 2 ^ 32 };
    }
    ∷ modules_of ts
modules_of (_ ∷ ts) = modules_of ts

unfoldable pub segments_of : List MmapEntry → List Region
segments_of [] = []
segments_of (e ∷ es) =
    let rest = segments_of es in
    if e.type == memory_available
    then rest
    else record { addr_start = e.addr; addr_end = add64 e.addr e.len; size = e.len } ∷ rest

unfoldable pub reserved_of : List Tag → List Region
reserved_of [] = []
reserved_of (mmap_tag entry_size entries ∷ ts) = segments_of entries ++ reserved_of ts
reserved_of (_ ∷ ts) = reserved_of ts

-- The size of the memory as the parser computes it, in 32 bits
unfoldable pub total_of : (total : ℕ) → List Tag → ℕ
total_of total [] = total
total_of total (meminfo_tag size l u ∷ ts) = total_of ((u + 1024) % 2 ^ 32 * 1024 % 2 ^ 32) ts
total_of total (_ ∷ ts) = total_of total ts

-- The memory that the last tag with a size counts: the KB above the first MB, and this one
unfoldable pub memory_of : (total : ℕ) → List Tag → ℕ
memory_of total [] = total
memory_of total (meminfo_tag size l u ∷ ts) = memory_of ((1024 + u) * 1024) ts
memory_of total (_ ∷ ts) = memory_of total ts

-- A size of memory below 4 GB
abbrev pub IsBelow4Gb : Tag → Type 0
IsBelow4Gb (meminfo_tag size l u) = (1024 + u) * 1024 < 2 ^ 32
IsBelow4Gb (module_tag size s e c) = Unit
IsBelow4Gb (mmap_tag entry_size entries) = Unit
IsBelow4Gb (other_tag type size) = Unit
