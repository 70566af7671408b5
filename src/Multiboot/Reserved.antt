-- ===== src/Multiboot/Reserved.antt =====
-- From the boot information to the allocator: what the boot loader says is reserved is not given
-- away.
use bubackos.Prelude.{
  ℕ, suc, ◌+◌, ◌*◌, ◌/◌, ◌%◌, ◌^◌, ◌≡◌, ◌≢◌, ◌<◌, some, true, List, [], ◌∷◌, All, length, get_elem?,
  word_mod, system_page_size,
}
use bubackos.Pmem
use bubackos.Pmem.{PageType}
use bubackos.Pmem.Run.{Op, run}
use bubackos.Boot.{Region, boot}
use bubackos.Boot.Reserved.{boot-reserved, IsSmall, Covers}
use bubackos.Multiboot.{Bytes, Platform, multiboot2_parser, bootloader_magic}
use bubackos.Multiboot.Layout.{Tag, TagsAt, reserved_of, total_of}
use bubackos.Multiboot.Parsing.{parser-informed, informed}

-- The platform before the parser: `config` of the start of the kernel
abbrev pub no_platform : Platform
no_platform = record { total_memory = 0; reserved_segments = []; modules = [] }

-- Where the tags `ts` stand in memory as `multiboot2_parser` wants them, with enough rounds for
-- them, and the kernel and the segments that they reserve lie in the address space: the parser
-- answers true, and after a boot on the memory that it found, with less than 2^64 bytes, and any
-- calls of pmem_allocate, pmem_set_as_system and pmem_release, pmem_allocate does not answer the
-- address of a page but 0 that an entry of the tags reserves.
pub parser-reserved :
    (rounds : ℕ) (m : Bytes) (magic addr : ℕ) (ts : List Tag) (block : List PageType)
    (kernel : Region) (ops : List Op) (i q : ℕ) (r : Region)
    → magic % 2 ^ 32 ≡ bootloader_magic
    → addr % 8 ≡ 0
    → TagsAt m (addr + 8) ts
    → length ts < rounds
    → total_of 0 ts < word_mod
    → length block ≡ total_of 0 ts / system_page_size
    → All IsSmall (kernel ∷ reserved_of ts)
    → get_elem? (reserved_of ts) i ≡ some r
    → q < total_of 0 ts / system_page_size
    → Covers r q
    → q ≢ 0
    → (p : Platform) × (multiboot2_parser rounds m magic addr no_platform ≡ some (true, p))
      × ((Pmem.allocate (run (boot block p.total_memory p.reserved_segments kernel) ops)).0
          ≢ q * system_page_size)
parser-reserved rounds m magic addr ts block kernel ops i q r e a at l t b small x lt c nz = (
  informed ts no_platform,
  parser-informed rounds m magic addr ts no_platform e a at l,
  (boot-reserved block (total_of 0 ts) (reserved_of ts) kernel ops (suc i) q r t b small x lt c).1
      nz,
)
