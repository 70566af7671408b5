-- ===== src/Multiboot/Tests.antt =====
-- A run of the parser over the boot information of a small machine: a module, the size of the
-- memory, and a memory map with a segment that is reserved.
use bubackos.Prelude.{
  All, ℕ, ◌-◌, ◌*◌, ◌≡◌, ◌≢◌, refl, true, some, List, [], ◌∷◌, ◌++◌, arith, get_elem?, Option, none,
  length-replicate, replicate, system_page_size,
}
use bubackos.Pmem
use bubackos.Pmem.{PageType, user}
use bubackos.Pmem.Run.{allocate, run}
use bubackos.Boot.{Region, boot}
use bubackos.Multiboot.{Bytes, Platform, multiboot2_parser, read32, read64, text}
use bubackos.Multiboot.Layout.{
  Tag, module_tag, meminfo_tag, mmap_tag, TagsAt, reserved_of, total_of, memory_of, IsBelow4Gb,
  segments_of, modules_of,
}
use bubackos.Multiboot.Parsing.{parser-platform}
use bubackos.Multiboot.Reserved.{parser-reserved, no_platform}

abbrev or_zero : Option ℕ → ℕ
or_zero none = 0
or_zero (some b) = b

abbrev word : ℕ → List ℕ
word n = n ∷ 0 ∷ 0 ∷ 0 ∷ []

-- From address 1008 on: a module "a" from 0 to 200, 66560 KB of memory, of which the page
-- 16384 is reserved, and the end.
abbrev words : List ℕ
words =
    word 3
    ++ (word 18 ++ (word 0 ++ (word 200 ++ (97 ∷ 0 ∷ 0 ∷ 0 ∷ 0 ∷ 0 ∷ 0 ∷ 0 ∷ []))))
    ++ (word 4
        ++ (word 16 ++ (word 0 ++ (0 ∷ 0 ∷ 1 ∷ 0 ∷ [])))
        ++ (word 6
            ++ (word 40
                ++ (word 24
                    ++ (word 0
                        ++ ((0 ∷ 0 ∷ 0 ∷ 4 ∷ [])
                            ++ (word 0
                                ++ ((0 ∷ 16 ∷ 0 ∷ 0 ∷ []) ++ (word 0 ++ (word 2 ++ word 0)))))))
                ++ (word 0 ++ word 8))))

abbrev booted : Bytes
booted a = or_zero (get_elem? words (a - 1008))

abbrev tags : List Tag
tags =
    module_tag 18 0 200 (97 ∷ [])
    ∷ meminfo_tag 16 0 65536
    ∷ mmap_tag 24 (record { addr = 67108864; len = 4096; type = 2 } ∷ [])
    ∷ []

booted-tags : TagsAt booted 1008 tags
unfolding read32 read64 text
booted-tags = (
  ((refl, omega arith, omega arith), (refl, refl, refl, refl)),
  (
    ((refl, omega arith, omega arith), (refl, refl, refl)),
    (((refl, omega arith, omega arith), (refl, refl, omega arith, ((refl, refl, refl), tt))), refl),
  ),
)

booted-small : All IsBelow4Gb tags
booted-small = (tt, (omega arith, (tt, tt)))

parser-platform_example :
    multiboot2_parser 4 booted 920085129 1000 no_platform
    ≡ some (
      true,
      record {
        total_memory = 68157440;
        reserved_segments = record { addr_start = 67108864; addr_end = 67112960; size = 4096 } ∷ [];
        modules =
            record {
              param = 97 ∷ [];
              region = record { addr_start = 0; addr_end = 200; size = 200 };
            }
            ∷ [];
      },
    )
unfolding modules_of reserved_of memory_of segments_of
parser-platform_example =
    parser-platform 4 booted 920085129 1000 tags no_platform refl refl booted-tags booted-small
      (omega arith)

block : List PageType
block = replicate 16640 user

abbrev kernel : Region
kernel = record { addr_start = 1048576; addr_end = 3145728; size = 2097152 }

parser-reserved_example :
    (p : Platform) × (multiboot2_parser 4 booted 920085129 1000 no_platform ≡ some (true, p))
    × ((Pmem.allocate
          (run (boot block p.total_memory p.reserved_segments kernel) (allocate ∷ []))).0
        ≢ 16384 * system_page_size)
unfolding modules_of reserved_of total_of segments_of
parser-reserved_example =
    parser-reserved 4 booted 920085129 1000 tags block kernel (allocate ∷ []) 0 16384
      (record { addr_start = 67108864; addr_end = 67112960; size = 4096 }) refl refl booted-tags
      (omega arith) (omega arith) (unfold block in length-replicate 16640 user)
      (omega arith, (omega arith, tt)) refl (omega arith) (omega arith, omega arith) (λ e. cc)
