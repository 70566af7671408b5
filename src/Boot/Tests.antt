-- ===== src/Boot/Tests.antt =====
-- A boot on 16388 pages: the kernel in the second megabyte, one segment behind the first 64 MB.
use bubackos.Prelude.{
  ℕ, ◌*◌, ◌≡◌, ◌≢◌, refl, some, List, [], ◌∷◌, arith, get_elem?, system_page_size, replicate,
  length-replicate,
}
use bubackos.Pmem
use bubackos.Pmem.{PageType, user, system}
use bubackos.Pmem.Run.{allocate, release, run}
use bubackos.Boot.{Region, boot}
use bubackos.Boot.Reserved.{boot-reserved}

block : List PageType
block = replicate 16388 user

abbrev segments : List Region
segments = record { addr_start = 67108864; addr_end = 67112960; size = 4096 } ∷ []

abbrev kernel : Region
kernel = record { addr_start = 1048576; addr_end = 3145728; size = 2097152 }

boot-reserved_example :
    (get_elem?
        (run (boot block 67125248 segments kernel) (release 67108864 ∷ allocate ∷ [])).pages
        16384
      ≡ some system)
    × (◌≢◌ {A = ℕ} 16384 0
        → (Pmem.allocate
            (run (boot block 67125248 segments kernel) (release 67108864 ∷ allocate ∷ []))).0
          ≢ 16384 * system_page_size)
boot-reserved_example =
    boot-reserved block 67125248 segments kernel (release 67108864 ∷ allocate ∷ []) 1 16384
      (record { addr_start = 67108864; addr_end = 67112960; size = 4096 }) (omega arith)
      (unfold block in length-replicate 16388 user) (omega arith, (omega arith, tt)) refl
      (omega arith) (omega arith, omega arith)
