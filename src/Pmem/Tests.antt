-- ===== src/Pmem/Tests.antt =====
-- The page allocator on a memory of 16388 pages, four of them behind the first 64 MB.
use bubackos.Prelude.{
  ℕ, ◌*◌, ◌/◌, ◌%◌, ◌<◌, ◌≡◌, ◌≢◌, refl, false, List, [], ◌∷◌, some, arith, ◌==◌, ap, if◌then◌else◌,
  get_elem?, ◌⊎◌, system_page_size, ltb, replicate, length, length-replicate,
}
use bubackos.Pmem
use bubackos.Pmem.{Pmem, PageType, free, user, system, IsValid, initialize, first_page}
use bubackos.Pmem.Pages.{written}
use bubackos.Pmem.Mark.{initialize-free, release_lem}
use bubackos.Pmem.Scan.{Allocated, IsFull, allocate-first_free}
use bubackos.Pmem.Run.{Op, allocate, set_as_system, release, run, run-system, allocate-exclusive}

abbrev size : ℕ
size = 16388 * 4096

block : List PageType
block = replicate 16388 user

start : Pmem
unfolding block
start = initialize block size

length-block : length block ≡ 16388
unfolding block
length-block = length-replicate 16388 user

initialize-free_example :
    IsValid start × ((q : ℕ) → q < 16388 → get_elem? start.pages q ≡ some free)
unfolding start
initialize-free_example = initialize-free block size (omega arith) length-block

allocate-first_free_example :
    Allocated start (Pmem.allocate start)
    ⊎ ((Pmem.allocate start ≡ (0, start)) × IsFull start free first_page)
allocate-first_free_example = allocate-first_free initialize-free_example.0

release_lem_example :
    ((4097 % system_page_size ≢ 0) → Pmem.release start 4097 ≡ (false, start))
    × ((4097 % system_page_size ≡ 0)
        → ((Pmem.release start 4097).0 ≡ ltb (4097 / system_page_size) start.total_of_pages)
          × ((q : ℕ)
              → get_elem? (Pmem.release start 4097).1.pages q ≡ (
                  if 4097 / system_page_size == q
                  then written (get_elem? start.pages q) free
                  else get_elem? start.pages q)))
release_lem_example = release_lem 4097 initialize-free_example.0

-- The same memory, with every page free.
blank : List PageType
blank = replicate 16388 free

ready : Pmem
unfolding blank
ready = record { total_of_pages = 16388; total_memory = size; pages = blank }

ready-IsValid : IsValid ready
unfolding ready
ready-IsValid = record { sized = length-replicate 16388 free; counted = refl; small = omega arith }

first_address : (Pmem.allocate ready).0 ≡ 67108864
unfolding ready Pmem.allocate Pmem.next_page_available Pmem.set_page
first_address = refl

abbrev released : Op → ℕ
released (release addr) = addr
released _ = 0

abbrev calls : List Op
calls = allocate ∷ set_as_system 0 4096 ∷ release 4096 ∷ []

allocate-exclusive_example :
    (Pmem.allocate (run (Pmem.allocate ready).1 calls)).0 ≢ (Pmem.allocate ready).0
allocate-exclusive_example =
    allocate-exclusive calls ready-IsValid (omega (arith, first_address))
      (λ e. cc, (λ e. cc, (λ e. omega (arith, ap released e, first_address), tt)))

abbrev tiny : Pmem
tiny = record { total_of_pages = 2; total_memory = 8192; pages = system ∷ free ∷ [] }

run-system_example : get_elem? (run tiny (release 0 ∷ allocate ∷ [])).pages 0 ≡ some system
run-system_example = run-system tiny (release 0 ∷ allocate ∷ []) 0 refl
