-- ===== src/Pmem/Mark.antt =====
-- `pmem_initialize`, `pmem_set_as_system` and `pmem_release`.
use bubackos.Prelude.{
  ℕ, zero, suc, ◌+◌, ◌-◌, ◌/◌, ◌%◌, ◌<◌, ◌≡◌, ◌≢◌, refl, true, false, List, some, arith, ◌==◌, ◌&&◌,
  ◌∙◌, align, add64, word_mod, length-set, get_elem?-set_ne, get_elem?-set_self, if◌then◌else◌, ltb,
  leb, length, set, get_elem?, system_page_size, [], ◌∷◌,
}
use bubackos.Pmem.{
  set_page, Pmem, PageType, system, free, user, IsValid, mark_free, initialize, system_loop,
  set_as_system, release, addr_to_page,
}
use bubackos.Pmem.Pages.{set_page-IsValid, pages-set_page, set_page-done, written}

length-mark_free : (n p : ℕ) (xs : List PageType) → length (mark_free n p xs) ≡ length xs
unfolding mark_free
length-mark_free zero p xs = refl
length-mark_free (suc n) p xs = length-mark_free n (suc p) (set xs p free) ∙ length-set xs p free

mark_free-get :
    (n p q : ℕ) (xs : List PageType)
    → q < length xs
    → get_elem? (mark_free n p xs) q
      ≡ (if leb p q && ltb q (p + n) then some free else get_elem? xs q)
unfolding mark_free
mark_free-get zero p q xs h = ground arith
mark_free-get (suc n) p q xs h = ground (
  arith,
  mark_free-get n (suc p) q (set xs p free),
  length-set xs p free,
  get_elem?-set_ne xs p q free,
  get_elem?-set_self xs p free,
)

-- `pmem_initialize` on a block of one entry for each page, whatever it holds: the state is valid
-- and every page of the memory is free.
pub initialize-free :
    (block : List PageType) (t : ℕ)
    → t < word_mod
    → length block ≡ t / system_page_size
    → IsValid (initialize block t)
      × ((q : ℕ) → q < t / system_page_size → get_elem? (initialize block t).pages q ≡ some free)
unfolding initialize
initialize-free block t small sized = (
  record { sized = length-mark_free _ 0 block ∙ sized; counted = refl; small = small },
  λ q h. ground (arith, mark_free-get (t / system_page_size) 0 q block),
)

-- The loop of `pmem_set_as_system` writes the pages `page`, ..., `page + n - 1`.
system_loop-get :
    (n : ℕ) {s : Pmem} (page q : ℕ)
    → IsValid s
    → get_elem? (system_loop n s page).pages q ≡ (
        if leb page q && ltb q (page + n)
        then written (get_elem? s.pages q) system
        else get_elem? s.pages q)
unfolding system_loop
system_loop-get zero {s} page q v = ground arith
system_loop-get (suc n) {s} page q v =
    let ih = system_loop-get n (suc page) q (set_page-IsValid page system v) in
    let first = pages-set_page page q system v in ground arith

pub system_loop-IsValid : (n : ℕ) {s : Pmem} (page : ℕ) → IsValid s → IsValid (system_loop n s page)
unfolding system_loop
system_loop-IsValid zero page v = v
system_loop-IsValid (suc n) page v =
    system_loop-IsValid n (suc page) (set_page-IsValid page system v)

written_system :
    (xs : List PageType) (q : ℕ) → q < length xs → written (get_elem? xs q) system ≡ some system
written_system [] q h = absurd (omega arith)
written_system (free ∷ xs) zero h = refl
written_system (system ∷ xs) zero h = refl
written_system (user ∷ xs) zero h = refl
written_system (x ∷ xs) (suc q) h = written_system xs q (omega arith)

-- Where `addr + total_in_bytes` does not wrap, `pmem_set_as_system` makes a SYSTEM page of every
-- page of the memory from that of `addr` to that of `addr + total_in_bytes`, both included, and
-- leaves every other page; the answer is true and the state stays valid.
pub set_as_system-marks :
    {s : Pmem} (addr size : ℕ)
    → IsValid s
    → addr + size < word_mod
    → ((set_as_system s addr size).0 ≡ true)
      × IsValid (set_as_system s addr size).1
      × ((q : ℕ)
          → q < s.total_of_pages
          → get_elem? (set_as_system s addr size).1.pages q ≡ (
              if leb (addr / system_page_size) q && leb q ((addr + size) / system_page_size)
              then some system
              else get_elem? s.pages q))
unfolding set_as_system
set_as_system-marks {s} addr size v fits =
    let page = addr_to_page addr in
    let rounds = suc (addr_to_page (add64 addr size)) - page in
    let e : add64 addr size ≡ addr + size = omega arith in
    (
      refl,
      system_loop-IsValid rounds page v,
      λ q h. ground (arith, system_loop-get rounds page q v, written_system s.pages q, e),
    )

-- `pmem_release` refuses an address that is not the start of a page, and one outside the memory,
-- and changes nothing; else its page is free afterwards, unless it is a SYSTEM page, which stays,
-- and every other page is as it was.
pub release_lem :
    {s : Pmem} (addr : ℕ)
    → IsValid s
    → ((addr % system_page_size ≢ 0) → release s addr ≡ (false, s))
      × ((addr % system_page_size ≡ 0)
          → ((release s addr).0 ≡ ltb (addr / system_page_size) s.total_of_pages)
            × ((q : ℕ)
                → get_elem? (release s addr).1.pages q ≡ (
                    if addr / system_page_size == q
                    then written (get_elem? s.pages q) free
                    else get_elem? s.pages q)))
unfolding release
release_lem {s} addr v = (
  λ ne. (let odd : (align addr system_page_size == addr) ≡ false = ground arith in rw odd),
  λ z.
      let even : (align addr system_page_size == addr) ≡ true = ground arith in
      rw even (
        set_page-done s (addr_to_page addr) free,
        λ q. pages-set_page (addr_to_page addr) q free v,
      ),
)

set_page-total :
    (s : Pmem) (p : ℕ) (t : PageType) → (set_page s p t).1.total_of_pages ≡ s.total_of_pages
unfolding set_page
set_page-total s p t = ground arith

system_loop-total :
    (n : ℕ) (s : Pmem) (page : ℕ) → (system_loop n s page).total_of_pages ≡ s.total_of_pages
unfolding system_loop
system_loop-total zero s page = refl
system_loop-total (suc n) s page =
    system_loop-total n (set_page s page system).1 (suc page) ∙ set_page-total s page system

-- `pmem_set_as_system` leaves the size of the memory.
pub set_as_system-total :
    (s : Pmem) (addr size : ℕ) → (set_as_system s addr size).1.total_of_pages ≡ s.total_of_pages
unfolding set_as_system
set_as_system-total s addr size =
    system_loop-total (suc (addr_to_page (add64 addr size)) - addr_to_page addr) s
      (addr_to_page addr)

pub initialize-total :
    (block : List PageType) (t : ℕ) → t / system_page_size ≡ (initialize block t).total_of_pages
unfolding initialize
initialize-total block t = refl
