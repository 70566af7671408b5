-- ===== src/Pmem.antt =====
-- The physical page allocator, src/kernel/core/src/pmem/services.c: its state and its functions.
pub mod Scan
pub mod Mark
pub mod Pages
pub mod Run
mod Tests
use bubackos.Prelude.{
  ℕ, zero, suc, ◌+◌, ◌-◌, ◌*◌, ◌/◌, ◌%◌, ◌<◌, ◌≡◌, Bool, true, false, not, Option, none, some, List,
  ltb, leb, ◌==◌, if◌then◌else◌, length, get_elem?, set, add64, word_mod, align, system_page_size,
}

-- PAGE_TYPE_FREE, PAGE_TYPE_SYSTEM, PAGE_TYPE_USER: the only values that `pages` ever holds.
pub data PageType : Type 0 where
  free system user : PageType

abbrev pub same : PageType → PageType → Bool
same free free = true
same system system = true
same user user = true
same _ _ = false

-- `pages[p]` holds `t`.
abbrev pub holds : Option PageType → PageType → Bool
holds none t = false
holds (some s) t = same s t

-- The three globals of the file.
pub record Pmem : Type 0 where
  pub total_of_pages : ℕ
  pub total_memory : ℕ
  pub pages : List PageType

-- PAGE_TO_ADDR and ADDR_TO_PAGE
abbrev pub page_to_addr : ℕ → ℕ
page_to_addr p = (p * system_page_size) % word_mod

abbrev pub addr_to_page : ℕ → ℕ
addr_to_page a = a / system_page_size

-- The loop of `pmem_initialize`, with the number of rounds left.
pub mark_free : ℕ → ℕ → List PageType → List PageType
mark_free zero p pages = pages
mark_free (suc n) p pages = mark_free n (suc p) (set pages p free)

-- `block` is the array that `kalloc` returns; the source does not test it for NULL.
pub initialize : List PageType → ℕ → Pmem
initialize block t =
    let n = t / system_page_size in
    record { total_of_pages = n; total_memory = t; pages = mark_free n 0 block }

-- `pmem_set_page`: SYSTEM pages are immutable.
pub set_page : Pmem → ℕ → PageType → Bool × Pmem
set_page s page_number t =
    if leb s.total_of_pages page_number
    then (false, s)
    else if holds (get_elem? s.pages page_number) system
    then (true, s)
    else (true, record s { pages = set s.pages page_number t })

-- The loop of `pmem_next_page_available` from page `p` on, with the number of rounds left.
pub next_page_loop : ℕ → Pmem → ℕ → PageType → ℕ
next_page_loop zero s p t = 0
next_page_loop (suc n) s p t =
    let rest = next_page_loop n s (suc p) t in
    if ltb p s.total_of_pages then (if holds (get_elem? s.pages p) t then p else rest) else 0

-- ADDR_TO_PAGE(64*1024*1024)
abbrev pub first_page : ℕ
first_page = 16384

pub next_page_available : Pmem → PageType → ℕ
unfolding next_page_loop
next_page_available s t = next_page_loop (s.total_of_pages - first_page) s first_page t

-- `pmem_allocate`; both `goto error` return 0.
pub allocate : Pmem → ℕ × Pmem
allocate s =
    let page_number = next_page_available s free in
    if page_number == 0
    then (0, s)
    else let (done, s') = set_page s page_number user in
      if done then (page_to_addr page_number, s') else (0, s')

-- The loop of `pmem_set_as_system`; the result of `pmem_set_page` is ignored.
pub system_loop : ℕ → Pmem → ℕ → Pmem
system_loop zero s page = s
system_loop (suc n) s page = system_loop n (set_page s page system).1 (suc page)

-- The rounds of `while (page <= page_end)` are counted out: `page` grows by one in each.
pub set_as_system : Pmem → ℕ → ℕ → Bool × Pmem
unfolding system_loop
set_as_system s addr total_in_bytes =
    let page = addr_to_page addr in
    let page_end = addr_to_page (add64 addr total_in_bytes) in
    (true, system_loop (suc page_end - page) s page)

-- `pmem_release`
pub release : Pmem → ℕ → Bool × Pmem
release s addr =
    if not (align addr system_page_size == addr)
    then (false, s)
    else set_page s (addr_to_page addr) free

-- The array has `total_of_pages` entries, of a memory of less than 2^64 bytes.
pub record IsValid (s : Pmem) : Type 0 where
  pub sized : length s.pages ≡ s.total_of_pages
  pub counted : s.total_of_pages ≡ s.total_memory / system_page_size
  pub small : s.total_memory < word_mod
