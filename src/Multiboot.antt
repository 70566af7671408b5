-- ===== src/Multiboot.antt =====
-- The boot information, hal/src/common/multiboot2.c of src/kernel with the structures of
-- include/common/multiboot2.h and of core/hal/platform.h that it uses.
pub mod Layout
pub mod Entries
pub mod Parsing
pub mod Reserved
mod Tests
use bubackos.Prelude.{
  ℕ, zero, suc, ◌+◌, ◌*◌, ◌-◌, ◌%◌, ◌^◌, Bool, true, false, not, Option, none, some, List, [], ◌∷◌,
  ◌++◌, ◌==◌, ltb, if◌then◌else◌, add64, sub64, align,
}
use bubackos.Boot.{Region}

-- The bytes of the memory, by their addresses; sums of pointers do not wrap, as the boot
-- information stands far below the end of the address space.
abbrev pub Bytes : Type 0
Bytes = ℕ → ℕ

-- A read through `multiboot_uint32_t*` and `multiboot_uint64_t*`, little endian
unfoldable pub read32 : Bytes → ℕ → ℕ
read32 m a = m a + 256 * m (a + 1) + 65536 * m (a + 2) + 16777216 * m (a + 3)

unfoldable pub read64 : Bytes → ℕ → ℕ
read64 m a = read32 m a + 2 ^ 32 * read32 m (a + 4)

-- `info_module_t`; the text is the sequence of its characters.
pub record InfoModule : Type 0 where
  pub param : List ℕ
  pub region : Region

-- The part of `platform_t` that the parser writes
pub record Platform : Type 0 where
  pub total_memory : ℕ
  pub reserved_segments : List Region
  pub modules : List InfoModule

abbrev pub bootloader_magic : ℕ
bootloader_magic = 920085129

abbrev pub tag_end : ℕ
tag_end = 0

abbrev pub tag_module : ℕ
tag_module = 3

abbrev pub tag_basic_meminfo : ℕ
tag_basic_meminfo = 4

abbrev pub tag_mmap : ℕ
tag_mmap = 6

-- MULTIBOOT_MEMORY_AVAILABLE
abbrev pub memory_available : ℕ
memory_available = 1

-- The characters up to the first NUL, that `strlen` counts and `strncpy` copies; `none` if there
-- is none within `room`. `kalloc` fills with zeros, so that the copy ends in a NUL.
unfoldable pub text : (room : ℕ) → Bytes → ℕ → Option (List ℕ)
text zero m a = none
text (suc n) m a =
    let rest = text n m (a + 1) in
    if m a == 0 then some [] else elim rest [ none ↦ none | some cs ↦ some (m a ∷ cs) ]

-- The handling of a module: `mod_start`, `mod_end` and `cmdline`. The size is a difference of
-- 32 bits.
unfoldable pub handle_module : Bytes → (tag : ℕ) → Platform → Option Platform
handle_module m tag p =
    let mod_start = read32 m (tag + 8) in
    let mod_end = read32 m (tag + 12) in
    elim (text (read32 m (tag + 4) - 16) m (tag + 16)) [
      | none ↦ none
      | some param ↦ some (record p {
        modules =
            p.modules
            ++ (record {
              param = param;
              region = record {
                addr_start = mod_start;
                addr_end = mod_end;
                size = (mod_end + 2 ^ 32 - mod_start) % 2 ^ 32;
              };
            }
                ∷ []);
      })
    ]

-- The handling of the memory information: a product of 32 bits
unfoldable pub handle_meminfo : Bytes → (tag : ℕ) → Platform → Platform
handle_meminfo m tag p = record p {
  total_memory = (read32 m (tag + 12) + 1024) % 2 ^ 32 * 1024 % 2 ^ 32;
}

-- An entry of the memory map: `addr`, `len` and `type`
unfoldable pub handle_entry : Bytes → (mmap : ℕ) → Platform → Platform
handle_entry m mmap p =
    let addr = read64 m mmap in
    let len = read64 m (mmap + 8) in
    if read32 m (mmap + 16) == memory_available then p else record p {
      reserved_segments =
          p.reserved_segments
          ++ (record { addr_start = addr; addr_end = add64 addr len; size = len } ∷ []);
    }

-- The loop over the memory map, `none` where the rounds do not suffice.
unfoldable pub mmap_loop :
    (rounds : ℕ) → Bytes → (mmap limit entry_size : ℕ) → Platform → Option Platform
mmap_loop zero m mmap limit entry_size p = none
mmap_loop (suc n) m mmap limit entry_size p =
    let rest = mmap_loop n m (mmap + entry_size) limit entry_size (handle_entry m mmap p) in
    if ltb mmap limit then rest else some p

-- The handling of a tag, the body of the loop of `multiboot2_parser`. The other types are only
-- logged: the one of the frame buffer ends in a `break` before it draws.
unfoldable pub handle_tag : Bytes → (tag : ℕ) → Platform → Option Platform
handle_tag m tag p =
    let type = read32 m tag in
    let size = read32 m (tag + 4) in
    if type == tag_module
    then handle_module m tag p
    else if type == tag_basic_meminfo
    then some (handle_meminfo m tag p)
    else if type == tag_mmap
    then mmap_loop (suc size) m (tag + 16) (tag + size) (read32 m (tag + 8)) p
    else some p

-- `(tag->size + 7) & ~7`, of 32 bits
abbrev pub padded : ℕ → ℕ
padded size = align ((size + 7) % 2 ^ 32) 8

-- The loop of `multiboot2_parser` over the tags, `none` where the rounds do not suffice.
unfoldable pub tag_loop : (rounds : ℕ) → Bytes → (tag : ℕ) → Platform → Option Platform
tag_loop zero m tag p = none
tag_loop (suc n) m tag p =
    let handled = handle_tag m tag p in
    let next = tag + padded (read32 m (tag + 4)) in
    if read32 m tag == tag_end
    then some p
    else elim handled [ none ↦ none | some p' ↦ tag_loop n m next p' ]

-- `multiboot2_parser`
unfoldable pub multiboot2_parser :
    (rounds : ℕ) → Bytes → (magic addr : ℕ) → Platform → Option (Bool × Platform)
multiboot2_parser rounds m magic addr p =
    if not (magic % 2 ^ 32 == bootloader_magic)
    then some (false, p)
    else if not (addr % 8 == 0)
    then some (false, p)
    else elim (tag_loop rounds m (addr + 8) p) [ none ↦ none | some p' ↦ some (true, p') ]
