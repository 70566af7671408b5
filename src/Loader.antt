-- ===== src/Loader.antt =====
-- The program loader, core/src/loader/elfparser.c and core/src/loader/module_loader.c of
-- src/kernel, with the structures of core/loader/elf.h.
pub mod Parsing
mod Tests
use bubackos.Prelude.{
  ℕ, zero, suc, ◌+◌, ◌*◌, ◌/◌, ◌%◌, Bool, true, false, not, ◌||◌, ◌&&◌, Option, none, some, List,
  [], ◌∷◌, ◌++◌, ◌==◌, ltb, if◌then◌else◌, add64, align_next, system_page_size,
}
use bubackos.Multiboot.{Bytes, InfoModule, read32, read64}
use bubackos.VirtualMemory.{Memory, kalloc, iterated, vmem_get_physical_address, vmem_create}
use bubackos.VirtualMemory.Regions.{
  vmem_region_create, vmem_region_map_physical_address, vmem_region_resize,
}

unfoldable pub read16 : Bytes → ℕ → ℕ
read16 m a = m a + 256 * m (a + 1)

-- `elf_t`, where `ident` is `base`; the list is NULL if it could not be allocated.
pub record Elf : Type 0 where
  pub base : ℕ
  pub entry_point : ℕ
  pub flags : ℕ
  pub program_headers : Option (List ℕ)

-- The fields of `elf_program_header_t` that the loader reads
pub record ElfProgramHeader : Type 0 where
  pub type : ℕ
  pub flags : ℕ
  pub offset : ℕ
  pub vaddr : ℕ
  pub file_size : ℕ
  pub mem_size : ℕ

unfoldable pub program_header_at : Bytes → ℕ → ElfProgramHeader
program_header_at m a = record {
  type = read32 m a;
  flags = read32 m (a + 4);
  offset = read64 m (a + 8);
  vaddr = read64 m (a + 16);
  file_size = read64 m (a + 32);
  mem_size = read64 m (a + 40);
}

-- `sizeof(elf_program_header_t)`
abbrev pub program_header_size : ℕ
program_header_size = 56

abbrev pub elf_success : ℕ
elf_success = 0

abbrev pub elf_error_no_elf : ℕ
elf_error_no_elf = 1

abbrev pub elf_error_invalid_elf_version : ℕ
elf_error_invalid_elf_version = 2

abbrev pub elf_error_incompatible : ℕ
elf_error_incompatible = 3

-- ELF_EM_X86_64
abbrev pub em_x86_64 : ℕ
em_x86_64 = 62

-- ELF_PT_LOAD
abbrev pub pt_load : ℕ
pt_load = 1

-- The tests of the header, in their order: ELF_SUCCESS or the error
unfoldable pub check_header : Bytes → (raw_elf size : ℕ) → ℕ
check_header m raw size =
    if (raw == 0) || ltb size 50
    then elf_error_no_elf
    else if not
        ((m raw == 127) && ((m (raw + 1) == 69) && ((m (raw + 2) == 76) && (m (raw + 3) == 70))))
    then elf_error_no_elf
    else if not (m (raw + 6) == 1) || not (read32 m (raw + 20) == 1)
    then elf_error_invalid_elf_version
    else if not (m (raw + 5) == 1)
        || (not (m (raw + 4) == 2)
            || (not (m (raw + 7) == 0) || not (read16 m (raw + 18) == em_x86_64)))
    then elf_error_incompatible
    else elf_success

-- `linkedlist_append`, whose answer is not tested
append_header : Memory → Option (List ℕ) → ℕ → Option (List ℕ) × Memory
append_header k none a = (none, k)
append_header k (some hs) a =
    let (node, k1) = kalloc k in (if node == 0 then some hs else some (hs ++ (a ∷ [])), k1)

-- The loop over the entries of the program headers, with the number that is left
unfoldable pub headers_loop :
    (left : ℕ) → Memory → Option (List ℕ) → (next_address : ℕ) → Option (List ℕ) × Memory
unfolding append_header
headers_loop zero k hs next = (hs, k)
headers_loop (suc n) k hs next =
    let (hs', k1) = append_header k hs next in
    headers_loop n k1 hs' (add64 next program_header_size)

-- `elf_parser`: the answer, what `elf` holds then, and the memory
unfoldable pub elf_parser : Memory → Bytes → (raw_elf size : ℕ) → (elf : Elf) → ℕ × (Elf × Memory)
elf_parser k m raw size elf =
    let code = check_header m raw size in
    let (list, k1) = kalloc k in
    let (headers, k2) =
      headers_loop (read16 m (raw + 56)) k1 (if list == 0 then none else some [])
        (add64 (read64 m (raw + 32)) raw) in
    if code == elf_success
    then (
      elf_success,
      (
        record {
          base = raw;
          entry_point = read64 m (raw + 24);
          flags = read32 m (raw + 48);
          program_headers = headers;
        },
        k2,
      ),
    )
    else (code, (elf, k))

-- `flags & ELF_PF_FLAGS_W` and `flags & ELF_PF_FLAGS_X`
abbrev pub is_writable : ℕ → Bool
is_writable flags = flags / 2 % 2 == 1

abbrev pub is_code : ℕ → Bool
is_code flags = flags % 2 == 1

-- The resize to the size in memory
fit_memory : Memory → (region mem_size : ℕ) → Option (Bool × Memory)
fit_memory k region mem_size = vmem_region_resize k region mem_size

-- The content of the file is mapped, where there is any.
map_content :
    Memory → (handler : ℕ) → Elf → ElfProgramHeader → (region : ℕ) → Option (Bool × Memory)
map_content k handler elf ph region =
    elim (vmem_region_map_physical_address k region
      (vmem_get_physical_address k handler (add64 elf.base ph.offset))
      (align_next ph.file_size system_page_size)) [
        | none ↦ none
        | some (vaddr, k1) ↦
            if vaddr == 0 then some (false, k1) else fit_memory k1 region ph.mem_size
      ]

-- `allocate_program_header`; `name` is the address of the text of the name, `handler` is `memory_handler`.
-- `none` where a call of the virtual memory is.
unfoldable pub allocate_program_header :
    (name handler : ℕ)
    → Memory
    → Elf
    → ElfProgramHeader
    → (module_handler : ℕ) → Option (Bool × Memory)
unfolding map_content fit_memory
allocate_program_header name handler k elf ph module_handler =
    elim (vmem_region_create k module_handler name ph.vaddr 0 true (is_writable ph.flags)
      (is_code ph.flags)) [
        | none ↦ none
        | some (region, k1) ↦
            if region == 0
            then some (false, k1)
            else if ph.file_size == 0
            then fit_memory k1 region ph.mem_size
            else map_content k1 handler elf ph region
      ]

-- The loop over the program headers, with the answer `!abort`
unfoldable pub load_headers :
    (name handler : ℕ)
    → Memory
    → Bytes
    → Elf
    → (headers : List ℕ) → (module_handler : ℕ) → Option (Bool × Memory)
load_headers name handler k m elf [] module_handler = some (true, k)
load_headers name handler k m elf (a ∷ headers) module_handler =
    let ph = program_header_at m a in
    if ph.type == pt_load
    then elim (allocate_program_header name handler k elf ph module_handler) [
      | none ↦ none
      | some (true, k1) ↦ load_headers name handler k1 m elf headers module_handler
      | some (false, k1) ↦ some (false, k1)
    ]
    else load_headers name handler k m elf headers module_handler

-- The calls of `task_create` and `task_run` for a module
pub record Started : Type 0 where
  pub name : List ℕ
  pub memory_handler : ℕ
  pub entry_point : ℕ

-- Where a module's loading goes on: with the next module, or with the answer false
pub data Outcome : Type 0 where
  invalid : Memory → Outcome
  failed : Memory → Outcome
  started : Started → Memory → Outcome

-- From the virtual memory of the module on
load_program :
    (name handler : ℕ) (native_ok : Bool) → Memory → Bytes → (param : List ℕ) → Elf → Option Outcome
load_program name handler native_ok k m param elf = elim (vmem_create k native_ok) [
  | none ↦ none
  | some (v, k1) ↦ elim elf.program_headers [
    | none ↦ none
    | some headers ↦ elim (load_headers name handler k1 m elf (iterated headers) v) [
      | none ↦ none
      | some (true, k2) ↦
          some (
            started (record { name = param; memory_handler = v; entry_point = elf.entry_point }) k2)
      | some (false, k2) ↦ some (failed k2)
    ]
  ]
]

abbrev pub no_elf : Elf
no_elf = record { base = 0; entry_point = 0; flags = 0; program_headers = none }

-- Once the module is mapped at `vaddr`
parse_module :
    (name handler : ℕ) (native_ok : Bool)
    → Memory
    → Bytes
    → InfoModule
    → (vaddr : ℕ) → Option Outcome
parse_module name handler native_ok k m x vaddr =
    let (code, (elf, k1)) = elf_parser k m vaddr x.region.size no_elf in
    if code == elf_success
    then load_program name handler native_ok k1 m x.param elf
    else some (invalid k1)

-- The body of the loop of `module_task_initialize`. `m` has the bytes of the kernel's memory by
-- their virtual addresses, and `native_ok` is the answer of `native_vmem_create`.
unfoldable pub load_module :
    (name handler : ℕ) (native_ok : Bool) → Memory → Bytes → InfoModule → Option Outcome
unfolding parse_module load_program
load_module name handler native_ok k m x =
    elim (vmem_region_create k handler name 0 0 true true true) [
      | none ↦ none
      | some (region, k1) ↦
          elim (vmem_region_map_physical_address k1 region x.region.addr_start
            (align_next x.region.size system_page_size)) [
              | none ↦ none
              | some (vaddr, k2) ↦
                  if vaddr == 0
                  then some (failed k2)
                  else parse_module name handler native_ok k2 m x vaddr
            ]
    ]

-- `module_task_initialize`: the answer, the tasks that were started, and the memory
unfoldable pub module_task_initialize :
    (name handler : ℕ) (native_ok : Bool)
    → Memory
    → Bytes
    → List InfoModule
    → Option (Bool × (List Started × Memory))
module_task_initialize name handler native_ok k m [] = some (true, ([], k))
module_task_initialize name handler native_ok k m (x ∷ xs) =
    elim (load_module name handler native_ok k m x) [
      | none ↦ none
      | some (failed k1) ↦ some (false, ([], k1))
      | some (invalid k1) ↦ module_task_initialize name handler native_ok k1 m xs
      | some (started t k1) ↦ elim (module_task_initialize name handler native_ok k1 m xs) [
        | none ↦ none
        | some (done, (ts, k2)) ↦ some (done, (t ∷ ts, k2))
      ]
    ]
