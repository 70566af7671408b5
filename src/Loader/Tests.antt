-- ===== src/Loader/Tests.antt =====
-- A run of the parser over the first bytes of an ELF file with two program headers.
use bubackos.Prelude.{
  ℕ, ◌+◌, ◌-◌, ◌*◌, false, refl, some, none, Option, List, [], ◌∷◌, arith, get_elem?,
}
use bubackos.Multiboot.{Bytes, read32}
use bubackos.VirtualMemory.{Memory, new_vmem}
use bubackos.Loader.{read16}
use bubackos.Loader.Parsing.{IsElf}

abbrev or_zero : Option ℕ → ℕ
or_zero none = 0
or_zero (some b) = b

-- The header at 4096: the entry point 256, the program headers at 64, two of them
abbrev file : List ℕ
file =
    127 ∷ 69 ∷ 76 ∷ 70 ∷ 2 ∷ 1 ∷ 1 ∷ 0 ∷ 0 ∷ 0 ∷ 0 ∷ 0 ∷ 0 ∷ 0 ∷ 0 ∷ 0 ∷ 2 ∷ 0 ∷ 62 ∷ 0 ∷ 1 ∷ 0 ∷ 0
    ∷ 0 ∷ 0 ∷ 1 ∷ 0 ∷ 0 ∷ 0 ∷ 0 ∷ 0 ∷ 0 ∷ 64 ∷ 0 ∷ 0 ∷ 0 ∷ 0 ∷ 0 ∷ 0 ∷ 0 ∷ 0 ∷ 0 ∷ 0 ∷ 0 ∷ 0 ∷ 0 ∷ 0
    ∷ 0 ∷ 0 ∷ 0 ∷ 0 ∷ 0 ∷ 64 ∷ 0 ∷ 56 ∷ 0 ∷ 2 ∷ 0 ∷ []

abbrev loaded : Bytes
loaded a = or_zero (get_elem? file (a - 4096))

abbrev memory : Memory
memory = record {
  vmems = λ v. new_vmem;
  regions = λ r. record {
    vmem_region_id = 0;
    attached = [];
    name = 0;
    start = 0;
    size = 0;
    allocated_size = 0;
    user = false;
    writable = false;
    executable = false;
    pages = [];
  };
  pmem = record { total_of_pages = 0; total_memory = 0; pages = [] };
  answers = λ i. 65536 + 64 * i;
  vmem_id_mapper = record { next = 1; list = none };
  vmem_region_mapper = record { next = 1; list = none };
  kernel_vmem = 0;
}

loaded-IsElf : IsElf loaded 4096 5000
unfolding read16 read32
loaded-IsElf = record {
  there = ((λ e. cc), omega arith);
  magic = (refl, refl, refl, refl);
  versions = (refl, refl);
  compatible = (refl, refl, refl, refl);
}
