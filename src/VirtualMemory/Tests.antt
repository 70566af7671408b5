-- ===== src/VirtualMemory/Tests.antt =====
-- Runs of the virtual memories: a region with one page, attached and then grown.
use bubackos.Prelude.{
  ℕ, ◌+◌, ◌*◌, ◌≡◌, ◌≢◌, refl, Bool, true, false, some, [], ◌∷◌, ◌++◌, arith, inl, inr, ◌==◌,
  Bool-cases, ==_eq, replicate,
}
use mathlib.Core.Path.{subst}
use bubackos.Pmem.{Pmem, free, system}
use bubackos.IdMapper.{IdMapper}
use bubackos.VirtualMemory.{
  Memory, VmemRegion, put, iterated, new_vmem, vmem_attach, vmem_get_physical_address, found,
}
use bubackos.VirtualMemory.Regions.{
  vmem_region_resize, vmem_region_map_physical_address, vmem_region_create,
}
use bubackos.VirtualMemory.Store.{Ample, map_of}
use bubackos.VirtualMemory.Mirror.{IsSound, maps_of, layout}
use bubackos.VirtualMemory.Growth.{AllSound}
use bubackos.VirtualMemory.Resize.{Resized, resize-Resized}
use bubackos.VirtualMemory.Attach.{vmem_attach-AllSound}
use bubackos.VirtualMemory.Creation.{Created, region_create-Created}
use bubackos.VirtualMemory.RoundTrip.{map_physical-get}

-- A region of one page at 8192, that starts at 1 MB
abbrev one_page : VmemRegion
one_page = record {
  vmem_region_id = 1;
  attached = [];
  name = 64;
  start = 1048576;
  size = 4096;
  allocated_size = 4096;
  user = true;
  writable = true;
  executable = false;
  pages = 8192 ∷ [];
}

-- Two pages that `pmem_allocate` looks at
abbrev few_pages : Pmem
few_pages = record {
  total_of_pages = 16386;
  total_memory = 67117056;
  pages = replicate 16384 system ++ (free ∷ free ∷ []);
}

abbrev no_ids : IdMapper
no_ids = record { next = 1; list = some [] }

abbrev start_memory : Memory
start_memory = record {
  vmems = λ v. new_vmem;
  regions = λ r. one_page;
  pmem = few_pages;
  answers = λ i. 65536 + 64 * i;
  vmem_id_mapper = no_ids;
  vmem_region_mapper = no_ids;
  kernel_vmem = 0;
}

start_memory-Ample : Ample start_memory
start_memory-Ample i = λ e. omega (arith, e)

start_memory-AllSound : AllSound start_memory
unfolding found
start_memory-AllSound s = record { sized = refl; there = tt; once = tt; mirrored = λ v f. cc }

vmem_attach-AllSound_example :
    ((vmem_attach start_memory 3 5).0 ≡ true)
    × AllSound (vmem_attach start_memory 3 5).1
    × (((vmem_attach start_memory 3 5).1.regions 5).attached ≡ 3 ∷ [])
unfolding found iterated maps_of
vmem_attach-AllSound_example =
    vmem_attach-AllSound start_memory 3 5 start_memory-Ample start_memory-AllSound (λ e. cc)
      (λ e. cc) (omega arith) ((λ e. cc), tt) refl tt refl

-- The region at 5, attached to the virtual memory at 3
abbrev shared : VmemRegion
shared = record one_page { attached = 3 ∷ [] }

abbrev idle : VmemRegion
idle = record one_page { allocated_size = 0; pages = [] }

abbrev attached_memory : Memory
attached_memory = record start_memory {
  vmems = λ v. record new_vmem { map = map_of 5 8192 1048576 ∷ [] };
  regions = put 5 shared (λ r. idle);
}

shared-IsSound : IsSound 5 attached_memory
unfolding maps_of layout
shared-IsSound = record {
  sized = refl;
  there = ((λ e. cc), tt);
  once = (tt, tt);
  mirrored = λ v f. refl;
}

attached_memory-AllSound : AllSound attached_memory
unfolding found
attached_memory-AllSound s = elim (Bool-cases (5 == s)) [
  | inl e ↦ subst (λ (r : ℕ). IsSound r attached_memory) (==_eq 5 s e) shared-IsSound
  | inr e ↦ record {
    sized = rw e refl;
    there = rw e tt;
    once = rw e tt;
    mirrored = rw e (λ v f. cc);
  }
]

shared_found : found 3 (attached_memory.regions 5).attached ≡ true
unfolding found
shared_found = refl

-- The one page is at 1 MB in the virtual memory.

resize-Resized_example :
    (done : Bool) × (k' : Memory) × (vmem_region_resize attached_memory 5 6000 ≡ some (done, k'))
    × Resized 5 6000 attached_memory done k'
resize-Resized_example =
    resize-Resized attached_memory 5 6000 start_memory-Ample attached_memory-AllSound (λ e. cc)
      (omega arith) (omega arith)

-- Two pages from 32768 on come after the page that the region has.
map_physical-get_example :
    (k' : Memory) × (vaddr : ℕ) × (vmem_region_map_physical_address attached_memory 5 32768 8192
      ≡ some (vaddr, k'))
    × (vmem_get_physical_address k' 3 (vaddr + 5000) ≡ 37768)
map_physical-get_example =
    map_physical-get attached_memory 5 3 32768 1 5000 start_memory-Ample attached_memory-AllSound
      (λ e. cc) refl (omega arith) refl (omega arith) (omega arith) shared_found (inl refl, tt)
      (omega arith)

-- A region of 6000 bytes at 4 MB
region_create-Created_example :
    (answer : ℕ) × (k' : Memory) × (vmem_region_create attached_memory 3 64 4194304 6000 true true
        false
      ≡ some (answer, k'))
    × AllSound k'
    × (answer ≢ 0 → (answer ≡ 65536) × Created 3 4194304 6000 65536 k')
unfolding found iterated maps_of
region_create-Created_example =
    region_create-Created attached_memory 3 64 4194304 6000 true true false start_memory-Ample
      attached_memory-AllSound (λ e. cc) (λ e. cc) (λ e. cc) refl (omega arith) refl refl
      (omega arith)
