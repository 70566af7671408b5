-- ===== src/VirtualMemory.antt =====
-- The virtual memories, src/kernel/core/src/vmem/services.c and the structures of
-- include/core/vmem: a virtual memory has regions and a map of its pages.
pub mod Regions
pub mod Store
pub mod Mirror
pub mod Association
pub mod Growth
pub mod Attach
pub mod Resize
pub mod Creation
pub mod Mapping
pub mod Lookup
pub mod RoundTrip
mod Tests
use bubackos.Prelude.{
  ℕ, ◌+◌, ◌*◌, Bool, true, false, not, ◌||◌, Option, none, some, List, [], ◌∷◌, ◌++◌, ◌==◌,
  if◌then◌else◌, add64, sub64, mem_align, system_page_size,
}
use bubackos.Pmem.{Pmem}
use bubackos.IdMapper.{IdMapper, add, get, create}
use bubackos.LinkedList.View.{without_first}

-- `page_map_entry_t`
pub record PageMapEntry : Type 0 where
  pub virtual_addr : ℕ
  pub physical_addr : ℕ
  pub size : ℕ
  pub permission : ℕ
  pub present : Bool

-- `vmem_map_t`; the region is its address.
pub record VmemMap : Type 0 where
  pub virtual_addr : ℕ
  pub physical_addr : ℕ
  pub region : ℕ

-- `vmem_region_t`; a list is the sequence of its values.
pub record VmemRegion : Type 0 where
  pub vmem_region_id : ℕ
  pub attached : List ℕ
  pub name : ℕ
  pub start : ℕ
  pub size : ℕ
  pub allocated_size : ℕ
  pub user : Bool
  pub writable : Bool
  pub executable : Bool
  pub pages : List ℕ

-- `vmem_t`; `native_vmem` is the sequence of the entries that `native_vmem_set` was called with.
pub record Vmem : Type 0 where
  pub vmem_id : ℕ
  pub native_vmem : List PageMapEntry
  pub regions : List ℕ
  pub map : List VmemMap
  pub next_start_address : ℕ

-- The structures by their addresses, the globals of the two files, the physical pages, and the
-- answers of the calls of `kalloc` to come, where 0 is NULL.
pub record Memory : Type 0 where
  pub vmems : ℕ → Vmem
  pub regions : ℕ → VmemRegion
  pub pmem : Pmem
  pub answers : ℕ → ℕ
  pub vmem_id_mapper : IdMapper
  pub vmem_region_mapper : IdMapper
  pub kernel_vmem : ℕ

-- `store` with `x` at the address `a`
abbrev pub put {ℓ} : {A : Type ℓ} → ℕ → A → (ℕ → A) → ℕ → A
put a x store b = if a == b then x else store b

unfoldable pub put_vmem : ℕ → Vmem → Memory → Memory
put_vmem v x k = record k { vmems = put v x k.vmems }

unfoldable pub put_region : ℕ → VmemRegion → Memory → Memory
put_region r x k = record k { regions = put r x k.regions }

-- A call of `kalloc`, as `NEW` and linkedlist.c make it, that finds the memory it answers in the pages
-- that the kernel's data has: it does not resize a region.
unfoldable pub kalloc : Memory → ℕ × Memory
kalloc k = (k.answers 0, record k { answers = λ i. k.answers (i + 1) })

-- What WHILE_LINKEDLIST_ITER goes over: it stops at a value of NULL.
unfoldable pub iterated : List ℕ → List ℕ
iterated [] = []
iterated (x ∷ xs) = let rest = iterated xs in if x == 0 then [] else x ∷ rest

-- `linkedlist_find(list, el) != -1`, in what is iterated
unfoldable pub found : ℕ → List ℕ → Bool
found el [] = false
found el (x ∷ xs) = let rest = found el xs in if x == el then true else rest

bit : Bool → ℕ → ℕ
bit true n = n
bit false n = 0

-- The bits that PERM_SET_KERNEL_MODE, PERM_SET_WRITE, PERM_SET_EXEC and PERM_SET_READ leave
unfoldable pub permission_of : VmemRegion → ℕ
unfolding bit
permission_of x = bit (not x.user) 8 + bit x.writable 2 + bit x.executable 4 + bit true 1

-- `vmem_notify_change`: the map, its node, and the entry of the page table.
unfoldable pub vmem_notify_change : Memory → (vmem region paddr vaddr : ℕ) → Bool × Memory
vmem_notify_change k vmem region paddr vaddr =
    let (map, k1) = kalloc k in
    if map == 0
    then (false, k1)
    else (let (node, k2) = kalloc k1 in
        if node == 0
        then (false, k2)
        else (let x = k2.vmems vmem in
            (
              true,
              put_vmem vmem
                  (record x {
                    map =
                        x.map
                        ++ (record { virtual_addr = vaddr; physical_addr = paddr; region = region }
                            ∷ []);
                    native_vmem =
                        x.native_vmem
                        ++ (record {
                          virtual_addr = vaddr;
                          physical_addr = paddr;
                          size = system_page_size;
                          permission = permission_of (k2.regions region);
                          present = true;
                        }
                            ∷ []);
                  })
                  k2,
            )))

-- The loop of `vmem_get_physical_address` over the maps
unfoldable pub physical_address_in : List VmemMap → (aligned shifting : ℕ) → ℕ
physical_address_in [] aligned shifting = 0
physical_address_in (m ∷ ms) aligned shifting =
    let rest = physical_address_in ms aligned shifting in
    if m.virtual_addr == aligned then add64 m.physical_addr shifting else rest

unfoldable pub vmem_get_physical_address : Memory → (vmem vaddr : ℕ) → ℕ
vmem_get_physical_address k vmem vaddr =
    let aligned = mem_align vaddr in
    physical_address_in (k.vmems vmem).map aligned (sub64 vaddr aligned)

-- The loop of `vmem_attach` over the pages of the region
unfoldable pub attach_pages :
    Memory → (vmem region : ℕ) → (pages : List ℕ) → (vaddr : ℕ) → Bool × Memory
attach_pages k vmem region [] vaddr = (true, k)
attach_pages k vmem region (paddr ∷ pages) vaddr =
    let (done, k1) = vmem_notify_change k vmem region paddr vaddr in
    let rest = attach_pages k1 vmem region pages (add64 vaddr system_page_size) in
    if done then rest else (false, k1)

-- `linkedlist_append` to the regions of a virtual memory
unfoldable pub append_region : Memory → (vmem region : ℕ) → Bool × Memory
append_region k vmem region =
    let (node, k1) = kalloc k in
    let x = k1.vmems vmem in
    if node == 0
    then (false, k1)
    else (true, put_vmem vmem (record x { regions = x.regions ++ (region ∷ []) }) k1)

-- `linkedlist_append` to the virtual memories that a region is attached to
unfoldable pub append_attached : Memory → (region vmem : ℕ) → Bool × Memory
append_attached k region vmem =
    let (node, k1) = kalloc k in
    let x = k1.regions region in
    if node == 0
    then (false, k1)
    else (true, put_region region (record x { attached = x.attached ++ (vmem ∷ []) }) k1)

-- What follows the label `error` of `vmem_attach`
unfoldable pub detach : Memory → (vmem region : ℕ) → Memory
detach k vmem region =
    let x = k.vmems vmem in
    let k1 = put_vmem vmem (record x { regions = without_first region x.regions }) k in
    let y = k1.regions region in
    put_region region (record y { attached = without_first vmem y.attached }) k1

unfoldable pub vmem_attach : Memory → (vmem vmem_region : ℕ) → Bool × Memory
vmem_attach k vmem vmem_region =
    if (vmem == 0) || (vmem_region == 0)
    then (false, k)
    else if found vmem_region (iterated (k.vmems vmem).regions)
    then (true, k)
    else (let (appended, k1) = append_region k vmem vmem_region in
        let (attached, k2) = append_attached k1 vmem_region vmem in
        let x = k2.regions vmem_region in
        let (mapped, k3) = attach_pages k2 vmem vmem_region (iterated x.pages) x.start in
        if not appended
        then (false, detach k1 vmem vmem_region)
        else if not attached
        then (false, detach k2 vmem vmem_region)
        else if mapped
        then (true, k3)
        else (false, detach k3 vmem vmem_region))

-- The loop of `vmem_create` over the regions of the kernel's virtual memory
unfoldable pub attach_all : Memory → (vmem : ℕ) → (regions : List ℕ) → Bool × Memory
attach_all k vmem [] = (true, k)
attach_all k vmem (r ∷ rs) =
    let (done, k1) = vmem_attach k vmem r in
    let rest = attach_all k1 vmem rs in if done then rest else (false, k1)

abbrev pub region_address_increment : ℕ
region_address_increment = 1 * 1024 * 1024

-- The kernel's regions are attached to any virtual memory, once the kernel's one is there.
unfoldable pub attach_kernel : Memory → (vmem : ℕ) → Bool × Memory
attach_kernel k vmem =
    if k.kernel_vmem == 0
    then (true, k)
    else attach_all k vmem (iterated (k.vmems k.kernel_vmem).regions)

-- `kalloc` fills the memory of a new structure with zeros.
abbrev pub new_vmem : Vmem
new_vmem = record {
  vmem_id = 0;
  native_vmem = [];
  regions = [];
  map = [];
  next_start_address = region_address_increment;
}

-- The end of `vmem_create`: the id. `id_mapper_add` makes an entry and a node.
unfoldable pub add_vmem : Memory → (vmem : ℕ) → ℕ × Memory
add_vmem k vmem =
    let (entry, k1) = kalloc k in
    let (node, k2) = kalloc k1 in
    let (id, mapper) = add (not (entry == 0)) (not (node == 0)) k2.vmem_id_mapper vmem in
    let x = k2.vmems vmem in
    let k3 = put_vmem vmem (record x { vmem_id = id }) (record k2 { vmem_id_mapper = mapper }) in
    if id == 0 then (0, k3) else (vmem, k3)

-- The same for a virtual memory whose list of regions is NULL: the first of the kernel's regions
-- cannot be appended, and only its own list is searched for the virtual memory. `none` where the
-- kernel has no region, so that the virtual memory is made without its list.
unfoldable pub attach_kernel_fails : Memory → (vmem : ℕ) → Option (ℕ × Memory)
attach_kernel_fails k vmem =
    if k.kernel_vmem == 0 then none else elim (iterated (k.vmems k.kernel_vmem).regions) [
      | [] ↦ none
      | r ∷ rs ↦ some (0, detach k vmem r)
    ]

-- `vmem_create`. `none` where it goes on with a list of regions or of maps that is NULL, which it
-- does not test; what becomes of such a virtual memory is not followed.
-- `native_ok` is the answer of `native_vmem_create`. `kfree` releases nothing, so that
-- `vmem_destroy` at `error` changes nothing.
unfoldable pub vmem_create : Memory → (native_ok : Bool) → Option (ℕ × Memory)
unfolding add_vmem attach_kernel attach_kernel_fails
vmem_create k native_ok =
    let (vmem, k1) = kalloc k in
    let (regions, k2) = kalloc k1 in
    let (map, k3) = kalloc k2 in
    let k4 = put_vmem vmem new_vmem k3 in
    let (attached, k5) = attach_kernel k4 vmem in
    if vmem == 0
    then some (0, k1)
    else if not native_ok
    then some (0, k4)
    else if regions == 0
    then attach_kernel_fails k4 vmem
    else if map == 0
    then none
    else if attached
    then some (add_vmem k5 vmem)
    else some (0, k5)

-- `vmem_get`, `none` as in the id mapper
unfoldable pub vmem_get : Memory → (vmem_id : ℕ) → Option ℕ
vmem_get k vmem_id = get (some k.vmem_id_mapper) vmem_id

-- `vmem_initialize`, before which there is no virtual memory: the kernel's one is created. The
-- answer of `id_mapper_create` is that the list of the mapper is there.
unfoldable pub vmem_initialize : Memory → (native_ok : Bool) → Option (Bool × Memory)
vmem_initialize k native_ok =
    let (list, k1) = kalloc k in
    let k2 = record k1 { vmem_id_mapper = create (not (list == 0)); kernel_vmem = 0 } in
    elim (vmem_create k2 native_ok) [
      | none ↦ none
      | some (v, k3) ↦ some (true, record k3 { kernel_vmem = v })
    ]
