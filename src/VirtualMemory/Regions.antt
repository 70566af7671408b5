-- ===== src/VirtualMemory/Regions.antt =====
-- The regions of the virtual memories, src/kernel/core/src/vmem/region_services.c.
use bubackos.Prelude.{
  ℕ, zero, suc, ◌+◌, ◌/◌, Bool, true, false, not, ◌||◌, Option, none, some, List, [], ◌∷◌, ◌++◌,
  ◌==◌, ltb, leb, if◌then◌else◌, add64, sub64, mem_align, align_next, system_page_size,
}
use bubackos.Pmem.{allocate}
use bubackos.IdMapper.{add}
use bubackos.VirtualMemory.{
  Memory, kalloc, put_region, put_vmem, iterated, vmem_notify_change, vmem_attach, append_region,
  detach, found, region_address_increment,
}

-- The loop of `vmem_region_assoc_physical_address`: every virtual memory is told.
unfoldable pub notify_all : Memory → (vmems : List ℕ) → (region paddr vaddr : ℕ) → Bool × Memory
notify_all k [] region paddr vaddr = (true, k)
notify_all k (v ∷ vs) region paddr vaddr =
    let (done, k1) = vmem_notify_change k v region paddr vaddr in
    let rest = notify_all k1 vs region paddr vaddr in if done then rest else (false, k1)

-- The page is kept where `linkedlist_append` gets its node; its answer is not tested.
unfoldable pub keep_page : Memory → (region paddr : ℕ) → Memory
keep_page k region paddr =
    let (node, k1) = kalloc k in
    let x = k1.regions region in
    if node == 0 then k1 else put_region region (record x { pages = x.pages ++ (paddr ∷ []) }) k1

unfoldable pub vmem_region_assoc_physical_address : Memory → (vmem_region paddr : ℕ) → ℕ × Memory
vmem_region_assoc_physical_address k vmem_region paddr =
    let x = k.regions vmem_region in
    let vaddr = add64 x.start x.allocated_size in
    let grown = record x { allocated_size = add64 x.allocated_size system_page_size } in
    let k1 = keep_page (put_region vmem_region grown k) vmem_region paddr in
    let (done, k2) =
      notify_all k1 (iterated (k1.regions vmem_region).attached) vmem_region paddr vaddr in
    (if done then vaddr else 0, k2)

-- The loop of `vmem_region_map_physical_address`, `none` where the rounds do not suffice.
unfoldable pub map_loop :
    (rounds : ℕ)
    → Memory
    → (vmem_region physical_start_addr paddr remaining returning_addr : ℕ) → Option (ℕ × Memory)
map_loop zero k r first paddr remaining answer = none
map_loop (suc n) k r first paddr remaining answer =
    let (vaddr, k1) = vmem_region_assoc_physical_address k r paddr in
    let x = k1.regions r in
    let rest =
      map_loop n (put_region r (record x { size = x.allocated_size }) k1) r first
        (add64 paddr system_page_size) (sub64 remaining system_page_size)
        (if paddr == first then vaddr else answer) in
    if remaining == 0 then some (answer, k) else if vaddr == 0 then some (0, k1) else rest

-- `vmem_region_map_physical_address`; `size` is a multiple of the page where the loop is reached.
unfoldable pub vmem_region_map_physical_address :
    Memory → (vmem_region physical_start_addr size : ℕ) → Option (ℕ × Memory)
vmem_region_map_physical_address k vmem_region first size =
    if vmem_region == 0
    then some (0, k)
    else if not (first == mem_align first) || not (size == mem_align size)
    then some (0, k)
    else map_loop (size / system_page_size + 1) k vmem_region first first size 0

-- `find_next_memory_address`
unfoldable pub find_next_memory_address : Memory → (vmem : ℕ) → ℕ × Memory
find_next_memory_address k vmem =
    let x = k.vmems vmem in
    (
      x.next_start_address,
      put_vmem vmem
          (record x { next_start_address = add64 x.next_start_address region_address_increment }) k,
    )

-- The loop of `vmem_region_resize`, with the answer `!failure`: a page after the other, until
-- the space is there or `pmem_allocate` has none. `none` where the rounds do not suffice.
unfoldable pub resize_loop :
    (rounds : ℕ) → Memory → (vmem_region remain_space : ℕ) → Option (Bool × Memory)
resize_loop zero k r remain_space = none
resize_loop (suc n) k r remain_space =
    let (paddr, pmem) = allocate k.pmem in
    let k1 = record k { pmem = pmem } in
    let rest =
      resize_loop n (vmem_region_assoc_physical_address k1 r paddr).1 r
        (sub64 remain_space system_page_size) in
    if remain_space == 0 then some (true, k) else if paddr == 0 then some (false, k1) else rest

-- The end of `vmem_region_resize`
unfoldable pub set_size : Memory → (vmem_region new_size : ℕ) → Memory
set_size k r new_size =
    let x = k.regions r in
    if leb new_size x.allocated_size then put_region r (record x { size = new_size }) k else k

-- `vmem_region_resize`; the page table is flushed at the end.
unfoldable pub vmem_region_resize : Memory → (vmem_region new_size : ℕ) → Option (Bool × Memory)
vmem_region_resize k r new_size =
    let x = k.regions r in
    let new_allocated_size = align_next new_size system_page_size in
    let remain_space = sub64 new_allocated_size x.allocated_size in
    let grown = resize_loop (remain_space / system_page_size + 1) k r remain_space in
    if r == 0
    then some (false, k)
    else if ltb new_allocated_size x.allocated_size
    then some (true, set_size (put_region r (record x { size = new_size }) k) r new_size)
    else elim grown [ none ↦ none | some (done, k1) ↦ some (done, set_size k1 r new_size) ]

-- The end of `vmem_region_create`: the id
unfoldable pub add_region : Memory → (vmem_region : ℕ) → ℕ × Memory
add_region k r =
    let (entry, k1) = kalloc k in
    let (node, k2) = kalloc k1 in
    let (id, mapper) = add (not (entry == 0)) (not (node == 0)) k2.vmem_region_mapper r in
    let x = k2.regions r in
    let k3 =
      put_region r (record x { vmem_region_id = id }) (record k2 { vmem_region_mapper = mapper }) in
    if id == 0 then (0, k3) else (r, k3)

-- The resize to `size` and the id, where the region is attached
unfoldable pub complete : Memory → (vmem_region size : ℕ) → Option (ℕ × Memory)
complete k r size = elim (vmem_region_resize k r size) [
  | none ↦ none
  | some (resized, k1) ↦ some (if resized then add_region k1 r else (0, k1))
]

-- `vmem_attach` of a new region whose list `attached` is NULL: the region is appended to those of the
-- virtual memory, the second `linkedlist_append` fails, and the region is removed again. `none` is a
-- new region at an address that the virtual memory has already.
unfoldable pub attach_fails : Memory → (vmem region : ℕ) → Option (ℕ × Memory)
attach_fails k vmem region =
    if found region (iterated (k.vmems vmem).regions)
    then none
    else some (0, detach (append_region k vmem region).1 vmem region)

-- `vmem_region_create` from the allocation of the structure on
unfoldable pub make_region :
    Memory → (vmem name start size : ℕ) → (user writable executable : Bool) → Option (ℕ × Memory)
make_region k vmem name start size user writable executable =
    let (r, k1) = kalloc k in
    let (pages, k2) = kalloc k1 in
    let (attached, k3) = kalloc k2 in
    let k4 =
      put_region r
        (record {
          vmem_region_id = 0;
          attached = [];
          name = name;
          start = start;
          size = 0;
          allocated_size = 0;
          user = user;
          writable = writable;
          executable = executable;
          pages = [];
        })
        k3 in
    let (done, k5) = vmem_attach k4 vmem r in
    if r == 0
    then some (0, k1)
    else if attached == 0
    then attach_fails k4 vmem r
    else if pages == 0
    then none
    else if done
    then complete k5 r size
    else some (0, k5)

-- `vmem_region_create`; the name is the address of the text. `none` where only the list of the pages
-- is NULL, which is not followed: the region then never keeps a page. And where
-- `vmem_region_resize` is. `kfree` releases
-- nothing, so that the lists at `error` stay as they are.
unfoldable pub vmem_region_create :
    Memory → (vmem name start size : ℕ) → (user writable executable : Bool) → Option (ℕ × Memory)
vmem_region_create k vmem name start size user writable executable =
    let (start', k') = if start == 0 then find_next_memory_address k vmem else (start, k) in
    if (vmem == 0) || (name == 0)
    then some (0, k)
    else if not (mem_align start' == start')
    then some (0, k')
    else make_region k' vmem name start' size user writable executable

-- `vmem_region_current_size`
unfoldable pub vmem_region_current_size : Memory → (vmem_region : ℕ) → ℕ
vmem_region_current_size k r = if r == 0 then 0 else (k.regions r).size
