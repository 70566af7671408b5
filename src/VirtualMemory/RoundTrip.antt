-- ===== src/VirtualMemory/RoundTrip.antt =====
-- A range of physical memory that is mapped to a region is found at the address that is answered.
use bubackos.Prelude.{
  ℕ, suc, zero, ◌+◌, ◌*◌, ◌/◌, ◌%◌, ◌≡◌, ◌≢◌, ◌<◌, ◌≤◌, refl, ap, ◌∙◌, true, some, List, [], ◌∷◌,
  ◌++◌, arith, length, length-append, get_elem?, add64, word_mod,
}
use bubackos.VirtualMemory.{Memory, found, vmem_get_physical_address}
use bubackos.VirtualMemory.Regions.{vmem_region_map_physical_address}
use bubackos.VirtualMemory.Store.{Ample}
use bubackos.VirtualMemory.Mirror.{Apart}
use bubackos.VirtualMemory.Growth.{AllSound}
use bubackos.VirtualMemory.Mapping.{run, map_physical-Mapped}
use bubackos.VirtualMemory.Lookup.{get_physical_address-page}

length-run : (m p : ℕ) → length (run m p) ≡ m
length-run zero p = refl
length-run (suc m) p = ap suc (length-run m (p + 4096))

get_elem?-run : (m p j : ℕ) → j < m → get_elem? (run m p) j ≡ some (p + 4096 * j)
get_elem?-run zero p j l = absurd (omega arith)
get_elem?-run (suc m) p zero l = ap some (omega arith)
get_elem?-run (suc m) p (suc j) l =
    get_elem?-run m (p + 4096) j (omega arith) ∙ ap some (omega arith)

get_elem?-after : (xs ys : List ℕ) (j : ℕ) → get_elem? (xs ++ ys) (length xs + j) ≡ get_elem? ys j
get_elem?-after [] ys j = ap (get_elem? ys) (omega arith)
get_elem?-after (x ∷ xs) ys j =
    ap (get_elem? (x ∷ xs ++ ys)) (next (length xs)) ∙ get_elem?-after xs ys j
  where
    next : (n : ℕ) → suc n + j ≡ suc (n + j)
    next n = omega arith

-- While `kalloc` answers memory and every region is sound: for a region that is not NULL, with an
-- aligned start that is not 0, whose virtual addresses with the new pages do not pass the end of
-- the address space, for a virtual memory that it is attached to, whose maps of other regions are
-- out of those addresses, and for one page or more of physical memory from the aligned address
-- `first` on that do not pass the end either, `vmem_region_map_physical_address` answers an
-- address, and `vmem_get_physical_address` of the byte `d` from it on is `first + d`, for each
-- `d` within the size.
pub map_physical-get :
    (k : Memory) (r v first m d : ℕ)
    → Ample k
    → AllSound k
    → r ≢ 0
    → first % 4096 ≡ 0
    → 0 < (k.regions r).start
    → (k.regions r).start % 4096 ≡ 0
    → (k.regions r).start + 4096 * (length (k.regions r).pages + suc m) ≤ word_mod
    → first + 4096 * suc m ≤ word_mod
    → found v (k.regions r).attached ≡ true
    → Apart r
        (k.regions r).start
        ((k.regions r).start + 4096 * (length (k.regions r).pages + suc m))
        (k.vmems v).map
    → d < 4096 * suc m
    → (k' : Memory) × (vaddr : ℕ) × (vmem_region_map_physical_address k r first (4096 * suc m)
        ≡ some (vaddr, k'))
      × (vmem_get_physical_address k' v (vaddr + d) ≡ first + d)
map_physical-get k r v first m d h s nr af p a b q f apart l =
    let x = k.regions r in
    let (k', e, z, filled) = map_physical-Mapped k r first m h s nr af p b q in
    let y = k'.regions r in
    let long : length y.pages ≡ length x.pages + suc m =
      ap length z.pages_added
      ∙ length-append x.pages (run (suc m) first)
      ∙ ap (λ n. length x.pages + n) (length-run (suc m) first) in
    let page : get_elem? y.pages (length x.pages + d / 4096) ≡ some (first + 4096 * (d / 4096)) =
      ap (λ ps. get_elem? ps (length x.pages + d / 4096)) z.pages_added
      ∙ get_elem?-after x.pages (run (suc m) first) (d / 4096)
      ∙ get_elem?-run (suc m) first (d / 4096) (omega arith) in
    let far : Apart r y.start (y.start + 4096 * length y.pages) (k'.vmems v).map =
      rw (z.start_kept, long)
        (z.apart v x.start (x.start + 4096 * (length x.pages + suc m)) apart) in
    let found' : vmem_get_physical_address k' v
          (y.start + 4096 * (length x.pages + d / 4096) + d % 4096)
        ≡ add64 (first + 4096 * (d / 4096)) (d % 4096) =
      get_physical_address-page k' r v (length x.pages + d / 4096) (first + 4096 * (d / 4096))
        (d % 4096) (z.sound r) (rw z.attached_kept f) (rw z.start_kept a)
        (rw (z.start_kept, long) b) far page (omega arith) in
    (
      k',
      x.start + 4096 * length x.pages,
      e,
      ap (vmem_get_physical_address k' v) (omega (arith, z.start_kept))
          ∙ found'
          ∙ omega (arith, q, l),
    )
