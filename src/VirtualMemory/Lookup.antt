-- ===== src/VirtualMemory/Lookup.antt =====
-- `vmem_get_physical_address` finds the pages of a sound region.
use bubackos.Prelude.{
  ℕ, suc, zero, ◌+◌, ◌*◌, ◌%◌, ◌≡◌, ◌<◌, ◌≤◌, refl, ap, ◌∙◌, true, some, List, [], ◌∷◌, arith, inl,
  inr, Bool-cases, ==_ne, ◌==◌, length, get_elem?, some_eq, add64, sub64, mem_align, word_mod,
}
use bubackos.VirtualMemory.{Memory, VmemMap, found, physical_address_in, vmem_get_physical_address}
use bubackos.Pmem.Pages.{get_elem?-some}
use bubackos.VirtualMemory.Mirror.{maps_of, layout, IsSound, Apart}

-- The maps of the other regions do not matter to the search.
search-own :
    (r start end aligned off : ℕ) (ms : List VmemMap)
    → Apart r start end ms
    → start ≤ aligned
    → aligned < end
    → physical_address_in ms aligned off ≡ physical_address_in (maps_of r ms) aligned off
unfolding physical_address_in maps_of
search-own r start end aligned off [] a l u = refl
search-own r start end aligned off (m ∷ ms) a l u = elim (Bool-cases (m.region == r)) [
  | inl e ↦ rw (e, search-own r start end aligned off ms a.1 l u) refl
  | inr e ↦
      rw
        (
          e,
          ==_ne m.virtual_addr aligned (λ q. ground (arith, a.0)),
          search-own r start end aligned off ms a.1 l u,
        )
        refl
]

search-layout :
    (r start i j p off : ℕ) (ps : List ℕ)
    → start + 4096 * (i + length ps) ≤ word_mod
    → get_elem? ps j ≡ some p
    → physical_address_in (layout r start i ps) (start + 4096 * (i + j)) off ≡ add64 p off
unfolding physical_address_in layout
search-layout r start i j p off [] b e = cc
search-layout r start i zero p off (q ∷ ps) b e = rw (hit, some_eq e) refl
  where
    hit : ((start + 4096 * i) % word_mod == start + 4096 * (i + 0)) ≡ true
    hit = ground (arith, b)
search-layout r start i (suc j) p off (q ∷ ps) b e =
    rw (==_ne ((start + 4096 * i) % word_mod) (start + 4096 * (i + suc j)) (λ z. omega (arith, b)))
      (ap (λ a. physical_address_in (layout r start (i + 1) ps) a off) (omega arith)
        ∙ search-layout r start (i + 1) j p off ps (omega (arith, b)) e)

aligned_index :
    (start i off : ℕ)
    → start % 4096 ≡ 0
    → off < 4096
    → start + 4096 * i + off < word_mod
    → (mem_align (start + 4096 * i + off) ≡ start + 4096 * i)
      × (sub64 (start + 4096 * i + off) (mem_align (start + 4096 * i + off)) ≡ off)
aligned_index start i off a l b =
    let e : mem_align (start + 4096 * i + off) ≡ start + 4096 * i = omega arith in
    (e, rw e (omega arith))

-- For a sound region from an aligned start on, whose addresses do not pass the end of the address
-- space, and a virtual memory that it is attached to and whose maps of other regions are out of
-- the region's addresses: the address of the byte `off` of the page `i` of the region has, by
-- `vmem_get_physical_address`, the physical address of that byte of the page.
pub get_physical_address-page :
    (k : Memory) (r v i p off : ℕ)
    → IsSound r k
    → found v (k.regions r).attached ≡ true
    → (k.regions r).start % 4096 ≡ 0
    → (k.regions r).start + 4096 * length (k.regions r).pages ≤ word_mod
    → Apart r
        (k.regions r).start
        ((k.regions r).start + 4096 * length (k.regions r).pages)
        (k.vmems v).map
    → get_elem? (k.regions r).pages i ≡ some p
    → off < 4096
    → vmem_get_physical_address k v ((k.regions r).start + 4096 * i + off) ≡ add64 p off
unfolding vmem_get_physical_address
get_physical_address-page k r v i p off s f a b apart e l =
    let x = k.regions r in
    let below : i < length x.pages = get_elem?-some x.pages i e in
    let (same, rest) = aligned_index x.start i off a l (omega (arith, below, b)) in
    rw (rest, same)
      (search-own r x.start (x.start + 4096 * length x.pages) (x.start + 4096 * i) off
          (k.vmems v).map apart (omega arith) (omega (arith, below))
        ∙ ap (λ ms. physical_address_in ms (x.start + 4096 * i) off) (s.mirrored v f)
        ∙ ap (λ a. physical_address_in (layout r x.start 0 x.pages) a off) (omega arith)
        ∙ search-layout r x.start 0 i p off x.pages (omega (arith, b)) e)
