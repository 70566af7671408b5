-- ===== src/VirtualMemory/Association.antt =====
-- What `vmem_region_assoc_physical_address` keeps: the region grows by a page, and the virtual
-- memories that it is attached to have a map of it.
use bubackos.Prelude.{
  ℕ, ◌+◌, ◌*◌, ◌%◌, ◌≡◌, ◌≢◌, refl, sym, ap, ◌∙◌, Bool, true, false, [], ◌∷◌, ◌++◌, ◌==◌, arith,
  All-append, ◌⊎◌, ◌<◌, ◌≤◌, inl, inr, Bool-cases, ==_self, ==_ne, ==_eq, length, length-append,
  add64, system_page_size, word_mod,
}
use mathlib.Core.Path.{subst}
use bubackos.VirtualMemory.{Memory, Vmem, VmemMap, VmemRegion, kalloc, put_region, iterated, found}
use bubackos.VirtualMemory.Regions.{notify_all, keep_page, vmem_region_assoc_physical_address}
use bubackos.VirtualMemory.Store.{Ample, map_of, iterated_whole}
use bubackos.VirtualMemory.Mirror.{
  Apart, maps_of, maps_of-own, maps_of-other, layout, layout-append, IsSound, Told, notify_all-Told,
}

-- What `vmem_region_assoc_physical_address` does to the region itself
abbrev pub grown_by : (paddr : ℕ) → VmemRegion → VmemRegion
grown_by paddr x = record x {
  allocated_size = add64 x.allocated_size system_page_size;
  pages = x.pages ++ (paddr ∷ []);
}

-- What `vmem_region_assoc_physical_address` leaves, with its answer.
pub record Grown (r paddr : ℕ) (k : Memory) (answer : ℕ) (k' : Memory) : Type 0 where
  pub ample : Ample k'
  pub pmem_kept : k'.pmem ≡ k.pmem
  pub answered : answer ≡ add64 (k.regions r).start (k.regions r).allocated_size
  pub region : k'.regions r ≡ grown_by paddr (k.regions r)
  pub others : (s : ℕ) → s ≢ r → k'.regions s ≡ k.regions s
  pub mapped :
      (v : ℕ)
      → found v (k.regions r).attached ≡ true
      → (k'.vmems v).map
        ≡ (k.vmems v).map
          ++ (map_of r paddr (add64 (k.regions r).start (k.regions r).allocated_size) ∷ [])
  pub elsewhere :
      (v : ℕ) → found v (k.regions r).attached ≡ false → (k'.vmems v).map ≡ (k.vmems v).map

-- The state that the virtual memories are told in
kept : (k : Memory) (r paddr : ℕ) → Memory
kept k r paddr =
    keep_page
      (put_region r
        (record (k.regions r) {
          allocated_size = add64 (k.regions r).allocated_size system_page_size;
        })
        k)
      r paddr

kept-region :
    (k : Memory) (r paddr : ℕ) → Ample k → (kept k r paddr).regions r ≡ grown_by paddr (k.regions r)
unfolding kept keep_page kalloc put_region
kept-region k r paddr h = rw (==_ne (k.answers 0) 0 (h 0), ==_self r) refl

kept-frame :
    (k : Memory) (r paddr : ℕ)
    → Ample k
    → Ample (kept k r paddr)
      × ((kept k r paddr).pmem ≡ k.pmem)
      × ((kept k r paddr).vmems ≡ k.vmems)
      × ((s : ℕ) → s ≢ r → (kept k r paddr).regions s ≡ k.regions s)
unfolding kept keep_page kalloc put_region
kept-frame k r paddr h =
    rw (==_ne (k.answers 0) 0 (h 0))
      (λ i. h (i + 1), refl, refl, λ s ne. rw (==_ne r s (λ e. ne (sym e))) refl)

kept-Told :
    (k : Memory) (r paddr vaddr : ℕ)
    → Ample k
    → IsSound r k
    → ((notify_all
          (kept k r paddr)
          (iterated ((kept k r paddr).regions r).attached)
          r
          paddr
          vaddr).0
        ≡ true)
      × Told
          (k.regions r).attached
          r
          paddr
          vaddr
          (kept k r paddr)
          (notify_all
            (kept k r paddr)
            (iterated ((kept k r paddr).regions r).attached)
            r
            paddr
            vaddr).1
kept-Told k r paddr vaddr h s =
    let (ample, pmem, vmems, others) = kept-frame k r paddr h in
    rw (kept-region k r paddr h, iterated_whole (k.regions r).attached s.there)
      (notify_all-Told (kept k r paddr) (k.regions r).attached r paddr vaddr ample s.once)

pub assoc-Grown :
    (k : Memory) (r paddr : ℕ)
    → Ample k
    → IsSound r k
    → Grown r paddr k
        (vmem_region_assoc_physical_address k r paddr).0
        (vmem_region_assoc_physical_address k r paddr).1
unfolding vmem_region_assoc_physical_address kept
assoc-Grown k r paddr h s =
    let (ample, pmem, vmems, others) = kept-frame k r paddr h in
    let vaddr = add64 (k.regions r).start (k.regions r).allocated_size in
    let (done, t) = kept-Told k r paddr vaddr h s in
    rw done record {
      ample = t.ample;
      pmem_kept = t.pmem_kept ∙ pmem;
      answered = refl;
      region = ap (λ (f : ℕ → VmemRegion). f r) t.regions_kept ∙ kept-region k r paddr h;
      others = λ u ne. ap (λ (f : ℕ → VmemRegion). f u) t.regions_kept ∙ others u ne;
      mapped = λ v e.
          t.mapped v e ∙ ap (λ (f : ℕ → Vmem). (f v).map ++ (map_of r paddr vaddr ∷ [])) vmems;
      elsewhere = λ v e. t.others v e ∙ ap (λ (f : ℕ → Vmem). (f v).map) vmems;
    }

vaddr-index :
    (start allocated n : ℕ)
    → allocated ≡ (4096 * n) % word_mod
    → add64 start allocated ≡ (start + 4096 * (0 + n)) % word_mod
vaddr-index start allocated n e = omega arith

-- A region that is sound stays so.
Grown-IsSound :
    (r paddr answer : ℕ) (k k' : Memory) → Grown r paddr k answer k' → IsSound r k → IsSound r k'
Grown-IsSound r paddr answer k k' g s =
    let x = k.regions r in
    record {
      sized = rw (g.region, length-append x.pages (paddr ∷ [])) (omega (arith, s.sized));
      there = rw g.region s.there;
      once = rw g.region s.once;
      mirrored = rw g.region (λ v e.
          ap (maps_of r) (g.mapped v e)
          ∙ maps_of-own r paddr (add64 x.start x.allocated_size) (k.vmems v).map
          ∙ ap (λ ms. ms ++ (map_of r paddr (add64 x.start x.allocated_size) ∷ [])) (s.mirrored v e)
          ∙ ap (λ a. layout r x.start 0 x.pages ++ (map_of r paddr a ∷ []))
              (vaddr-index x.start x.allocated_size (length x.pages) s.sized)
          ∙ sym (layout-append r x.start 0 paddr x.pages));
    }

-- Another region keeps its maps, and stays sound too.
other-IsSound :
    (r s paddr answer : ℕ) (k k' : Memory)
    → s ≢ r
    → Grown r paddr k answer k'
    → IsSound s k
    → IsSound s k'
other-IsSound r s paddr answer k k' ne g i =
    let e = g.others s ne in
    record {
      sized = rw e i.sized;
      there = rw e i.there;
      once = rw e i.once;
      mirrored = rw e (λ v h. kept-maps v (found v (k.regions r).attached) refl ∙ i.mirrored v h);
    }
  where
    kept-maps :
        (v : ℕ) (b : Bool)
        → found v (k.regions r).attached ≡ b
        → maps_of s (k'.vmems v).map ≡ maps_of s (k.vmems v).map
    kept-maps v true e =
        ap (maps_of s) (g.mapped v e)
        ∙ maps_of-other s r paddr (add64 (k.regions r).start (k.regions r).allocated_size)
            (k.vmems v).map (λ q. ne (sym q))
    kept-maps v false e = ap (maps_of s) (g.elsewhere v e)

pub Grown-IsSound_any :
    (r s paddr answer : ℕ) (k k' : Memory)
    → Grown r paddr k answer k'
    → IsSound r k
    → IsSound s k
    → IsSound s k'
Grown-IsSound_any r s paddr answer k k' g i j = elim (Bool-cases (s == r)) [
  | inl e ↦
      subst (λ (a : ℕ). IsSound a k') (sym (==_eq s r e)) (Grown-IsSound r paddr answer k k' g i)
  | inr e ↦ other-IsSound r s paddr answer k k' (λ q. ground arith) g j
]

-- The new maps are of the region itself.
pub Grown-Apart :
    (r paddr answer v low high : ℕ) (k k' : Memory)
    → Grown r paddr k answer k'
    → Apart r low high (k.vmems v).map
    → Apart r low high (k'.vmems v).map
Grown-Apart r paddr answer v low high k k' g a =
    elim (Bool-cases (found v (k.regions r).attached)) [
      | inl e ↦ rw (g.mapped v e) (
          All-append
            (λ (m : VmemMap). (m.region ≡ r) ⊎ ((m.virtual_addr < low) ⊎ (high ≤ m.virtual_addr)))
            (k.vmems v).map _ a (inl refl, tt))
      | inr e ↦ rw (g.elsewhere v e) a
    ]
