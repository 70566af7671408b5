-- ===== src/VirtualMemory/Mapping.antt =====
-- `vmem_region_map_physical_address`: its loop ends, and the pages follow each other.
use bubackos.Prelude.{
  ℕ, suc, zero, ◌+◌, ◌*◌, ◌/◌, ◌%◌, ◌≡◌, ◌≢◌, ◌<◌, ◌≤◌, refl, sym, ap, ◌∙◌, true, some, List, [],
  ◌∷◌, ◌++◌, arith, ==_self, ==_ne, ◌==◌, if◌then◌else◌, length, length-append, add64, sub64,
  mem_align, word_mod,
}
use mathlib.Core.List.{append_assoc, append-nil}
use bubackos.VirtualMemory.{Memory, put_region}
use bubackos.VirtualMemory.Regions.{
  map_loop, vmem_region_assoc_physical_address, vmem_region_map_physical_address,
}
use bubackos.VirtualMemory.Store.{Ample}
use bubackos.VirtualMemory.Mirror.{Apart}
use bubackos.VirtualMemory.Association.{assoc-Grown, Grown-IsSound_any, Grown-Apart}
use bubackos.VirtualMemory.Growth.{AllSound}
use bubackos.VirtualMemory.Resize.{put_size, put_size-AllSound}

-- `m` pages from `paddr` on
abbrev pub run : (m paddr : ℕ) → List ℕ
run zero paddr = []
run (suc m) paddr = paddr ∷ run m (paddr + 4096)

-- What the map of `m` pages from `paddr` on leaves of the region at `r`.
pub record Mapped (r m paddr : ℕ) (k k' : Memory) : Type 0 where
  pub sound : AllSound k'
  pub start_kept : (k'.regions r).start ≡ (k.regions r).start
  pub attached_kept : (k'.regions r).attached ≡ (k.regions r).attached
  pub pages_added : (k'.regions r).pages ≡ (k.regions r).pages ++ run m paddr
  pub filled :
      (k.regions r).size ≡ (k.regions r).allocated_size
      → (k'.regions r).size ≡ (k'.regions r).allocated_size
  pub apart :
      (v low high : ℕ) → Apart r low high (k.vmems v).map → Apart r low high (k'.vmems v).map

-- A round of the loop: the region is grown, and its size is that of its pages.
pub record Round (r paddr : ℕ) (k : Memory) (k1 : Memory) : Type 0 where
  pub ample : Ample k1
  pub sound : AllSound k1
  pub region :
      ((k1.regions r).start ≡ (k.regions r).start)
      × ((k1.regions r).attached ≡ (k.regions r).attached)
      × ((k1.regions r).pages ≡ (k.regions r).pages ++ (paddr ∷ []))
      × ((k1.regions r).size ≡ (k1.regions r).allocated_size)
  pub apart :
      (v low high : ℕ) → Apart r low high (k.vmems v).map → Apart r low high (k1.vmems v).map

-- The state that the next round starts in
next_state : (k : Memory) (r paddr : ℕ) → Memory
next_state k r paddr =
    let k1 = (vmem_region_assoc_physical_address k r paddr).1 in
    put_size k1 r (k1.regions r).allocated_size

next_state-Round :
    (k : Memory) (r paddr : ℕ) → Ample k → AllSound k → Round r paddr k (next_state k r paddr)
unfolding next_state put_region
next_state-Round k r paddr h s =
    let g = assoc-Grown k r paddr h (s r) in
    let k1 = (vmem_region_assoc_physical_address k r paddr).1 in
    record {
      ample = g.ample;
      sound =
          put_size-AllSound k1 r (k1.regions r).allocated_size
            (λ t. Grown-IsSound_any r t paddr _ k k1 g (s r) (s t));
      region = rw (==_self r, g.region) (refl, refl, refl, refl);
      apart = λ v low high. Grown-Apart r paddr _ v low high k k1 g;
    }

Mapped-step :
    (r m paddr : ℕ) (k k1 k' : Memory)
    → Round r paddr k k1
    → Mapped r m (add64 paddr 4096) k1 k'
    → paddr + 4096 * suc m ≤ word_mod
    → Mapped r (suc m) paddr k k'
Mapped-step r m paddr k k1 k' o x b =
    let (start, attached, pages, size) = o.region in
    record {
      sound = x.sound;
      start_kept = x.start_kept ∙ start;
      attached_kept = x.attached_kept ∙ attached;
      pages_added =
          x.pages_added
          ∙ ap (λ ps. ps ++ run m (add64 paddr 4096)) pages
          ∙ append_assoc (k.regions r).pages (paddr ∷ []) (run m (add64 paddr 4096))
          ∙ ap (λ ps. (k.regions r).pages ++ (paddr ∷ ps)) (same m b);
      filled = λ e. x.filled size;
      apart = λ v low high a. x.apart v low high (o.apart v low high a);
    }
  where
    same :
        (n : ℕ) → paddr + 4096 * suc n ≤ word_mod → run n (add64 paddr 4096) ≡ run n (paddr + 4096)
    same zero l = refl
    same (suc n) l = ap (run (suc n)) (omega arith)

-- The address that a round answers is not 0.
round-address :
    (k : Memory) (r paddr m : ℕ)
    → Ample k
    → AllSound k
    → 0 < (k.regions r).start
    → (k.regions r).start + 4096 * (length (k.regions r).pages + suc m) ≤ word_mod
    → (vmem_region_assoc_physical_address k r paddr).0
      ≡ (k.regions r).start + 4096 * length (k.regions r).pages
round-address k r paddr m h s p b =
    let g = assoc-Grown k r paddr h (s r) in
    let z = (s r).sized in g.answered ∙ omega (arith, z, p, b)

room :
    (k k1 : Memory) (r paddr m : ℕ)
    → Round r paddr k k1
    → (k.regions r).start + 4096 * (length (k.regions r).pages + suc m) ≤ word_mod
    → (k1.regions r).start + 4096 * (length (k1.regions r).pages + m) ≤ word_mod
room k k1 r paddr m o b =
    let (start, attached, pages, size) = o.region in
    rw (start, pages, length-append (k.regions r).pages (paddr ∷ [])) (omega (arith, b))

map_loop-round :
    (n : ℕ) (k : Memory) (r first paddr remain answer answer' : ℕ)
    → remain ≢ 0
    → (vmem_region_assoc_physical_address k r paddr).0 ≢ 0
    → (if paddr == first then (vmem_region_assoc_physical_address k r paddr).0 else answer)
      ≡ answer'
    → map_loop (suc n) k r first paddr remain answer
      ≡ map_loop n (next_state k r paddr) r first (add64 paddr 4096) (sub64 remain 4096) answer'
unfolding map_loop next_state
map_loop-round n k r first paddr remain answer answer' more there e =
    rw (==_ne remain 0 more, ==_ne (vmem_region_assoc_physical_address k r paddr).0 0 there)
      (ap (λ a. map_loop n (next_state k r paddr) r first (add64 paddr 4096) (sub64 remain 4096) a)
        e)

-- The rounds after the first: the answer stays.
map_loop-Mapped :
    (n m : ℕ) (k : Memory) (r first paddr remain answer : ℕ)
    → Ample k
    → AllSound k
    → remain ≡ 4096 * m
    → m < n
    → remain < word_mod
    → 0 < (k.regions r).start
    → (k.regions r).start + 4096 * (length (k.regions r).pages + m) ≤ word_mod
    → paddr + 4096 * m ≤ word_mod
    → (0 < m → first < paddr)
    → (k' : Memory) × (map_loop n k r first paddr remain answer ≡ some (answer, k'))
      × Mapped r m paddr k k'
unfolding map_loop
map_loop-Mapped zero m k r first paddr remain answer h s e c w p b q f = absurd (omega arith)
map_loop-Mapped (suc n) zero k r first paddr remain answer h s e c w p b q f = (
  k,
  rw e refl,
  record {
    sound = s;
    start_kept = refl;
    attached_kept = refl;
    pages_added = sym (append-nil (k.regions r).pages);
    filled = λ d. d;
    apart = λ v low high a. a;
  },
)
map_loop-Mapped (suc n) (suc m) k r first paddr remain answer h s e c w p b q f =
    let o = next_state-Round k r paddr h s in
    let k1 = next_state k r paddr in
    let v = round-address k r paddr m h s p b in
    let lt = f (omega arith) in
    let (k', e', x) =
      map_loop-Mapped n m k1 r first (add64 paddr 4096) (sub64 remain 4096) answer o.ample o.sound
        (omega (arith, e, w)) (omega arith) (omega (arith, e, w)) (rw (o.region.0) p)
        (room k k1 r paddr m o b) (omega (arith, q, lt)) (λ d. omega (arith, q, lt, d)) in
    (
      k',
      map_loop-round n k r first paddr remain answer answer (omega (arith, e))
            (λ z. absurd (omega (arith, v, p, z))) (rw (==_ne paddr first (omega (arith, lt))) refl)
          ∙ e',
      Mapped-step r m paddr k k1 k' o x q,
    )

-- While `kalloc` answers memory and every region is sound, and for a region that is not NULL,
-- whose start is not 0, where neither the virtual nor the physical addresses pass the end of the
-- address space, `vmem_region_map_physical_address` of one page or more from an aligned address
-- on ends: it answers the address after the pages that the region had, the pages are appended one
-- after the other, every region is sound again, and the size of the region is that of its pages.
pub map_physical-Mapped :
    (k : Memory) (r first m : ℕ)
    → Ample k
    → AllSound k
    → r ≢ 0
    → first % 4096 ≡ 0
    → 0 < (k.regions r).start
    → (k.regions r).start + 4096 * (length (k.regions r).pages + suc m) ≤ word_mod
    → first + 4096 * suc m ≤ word_mod
    → (k' : Memory) × (vmem_region_map_physical_address k r first (4096 * suc m)
        ≡ some ((k.regions r).start + 4096 * length (k.regions r).pages, k'))
      × Mapped r (suc m) first k k'
      × ((k'.regions r).size ≡ (k'.regions r).allocated_size)
unfolding vmem_region_map_physical_address
map_physical-Mapped k r first m h s ne a p b q =
    let o = next_state-Round k r first h s in
    let k1 = next_state k r first in
    let v = round-address k r first m h s p b in
    let start = (k.regions r).start + 4096 * length (k.regions r).pages in
    let (k', e, x) =
      map_loop-Mapped (4096 * suc m / 4096) m k1 r first (add64 first 4096)
        (sub64 (4096 * suc m) 4096) start o.ample o.sound (omega (arith, q)) (omega arith)
        (omega (arith, q)) (rw o.region.0 p) (room k k1 r first m o b) (omega (arith, q))
        (λ d. omega (arith, q, d)) in
    let aligned : (first == mem_align first) ≡ true = ground (arith, a) in
    let whole : (4096 * suc m == mem_align (4096 * suc m)) ≡ true = ground arith in
    (
      k',
      rw (==_ne r 0 ne, aligned, whole)
          (ap (λ n. map_loop n k r first first (4096 * suc m) 0) count
            ∙ map_loop-round (4096 * suc m / 4096) k r first first (4096 * suc m) 0 start
                (omega arith) (λ z. absurd (omega (arith, v, p, z))) (rw (==_self first) v)
            ∙ e),
      Mapped-step r m first k k1 k' o x q,
      x.filled o.region.3,
    )
  where
    count : 4096 * suc m / 4096 + 1 ≡ suc (4096 * suc m / 4096)
    count = omega arith
