-- ===== src/VirtualMemory/Growth.antt =====
-- `vmem_region_resize`: its loop ends, and what it leaves.
use bubackos.Prelude.{
  ℕ, suc, zero, ◌*◌, ◌≡◌, ◌<◌, ◌≤◌, refl, sym, ap, ◌∙◌, Bool, true, false, some, List, [], ◌∷◌,
  ◌++◌, ◌==◌, arith, inl, inr, Bool-cases, ==_ne, length, sub64, word_mod,
}
use mathlib.Core.List.{append_assoc, append-nil}
use bubackos.Pmem.{allocate, Pmem}
use bubackos.VirtualMemory.{Memory, VmemRegion}
use bubackos.VirtualMemory.Regions.{resize_loop, vmem_region_assoc_physical_address}
use bubackos.VirtualMemory.Store.{Ample}
use bubackos.VirtualMemory.Mirror.{IsSound}
use bubackos.VirtualMemory.Association.{Grown, assoc-Grown, Grown-IsSound_any}

abbrev pub AllSound : Memory → Type 0
AllSound k = (s : ℕ) → IsSound s k

-- What the growth of the region at `r` by at most `m` pages leaves.
pub record Enlarged (r m : ℕ) (k : Memory) (done : Bool) (k' : Memory) : Type 0 where
  pub ample : Ample k'
  pub sound : AllSound k'
  pub added : List ℕ
  pub region_kept :
      ((k'.regions r).start ≡ (k.regions r).start)
      × ((k'.regions r).attached ≡ (k.regions r).attached)
  pub pages_added : (k'.regions r).pages ≡ (k.regions r).pages ++ added
  pub bounded : length added ≤ m
  pub complete : done ≡ true → length added ≡ m

-- A page more
Enlarged-step :
    (r m paddr answer : ℕ) (pmem : Pmem) (k k1 k' : Memory) (done : Bool)
    → Grown r paddr (record k { pmem = pmem }) answer k1
    → Enlarged r m k1 done k'
    → Enlarged r (suc m) k done k'
Enlarged-step r m paddr answer pmem k k1 k' done g e = record {
  ample = e.ample;
  sound = e.sound;
  added = paddr ∷ e.added;
  region_kept = (
    e.region_kept.0 ∙ ap (λ (x : VmemRegion). x.start) g.region,
    e.region_kept.1 ∙ ap (λ (x : VmemRegion). x.attached) g.region,
  );
  pages_added =
      e.pages_added
      ∙ ap (λ (x : VmemRegion). x.pages ++ e.added) g.region
      ∙ append_assoc (k.regions r).pages (paddr ∷ []) e.added;
  bounded = omega (arith, e.bounded);
  complete = λ d. omega (arith, e.complete d);
}

IsSound-pmem :
    (k : Memory) (pmem : Pmem) (s : ℕ) → IsSound s k → IsSound s (record k { pmem = pmem })
IsSound-pmem k pmem s i = record {
  sized = i.sized;
  there = i.there;
  once = i.once;
  mirrored = i.mirrored;
}

-- No page more
Enlarged-none :
    (r m : ℕ) (k k' : Memory) (done : Bool)
    → Ample k'
    → AllSound k'
    → k'.regions ≡ k.regions
    → (done ≡ true → 0 ≡ m)
    → Enlarged r m k done k'
Enlarged-none r m k k' done h s e c = record {
  ample = h;
  sound = s;
  added = [];
  region_kept = rw e (refl, refl);
  pages_added = rw e (sym (append-nil (k.regions r).pages));
  bounded = omega arith;
  complete = c;
}

-- The loop ends in at most `m` rounds and the last test, with the pages that it could get.
pub resize_loop-Enlarged :
    (n m : ℕ) (k : Memory) (r remain : ℕ)
    → Ample k
    → AllSound k
    → remain ≡ 4096 * m
    → m < n
    → remain < word_mod
    → (done : Bool) × (k' : Memory) × (resize_loop n k r remain ≡ some (done, k'))
      × Enlarged r m k done k'
unfolding resize_loop
resize_loop-Enlarged zero m k r remain h s e b w = absurd (omega arith)
resize_loop-Enlarged (suc n) zero k r remain h s e b w =
    (true, k, ground arith, Enlarged-none r 0 k k true h s refl (λ d. refl))
resize_loop-Enlarged (suc n) (suc m) k r remain h s e b w =
    let (paddr, pmem) = allocate k.pmem in
    let k1 = record k { pmem = pmem } in
    let s1 = λ (t : ℕ). IsSound-pmem k pmem t (s t) in
    let g = assoc-Grown k1 r paddr h (s1 r) in
    let (done, k', e', x) =
      resize_loop-Enlarged n m (vmem_region_assoc_physical_address k1 r paddr).1 r
        (sub64 remain 4096) g.ample (λ t. Grown-IsSound_any r t _ _ k1 _ g (s1 r) (s1 t))
        (omega arith) (omega arith) (omega arith) in
    elim (Bool-cases (paddr == 0)) [
      | inl none_left ↦ (
        false,
        k1,
        rw (==_ne remain 0 (omega arith), none_left) refl,
        Enlarged-none r (suc m) k k1 false h s1 refl (λ d. absurd (ground arith)),
      )
      | inr got ↦ (
        done,
        k',
        rw (==_ne remain 0 (omega arith), got) e',
        Enlarged-step r m paddr _ pmem k _ k' done g x,
      )
    ]
