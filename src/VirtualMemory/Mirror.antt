-- ===== src/VirtualMemory/Mirror.antt =====
-- The maps of a virtual memory against the pages of its regions: what
-- `vmem_region_assoc_physical_address` and `vmem_attach` keep.
use bubackos.Prelude.{
  ℕ, ◌+◌, ◌*◌, ◌%◌, ◌≡◌, ◌≢◌, ◌⊎◌, ◌<◌, ◌≤◌, refl, sym, ap, ◌∙◌, true, false, List, [], ◌∷◌, ◌++◌,
  ◌==◌, if◌then◌else◌, arith, All, inl, inr, Bool-cases, ==_self, ==_ne, ==_eq, length, word_mod,
}
use mathlib.Core.Path.{subst}
use bubackos.Scheduler.Queue.{Nodup}
use bubackos.VirtualMemory.{Memory, VmemMap, found, vmem_notify_change}
use bubackos.VirtualMemory.Regions.{notify_all}
use bubackos.VirtualMemory.Store.{Ample, Notified, notify-Notified, map_of, found-absent}

-- The maps of one region, in their order
unfoldable pub maps_of : (region : ℕ) → List VmemMap → List VmemMap
maps_of region [] = []
maps_of region (m ∷ ms) =
    let rest = maps_of region ms in if m.region == region then m ∷ rest else rest

-- The maps that the pages of a region should have, from the `i`-th page on
unfoldable pub layout : (region start i : ℕ) → (pages : List ℕ) → List VmemMap
layout region start i [] = []
layout region start i (p ∷ ps) =
    map_of region p ((start + 4096 * i) % word_mod) ∷ layout region start (i + 1) ps

-- The maps of other regions than `r` are of addresses out of the range.
abbrev pub Apart : (r start end : ℕ) → List VmemMap → Type 0
Apart r start end = All (λ m. (m.region ≡ r) ⊎ ((m.virtual_addr < start) ⊎ (end ≤ m.virtual_addr)))

-- The region at `r`: `allocated_size` counts its pages, no virtual memory is attached twice or
-- NULL, and each one that is attached has exactly the maps of its pages.
pub record IsSound (r : ℕ) (k : Memory) : Type 0 where
  pub sized : (k.regions r).allocated_size ≡ (4096 * length (k.regions r).pages) % word_mod
  pub there : All (λ v. v ≢ 0) (k.regions r).attached
  pub once : Nodup (k.regions r).attached
  pub mirrored :
      (v : ℕ)
      → found v (k.regions r).attached ≡ true
      → maps_of r (k.vmems v).map ≡ layout r (k.regions r).start 0 (k.regions r).pages

pub maps_of-append :
    (r : ℕ) (ms ns : List VmemMap) → maps_of r (ms ++ ns) ≡ maps_of r ms ++ maps_of r ns
unfolding maps_of
maps_of-append r [] ns = refl
maps_of-append r (m ∷ ms) ns = elim (Bool-cases (m.region == r)) [
  | inl e ↦ rw (e, maps_of-append r ms ns) refl
  | inr e ↦ rw (e, maps_of-append r ms ns) refl
]

-- A new map of the region itself, and of another one
pub maps_of-own :
    (r paddr vaddr : ℕ) (ms : List VmemMap)
    → maps_of r (ms ++ (map_of r paddr vaddr ∷ [])) ≡ maps_of r ms ++ (map_of r paddr vaddr ∷ [])
unfolding maps_of
maps_of-own r paddr vaddr ms =
    maps_of-append r ms (map_of r paddr vaddr ∷ []) ∙ ap (λ t. maps_of r ms ++ t) single
  where
    single : maps_of r (map_of r paddr vaddr ∷ []) ≡ map_of r paddr vaddr ∷ []
    single = rw (==_self r) refl

pub maps_of-other :
    (s r paddr vaddr : ℕ) (ms : List VmemMap)
    → r ≢ s
    → maps_of s (ms ++ (map_of r paddr vaddr ∷ [])) ≡ maps_of s ms
unfolding maps_of
maps_of-other s r paddr vaddr [] ne = rw (==_ne r s ne) refl
maps_of-other s r paddr vaddr (m ∷ ms) ne = elim (Bool-cases (m.region == s)) [
  | inl e ↦ rw (e, maps_of-other s r paddr vaddr ms ne) refl
  | inr e ↦ rw (e, maps_of-other s r paddr vaddr ms ne) refl
]

pub layout-append :
    (r start i p : ℕ) (ps : List ℕ)
    → layout r start i (ps ++ (p ∷ []))
      ≡ layout r start i ps ++ (map_of r p ((start + 4096 * (i + length ps)) % word_mod) ∷ [])
unfolding layout
layout-append r start i p [] =
    ap (λ j. map_of r p ((start + 4096 * j) % word_mod) ∷ []) (omega arith)
layout-append r start i p (q ∷ ps) =
    ap (λ t. map_of r q ((start + 4096 * i) % word_mod) ∷ t)
      (layout-append r start (i + 1) p ps
        ∙ ap (λ j. layout r start (i + 1) ps ++ (map_of r p ((start + 4096 * j) % word_mod) ∷ []))
            (omega arith))

-- What telling all of `vs` leaves: the map at the end of those of each one.
pub record Told (vs : List ℕ) (region paddr vaddr : ℕ) (k k' : Memory) : Type 0 where
  pub ample : Ample k'
  pub regions_kept : k'.regions ≡ k.regions
  pub pmem_kept : k'.pmem ≡ k.pmem
  pub mapped :
      (v : ℕ)
      → found v vs ≡ true
      → (k'.vmems v).map ≡ (k.vmems v).map ++ (map_of region paddr vaddr ∷ [])
  pub others : (v : ℕ) → found v vs ≡ false → (k'.vmems v).map ≡ (k.vmems v).map

Told-step :
    (v : ℕ) (vs : List ℕ) (region paddr vaddr : ℕ) (k k1 k2 : Memory)
    → All (λ u. u ≢ v) vs
    → Notified v region paddr vaddr k k1
    → Told vs region paddr vaddr k1 k2
    → Told (v ∷ vs) region paddr vaddr k k2
unfolding found
Told-step v vs region paddr vaddr k k1 k2 d n t = record {
  ample = t.ample;
  regions_kept = t.regions_kept ∙ n.regions_kept;
  pmem_kept = t.pmem_kept ∙ n.pmem_kept;
  mapped = λ u. elim (Bool-cases (v == u)) [
    | inl e ↦ λ h.
        subst (λ (w : ℕ). (k2.vmems w).map ≡ (k.vmems w).map ++ (map_of region paddr vaddr ∷ []))
          (==_eq v u e) (t.others v (found-absent v vs d) ∙ n.mapped)
    | inr e ↦ λ h.
        t.mapped u (sym (rw e refl) ∙ h)
        ∙ ap (λ ms. ms ++ (map_of region paddr vaddr ∷ [])) (n.others u (λ q. ground arith))
  ];
  others = λ u. elim (Bool-cases (v == u)) [
    | inl e ↦ λ h. absurd (ground arith)
    | inr e ↦ λ h. t.others u (sym (rw e refl) ∙ h) ∙ n.others u (λ q. ground arith)
  ];
}

pub notify_all-Told :
    (k : Memory) (vs : List ℕ) (region paddr vaddr : ℕ)
    → Ample k
    → Nodup vs
    → ((notify_all k vs region paddr vaddr).0 ≡ true)
      × Told vs region paddr vaddr k (notify_all k vs region paddr vaddr).1
unfolding notify_all found
notify_all-Told k [] region paddr vaddr h d = (
  refl,
  record {
    ample = h;
    regions_kept = refl;
    pmem_kept = refl;
    mapped = λ v e. cc;
    others = λ v e. refl;
  },
)
notify_all-Told k (v ∷ vs) region paddr vaddr h d =
    let (e, n) = notify-Notified k v region paddr vaddr h in
    let k1 = (vmem_notify_change k v region paddr vaddr).1 in
    let (e', t) = notify_all-Told k1 vs region paddr vaddr n.ample d.1 in
    rw e (e', Told-step v vs region paddr vaddr k k1 _ d.0 n t)
