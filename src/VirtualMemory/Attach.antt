-- ===== src/VirtualMemory/Attach.antt =====
-- `vmem_attach`: the pages that the region already has are mapped in the virtual memory.
use bubackos.Prelude.{
  ℕ, ◌+◌, ◌*◌, ◌%◌, ◌≡◌, ◌≢◌, ◌<◌, refl, sym, ap, ◌∙◌, true, false, List, [], ◌∷◌, ◌++◌, arith, All,
  All-append, inl, inr, Bool-cases, ==_self, ==_ne, ==_eq, ◌==◌, if◌then◌else◌, add64, word_mod,
}
use mathlib.Core.Path.{subst}
use mathlib.Core.List.{append_assoc, append-nil}
use bubackos.Scheduler.Queue.{Nodup-append}
use bubackos.VirtualMemory.{
  Memory, VmemRegion, kalloc, put, put_vmem, put_region, iterated, found, vmem_notify_change,
  attach_pages, append_region, append_attached, vmem_attach,
}
use bubackos.VirtualMemory.Store.{Ample, notify-Notified, map_of, iterated_whole}
use bubackos.VirtualMemory.Mirror.{maps_of, maps_of-append, layout, IsSound}
use bubackos.VirtualMemory.Growth.{AllSound}

-- What the loop over the pages leaves, from the `i`-th page on.
pub record Filled (v r i : ℕ) (pages : List ℕ) (k k' : Memory) : Type 0 where
  pub ample : Ample k'
  pub regions_kept : k'.regions ≡ k.regions
  pub pmem_kept : k'.pmem ≡ k.pmem
  pub mapped : (k'.vmems v).map ≡ (k.vmems v).map ++ layout r (k.regions r).start i pages
  pub others : (u : ℕ) → u ≢ v → (k'.vmems u).map ≡ (k.vmems u).map

attach_pages-Filled :
    (k : Memory) (v r i vaddr : ℕ) (pages : List ℕ)
    → Ample k
    → vaddr ≡ ((k.regions r).start + 4096 * i) % word_mod
    → ((attach_pages k v r pages vaddr).0 ≡ true)
      × Filled v r i pages k (attach_pages k v r pages vaddr).1
unfolding attach_pages layout
attach_pages-Filled k v r i vaddr [] h e = (
  refl,
  record {
    ample = h;
    regions_kept = refl;
    pmem_kept = refl;
    mapped = sym (append-nil (k.vmems v).map);
    others = λ u ne. refl;
  },
)
attach_pages-Filled k v r i vaddr (p ∷ ps) h e =
    let (done, n) = notify-Notified k v r p vaddr h in
    let k1 = (vmem_notify_change k v r p vaddr).1 in
    let next : add64 vaddr 4096 ≡ ((k1.regions r).start + 4096 * (i + 1)) % word_mod =
      rw n.regions_kept (omega (arith, e)) in
    let (done', f) = attach_pages-Filled k1 v r (i + 1) (add64 vaddr 4096) ps n.ample next in
    rw done (
      done',
      record {
        ample = f.ample;
        regions_kept = f.regions_kept ∙ n.regions_kept;
        pmem_kept = f.pmem_kept ∙ n.pmem_kept;
        mapped =
            f.mapped
            ∙ ap (λ (g : ℕ → VmemRegion). (k1.vmems v).map ++ layout r (g r).start (i + 1) ps)
                n.regions_kept
            ∙ ap (λ ms. ms ++ layout r (k.regions r).start (i + 1) ps) n.mapped
            ∙ append_assoc (k.vmems v).map (map_of r p vaddr ∷ []) _
            ∙ ap (λ a. (k.vmems v).map ++ (map_of r p a ∷ layout r (k.regions r).start (i + 1) ps))
                e;
        others = λ u ne. f.others u ne ∙ n.others u ne;
      },
    )

-- The maps of the pages of one region are maps of it.
maps_of-layout :
    (s r start i : ℕ) (ps : List ℕ)
    → maps_of s (layout r start i ps) ≡ (if r == s then layout r start i ps else [])
unfolding maps_of layout
maps_of-layout s r start i [] = elim (Bool-cases (r == s)) [ inl e ↦ rw e refl | inr e ↦ rw e refl ]
maps_of-layout s r start i (p ∷ ps) = elim (Bool-cases (r == s)) [
  | inl e ↦ rw (maps_of-layout s r start (i + 1) ps, e) refl
  | inr e ↦ rw (maps_of-layout s r start (i + 1) ps, e) refl
]

-- The state that the pages are mapped in, where both lists got their nodes
linked : (k : Memory) (v r : ℕ) → Memory
linked k v r = (append_attached (append_region k v r).1 r v).1

linked-frame :
    (k : Memory) (v r : ℕ)
    → Ample k
    → Ample (linked k v r)
      × ((append_region k v r).0 ≡ true)
      × ((append_attached (append_region k v r).1 r v).0 ≡ true)
      × ((linked k v r).regions
          ≡ put r
              (record (k.regions r) { attached = (k.regions r).attached ++ (v ∷ []) })
              k.regions)
      × ((u : ℕ) → ((linked k v r).vmems u).map ≡ (k.vmems u).map)
unfolding linked append_region append_attached kalloc put_vmem put_region
linked-frame k v r h =
    rw (linked, ==_ne (k.answers 0) 0 (h 0), ==_ne (k.answers 1) 0 (h 1))
      (
        λ i. h (i + 1 + 1),
        refl,
        refl,
        refl,
        λ u. elim (Bool-cases (v == u)) [ inl e ↦ rw (e, ==_eq v u e) refl | inr e ↦ rw e refl ],
      )

found-append : (u v : ℕ) (xs : List ℕ) → u ≢ v → found u (xs ++ (v ∷ [])) ≡ true → found u xs ≡ true
unfolding found
found-append u v [] ne h = absurd (ground arith)
found-append u v (x ∷ xs) ne h = elim (Bool-cases (x == u)) [
  | inl e ↦ rw e refl
  | inr e ↦ rw e (found-append u v xs ne (sym (rw e refl) ∙ h))
]

-- What `vmem_attach` leaves, where it maps the pages.
pub record Attached (v r : ℕ) (k k' : Memory) : Type 0 where
  pub ample : Ample k'
  pub regions :
      k'.regions
      ≡ put r (record (k.regions r) { attached = (k.regions r).attached ++ (v ∷ []) }) k.regions
  pub mapped :
      (k'.vmems v).map ≡ (k.vmems v).map ++ layout r (k.regions r).start 0 (k.regions r).pages
  pub others : (u : ℕ) → u ≢ v → (k'.vmems u).map ≡ (k.vmems u).map

-- The region itself is sound again, with the virtual memory that it is attached to now.
own-IsSound :
    (v r : ℕ) (k k' : Memory)
    → Attached v r k k'
    → v ≢ 0
    → All (λ u. u ≢ v) (k.regions r).attached
    → maps_of r (k.vmems v).map ≡ []
    → IsSound r k
    → IsSound r k'
own-IsSound v r k k' a nz new clear s =
    let x = k.regions r in
    let e : k'.regions r ≡ record x { attached = x.attached ++ (v ∷ []) } =
      ap (λ (f : ℕ → VmemRegion). f r) a.regions ∙ rw (==_self r) refl in
    let pages = layout r x.start 0 x.pages in
    let all_own : maps_of r pages ≡ pages =
      maps_of-layout r r x.start 0 x.pages ∙ rw (==_self r) refl in
    record {
      sized = rw e s.sized;
      there = rw e (All-append (λ u. u ≢ 0) x.attached (v ∷ []) s.there (nz, tt));
      once = rw e (Nodup-append true x.attached v s.once new);
      mirrored = rw e (λ u f. elim (Bool-cases (u == v)) [
        | inl q ↦
            subst (λ (w : ℕ). maps_of r (k'.vmems w).map ≡ pages) (sym (==_eq u v q))
              (ap (maps_of r) a.mapped
                ∙ maps_of-append r (k.vmems v).map pages
                ∙ ap (λ ms. ms ++ maps_of r pages) clear
                ∙ all_own)
        | inr q ↦
            (let ne = λ (z : u ≡ v). absurd (ground (arith, q, z)) in
              ap (maps_of r) (a.others u ne) ∙ s.mirrored u (found-append u v x.attached ne f))
      ]);
    }

other-IsSound :
    (v r t : ℕ) (k k' : Memory) → Attached v r k k' → (r == t) ≡ false → IsSound t k → IsSound t k'
other-IsSound v r t k k' a ne s =
    let e : k'.regions t ≡ k.regions t = ap (λ (f : ℕ → VmemRegion). f t) a.regions ∙ rw ne refl in
    let pages = layout r (k.regions r).start 0 (k.regions r).pages in
    let none_of : maps_of t pages ≡ [] =
      maps_of-layout t r (k.regions r).start 0 (k.regions r).pages ∙ rw ne refl in
    record {
      sized = rw e s.sized;
      there = rw e s.there;
      once = rw e s.once;
      mirrored = rw e (λ u f. elim (Bool-cases (u == v)) [
        | inl q ↦
            subst (λ (w : ℕ). maps_of t (k'.vmems w).map ≡ maps_of t (k.vmems w).map)
              (sym (==_eq u v q))
              (ap (maps_of t) a.mapped
                ∙ maps_of-append t (k.vmems v).map pages
                ∙ ap (λ ms. maps_of t (k.vmems v).map ++ ms) none_of
                ∙ append-nil (maps_of t (k.vmems v).map))
            ∙ s.mirrored u f
        | inr q ↦ ap (maps_of t) (a.others u (λ z. absurd (ground (arith, q, z)))) ∙ s.mirrored u f
      ]);
    }

pub vmem_attach-Attached :
    (k : Memory) (v r : ℕ)
    → Ample k
    → v ≢ 0
    → r ≢ 0
    → (k.regions r).start < word_mod
    → All (λ p. p ≢ 0) (k.regions r).pages
    → found r (iterated (k.vmems v).regions) ≡ false
    → ((vmem_attach k v r).0 ≡ true) × Attached v r k (vmem_attach k v r).1
unfolding vmem_attach linked
vmem_attach-Attached k v r h nv nr lt full new =
    let x = k.regions r in
    let l = linked k v r in
    let (ample, appended, attached, regions, maps) = linked-frame k v r h in
    let e : l.regions r ≡ record x { attached = x.attached ++ (v ∷ []) } =
      ap (λ (f : ℕ → VmemRegion). f r) regions ∙ rw (==_self r) refl in
    let start : (l.regions r).start ≡ ((l.regions r).start + 4096 * 0) % word_mod =
      rw e (omega (arith, lt)) in
    let (mapped, f) =
      attach_pages-Filled l v r 0 (l.regions r).start (iterated (l.regions r).pages) ample start in
    rw (==_ne v 0 nv, ==_ne r 0 nr, new, appended, attached, mapped)
      (
        refl,
        record {
          ample = f.ample;
          regions = f.regions_kept ∙ regions;
          mapped =
              f.mapped
              ∙ ap (λ ms. ms ++ layout r (l.regions r).start 0 (iterated (l.regions r).pages))
                  (maps v)
              ∙ ap (λ (y : VmemRegion). (k.vmems v).map ++ layout r y.start 0 (iterated y.pages)) e
              ∙ ap (λ ps. (k.vmems v).map ++ layout r x.start 0 ps) (iterated_whole x.pages full);
          others = λ u ne. f.others u ne ∙ maps u;
        },
      )

-- While `kalloc` answers memory without growing the kernel's data, which would map pages in the
-- midst of the loop, and every region is sound, `vmem_attach` of a region to a virtual memory, neither of them NULL, where the region starts at an address of 64 bits and has no page
-- at 0, is not in the list of the virtual memory, nor the virtual memory in that of the region,
-- and the virtual memory has no map of it, answers true; every region is sound again, and the
-- virtual memory is appended to those that the region is attached to.
pub vmem_attach-AllSound :
    (k : Memory) (v r : ℕ)
    → Ample k
    → AllSound k
    → v ≢ 0
    → r ≢ 0
    → (k.regions r).start < word_mod
    → All (λ p. p ≢ 0) (k.regions r).pages
    → found r (iterated (k.vmems v).regions) ≡ false
    → All (λ u. u ≢ v) (k.regions r).attached
    → maps_of r (k.vmems v).map ≡ []
    → ((vmem_attach k v r).0 ≡ true)
      × AllSound (vmem_attach k v r).1
      × (((vmem_attach k v r).1.regions r).attached ≡ (k.regions r).attached ++ (v ∷ []))
vmem_attach-AllSound k v r h s nv nr lt full new fresh clear =
    let (done, a) = vmem_attach-Attached k v r h nv nr lt full new in
    (
      done,
      λ t. elim (Bool-cases (r == t)) [
        | inl e ↦
            subst (λ (w : ℕ). IsSound w (vmem_attach k v r).1) (==_eq r t e)
              (own-IsSound v r k _ a nv fresh clear (s r))
        | inr e ↦ other-IsSound v r t k _ a e (s t)
      ],
      ap (λ (f : ℕ → VmemRegion). (f r).attached) a.regions ∙ rw (==_self r) refl,
    )
