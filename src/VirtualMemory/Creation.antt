-- ===== src/VirtualMemory/Creation.antt =====
-- `vmem_region_create`: a region that is answered is sound, attached and large enough.
use bubackos.Prelude.{
  ℕ, ◌+◌, ◌*◌, ◌%◌, ◌≡◌, ◌≢◌, ◌<◌, ◌≤◌, refl, ap, ◌∙◌, Bool, true, false, not, some, [], ◌∷◌, ◌++◌,
  arith, inl, inr, Bool-cases, ==_self, ==_ne, ==_eq, ◌==◌, if◌then◌else◌, length, word_mod,
  mem_align,
}
use mathlib.Core.Path.{subst}
use bubackos.IdMapper.{add}
use bubackos.VirtualMemory.{
  Memory, VmemRegion, kalloc, put, put_region, iterated, found, vmem_attach,
}
use bubackos.VirtualMemory.Regions.{add_region, complete, make_region, vmem_region_create}
use bubackos.VirtualMemory.Store.{Ample}
use bubackos.VirtualMemory.Mirror.{maps_of, IsSound}
use bubackos.VirtualMemory.Growth.{AllSound}
use bubackos.VirtualMemory.Attach.{vmem_attach-AllSound, vmem_attach-Attached}
use bubackos.VirtualMemory.Resize.{resize-Resized}

-- A new region, and the state that it is attached in
abbrev fresh : (name start : ℕ) (user writable executable : Bool) → VmemRegion
fresh name start user writable executable = record {
  vmem_region_id = 0;
  attached = [];
  name = name;
  start = start;
  size = 0;
  allocated_size = 0;
  user = user;
  writable = writable;
  executable = executable;
  pages = [];
}

with_fresh : (k : Memory) (name start : ℕ) (user writable executable : Bool) → Memory
with_fresh k name start user writable executable =
    put_region (k.answers 0) (fresh name start user writable executable)
      (kalloc (kalloc (kalloc k).1).1).1

-- What is said of a region that `vmem_region_create` answers
pub record Created (v start size : ℕ) (r : ℕ) (k' : Memory) : Type 0 where
  pub started : (k'.regions r).start ≡ start
  pub attached : (k'.regions r).attached ≡ v ∷ []
  pub sized : (k'.regions r).size ≡ size
  pub enough : size ≤ 4096 * length (k'.regions r).pages

fresh-AllSound :
    (k : Memory) (name start : ℕ) (user writable executable : Bool)
    → AllSound k
    → AllSound (with_fresh k name start user writable executable)
unfolding with_fresh kalloc put_region found
fresh-AllSound k name start user writable executable s t = elim (Bool-cases (k.answers 0 == t)) [
  | inl e ↦ record {
    sized = rw e refl;
    there = rw e tt;
    once = rw e tt;
    mirrored = rw e (λ v f. cc);
  }
  | inr e ↦
      (let i = s t in
        record {
          sized = rw e i.sized;
          there = rw e i.there;
          once = rw e i.once;
          mirrored = rw e i.mirrored;
        })
]

id-IsSound :
    (t x : ℕ) (k k' : Memory)
    → k'.regions t ≡ record (k.regions t) { vmem_region_id = x }
    → k'.vmems ≡ k.vmems
    → IsSound t k
    → IsSound t k'
id-IsSound t x k k' e v i = record {
  sized = rw e i.sized;
  there = rw e i.there;
  once = rw e i.once;
  mirrored = rw (e, v) i.mirrored;
}

-- The id that the mapper gives
new_id : (k : Memory) (r : ℕ) → ℕ
new_id k r = (add (not (k.answers 0 == 0)) (not (k.answers 1 == 0)) k.vmem_region_mapper r).0

-- The id changes nothing else, and the answer is 0 or the region.
add_region-frame :
    (k : Memory) (r : ℕ)
    → ((add_region k r).0 ≢ 0 → (add_region k r).0 ≡ r)
      × ((add_region k r).1.vmems ≡ k.vmems)
      × ((t : ℕ)
          → (add_region k r).1.regions t ≡ record (k.regions t) {
            vmem_region_id = if r == t then new_id k r else (k.regions t).vmem_region_id;
          })
unfolding add_region kalloc put_region new_id
add_region-frame k r = elim (Bool-cases (new_id k r == 0)) [
  | inl e ↦ rw (add_region, e) ((λ n. absurd (n refl)), refl, written)
  | inr e ↦ rw (add_region, e) ((λ n. refl), refl, written)
]
  where
    written :
        (t : ℕ)
        → put r (record (k.regions r) { vmem_region_id = new_id k r }) k.regions t
          ≡ record (k.regions t) {
            vmem_region_id = if r == t then new_id k r else (k.regions t).vmem_region_id;
          }
    written t = elim (Bool-cases (r == t)) [ inl e ↦ rw (e, ==_eq r t e) refl | inr e ↦ rw e refl ]

-- What `v`, `start` and `size` are to the region at `r`, once it is complete
complete-Created :
    (k : Memory) (v r size : ℕ)
    → Ample k
    → AllSound k
    → r ≢ 0
    → (k.regions r).attached ≡ v ∷ []
    → (k.regions r).pages ≡ []
    → size + 4096 ≤ word_mod
    → (answer : ℕ) × (k' : Memory) × (complete k r size ≡ some (answer, k'))
      × AllSound k'
      × (answer ≢ 0 → (answer ≡ r) × Created v (k.regions r).start size r k')
unfolding complete
complete-Created k v r size h s nr a p b =
    let short : 4096 * length (k.regions r).pages < word_mod = rw p (omega arith) in
    let (done, k1, e, x) = resize-Resized k r size h s nr short b in
    let (same, vs, regions) = add_region-frame k1 r in
    elim (Bool-cases done) [
      | inl d ↦ (
        (add_region k1 r).0,
        (add_region k1 r).1,
        rw (complete, e, d) refl,
        (λ t. id-IsSound t _ k1 _ (regions t) vs (x.sound t)),
        λ n.
            (let (fits, covered, exact) = x.enough d in
              (
                same n,
                record {
                  started = ap (λ (y : VmemRegion). y.start) (regions r) ∙ x.start_kept;
                  attached = ap (λ (y : VmemRegion). y.attached) (regions r) ∙ x.attached_kept ∙ a;
                  sized = ap (λ (y : VmemRegion). y.size) (regions r) ∙ fits;
                  enough = rw (regions r) covered;
                },
              )),
      )
      | inr d ↦ (0, k1, rw (complete, e, d) refl, x.sound, λ n. absurd (n refl))
    ]

make_region-Created :
    (k : Memory) (v name start size : ℕ) (user writable executable : Bool)
    → Ample k
    → AllSound k
    → v ≢ 0
    → start < word_mod
    → found (k.answers 0) (iterated (k.vmems v).regions) ≡ false
    → maps_of (k.answers 0) (k.vmems v).map ≡ []
    → size + 4096 ≤ word_mod
    → (answer : ℕ) × (k' : Memory) × (make_region k v name start size user writable executable
        ≡ some (answer, k'))
      × AllSound k'
      × (answer ≢ 0 → (answer ≡ k.answers 0) × Created v start size (k.answers 0) k')
unfolding make_region with_fresh kalloc put_region
make_region-Created k v name start size user writable executable h s nv w new clear b =
    let r = k.answers 0 in
    let k4 = with_fresh k name start user writable executable in
    let at : k4.regions r ≡ fresh name start user writable executable = rw (==_self r) refl in
    let sound = fresh-AllSound k name start user writable executable s in
    let ample : Ample k4 = λ i. h (i + 1 + 1 + 1) in
    let early : (k4.regions r).start < word_mod = rw at w in
    let (done, l) = vmem_attach-Attached k4 v r ample nv (h 0) early (rw at tt) new in
    let (_, sound', linked) =
      vmem_attach-AllSound k4 v r ample sound nv (h 0) early (rw at tt) new (rw at tt) clear in
    let k5 = (vmem_attach k4 v r).1 in
    let here : k5.regions r
        ≡ record (k4.regions r) { attached = (k4.regions r).attached ++ (v ∷ []) } =
      ap (λ (f : ℕ → VmemRegion). f r) l.regions ∙ rw (==_self r) refl in
    let (answer, k', e, all, c) =
      complete-Created k5 v r size l.ample sound' (h 0) (linked ∙ rw at refl) (rw (here, at) refl)
        b in
    (
      answer,
      k',
      rw (==_ne r 0 (h 0), ==_ne (k.answers 1) 0 (h 1), ==_ne (k.answers 2) 0 (h 2), done) e,
      all,
      λ n.
          subst (λ (z : ℕ). (answer ≡ r) × Created v z size r k')
            (ap (λ (y : VmemRegion). y.start) here ∙ ap (λ (y : VmemRegion). y.start) at) (c n),
    )

-- While `kalloc` answers memory and every region is sound, `vmem_region_create` of a region with a
-- name, at an aligned address of 64 bits that is not 0 and for a size that does not overflow when
-- it is rounded up, in a virtual memory that is not NULL and that does not have the address of the
-- new structure among its regions or its maps, ends, and every region is sound again. Where its
-- answer is not 0 it is the new structure: a region with that start and size, attached to that
-- virtual memory only, with pages that cover the size.
pub region_create-Created :
    (k : Memory) (v name start size : ℕ) (user writable executable : Bool)
    → Ample k
    → AllSound k
    → v ≢ 0
    → name ≢ 0
    → start ≢ 0
    → start % 4096 ≡ 0
    → start < word_mod
    → found (k.answers 0) (iterated (k.vmems v).regions) ≡ false
    → maps_of (k.answers 0) (k.vmems v).map ≡ []
    → size + 4096 ≤ word_mod
    → (answer : ℕ) × (k' : Memory) × (vmem_region_create k v name start size user writable
          executable
        ≡ some (answer, k'))
      × AllSound k'
      × (answer ≢ 0 → (answer ≡ k.answers 0) × Created v start size (k.answers 0) k')
unfolding vmem_region_create
region_create-Created k v name start size u w x h s nv nn ns a b new clear z =
    let aligned : (mem_align start == start) ≡ true = ground (arith, a) in
    let (answer, k', e, all, c) =
      make_region-Created k v name start size u w x h s nv b new clear z in
    (answer, k', rw (==_ne start 0 ns, ==_ne v 0 nv, ==_ne name 0 nn, aligned) e, all, c)
