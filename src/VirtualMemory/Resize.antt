-- ===== src/VirtualMemory/Resize.antt =====
-- `vmem_region_resize` as a whole: it ends, and a success leaves the size and enough pages.
use bubackos.Prelude.{
  ℕ, ◌+◌, ◌*◌, ◌-◌, ◌/◌, ◌%◌, ◌≡◌, ◌≢◌, ◌<◌, ◌≤◌, refl, sym, ap, ◌∙◌, Bool, true, some, List, [],
  ◌++◌, arith, inl, inr, Bool-cases, ==_self, ==_ne, ==_eq, ◌==◌, if◌then◌else◌, length,
  length-append, sub64, align_next, word_mod, ltb, leb,
}
use mathlib.Core.List.{append-nil}
use bubackos.VirtualMemory.{Memory, put_region}
use bubackos.VirtualMemory.Regions.{set_size, vmem_region_resize}
use bubackos.VirtualMemory.Store.{Ample}
use bubackos.VirtualMemory.Mirror.{IsSound}
use bubackos.VirtualMemory.Growth.{AllSound, Enlarged, resize_loop-Enlarged}

-- A write of `size` changes nothing that soundness is about.
size-IsSound :
    (t n : ℕ) (k k' : Memory)
    → k'.regions t ≡ record (k.regions t) { size = n }
    → k'.vmems ≡ k.vmems
    → IsSound t k
    → IsSound t k'
size-IsSound t n k k' e v i = record {
  sized = rw e i.sized;
  there = rw e i.there;
  once = rw e i.once;
  mirrored = rw (e, v) i.mirrored;
}

abbrev pub put_size : (k : Memory) (r n : ℕ) → Memory
put_size k r n = put_region r (record (k.regions r) { size = n }) k

pub put_size-AllSound : (k : Memory) (r n : ℕ) → AllSound k → AllSound (put_size k r n)
unfolding put_region
put_size-AllSound k r n s t = elim (Bool-cases (r == t)) [
  | inl e ↦ size-IsSound t n k _ (rw (e, ==_eq r t e) refl) refl (s t)
  | inr e ↦ size-IsSound t (k.regions t).size k _ (rw e refl) refl (s t)
]

set_size-AllSound : (k : Memory) (r n : ℕ) → AllSound k → AllSound (set_size k r n)
unfolding set_size
set_size-AllSound k r n s = elim (Bool-cases (leb n (k.regions r).allocated_size)) [
  | inl e ↦ rw e (put_size-AllSound k r n s)
  | inr e ↦ rw e s
]

-- What the end of `vmem_region_resize` does to the region itself
set_size-region :
    (k : Memory) (r n : ℕ)
    → (set_size k r n).regions r ≡ record (k.regions r) {
      size = if leb n (k.regions r).allocated_size then n else (k.regions r).size;
    }
unfolding set_size put_region
set_size-region k r n = elim (Bool-cases (leb n (k.regions r).allocated_size)) [
  | inl e ↦ rw (e, ==_self r) refl
  | inr e ↦ rw e refl
]

-- What `vmem_region_resize` of the region at `r` to `n` bytes leaves, with its answer `done`.
pub record Resized (r n : ℕ) (k : Memory) (done : Bool) (k' : Memory) : Type 0 where
  pub sound : AllSound k'
  pub start_kept : (k'.regions r).start ≡ (k.regions r).start
  pub attached_kept : (k'.regions r).attached ≡ (k.regions r).attached
  pub added : List ℕ
  pub pages_added : (k'.regions r).pages ≡ (k.regions r).pages ++ added
  pub enough :
      done ≡ true
      → ((k'.regions r).size ≡ n)
        × (n ≤ 4096 * length (k'.regions r).pages)
        × (4096 * length added ≡ align_next n 4096 - 4096 * length (k.regions r).pages)

shrink-Resized :
    (k : Memory) (r n : ℕ)
    → AllSound k
    → 4096 * length (k.regions r).pages < word_mod
    → n + 4096 ≤ word_mod
    → align_next n 4096 < (k.regions r).allocated_size
    → Resized r n k true (set_size (put_size k r n) r n)
unfolding put_region
shrink-Resized k r n s w b lt =
    let e = set_size-region (put_size k r n) r n in
    let x : (put_size k r n).regions r ≡ record (k.regions r) { size = n } = rw (==_self r) refl in
    let z = (s r).sized in
    record {
      sound = set_size-AllSound _ r n (put_size-AllSound k r n s);
      start_kept = rw (e, x) refl;
      attached_kept = rw (e, x) refl;
      added = [];
      pages_added = rw (e, x) (sym (append-nil (k.regions r).pages));
      enough =
          λ d. rw (e, x) (ground arith, omega (arith, lt, z, w, b), omega (arith, lt, z, w, b));
    }

grow-Resized :
    (k k1 : Memory) (r n m : ℕ) (done : Bool)
    → AllSound k
    → 4096 * length (k.regions r).pages < word_mod
    → n + 4096 ≤ word_mod
    → 4096 * m ≡ align_next n 4096 - 4096 * length (k.regions r).pages
    → 4096 * length (k.regions r).pages ≤ align_next n 4096
    → Enlarged r m k done k1
    → Resized r n k done (set_size k1 r n)
grow-Resized k k1 r n m done s w b c l x =
    let e = set_size-region k1 r n in
    let counted : length (k1.regions r).pages ≡ length (k.regions r).pages + length x.added =
      ap length x.pages_added ∙ length-append (k.regions r).pages x.added in
    let z = (x.sound r).sized in
    record {
      sound = set_size-AllSound k1 r n x.sound;
      start_kept = rw e x.region_kept.0;
      attached_kept = rw e x.region_kept.1;
      added = x.added;
      pages_added = rw e x.pages_added;
      enough = λ d.
          (let q = x.complete d in
            rw e (
              ground (arith, z, counted, q, c, l, w, b),
              omega (arith, z, counted, q, c, l, w, b),
              omega (arith, z, counted, q, c, l, w, b),
            ));
    }

round_up : (n : ℕ) → n + 4096 ≤ word_mod → align_next n 4096 ≡ (n + 4095) / 4096 * 4096
round_up n b = omega arith

-- The space that the loop of the growth starts with, in pages
remain-pages :
    (alloc len n : ℕ)
    → alloc ≡ (4096 * len) % word_mod
    → 4096 * len < word_mod
    → n + 4096 ≤ word_mod
    → alloc ≤ align_next n 4096
    → (sub64 (align_next n 4096) alloc ≡ 4096 * (sub64 (align_next n 4096) alloc / 4096))
      × (4096 * (sub64 (align_next n 4096) alloc / 4096) ≡ align_next n 4096 - 4096 * len)
      × (4096 * len ≤ align_next n 4096)
remain-pages alloc len n z w b l =
    let f : alloc ≡ 4096 * len = omega (arith, z, w) in
    let e = round_up n b in
    let g : (n + 4095) / 4096 * 4096 < word_mod = omega (arith, b) in
    let d : sub64 (align_next n 4096) alloc ≡ ((n + 4095) / 4096 - len) * 4096 =
      rw (e, f) (narrow ((n + 4095) / 4096) len g (omega (arith, l, e, f))) in
    (omega (arith, d), omega (arith, d, e), omega (arith, l, f))
  where
    narrow : (a c : ℕ) → a * 4096 < word_mod → c ≤ a → sub64 (a * 4096) (4096 * c) ≡ (a - c) * 4096
    narrow a c g l' = omega arith

-- For a region that is not NULL, while `kalloc` answers memory and every region is sound, and
-- where neither the size nor that of the pages of the region overflows when it is rounded up,
-- `vmem_region_resize` ends: every region is sound again, the region keeps its start, its virtual
-- memories and its pages, to which others may be appended; and where it answers true the size is
-- the one that was asked for, the pages cover it, and those that were appended are as many as the
-- size rounded up to pages needs.
pub resize-Resized :
    (k : Memory) (r n : ℕ)
    → Ample k
    → AllSound k
    → r ≢ 0
    → 4096 * length (k.regions r).pages < word_mod
    → n + 4096 ≤ word_mod
    → (done : Bool) × (k' : Memory) × (vmem_region_resize k r n ≡ some (done, k'))
      × Resized r n k done k'
unfolding vmem_region_resize
resize-Resized k r n h s ne w b =
    let z = (s r).sized in
    let alloc = (k.regions r).allocated_size in
    elim (Bool-cases (ltb (align_next n 4096) alloc)) [
      | inl lt ↦ (
        true,
        set_size (put_size k r n) r n,
        rw (==_ne r 0 ne, lt) refl,
        shrink-Resized k r n s w b (ground (arith, lt)),
      )
      | inr ge ↦
          (let (whole, rest, fits) =
              remain-pages alloc (length (k.regions r).pages) n z w b (ground (arith, ge)) in
            let remain = sub64 (align_next n 4096) alloc in
            let (done, k1, e, x) =
              resize_loop-Enlarged (remain / 4096 + 1) (remain / 4096) k r remain h s whole
                (omega arith) (omega arith) in
            (
              done,
              set_size k1 r n,
              rw (==_ne r 0 ne, ge, e) refl,
              grow-Resized k k1 r n (remain / 4096) done s w b rest fits x,
            ))
    ]
