-- ===== src/Pmem/Run.antt =====
-- Sequences of calls of the page allocator: what every caller can rely on.
use mathlib.Core.Path.{subst}
use mathlib.Core.Bool.{false≢true}
use bubackos.Prelude.{
  ◌∙◌, not, align, ℕ, zero, suc, ◌-◌, ◌*◌, ◌≤◌, ◌≡◌, ◌≢◌, refl, true, false, List, [], ◌∷◌, Option,
  some, none, arith, ◌==◌, ap, sym, ==_self, add64, get_elem?, All, Bool-cases, inl, inr,
  system_page_size,
}
use bubackos.Pmem
use bubackos.Pmem.{
  Pmem, PageType, system, free, user, set_page, IsValid, holds, system_loop, addr_to_page,
  first_page,
}
use bubackos.Pmem.Pages.{set_page-system, set_page-IsValid, pages-set_page, written}
use bubackos.Pmem.Scan.{allocate-first_free}
use bubackos.Pmem.Mark.{system_loop-IsValid}

-- The calls that change the state after the boot.
pub data Op : Type 0 where
  allocate : Op
  set_as_system : ℕ → ℕ → Op
  release : ℕ → Op

pub apply : Pmem → Op → Pmem
apply s allocate = (Pmem.allocate s).1
apply s (set_as_system addr size) = (Pmem.set_as_system s addr size).1
apply s (release addr) = (Pmem.release s addr).1

pub run : Pmem → List Op → Pmem
unfolding apply
run s [] = s
run s (op ∷ ops) = run (apply s op) ops

abbrev rounds : ℕ → ℕ → ℕ
rounds addr size = suc (addr_to_page (add64 addr size)) - addr_to_page addr

apply-IsValid : {s : Pmem} (op : Op) → IsValid s → IsValid (apply s op)
unfolding apply Pmem.allocate Pmem.set_as_system Pmem.release
apply-IsValid {s} allocate v =
    ground (arith, set_page-IsValid {s = s} (Pmem.next_page_available s free) user v)
apply-IsValid (set_as_system addr size) v =
    system_loop-IsValid (rounds addr size) (addr_to_page addr) v
apply-IsValid {s} (release addr) v =
    ground (arith, set_page-IsValid {s = s} (addr_to_page addr) free v)

-- Page `q` is not free.
abbrev pub IsKept : Pmem → ℕ → Type 0
IsKept s q = holds (get_elem? s.pages q) free ≡ false

written-kept :
    (o : Option PageType) (t : PageType)
    → holds (some t) free ≡ false
    → holds o free ≡ false
    → holds (written o t) free ≡ false
written-kept none t h k = k
written-kept (some free) t h k = h
written-kept (some system) t h k = k
written-kept (some user) t h k = h

set_page-IsKept :
    {s : Pmem} (p q : ℕ) (t : PageType)
    → IsValid s
    → holds (some t) free ≡ false
    → IsKept s q
    → IsKept (set_page s p t).1 q
set_page-IsKept {s} p q t v h k = rw (pages-set_page {s = s} p q t v) (elim (Bool-cases (p == q)) [
  | inl e ↦ rw e (written-kept (get_elem? s.pages q) t h k)
  | inr e ↦ rw e k
])

system_loop-IsKept :
    (n : ℕ) {s : Pmem} (page q : ℕ) → IsValid s → IsKept s q → IsKept (system_loop n s page) q
unfolding system_loop
system_loop-IsKept zero page q v k = k
system_loop-IsKept (suc n) page q v k =
    system_loop-IsKept n (suc page) q (set_page-IsValid page system v)
      (set_page-IsKept page q system v refl k)

release-IsKept :
    {s : Pmem} (addr p : ℕ)
    → IsValid s
    → addr ≢ p * system_page_size
    → IsKept s p
    → IsKept (Pmem.release s addr).1 p
unfolding Pmem.release
release-IsKept {s} addr p v ne k = elim (Bool-cases (not (align addr system_page_size == addr))) [
  | inl odd ↦ rw odd k
  | inr even ↦
      rw (even, pages-set_page {s = s} (addr_to_page addr) p free v)
        (elim (Bool-cases (addr_to_page addr == p)) [
          | inl e ↦ absurd (ne (ground arith))
          | inr e ↦ rw e k
        ])
]

apply-IsKept :
    {s : Pmem} (op : Op) (p : ℕ)
    → IsValid s
    → op ≢ release (p * system_page_size)
    → IsKept s p
    → IsKept (apply s op) p
unfolding apply Pmem.allocate Pmem.set_as_system Pmem.release
apply-IsKept {s} allocate p v ne k =
    ground (arith, set_page-IsKept {s = s} (Pmem.next_page_available s free) p user v refl k)
apply-IsKept (set_as_system addr size) p v ne k =
    system_loop-IsKept (rounds addr size) (addr_to_page addr) p v k
apply-IsKept (release addr) p v ne k = release-IsKept addr p v (λ e. ne (ap release e)) k

run-IsKept :
    {s : Pmem} (ops : List Op) (p : ℕ)
    → IsValid s
    → All (λ op. op ≢ release (p * system_page_size)) ops
    → IsKept s p
    → IsValid (run s ops) × IsKept (run s ops) p
unfolding run
run-IsKept [] p v h k = (v, k)
run-IsKept {s} (op ∷ ops) p v h k =
    run-IsKept {s = apply s op} ops p (apply-IsValid op v) h.1 (apply-IsKept op p v h.0 k)

not-allocated :
    {s : Pmem} (p : ℕ)
    → IsValid s
    → first_page ≤ p
    → IsKept s p
    → (Pmem.allocate s).0 ≢ p * system_page_size
not-allocated {s} p v low k e = elim (allocate-first_free v) [
  | inl (q, addr, f, _) ↦
      let same_page : q ≡ p = omega arith in
      cc (subst (λ r. holds (get_elem? s.pages r) free ≡ true) same_page f.here)
  | inr (no_page, _) ↦ omega (arith, ap (λ r. r.0) no_page)
]

-- On a valid state, if `pmem_allocate` answers an address other than 0, no later call answers the
-- same address, whatever calls of `pmem_allocate`, `pmem_set_as_system` and `pmem_release` stand
-- between, unless one of these is a `pmem_release` of that address.
pub allocate-exclusive :
    {s : Pmem} (ops : List Op)
    → IsValid s
    → (Pmem.allocate s).0 ≢ 0
    → All (λ op. op ≢ release (Pmem.allocate s).0) ops
    → (Pmem.allocate (run (Pmem.allocate s).1 ops)).0 ≢ (Pmem.allocate s).0
unfolding apply
allocate-exclusive {s} ops v got kept = elim (allocate-first_free v) [
  | inr (no_page, _) ↦ absurd (got (ap (λ r. r.0) no_page))
  | inl (p, addr, f, after) ↦
      let k : IsKept (Pmem.allocate s).1 p = rw (after p, ==_self p) refl in
      let later = run-IsKept ops p (apply-IsValid allocate v) (rw (sym addr) kept) k in
      rw addr (not-allocated p later.0 f.low later.1)
]

system_loop-system :
    (n : ℕ) (s : Pmem) (page q : ℕ)
    → get_elem? s.pages q ≡ some system
    → get_elem? (system_loop n s page).pages q ≡ some system
unfolding system_loop
system_loop-system zero s page q k = k
system_loop-system (suc n) s page q k =
    system_loop-system n (set_page s page system).1 (suc page) q (set_page-system s page q system k)

apply-system :
    (s : Pmem) (op : Op) (q : ℕ)
    → get_elem? s.pages q ≡ some system
    → get_elem? (apply s op).pages q ≡ some system
unfolding apply Pmem.allocate Pmem.set_as_system Pmem.release
apply-system s allocate q k =
    ground (arith, set_page-system s (Pmem.next_page_available s free) q user k)
apply-system s (set_as_system addr size) q k =
    system_loop-system (rounds addr size) s (addr_to_page addr) q k
apply-system s (release addr) q k = ground (arith, set_page-system s (addr_to_page addr) q free k)

-- A SYSTEM page is SYSTEM for ever: no sequence of calls changes it.
pub run-system :
    (s : Pmem) (ops : List Op) (q : ℕ)
    → get_elem? s.pages q ≡ some system
    → get_elem? (run s ops).pages q ≡ some system
unfolding run
run-system s [] q k = k
run-system s (op ∷ ops) q k = run-system (apply s op) ops q (apply-system s op q k)

pub run-IsValid : {s : Pmem} (ops : List Op) → IsValid s → IsValid (run s ops)
unfolding run
run-IsValid [] v = v
run-IsValid {s} (op ∷ ops) v = run-IsValid {s = apply s op} ops (apply-IsValid op v)

-- `pmem_allocate` does not hand out a SYSTEM page. Page 0 is left out, since its address is the
-- answer of a failure.
pub allocate-system :
    {s : Pmem} (q : ℕ)
    → IsValid s
    → q ≢ 0
    → get_elem? s.pages q ≡ some system
    → (Pmem.allocate s).0 ≢ q * system_page_size
allocate-system {s} q v nz k e = elim (allocate-first_free v) [
  | inl (p, addr, f, _) ↦
      let same_page : p ≡ q = omega arith in
      taken (k) (subst (λ r. holds (get_elem? s.pages r) free ≡ true) same_page f.here)
  | inr (no_page, _) ↦ omega (arith, ap (λ r. r.0) no_page)
]
  where
    taken : get_elem? s.pages q ≡ some system → holds (get_elem? s.pages q) free ≡ true → ⊥
    taken k h = absurd (false≢true (sym (ap (λ o. holds o free) k) ∙ h))

pub set_as_system-kept :
    (s : Pmem) (addr size q : ℕ)
    → get_elem? s.pages q ≡ some system
    → get_elem? (Pmem.set_as_system s addr size).1.pages q ≡ some system
unfolding Pmem.set_as_system
set_as_system-kept s addr size q k = system_loop-system (rounds addr size) s (addr_to_page addr) q k
