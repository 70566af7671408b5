-- ===== src/Pmem/Scan.antt =====
-- `pmem_allocate`: the first free page from 64 MB on.
use mathlib.Core.Path.{subst}
use bubackos.Prelude.{
  Option, ==_eq, ◌∙◌, ℕ, zero, suc, ◌+◌, ◌-◌, ◌*◌, ◌<◌, ◌≤◌, ◌≡◌, refl, true, false, some, none,
  arith, ◌==◌, if◌then◌else◌, ltb, get_elem?, Bool-cases, ◌⊎◌, inl, inr, system_page_size,
}
use bubackos.Pmem.{
  Pmem, PageType, system, free, user, set_page, IsValid, holds, next_page_loop, first_page,
  next_page_available, allocate,
}
use bubackos.Pmem.Pages.{pages-set_page, set_page-done, written}

-- Page `r` is the first of type `t` at `p` or behind it.
pub record IsFirst (s : Pmem) (t : PageType) (p r : ℕ) : Type 0 where
  pub low : p ≤ r
  pub in_memory : r < s.total_of_pages
  pub here : holds (get_elem? s.pages r) t ≡ true
  pub before : (q : ℕ) → p ≤ q → q < r → holds (get_elem? s.pages q) t ≡ false

-- No page of type `t` at `p` or behind it.
abbrev pub IsFull : Pmem → PageType → ℕ → Type 0
IsFull s t p = (q : ℕ) → p ≤ q → q < s.total_of_pages → holds (get_elem? s.pages q) t ≡ false

next_page_loop-IsFirst :
    (n : ℕ) (s : Pmem) (p : ℕ) (t : PageType)
    → 0 < p
    → s.total_of_pages ≤ n + p
    → IsFirst s t p (next_page_loop n s p t) ⊎ ((next_page_loop n s p t ≡ 0) × IsFull s t p)
unfolding next_page_loop
next_page_loop-IsFirst zero s p t h room = inr (refl, λ q lo hi. absurd (omega arith))
next_page_loop-IsFirst (suc n) s p t h room = elim (Bool-cases (ltb p s.total_of_pages)) [
  | inr out ↦ rw out (inr (refl, λ q lo hi. absurd (ground arith)))
  | inl more ↦ elim (Bool-cases (holds (get_elem? s.pages p) t)) [
    | inl hit ↦
        rw (more, hit)
          (inl (record {
            low = omega arith;
            in_memory = ground arith;
            here = hit;
            before = λ q lo hi. absurd (omega arith);
          }))
    | inr miss ↦
        rw (more, miss)
          (extend (next_page_loop-IsFirst n s (suc p) t (omega arith) (omega arith)) miss)
  ]
]
  where
    extend :
        {r : ℕ}
        → IsFirst s t (suc p) r ⊎ ((r ≡ 0) × IsFull s t (suc p))
        → holds (get_elem? s.pages p) t ≡ false
        → IsFirst s t p r ⊎ ((r ≡ 0) × IsFull s t p)
    extend (inl f) miss = inl (record {
      low = omega (arith, f.low);
      in_memory = f.in_memory;
      here = f.here;
      before = λ q lo hi. ground (arith, f.before q);
    })
    extend (inr f) miss = inr (f.0, λ q lo hi. ground (arith, f.1 q))

-- What `pmem_allocate` returns and does: the address of the first free page from 64 MB on, now a
-- USER page, with every other entry as it was; or 0 with nothing changed, when no page is free.
abbrev pub Allocated : Pmem → ℕ × Pmem → Type 0
Allocated s (addr, s') =
    (p : ℕ) × (addr ≡ p * system_page_size)
    × IsFirst s free first_page p
    × ((q : ℕ) → get_elem? s'.pages q ≡ (if p == q then some user else get_elem? s.pages q))

next_page_available-IsFirst :
    (s : Pmem)
    → IsFirst s free first_page (next_page_available s free)
      ⊎ ((next_page_available s free ≡ 0) × IsFull s free first_page)
unfolding next_page_available
next_page_available-IsFirst s =
    next_page_loop-IsFirst (s.total_of_pages - first_page) s first_page free (omega arith)
      (omega arith)

written-free : (o : Option PageType) (t : PageType) → holds o free ≡ true → written o t ≡ some t
written-free none t h = cc
written-free (some free) t h = refl
written-free (some system) t h = cc
written-free (some user) t h = cc

allocate-first :
    {s : Pmem} (p : ℕ)
    → IsValid s
    → next_page_available s free ≡ p
    → IsFirst s free first_page p
    → Allocated s (allocate s)
unfolding allocate
allocate-first {s} p v e f =
    let range : (p == 0) ≡ false = ground (arith, f.low) in
    let done : (set_page s p user).0 ≡ true =
      set_page-done s p user ∙ ground (arith, f.in_memory) in
    rw (e, range, done)
      (p, ground (arith, f.in_memory), f, λ q. pages-set_page p q user v ∙ settle q)
  where
    settle :
        (q : ℕ)
        → (if p == q then written (get_elem? s.pages q) user else get_elem? s.pages q)
          ≡ (if p == q then some user else get_elem? s.pages q)
    settle q = elim (Bool-cases (p == q)) [
      | inl same_page ↦ rw same_page (
          written-free _ user
            (subst (λ k. holds (get_elem? s.pages k) free ≡ true) (==_eq p q same_page) f.here))
      | inr other ↦ rw other
    ]

allocate-none : (s : Pmem) → next_page_available s free ≡ 0 → allocate s ≡ (0, s)
unfolding allocate
allocate-none s e = rw e

-- `pmem_allocate` on a valid state: either it returns the address of the first page from 64 MB on
-- that is free, makes that page a USER page and leaves every other entry; or it returns 0,
-- nothing changes, and there is no free page from 64 MB on.
pub allocate-first_free :
    {s : Pmem}
    → IsValid s
    → Allocated s (allocate s) ⊎ ((allocate s ≡ (0, s)) × IsFull s free first_page)
allocate-first_free {s} v = elim (next_page_available-IsFirst s) [
  | inl f ↦ inl (allocate-first _ v refl f)
  | inr (e, full) ↦ inr (allocate-none s e, full)
]
