-- ===== src/Boot/Reserved.antt =====
-- Memory that is reserved at boot is never handed out.
use mathlib.Core.Path.{subst}
use bubackos.Prelude.{
  ℕ, zero, suc, ◌+◌, ◌*◌, ◌/◌, ◌≤◌, ◌<◌, ◌≡◌, ◌≢◌, refl, none, some, List, [], ◌∷◌, get_elem?,
  length, All, system_page_size, word_mod, arith, sym, ◌∙◌, some_eq,
}
use bubackos.Pmem
use bubackos.Pmem.{Pmem, PageType, system, IsValid, initialize, set_as_system}
use bubackos.Pmem.Mark.{initialize-free, initialize-total, set_as_system-marks, set_as_system-total}
use bubackos.Pmem.Run.{Op, run, run-system, run-IsValid, allocate-system, set_as_system-kept}
use bubackos.Boot.{Region, reserve, reserve_segments, boot}

-- The region lies in the address space.
abbrev pub IsSmall : Region → Type 0
IsSmall r = r.addr_start + r.size < word_mod

-- The page overlaps the region, or begins at its end.
abbrev pub Covers : Region → ℕ → Type 0
Covers r q =
    (r.addr_start / system_page_size ≤ q) × (q ≤ (r.addr_start + r.size) / system_page_size)

reserve-covered :
    {s : Pmem} (r : Region) (q : ℕ)
    → IsValid s
    → IsSmall r
    → q < s.total_of_pages
    → Covers r q
    → get_elem? (reserve s r).pages q ≡ some system
reserve-covered r q v small lt (lo, hi) =
    (set_as_system-marks r.addr_start r.size v small).2 q lt ∙ ground arith

reserve-kept :
    (s : Pmem) (r : Region) (q : ℕ)
    → get_elem? s.pages q ≡ some system
    → get_elem? (reserve s r).pages q ≡ some system
reserve-kept s r q k = set_as_system-kept s r.addr_start r.size q k

reserve-IsValid : {s : Pmem} (r : Region) → IsValid s → IsSmall r → IsValid (reserve s r)
reserve-IsValid r v small = (set_as_system-marks r.addr_start r.size v small).1

reserve_segments-kept :
    (s : Pmem) (rs : List Region) (q : ℕ)
    → get_elem? s.pages q ≡ some system
    → get_elem? (reserve_segments s rs).pages q ≡ some system
unfolding reserve_segments
reserve_segments-kept s [] q k = k
reserve_segments-kept s (r ∷ rs) q k =
    reserve_segments-kept (reserve s r) rs q (reserve-kept s r q k)

reserve_segments-IsValid :
    {s : Pmem} (rs : List Region) → IsValid s → All IsSmall rs → IsValid (reserve_segments s rs)
unfolding reserve_segments
reserve_segments-IsValid [] v small = v
reserve_segments-IsValid {s} (r ∷ rs) v small =
    reserve_segments-IsValid {s = reserve s r} rs (reserve-IsValid {s = s} r v small.0) small.1

reserve_segments-total :
    (s : Pmem) (rs : List Region) → (reserve_segments s rs).total_of_pages ≡ s.total_of_pages
unfolding reserve_segments
reserve_segments-total s [] = refl
reserve_segments-total s (r ∷ rs) =
    reserve_segments-total (reserve s r) rs ∙ set_as_system-total s r.addr_start r.size

reserve_segments-covered :
    {s : Pmem} (rs : List Region) (i q : ℕ) (r : Region)
    → IsValid s
    → All IsSmall rs
    → get_elem? rs i ≡ some r
    → q < s.total_of_pages
    → Covers r q
    → get_elem? (reserve_segments s rs).pages q ≡ some system
unfolding reserve_segments
reserve_segments-covered [] i q r v small at lt c = absurd (nothing at)
  where
    nothing : none ≡ some r → ⊥
    nothing e = cc
reserve_segments-covered {s} (x ∷ rs) zero q r v small at lt c =
    reserve_segments-kept (reserve s x) rs q
      (reserve-covered {s = s} x q v small.0 lt (subst (λ y. Covers y q) (sym (some_eq at)) c))
reserve_segments-covered {s} (x ∷ rs) (suc i) q r v small at lt c =
    reserve_segments-covered {s = reserve s x} rs i q r (reserve-IsValid {s = s} x v small.0)
      small.1 at (subst (λ n. q < n) (sym (set_as_system-total s x.addr_start x.size)) lt) c

-- After a boot on less than 2^64 bytes of memory, in which the kernel and the reserved segments lie
-- in the address space: a page of the memory that the kernel or a reserved segment covers is a
-- SYSTEM page after any calls of pmem_allocate, pmem_set_as_system and pmem_release, and
-- pmem_allocate does not answer its address. Page 0 is left out of the last, since its address is
-- the answer of a failure.
pub boot-reserved :
    (block : List PageType) (total_memory : ℕ) (segments : List Region) (kernel : Region)
    (ops : List Op) (i q : ℕ) (r : Region)
    → total_memory < word_mod
    → length block ≡ total_memory / system_page_size
    → All IsSmall (kernel ∷ segments)
    → get_elem? (kernel ∷ segments) i ≡ some r
    → q < total_memory / system_page_size
    → Covers r q
    → (get_elem? (run (boot block total_memory segments kernel) ops).pages q ≡ some system)
      × (q ≢ 0
          → (Pmem.allocate (run (boot block total_memory segments kernel) ops)).0
            ≢ q * system_page_size)
boot-reserved block t segments kernel ops i q r small sized fit at lt c =
    let k = run-system (boot block t segments kernel) ops q (marked i at) in
    (
      k,
      λ nz.
          allocate-system {s = run (boot block t segments kernel) ops} q
            (run-IsValid {s = boot block t segments kernel} ops valid) nz k,
    )
  where
    s : Pmem
    s = initialize block t

    v : IsValid s
    v = (initialize-free block t small sized).0

    inside : q < s.total_of_pages
    inside = subst (λ n. q < n) (initialize-total block t) lt

    valid : IsValid (boot block t segments kernel)
    valid =
        unfold boot in
        reserve-IsValid {s = reserve_segments s segments} kernel
          (reserve_segments-IsValid {s = s} segments v fit.1) fit.0

    marked :
        (i : ℕ)
        → get_elem? (kernel ∷ segments) i ≡ some r
        → get_elem? (boot block t segments kernel).pages q ≡ some system
    marked zero at =
        unfold boot in
        reserve-covered {s = reserve_segments s segments} kernel q
          (reserve_segments-IsValid {s = s} segments v fit.1) fit.0
          (subst (λ n. q < n) (sym (reserve_segments-total s segments)) inside)
          (subst (λ y. Covers y q) (sym (some_eq at)) c)
    marked (suc i) at =
        unfold boot in
        reserve-kept (reserve_segments s segments) kernel q
          (reserve_segments-covered {s = s} segments i q r v fit.1 at inside c)
