-- ===== src/Translation/Agreement.antt =====
-- What the processor reaches is what vmem_get_physical_address answers.
use bubackos.Prelude.{
  ℕ, ◌-◌, ◌*◌, ◌/◌, ◌%◌, ◌^◌, ◌≡◌, ◌≢◌, ◌<◌, ◌≤◌, refl, sym, ap, ◌∙◌, true, false, not, Option,
  some, none, List, [], ◌∷◌, inl, inr, Bool-cases, ==_eq, ==_ne, ◌==◌, if◌then◌else◌, length, add64,
  sub64, mem_align, arith,
}
use mathlib.Core.Path.{subst}
use bubackos.VirtualMemory.{
  Memory, VmemMap, PageMapEntry, physical_address_in, vmem_get_physical_address,
}
use bubackos.PageTable.Writing.{Paging}
use bubackos.PageTable.Levels.{IsRanked}
use bubackos.PageTable.Walk.{walk, native_vmem_set-walk}
use bubackos.PageTable.Frame.{walk-blank}
use bubackos.PageTable.Processor.{translate, IsPlain, translate-walk, native_vmem_set-IsPlain}
use bubackos.PageTable.Pages.{native_vmem_set-page}
use bubackos.Translation.{set_page, set_pages, is_write, is_exec, is_kernel_mode}
use bubackos.Translation.Steps.{InStep}

-- Pages at boundaries and below 2^48
abbrev pub Whole : List VmemMap → Type 0
Whole [] = Unit
Whole (m ∷ ms) =
    (m.virtual_addr % 4096 ≡ 0)
    × (m.virtual_addr < 2 ^ 48)
    × (m.physical_addr % 4096 ≡ 0)
    × (m.physical_addr < 2 ^ 48)
    × Whole ms

abbrev pub Absent : (virtual_addr : ℕ) → List VmemMap → Type 0
Absent a [] = Unit
Absent a (m ∷ ms) = (m.virtual_addr ≢ a) × Absent a ms

-- No page is mapped twice.
abbrev pub Unique : List VmemMap → Type 0
Unique [] = Unit
Unique (m ∷ ms) = Absent m.virtual_addr ms × Unique ms

-- The map of pages after the maps, where it was `before` before
last_page : List VmemMap → (v : ℕ) → (before : Option ℕ) → Option ℕ
last_page [] v before = before
last_page (m ∷ ms) v before =
    last_page ms v (if v / 4096 == m.virtual_addr / 4096 then some m.physical_addr else before)

abbrev pub answer : Option ℕ → (shifting : ℕ) → ℕ
answer none shifting = 0
answer (some p) shifting = add64 p shifting

set_pages-last_page :
    (ms : List VmemMap) (es : List PageMapEntry) (count : ℕ) (rank : ℕ → ℕ) (s : Paging) (t v : ℕ)
    → InStep ms es
    → Whole ms
    → IsRanked rank count s
    → 3 * length ms ≤ count
    → rank t ≡ 4
    → v < 2 ^ 48
    → walk 4 (set_pages s t es).tables t v ≡ last_page ms v (walk 4 s.tables t v)
unfolding set_pages set_page last_page
set_pages-last_page [] [] count rank s t v i w r c e l = refl
set_pages-last_page [] (x ∷ es) count rank s t v i w r c e l = absurd i
set_pages-last_page (m ∷ ms) [] count rank s t v i w r c e l = absurd i
set_pages-last_page (m ∷ ms) (x ∷ es) count rank s t v i w r c e l =
    let user = not (is_kernel_mode x.permission) in
    let page =
      native_vmem_set-page count rank s t x.virtual_addr v x.physical_addr x.size user
        (is_exec x.permission) (is_write x.permission) r (omega (arith, i.2))
        (omega (arith, i.2, c)) e (omega (arith, i.0, w.0)) (omega (arith, i.0, w.1))
        (omega (arith, i.1, w.3)) (omega (arith, i.1, w.2)) l in
    let (_, _, (rank', count', left, r', e')) =
      native_vmem_set-walk count rank s t x.virtual_addr x.physical_addr x.size user
        (is_exec x.permission) (is_write x.permission) r (omega (arith, i.2))
        (omega (arith, i.2, c)) e (omega (arith, i.0, w.0)) (omega (arith, i.1, w.3))
        (omega (arith, i.1, w.2)) in
    set_pages-last_page ms es count' rank' (set_page s t x) t v i.3 w.4 r'
      (omega (arith, left, c, i.2)) e' l
    ∙ ap (last_page ms v) (page ∙ rw (i.0, i.1) refl)

-- Of pages that are mapped once, the first map of a page is the last one.
Absent-last_page :
    (ms : List VmemMap) (v : ℕ) (before : Option ℕ)
    → Whole ms
    → Absent (mem_align v) ms
    → last_page ms v before ≡ before
unfolding last_page
Absent-last_page [] v before w a = refl
Absent-last_page (m ∷ ms) v before w a =
    let off : (v / 4096 == m.virtual_addr / 4096) ≡ false =
      ==_ne _ _ (λ z. a.0 (omega (arith, w.0, z))) in
    rw off (Absent-last_page ms v before w.4 a.1)

search-last_page :
    (ms : List VmemMap) (v shifting : ℕ)
    → Whole ms
    → Unique ms
    → physical_address_in ms (mem_align v) shifting ≡ answer (last_page ms v none) shifting
unfolding physical_address_in last_page
search-last_page [] v shifting w u = refl
search-last_page (m ∷ ms) v shifting w u = elim (Bool-cases (m.virtual_addr == mem_align v)) [
  | inl e ↦
      (let at = ==_eq m.virtual_addr (mem_align v) e in
        let on : (v / 4096 == m.virtual_addr / 4096) ≡ true = ground (arith, at, w.0) in
        rw (e, on)
          (sym (
            ap (λ (o : Option ℕ). answer o shifting)
              (Absent-last_page ms v (some m.physical_addr) w.4
                (subst (λ (a : ℕ). Absent a ms) at u.0)))))
  | inr e ↦
      (let off : (v / 4096 == m.virtual_addr / 4096) ≡ false = ground (arith, e, w.0) in
        rw (e, off) (search-last_page ms v shifting w.4 u.1))
]

get_physical_address-walk :
    (k : Memory) (vmem count : ℕ) (rank : ℕ → ℕ) (s : Paging) (t v : ℕ)
    → InStep (k.vmems vmem).map (k.vmems vmem).native_vmem
    → Whole (k.vmems vmem).map
    → Unique (k.vmems vmem).map
    → IsRanked rank count s
    → 3 * length (k.vmems vmem).map ≤ count
    → rank t ≡ 4
    → ((i : ℕ) → (s.tables t i).present ≡ false)
    → v < 2 ^ 48
    → vmem_get_physical_address k vmem v
      ≡ answer (walk 4 (set_pages s t (k.vmems vmem).native_vmem).tables t v) (v % 4096)
unfolding vmem_get_physical_address
get_physical_address-walk k vmem count rank s t v i w u r c e blank l =
    let off : sub64 v (mem_align v) ≡ v % 4096 = omega (arith, l) in
    rw off (
      search-last_page (k.vmems vmem).map v (v % 4096) w u
      ∙ ap (λ (o : Option ℕ). answer o (v % 4096))
          (sym (
            set_pages-last_page (k.vmems vmem).map (k.vmems vmem).native_vmem count rank s t v i w r
              c e l
            ∙ ap (last_page (k.vmems vmem).map v) (walk-blank 3 s.tables t v blank))))

set_pages-IsPlain :
    (ms : List VmemMap) (es : List PageMapEntry) (count : ℕ) (s : Paging) (t : ℕ)
    → InStep ms es
    → Whole ms
    → IsPlain count s
    → 3 * length ms ≤ count
    → IsPlain (count - 3 * length ms) (set_pages s t es)
unfolding set_pages set_page
set_pages-IsPlain [] [] count s t i w r c = record {
  plain = r.plain;
  low = λ j k. r.low j (omega (arith, k));
}
set_pages-IsPlain [] (x ∷ es) count s t i w r c = absurd i
set_pages-IsPlain (m ∷ ms) [] count s t i w r c = absurd i
set_pages-IsPlain (m ∷ ms) (x ∷ es) count s t i w r c =
    let y =
      native_vmem_set-IsPlain count s t x.virtual_addr x.physical_addr x.size
        (not (is_kernel_mode x.permission)) (is_exec x.permission) (is_write x.permission) r
        (omega (arith, i.2, c)) (omega (arith, i.1, w.3)) in
    let z =
      set_pages-IsPlain ms es (count - 3 * (x.size / 4096)) (set_page s t x) t i.3 w.4 y
        (omega (arith, c, i.2)) in
    record { plain = z.plain; low = λ j k. z.low j (omega (arith, k, i.2)) }

-- For a virtual memory whose maps are in step with its calls of `native_vmem_set`, and map whole
-- pages below 2^48, none of them twice: after these calls on page tables that have levels, whose
-- entries have no large page and lead to addresses below 2^48, and of which `t`, one of level 4, is
-- blank, with three tables to come at least for each page, the processor reaches from `t`, for every
-- address below 2^48, the byte that `vmem_get_physical_address` answers, which is 0 where the
-- processor reaches nothing.
pub get_physical_address-translate :
    (k : Memory) (vmem count : ℕ) (rank : ℕ → ℕ) (s : Paging) (t v : ℕ)
    → InStep (k.vmems vmem).map (k.vmems vmem).native_vmem
    → Whole (k.vmems vmem).map
    → Unique (k.vmems vmem).map
    → IsRanked rank count s
    → IsPlain count s
    → 3 * length (k.vmems vmem).map ≤ count
    → rank t ≡ 4
    → ((i : ℕ) → (s.tables t i).present ≡ false)
    → v < 2 ^ 48
    → vmem_get_physical_address k vmem v
      ≡ answer (translate 4 (set_pages s t (k.vmems vmem).native_vmem).tables t v) (v % 4096)
get_physical_address-translate k vmem count rank s t v i w u r q c e blank l =
    get_physical_address-walk k vmem count rank s t v i w u r c e blank l
    ∙ ap (λ o. answer o (v % 4096))
        (sym (
          translate-walk 4 (count - 3 * length (k.vmems vmem).map)
            (set_pages s t (k.vmems vmem).native_vmem) t v
            (set_pages-IsPlain (k.vmems vmem).map (k.vmems vmem).native_vmem count s t i w q c)))
