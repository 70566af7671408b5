-- ===== src/PageTable/Processor.antt =====
-- What the processor reaches through the page tables, after a page was set.
use bubackos.Prelude.{
  ℕ, zero, suc, ◌+◌, ◌-◌, ◌*◌, ◌/◌, ◌%◌, ◌^◌, ◌≡◌, ◌<◌, ◌≤◌, refl, sym, ap, ◌∙◌, Bool, true, false,
  not, ◌||◌, Option, some, none, arith, inl, inr, Bool-cases, ◌==◌, if◌then◌else◌, mem_align,
}
use bubackos.PageTable.{PageEntry, index_for_level, fill_entry_value}
use bubackos.PageTable.Index.{filled}
use bubackos.PageTable.Writing.{
  Tables, Paging, set_table, entry_ptr, link_entries, set_entry, set_loop, native_vmem_set,
}
use bubackos.PageTable.Levels.{IsRanked}
use bubackos.PageTable.Walk.{walk}
use bubackos.PageTable.Pages.{native_vmem_set-page}

-- The address in an entry: its bits from 12 to 51
abbrev pub frame : PageEntry → ℕ
frame e = (e.addr_12_shifted * 4096) % 2 ^ 52

-- The address of the page of 4096 bytes that the processor reaches from a table of a level, or none.
-- From level 2 on, bit 7 of an entry that is present makes it a page of its level, not a link; at
-- level 4 the bit is reserved.
unfoldable pub translate : (level : ℕ) → Tables → (entries virtual_addr : ℕ) → Option ℕ
translate zero tables entries v = none
translate (suc zero) tables entries v =
    let e = tables entries (index_for_level 1 v) in if e.present then some (frame e) else none
translate (suc (suc n)) tables entries v =
    let e = tables entries (index_for_level (suc (suc n)) v) in
    let size = 2 ^ (suc n * 9 + 12) in
    let rest = translate (suc n) tables (frame e) v in
    if e.present
    then (if e.entry_or_pat
        then (if suc (suc n) == 4
            then none
            else some (frame e / size * size + (v % size) / 4096 * 4096))
        else rest)
    else none

-- No entry has bit 7, and all lead to addresses below 2^48, as do the next `count` tables to come.
pub record IsPlain (count : ℕ) (s : Paging) : Type 0 where
  pub plain :
      (t i : ℕ) → ((s.tables t i).entry_or_pat ≡ false) × ((s.tables t i).addr_12_shifted < 2 ^ 36)
  pub low : (j : ℕ) → j < count → s.created j < 2 ^ 48

-- On such tables the processor goes where `walk` goes.
pub translate-walk :
    (n count : ℕ) (s : Paging) (t v : ℕ)
    → IsPlain count s
    → translate n s.tables t v ≡ walk n s.tables t v
unfolding translate walk
translate-walk zero count s t v p = refl
translate-walk (suc zero) count s t v p =
    let l = (p.plain t (index_for_level 1 v)).1 in
    let same : frame (s.tables t (index_for_level 1 v))
        ≡ entry_ptr (s.tables t (index_for_level 1 v)) =
      omega (arith, l) in
    rw same refl
translate-walk (suc (suc n)) count s t v p =
    let (small, l) = p.plain t (index_for_level (suc (suc n)) v) in
    let same : frame (s.tables t (index_for_level (suc (suc n)) v))
        ≡ entry_ptr (s.tables t (index_for_level (suc (suc n)) v)) =
      omega (arith, l) in
    rw
      (
        small,
        same,
        translate-walk (suc n) count s (entry_ptr (s.tables t (index_for_level (suc (suc n)) v))) v
            p,
      )
      refl

fewer : (m count : ℕ) (s : Paging) → m ≤ count → IsPlain count s → IsPlain m s
fewer m count s l p = record { plain = p.plain; low = λ j k. p.low j (omega (arith, k, l)) }

filled_plain :
    (e : PageEntry) (p : ℕ) (user code writable : Bool)
    → e.entry_or_pat ≡ false
    → p < 2 ^ 48
    → ((fill_entry_value e p user code writable).entry_or_pat ≡ false)
      × ((fill_entry_value e p user code writable).addr_12_shifted < 2 ^ 36)
filled_plain e p user code writable small l =
    rw (filled e p user code writable) (small, omega (arith, l))

set_table_plain :
    (s : Paging) (count t i p u j : ℕ) (user code writable : Bool)
    → IsPlain count s
    → p < 2 ^ 48
    → ((set_table s.tables t i
          (fill_entry_value (s.tables t i) p user code writable)
          u
          j).entry_or_pat
        ≡ false)
      × ((set_table s.tables t i
            (fill_entry_value (s.tables t i) p user code writable)
            u
            j).addr_12_shifted
          < 2 ^ 36)
set_table_plain s count t i p u j user code writable r l = elim (Bool-cases (u == t)) [
  | inl a ↦ elim (Bool-cases (j == i)) [
    | inl b ↦ rw (a, b) (filled_plain (s.tables t i) p user code writable (r.plain t i).0 l)
    | inr b ↦ rw (a, b) (r.plain u j)
  ]
  | inr a ↦ rw a (r.plain u j)
]

link_entries-IsPlain :
    (count : ℕ) (s : Paging) (t i : ℕ)
    → IsPlain count s
    → 0 < count
    → IsPlain (count - 1) (link_entries s t i)
unfolding link_entries
link_entries-IsPlain count s t i r l = record {
  plain = λ u j. set_table_plain s count t i (s.created 0) u j true true true r (r.low 0 l);
  low = λ j k. r.low (j + 1) (omega (arith, k));
}

set_entry-IsPlain :
    (n count : ℕ) (s : Paging) (t v p : ℕ) (user code writable : Bool)
    → IsPlain count s
    → n ≤ count
    → p < 2 ^ 48
    → IsPlain (count - n) (set_entry (suc n) s t v p user code writable)
unfolding set_entry
set_entry-IsPlain zero count s t v p user code writable r c l = record {
  plain = λ u j. set_table_plain s count t (index_for_level 1 v) p u j user code writable r l;
  low = λ j k. r.low j (omega (arith, k));
}
set_entry-IsPlain (suc n) count s t v p user code writable r c l =
    let i = index_for_level (suc (suc n)) v in
    elim (Bool-cases (s.tables t i).present) [
      | inl linked ↦
          rw (set_entry, linked)
            (fewer (count - suc n) (count - n) _ (omega arith) (
              set_entry-IsPlain n count s (entry_ptr (s.tables t i)) v p user code writable r
                (omega (arith, c)) l))
      | inr missing ↦
          rw (set_entry, missing)
            (fewer (count - suc n) (count - 1 - n) _ (omega arith) (
              set_entry-IsPlain n (count - 1) (link_entries s t i) (s.created 0) v p user code
                writable (link_entries-IsPlain count s t i r (omega (arith, c))) (omega (arith, c))
                l))
    ]

set_loop-IsPlain :
    (n count : ℕ) (s : Paging) (t v p : ℕ) (user code writable : Bool)
    → IsPlain count s
    → 3 * n ≤ count
    → p < 2 ^ 48
    → IsPlain (count - 3 * n) (set_loop n s t v p user code writable)
unfolding set_loop
set_loop-IsPlain zero count s t v p user code writable r c l =
    fewer (count - 0) count s (omega arith) r
set_loop-IsPlain (suc n) count s t v p user code writable r c l =
    fewer (count - 3 * suc n) (count - 3 * n - 3) _ (omega arith) (
      set_entry-IsPlain 3 (count - 3 * n) (set_loop n s t v p user code writable) t v p user code
        writable (set_loop-IsPlain n count s t v p user code writable r (omega (arith, c)) l)
        (omega (arith, c)) l)

pub native_vmem_set-IsPlain :
    (count : ℕ) (s : Paging) (t v p size : ℕ) (user code writable : Bool)
    → IsPlain count s
    → 3 * (size / 4096) ≤ count
    → p < 2 ^ 48
    → IsPlain (count - 3 * (size / 4096)) (native_vmem_set s t v p size user code writable).1
unfolding native_vmem_set
native_vmem_set-IsPlain count s t v p size user code writable r c l =
    elim (Bool-cases (not (v == mem_align v) || not (p == mem_align p))) [
      | inl bad ↦
          rw (native_vmem_set, bad) (fewer (count - 3 * (size / 4096)) count s (omega arith) r)
      | inr good ↦
          rw (native_vmem_set, good)
            (set_loop-IsPlain (size / 4096) count s t v p user code writable r c l)
    ]

-- For tables with levels, of which `t` is one of level 4, whose entries have no large page and lead to
-- addresses below 2^48; for a page boundary `v` below 2^48, a physical page `p` below 2^48 and a size
-- of at least a page, with three tables to come at least for each page of the size: `native_vmem_set`
-- is a write of one page to the map of pages that the processor reads from `t`. For every address
-- below 2^48 the processor reaches `p` afterwards if the address is on the page of `v`, also for a
-- larger size, and what it reached before if it is not.
pub native_vmem_set-translate :
    (count : ℕ) (rank : ℕ → ℕ) (s : Paging) (t v v' p size : ℕ) (user code writable : Bool)
    → IsRanked rank count s
    → IsPlain count s
    → 4096 ≤ size
    → 3 * (size / 4096) ≤ count
    → rank t ≡ 4
    → v % 4096 ≡ 0
    → v < 2 ^ 48
    → p < 2 ^ 48
    → p % 4096 ≡ 0
    → v' < 2 ^ 48
    → translate 4 (native_vmem_set s t v p size user code writable).1.tables t v'
      ≡ (if v' / 4096 == v / 4096 then some p else translate 4 s.tables t v')
native_vmem_set-translate count rank s t v v' p size user code writable r q o c e b small l a
      small' =
    translate-walk 4 (count - 3 * (size / 4096)) (native_vmem_set s t v p size user code writable).1
      t v' (native_vmem_set-IsPlain count s t v p size user code writable q c l)
    ∙ native_vmem_set-page count rank s t v v' p size user code writable r o c e b small l a small'
    ∙ ap (λ x. if v' / 4096 == v / 4096 then some p else x) (sym (translate-walk 4 count s t v' q))
