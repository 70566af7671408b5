-- ===== src/PageTable/Walk.antt =====
-- Where the page tables lead after a page was set, followed as set_entry follows them; Processor has
-- the processor's own walk.
use bubackos.Prelude.{
  ℕ, zero, suc, ◌+◌, ◌-◌, ◌*◌, ◌/◌, ◌%◌, ◌^◌, ◌≡◌, ◌<◌, ◌≤◌, refl, ap, ◌∙◌, Bool, true, Option,
  some, none, arith, inl, inr, Bool-cases, ==_self, ==_ne, ◌==◌, if◌then◌else◌, mem_align,
}
use bubackos.PageTable.{PageEntry, index_for_level, fill_entry_value}
use bubackos.PageTable.Writing.{
  Tables, Paging, entry_ptr, link_entries, set_entry, set_loop, native_vmem_set,
}
use bubackos.PageTable.Levels.{IsRanked, filled_ptr, set_table_self, ranked}
use bubackos.PageTable.Links.{link_entries-IsRanked, set_entry_above}
use bubackos.PageTable.Ranks.{set_loop-StaysRanked}

-- The address of the page that the entries lead to from a table of a level, or none
unfoldable pub walk : (level : ℕ) → Tables → (entries virtual_addr : ℕ) → Option ℕ
walk zero tables entries v = none
walk (suc zero) tables entries v =
    let e = tables entries (index_for_level 1 v) in if e.present then some (entry_ptr e) else none
walk (suc (suc n)) tables entries v =
    let e = tables entries (index_for_level (suc (suc n)) v) in
    let rest = walk (suc n) tables (entry_ptr e) v in if e.present then rest else none

-- A step of the walk through an entry that is present
pub walk_step :
    (n : ℕ) (tables : Tables) (t v a : ℕ) (e : PageEntry)
    → tables t (index_for_level (suc (suc n)) v) ≡ e
    → e.present ≡ true
    → entry_ptr e ≡ a
    → walk (suc (suc n)) tables t v ≡ walk (suc n) tables a v
unfolding walk
walk_step n tables t v a e q p z = rw (walk, q, p, z) refl

set_entry-walk :
    (n count : ℕ) (rank : ℕ → ℕ) (s : Paging) (t v p : ℕ) (user code writable : Bool)
    → IsRanked rank count s
    → n ≤ count
    → rank t ≡ suc n
    → p < 2 ^ 48
    → p % 4096 ≡ 0
    → walk (suc n) (set_entry (suc n) s t v p user code writable).tables t v ≡ some p
unfolding set_entry
set_entry-walk zero count rank s t v p user code writable r c e l a =
    let i = index_for_level 1 v in
    let (ptr, there) = filled_ptr (s.tables t i) p user code writable l a in
    unfold walk in rw (set_table_self s.tables t i _, there, ptr) refl
set_entry-walk (suc n) count rank s t v p user code writable r c e l a =
    let i = index_for_level (suc (suc n)) v in
    elim (Bool-cases (s.tables t i).present) [
      | inl linked ↦
          (let a0 = entry_ptr (s.tables t i) in
            rw (set_entry, linked)
              (walk_step n (set_entry (suc n) s a0 v p user code writable).tables t v a0
                  (s.tables t i)
                  (set_entry_above (suc n) count rank s a0 v p user code writable t i r
                    (omega (arith, c)) (r.linked t i n e linked) (omega (arith, e)))
                  linked refl
                ∙ set_entry-walk n count rank s a0 v p user code writable r (omega (arith, c))
                    (r.linked t i n e linked) l a))
      | inr missing ↦
          (let s1 = link_entries s t i in
            let new = s.created 0 in
            let rank1 = ranked rank new (suc n) in
            let r1 = link_entries-IsRanked count rank s t i n r (omega (arith, c)) e in
            let (ptr, there) =
              filled_ptr (s.tables t i) new true true true (r.placed 0 (omega (arith, c))).0
                (r.placed 0 (omega (arith, c))).1 in
            let level : rank1 new ≡ suc n = rw (==_self new) refl in
            let above : suc n < rank1 t =
              rw (==_ne t new (λ z. omega (arith, e, ap rank z, r.unranked 0)))
                (omega (arith, e)) in
            rw (set_entry, missing)
              (walk_step n (set_entry (suc n) s1 new v p user code writable).tables t v new
                  (fill_entry_value (s.tables t i) new true true true)
                  (set_entry_above (suc n) (count - 1) rank1 s1 new v p user code writable t i r1
                      (omega (arith, c)) level above
                    ∙ unfold link_entries in set_table_self s.tables t i _)
                  there ptr
                ∙ set_entry-walk n (count - 1) rank1 s1 new v p user code writable r1
                    (omega (arith, c)) level l a))
    ]

set_loop-walk :
    (n count : ℕ) (rank : ℕ → ℕ) (s : Paging) (t v p : ℕ) (user code writable : Bool)
    → IsRanked rank count s
    → 1 ≤ n
    → 3 * n ≤ count
    → rank t ≡ 4
    → p < 2 ^ 48
    → p % 4096 ≡ 0
    → walk 4 (set_loop n s t v p user code writable).tables t v ≡ some p
unfolding set_loop
set_loop-walk zero count rank s t v p user code writable r o c e l a = absurd (omega (arith, o))
set_loop-walk (suc n) count rank s t v p user code writable r o c e l a =
    let x = set_loop-StaysRanked n count rank s t v p user code writable r (omega (arith, c)) e in
    set_entry-walk 3 x.left x.new_rank (set_loop n s t v p user code writable) t v p user code
      writable x.is_ranked (omega (arith, c, x.enough)) (x.kept t (λ z. omega (arith, e, z)) ∙ e) l
      a

-- For tables with levels, of which `t` is one of level 4, for a page boundary, a physical page
-- below 2^48 and a size of at least a page, with three tables to come at least for each page of the
-- size, `native_vmem_set` answers true and `walk` then leads to that physical page from `t`
-- by the address; the tables have levels again, `t` is of level 4, and at most three tables were
-- used up for each page of the size.
pub native_vmem_set-walk :
    (count : ℕ) (rank : ℕ → ℕ) (s : Paging) (t v p size : ℕ) (user code writable : Bool)
    → IsRanked rank count s
    → 4096 ≤ size
    → 3 * (size / 4096) ≤ count
    → rank t ≡ 4
    → v % 4096 ≡ 0
    → p < 2 ^ 48
    → p % 4096 ≡ 0
    → ((native_vmem_set s t v p size user code writable).0 ≡ true)
      × (walk 4 (native_vmem_set s t v p size user code writable).1.tables t v ≡ some p)
      × ((rank' : ℕ → ℕ) × (count' : ℕ) × (count ≤ count' + 3 * (size / 4096))
          × IsRanked rank' count' (native_vmem_set s t v p size user code writable).1
          × (rank' t ≡ 4))
unfolding native_vmem_set
native_vmem_set-walk count rank s t v p size user code writable r o c e b l a =
    let whole : (v == mem_align v) ≡ true = ground (arith, b) in
    let aligned : (p == mem_align p) ≡ true = ground (arith, a) in
    let x = set_loop-StaysRanked (size / 4096) count rank s t v p user code writable r c e in
    rw (native_vmem_set, whole, aligned)
      (
        refl,
        set_loop-walk (size / 4096) count rank s t v p user code writable r (omega (arith, o)) c e l
            a,
        (
          x.new_rank,
          x.left,
          omega (arith, x.enough),
          x.is_ranked,
          x.kept t (λ z. omega (arith, e, z)) ∙ e,
        ),
      )
