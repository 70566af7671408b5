-- ===== src/PageTable/Pages.antt =====
-- A write to the page tables as a write to a map of pages.
use bubackos.Prelude.{
  ℕ, zero, suc, ◌-◌, ◌*◌, ◌/◌, ◌%◌, ◌^◌, ◌≡◌, ◌≢◌, ◌<◌, ◌≤◌, refl, sym, ap, ◌∙◌, Bool, true, false,
  some, arith, inl, inr, Bool-cases, ==_self, ==_ne, ==_eq, ◌==◌, if◌then◌else◌, mem_align,
}
use bubackos.PageTable.{PageEntry, index_for_level}
use bubackos.PageTable.Index.{index_for_level-digits}
use bubackos.PageTable.Writing.{
  Tables, Paging, entry_ptr, link_entries, set_entry, set_loop, native_vmem_set,
}
use bubackos.PageTable.Levels.{IsRanked, filled_ptr, set_table_self, set_table_other, ranked}
use bubackos.PageTable.Links.{link_entries-IsRanked, set_entry_above, new_ptr}
use bubackos.PageTable.Ranks.{set_loop-StaysRanked}
use bubackos.PageTable.Walk.{walk, walk_step, native_vmem_set-walk}
use bubackos.PageTable.Frame.{
  walk-none, walk-blank, set_entry-linked, set_entry-missing, walk_beside, Differs,
}

-- The link to a new table, which is blank
new_present :
    {count : ℕ} (rank : ℕ → ℕ) (s : Paging) (t i : ℕ)
    → IsRanked rank count s
    → 0 < count
    → ((link_entries s t i).tables t i).present ≡ true
unfolding link_entries
new_present rank s t i r c =
    ap (λ (x : PageEntry). x.present) (set_table_self s.tables t i _)
    ∙ (filled_ptr (s.tables t i) (s.created 0) true true true (r.placed 0 c).0 (r.placed 0 c).1).1

new_blank :
    {count : ℕ} (rank : ℕ → ℕ) (s : Paging) (t i n j : ℕ)
    → IsRanked rank count s
    → rank t ≡ suc n
    → ((link_entries s t i).tables (s.created 0) j).present ≡ false
unfolding link_entries
new_blank rank s t i n j r e =
    ap (λ (x : PageEntry). x.present)
      (set_table_other s.tables t i (s.created 0) j _
        (λ z. omega (arith, e, ap rank z, r.unranked 0)))
    ∙ r.blank 0 j

module _ (v p : ℕ) (user code writable : Bool) where
  set_entry-other :
      (n count : ℕ) (rank : ℕ → ℕ) (s : Paging) (t v' : ℕ)
      → IsRanked rank count s
      → n ≤ count
      → rank t ≡ suc n
      → Differs (suc n) v v'
      → walk (suc n) (set_entry (suc n) s t v p user code writable).tables t v'
        ≡ walk (suc n) s.tables t v'
  set_entry-other n count rank s t v' r c e (inl o) =
      walk_beside v p user code writable n count rank s t t v' r c e e (inr o)
  set_entry-other zero count rank s t v' r c e (inr (q, d)) = absurd d
  set_entry-other (suc n) count rank s t v' r c e (inr (q, d)) =
      let i = index_for_level (suc (suc n)) v in
      let j = index_for_level (suc (suc n)) v' in
      let s' = set_entry (suc (suc n)) s t v p user code writable in
      elim (Bool-cases (s.tables t i).present) [
        | inl linked ↦
            (let a = entry_ptr (s.tables t i) in
              let s2 = set_entry (suc n) s a v p user code writable in
              let f : s' ≡ s2 = set_entry-linked v p user code writable n s t linked in
              let there = ap (λ (x : ℕ). (s.tables t x).present) q ∙ linked in
              let to = ap (λ (x : ℕ). entry_ptr (s.tables t x)) q in
              ap (λ (x : Paging). walk (suc (suc n)) x.tables t v') f
              ∙ walk_step n s2.tables t v' a (s.tables t j)
                  (set_entry_above (suc n) count rank s a v p user code writable t j r
                    (omega (arith, c)) (r.linked t i n e linked) (omega (arith, e)))
                  there to
              ∙ set_entry-other n count rank s a v' r (omega (arith, c)) (r.linked t i n e linked) d
              ∙ sym (walk_step n s.tables t v' a (s.tables t j) refl there to))
        | inr missing ↦
            (let new = s.created 0 in
              let s1 = link_entries s t i in
              let rank1 = ranked rank new (suc n) in
              let r1 = link_entries-IsRanked count rank s t i n r (omega (arith, c)) e in
              let level : rank1 new ≡ suc n = rw (==_self new) refl in
              let above : suc n < rank1 t =
                rw (==_ne t new (λ z. omega (arith, e, ap rank z, r.unranked 0)))
                  (omega (arith, e)) in
              let s2 = set_entry (suc n) s1 new v p user code writable in
              let f : s' ≡ s2 = set_entry-missing v p user code writable n s t missing in
              ap (λ (x : Paging). walk (suc (suc n)) x.tables t v') f
              ∙ walk_step n s2.tables t v' new (s1.tables t j)
                  (set_entry_above (suc n) (count - 1) rank1 s1 new v p user code writable t j r1
                    (omega (arith, c)) level above)
                  (ap (λ (x : ℕ). (s1.tables t x).present) q
                    ∙ new_present rank s t i r (omega (arith, c)))
                  (ap (λ (x : ℕ). entry_ptr (s1.tables t x)) q
                    ∙ new_ptr rank s t i r (omega (arith, c)))
              ∙ set_entry-other n (count - 1) rank1 s1 new v' r1 (omega (arith, c)) level d
              ∙ walk-blank n s1.tables new v' (λ k. new_blank rank s t i (suc n) k r e)
              ∙ sym (
                  walk-none (suc n) s.tables t v'
                    (ap (λ (x : ℕ). (s.tables t x).present) q ∙ missing)))
      ]

Differs-of_pages : (v v' : ℕ) → v < 2 ^ 48 → v' < 2 ^ 48 → v' / 4096 ≢ v / 4096 → Differs 4 v v'
Differs-of_pages v v' h h' o = elim (Bool-cases (index_for_level 4 v' == index_for_level 4 v)) [
  | inr a ↦ inl (λ z. ground (arith, a, z))
  | inl a ↦ inr (
    ==_eq _ _ a,
    elim (Bool-cases (index_for_level 3 v' == index_for_level 3 v)) [
      | inr b ↦ inl (λ z. ground (arith, b, z))
      | inl b ↦ inr (
        ==_eq _ _ b,
        elim (Bool-cases (index_for_level 2 v' == index_for_level 2 v)) [
          | inr c ↦ inl (λ z. ground (arith, c, z))
          | inl c ↦ inr (
            ==_eq _ _ c,
            inl (λ z. o (
                omega (
                  arith,
                  (index_for_level-digits v h).4,
                  (index_for_level-digits v' h').4,
                  z,
                  ==_eq _ _ a,
                  ==_eq _ _ b,
                  ==_eq _ _ c,
                ))),
          )
        ],
      )
    ],
  )
]

walk-page :
    (n : ℕ) (tables : Tables) (t v v' : ℕ)
    → ((k : ℕ) → k < n → index_for_level (suc k) v' ≡ index_for_level (suc k) v)
    → walk n tables t v' ≡ walk n tables t v
unfolding walk
walk-page zero tables t v v' same = refl
walk-page (suc zero) tables t v v' same = rw (same 0 (omega arith)) refl
walk-page (suc (suc n)) tables t v v' same =
    let e = tables t (index_for_level (suc (suc n)) v) in
    rw
      (
        same (suc n) (omega arith),
        walk-page (suc n) tables (entry_ptr e) v v' (λ k l. same k (omega (arith, l))),
      )
      refl

same_indices :
    (v v' k : ℕ)
    → v' / 4096 ≡ v / 4096
    → k < 4
    → index_for_level (suc k) v' ≡ index_for_level (suc k) v
unfolding index_for_level
same_indices v v' zero e l = omega (arith, e)
same_indices v v' (suc zero) e l = omega (arith, e)
same_indices v v' (suc (suc zero)) e l = omega (arith, e)
same_indices v v' (suc (suc (suc zero))) e l = omega (arith, e)
same_indices v v' (suc (suc (suc (suc k)))) e l = absurd (omega (arith, l))

set_loop-other :
    (n count : ℕ) (rank : ℕ → ℕ) (s : Paging) (t v v' p : ℕ) (user code writable : Bool)
    → IsRanked rank count s
    → 3 * n ≤ count
    → rank t ≡ 4
    → Differs 4 v v'
    → walk 4 (set_loop n s t v p user code writable).tables t v' ≡ walk 4 s.tables t v'
unfolding set_loop
set_loop-other zero count rank s t v v' p user code writable r c e d = refl
set_loop-other (suc n) count rank s t v v' p user code writable r c e d =
    let x = set_loop-StaysRanked n count rank s t v p user code writable r (omega (arith, c)) e in
    set_entry-other v p user code writable 3 x.left x.new_rank
      (set_loop n s t v p user code writable) t v' x.is_ranked (omega (arith, c, x.enough))
      (x.kept t (λ z. omega (arith, e, z)) ∙ e) d
    ∙ set_loop-other n count rank s t v v' p user code writable r (omega (arith, c)) e d

-- A call of `native_vmem_set`, seen by `walk`.
pub native_vmem_set-page :
    (count : ℕ) (rank : ℕ → ℕ) (s : Paging) (t v v' p size : ℕ) (user code writable : Bool)
    → IsRanked rank count s
    → 4096 ≤ size
    → 3 * (size / 4096) ≤ count
    → rank t ≡ 4
    → v % 4096 ≡ 0
    → v < 2 ^ 48
    → p < 2 ^ 48
    → p % 4096 ≡ 0
    → v' < 2 ^ 48
    → walk 4 (native_vmem_set s t v p size user code writable).1.tables t v'
      ≡ (if v' / 4096 == v / 4096 then some p else walk 4 s.tables t v')
native_vmem_set-page count rank s t v v' p size user code writable r o c e b small l a small' =
    elim (Bool-cases (v' / 4096 == v / 4096)) [
      | inl on ↦ rw on (
          walk-page 4 (native_vmem_set s t v p size user code writable).1.tables t v v'
            (λ k h. same_indices v v' k (==_eq _ _ on) h)
          ∙ (native_vmem_set-walk count rank s t v p size user code writable r o c e b l a).1)
      | inr off ↦ rw off (
          let whole : (v == mem_align v) ≡ true = ground (arith, b) in
          let aligned : (p == mem_align p) ≡ true = ground (arith, a) in
          let apart = Differs-of_pages v v' small small' (λ z. ground (arith, off, z)) in
          unfold native_vmem_set in
          rw (native_vmem_set, whole, aligned)
            (set_loop-other (size / 4096) count rank s t v v' p user code writable r c e apart))
    ]
