-- ===== src/PageTable/Ranks.antt =====
-- The levels of the page tables, over set_entry and the loop of native_vmem_set.
use bubackos.Prelude.{
  ℕ, zero, suc, ◌-◌, ◌*◌, ◌≡◌, ◌≢◌, ◌≤◌, refl, sym, ap, ◌∙◌, Bool, arith, inl, inr, Bool-cases,
  ==_self, ==_ne,
}
use bubackos.PageTable.{PageEntry, index_for_level}
use bubackos.PageTable.Writing.{Paging, set_table, entry_ptr, link_entries, set_entry, set_loop}
use bubackos.PageTable.Levels.{IsRanked, set_table_other, ranked}
use bubackos.PageTable.Links.{link_entries-IsRanked}

-- The tables after a page was set have levels again, those that had one keep it, and `least` of
-- those to come at least are still there.
pub record StaysRanked (rank : ℕ → ℕ) (least : ℕ) (s : Paging) : Type 0 where
  pub new_rank : ℕ → ℕ
  pub left : ℕ
  pub is_ranked : IsRanked new_rank left s
  pub enough : least ≤ left
  pub kept : (u : ℕ) → rank u ≢ 0 → new_rank u ≡ rank u

leaf-StaysRanked :
    (count : ℕ) (rank : ℕ → ℕ) (s : Paging) (t i : ℕ) (e : PageEntry)
    → IsRanked rank count s
    → rank t ≡ 1
    → StaysRanked rank (count - 0) (record s { tables = set_table s.tables t i e })
leaf-StaysRanked count rank s t i e r one = record {
  new_rank = rank;
  left = count;
  enough = omega arith;
  is_ranked = record {
    linked = λ u j m up p.
        (let o = set_table_other s.tables t i u j e (λ z. omega (arith, one, up, ap rank z)) in
          ap (λ (x : PageEntry). rank (entry_ptr x)) o
          ∙ r.linked u j m up (sym (ap (λ (x : PageEntry). x.present) o) ∙ p));
    separate = λ u j w k m l eu ew pu pw z.
        (let o = set_table_other s.tables t i u j e (λ z. omega (arith, one, eu, ap rank z)) in
          let q = set_table_other s.tables t i w k e (λ z. omega (arith, one, ew, ap rank z)) in
          r.separate u j w k m l eu ew (sym (ap (λ (x : PageEntry). x.present) o) ∙ pu)
            (sym (ap (λ (x : PageEntry). x.present) q) ∙ pw)
            (sym (ap entry_ptr o) ∙ z ∙ ap entry_ptr q));
    unranked = r.unranked;
    different = r.different;
    blank = λ j u.
        ap (λ (x : PageEntry). x.present)
          (set_table_other s.tables t i (s.created j) u e
            (λ z. omega (arith, one, r.unranked j, ap rank z)))
        ∙ r.blank j u;
    placed = r.placed;
  };
  kept = λ u n. refl;
}

pub set_entry-StaysRanked :
    (n count : ℕ) (rank : ℕ → ℕ) (s : Paging) (t v p : ℕ) (user code writable : Bool)
    → IsRanked rank count s
    → n ≤ count
    → rank t ≡ suc n
    → StaysRanked rank (count - n) (set_entry (suc n) s t v p user code writable)
unfolding set_entry
set_entry-StaysRanked zero count rank s t v p user code writable r c e =
    leaf-StaysRanked count rank s t (index_for_level 1 v) _ r e
set_entry-StaysRanked (suc n) count rank s t v p user code writable r c e =
    let i = index_for_level (suc (suc n)) v in
    elim (Bool-cases (s.tables t i).present) [
      | inl linked ↦
          rw (set_entry, linked)
            (let x =
                set_entry-StaysRanked n count rank s (entry_ptr (s.tables t i)) v p user code
                  writable r (omega (arith, c)) (r.linked t i n e linked) in
              record {
                new_rank = x.new_rank;
                left = x.left;
                is_ranked = x.is_ranked;
                enough = omega (arith, x.enough);
                kept = x.kept;
              })
      | inr missing ↦
          (let new = s.created 0 in
            let x =
              set_entry-StaysRanked n (count - 1) (ranked rank new (suc n)) (link_entries s t i) new
                v p user code writable
                (link_entries-IsRanked count rank s t i n r (omega (arith, c)) e) (omega (arith, c))
                (rw (==_self new) refl) in
            rw (set_entry, missing)
              record {
                new_rank = x.new_rank;
                left = x.left;
                is_ranked = x.is_ranked;
                enough = omega (arith, x.enough);
                kept = λ u up.
                    (let other : ranked rank new (suc n) u ≡ rank u =
                        rw (==_ne u new (λ z. up (ap rank z ∙ r.unranked 0))) refl in
                      x.kept u (λ z. up (sym other ∙ z)) ∙ other);
              })
    ]

pub set_loop-StaysRanked :
    (n count : ℕ) (rank : ℕ → ℕ) (s : Paging) (t v p : ℕ) (user code writable : Bool)
    → IsRanked rank count s
    → 3 * n ≤ count
    → rank t ≡ 4
    → StaysRanked rank (count - 3 * n) (set_loop n s t v p user code writable)
unfolding set_loop
set_loop-StaysRanked zero count rank s t v p user code writable r c e = record {
  new_rank = rank;
  left = count;
  is_ranked = r;
  enough = omega arith;
  kept = λ u up. refl;
}
set_loop-StaysRanked (suc n) count rank s t v p user code writable r c e =
    let x = set_loop-StaysRanked n count rank s t v p user code writable r (omega (arith, c)) e in
    let y =
      set_entry-StaysRanked 3 x.left x.new_rank (set_loop n s t v p user code writable) t v p user
        code writable x.is_ranked (omega (arith, c, x.enough))
        (x.kept t (λ z. omega (arith, e, z)) ∙ e) in
    record {
      new_rank = y.new_rank;
      left = y.left;
      is_ranked = y.is_ranked;
      enough = omega (arith, c, x.enough, y.enough);
      kept = λ u up. y.kept u (λ z. up (sym (x.kept u up) ∙ z)) ∙ x.kept u up;
    }
