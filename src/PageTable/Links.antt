-- ===== src/PageTable/Links.antt =====
-- The link of a table to a new one keeps the levels.
use bubackos.Prelude.{
  ℕ, zero, suc, ◌+◌, ◌-◌, ◌≡◌, ◌≢◌, ◌⊎◌, ◌<◌, ◌≤◌, refl, sym, ap, ◌∙◌, Bool, true, false, arith,
  inl, inr, Bool-cases, ==_self, ==_ne, ==_eq, ◌==◌,
}
use bubackos.PageTable.{PageEntry, index_for_level}
use bubackos.PageTable.Writing.{Paging, entry_ptr, link_entries, set_entry}
use bubackos.PageTable.Levels.{IsRanked, filled_ptr, set_table_self, set_table_other, ranked}

old_target :
    {count : ℕ} (rank : ℕ → ℕ) (s : Paging) (n m a : ℕ)
    → IsRanked rank count s
    → rank a ≡ suc m
    → ranked rank (s.created 0) n a ≡ suc m
old_target rank s n m a r e =
    rw (==_ne a (s.created 0) (λ z. omega (arith, e, ap rank z, r.unranked 0))) e

-- The entries of the other tables, and the other entries of this one, lead where they did.
old_entry :
    {count : ℕ} (rank : ℕ → ℕ) (s : Paging) (n m u j : ℕ) (e : PageEntry)
    → IsRanked rank count s
    → e ≡ s.tables u j
    → rank u ≡ suc (suc m)
    → e.present ≡ true
    → ranked rank (s.created 0) n (entry_ptr e) ≡ suc m
old_entry rank s n m u j e r same level p =
    old_target rank s n m (entry_ptr e) r
      (rw same (r.linked u j m level (sym (ap (λ (x : PageEntry). x.present) same) ∙ p)))

new_linked :
    {count : ℕ} (rank : ℕ → ℕ) (s : Paging) (t i n u j m : ℕ)
    → IsRanked rank count s
    → 0 < count
    → rank t ≡ suc (suc n)
    → ranked rank (s.created 0) (suc n) u ≡ suc (suc m)
    → ((link_entries s t i).tables u j).present ≡ true
    → ranked rank (s.created 0) (suc n) (entry_ptr ((link_entries s t i).tables u j)) ≡ suc m
unfolding link_entries
new_linked rank s t i n u j m r some_left level e p = elim (Bool-cases (u == s.created 0)) [
  | inl new ↦
      (let q = ==_eq u (s.created 0) new in
        let o : (link_entries s t i).tables u j ≡ s.tables u j =
          set_table_other s.tables t i u j _
            (λ z. omega (arith, level, ap rank (sym q ∙ z), r.unranked 0)) in
        let f : (s.tables u j).present ≡ false = rw q (r.blank 0 j) in
        absurd (cannot (sym p ∙ ap (λ (x : PageEntry). x.present) o ∙ f)))
  | inr old ↦
      (let up : rank u ≡ suc (suc m) = sym (rw old refl) ∙ e in
        elim (Bool-cases (u == t)) [
          | inl here ↦ elim (Bool-cases (j == i)) [
            | inl this ↦
                rw
                  (
                    here,
                    this,
                    (filled_ptr (s.tables t i) (s.created 0) true true true (r.placed 0 some_left).0
                        (r.placed 0 some_left).1).0,
                    ==_self (s.created 0),
                  )
                  (omega (arith, level, up, ap rank (==_eq u t here)))
            | inr other ↦
                old_entry rank s (suc n) m u j ((link_entries s t i).tables u j) r
                  (rw (here, other) refl) up p
          ]
          | inr there ↦
              old_entry rank s (suc n) m u j ((link_entries s t i).tables u j) r (rw there refl) up
                p
        ])
]
  where
    cannot : true ≡ false → ⊥
    cannot z = cc

-- An entry that was there before the new table
record IsOld (s : Paging) (t i u j : ℕ) (rank : ℕ → ℕ) (m : ℕ) : Type 0 where
  same : (link_entries s t i).tables u j ≡ s.tables u j
  level : rank u ≡ suc (suc m)
  there : (s.tables u j).present ≡ true

-- An entry that is present after the link is the new one, or was there before.
new_or_IsOld :
    {count : ℕ} (rank : ℕ → ℕ) (s : Paging) (t i n u j m : ℕ)
    → IsRanked rank count s
    → rank t ≡ suc (suc n)
    → ranked rank (s.created 0) (suc n) u ≡ suc (suc m)
    → ((link_entries s t i).tables u j).present ≡ true
    → ((u ≡ t) × (j ≡ i)) ⊎ IsOld s t i u j rank m
unfolding link_entries
new_or_IsOld rank s t i n u j m r level e p = elim (Bool-cases (u == s.created 0)) [
  | inl new ↦
      (let q = ==_eq u (s.created 0) new in
        let o : (link_entries s t i).tables u j ≡ s.tables u j =
          set_table_other s.tables t i u j _
            (λ z. omega (arith, level, ap rank (sym q ∙ z), r.unranked 0)) in
        let f : (s.tables u j).present ≡ false = rw q (r.blank 0 j) in
        absurd (true≢false (sym p ∙ ap (λ (x : PageEntry). x.present) o ∙ f)))
  | inr old ↦
      (let up : rank u ≡ suc (suc m) = sym (rw old refl) ∙ e in
        let kept = λ (o : (link_entries s t i).tables u j ≡ s.tables u j). IsOld_of up p o in
        elim (Bool-cases (u == t)) [
          | inl here ↦ elim (Bool-cases (j == i)) [
            | inl this ↦ inl (==_eq u t here, ==_eq j i this)
            | inr other ↦ inr (kept (rw (here, other) refl))
          ]
          | inr there ↦ inr (kept (rw there refl))
        ])
]
  where
    IsOld_of :
        rank u ≡ suc (suc m)
        → ((link_entries s t i).tables u j).present ≡ true
        → (link_entries s t i).tables u j ≡ s.tables u j
        → IsOld s t i u j rank m
    IsOld_of up p o = record {
      same = o;
      level = up;
      there = sym (ap (λ (x : PageEntry). x.present) o) ∙ p;
    }

    true≢false : true ≡ false → ⊥
    true≢false z = cc

pub new_ptr :
    {count : ℕ} (rank : ℕ → ℕ) (s : Paging) (t i : ℕ)
    → IsRanked rank count s
    → 0 < count
    → entry_ptr ((link_entries s t i).tables t i) ≡ s.created 0
unfolding link_entries
new_ptr rank s t i r some_left =
    ap entry_ptr (set_table_self s.tables t i _)
    ∙ (filled_ptr (s.tables t i) (s.created 0) true true true (r.placed 0 some_left).0
        (r.placed 0 some_left).1).0

-- What was there before does not lead to the new table.
IsOld-ne_new :
    {count : ℕ} (rank : ℕ → ℕ) (s : Paging) (t i u j m : ℕ)
    → IsRanked rank count s
    → IsOld s t i u j rank m
    → entry_ptr ((link_entries s t i).tables u j) ≢ s.created 0
IsOld-ne_new rank s t i u j m r o z =
    omega
      (arith, r.linked u j m o.level o.there, r.unranked 0, ap rank (sym (ap entry_ptr o.same) ∙ z))

new_separate :
    {count : ℕ} (rank : ℕ → ℕ) (s : Paging) (t i u j w k m l : ℕ)
    → IsRanked rank count s
    → 0 < count
    → ((u ≡ t) × (j ≡ i)) ⊎ IsOld s t i u j rank m
    → ((w ≡ t) × (k ≡ i)) ⊎ IsOld s t i w k rank l
    → entry_ptr ((link_entries s t i).tables u j) ≡ entry_ptr ((link_entries s t i).tables w k)
    → (u ≡ w) × (j ≡ k)
new_separate rank s t i u j w k m l r c (inl (a, b)) (inl (a', b')) z = (a ∙ sym a', b ∙ sym b')
new_separate rank s t i u j w k m l r c (inl (a, b)) (inr o) z = absurd (
    IsOld-ne_new rank s t i w k l r o
      (sym z ∙ (λ x. entry_ptr ((link_entries s t i).tables (a x) (b x))) ∙ new_ptr rank s t i r c))
new_separate rank s t i u j w k m l r c (inr o) (inl (a, b)) z = absurd (
    IsOld-ne_new rank s t i u j m r o
      (z ∙ (λ x. entry_ptr ((link_entries s t i).tables (a x) (b x))) ∙ new_ptr rank s t i r c))
new_separate rank s t i u j w k m l r c (inr o) (inr o') z =
    r.separate u j w k m l o.level o'.level o.there o'.there
      (sym (ap entry_ptr o.same) ∙ z ∙ ap entry_ptr o'.same)

pub link_entries-IsRanked :
    (count : ℕ) (rank : ℕ → ℕ) (s : Paging) (t i n : ℕ)
    → IsRanked rank count s
    → 0 < count
    → rank t ≡ suc (suc n)
    → IsRanked (ranked rank (s.created 0) (suc n)) (count - 1) (link_entries s t i)
unfolding link_entries
link_entries-IsRanked count rank s t i n r some_left level = record {
  linked = λ u j m e p. new_linked rank s t i n u j m r some_left level e p;
  separate = λ u j w k m l eu ew pu pw same.
      new_separate rank s t i u j w k m l r some_left
        (new_or_IsOld rank s t i n u j m r level eu pu)
        (new_or_IsOld rank s t i n w k l r level ew pw) same;
  unranked = λ j.
      rw (==_ne (s.created (j + 1)) (s.created 0) (r.different (j + 1) 0 (λ z. omega (arith, z))))
        (r.unranked (j + 1));
  different = λ j k n'. r.different (j + 1) (k + 1) (λ z. n' (omega (arith, z)));
  blank = λ j u.
      rw (==_ne (s.created (j + 1)) t (λ z. omega (arith, level, ap rank z, r.unranked (j + 1))))
        (r.blank (j + 1) u);
  placed = λ j l. r.placed (j + 1) (omega (arith, l));
}

-- Tables of a higher level stay as they are.
pub set_entry_above :
    (level count : ℕ) (rank : ℕ → ℕ) (s : Paging) (t v p : ℕ) (user code writable : Bool) (u j : ℕ)
    → IsRanked rank count s
    → level ≤ suc count
    → rank t ≡ level
    → level < rank u
    → (set_entry level s t v p user code writable).tables u j ≡ s.tables u j
unfolding set_entry
set_entry_above zero count rank s t v p user code writable u j r c e l = refl
set_entry_above (suc zero) count rank s t v p user code writable u j r c e l =
    set_table_other s.tables t (index_for_level 1 v) u j _ (λ z. omega (arith, l, e, ap rank z))
set_entry_above (suc (suc n)) count rank s t v p user code writable u j r c e l =
    let i = index_for_level (suc (suc n)) v in
    elim (Bool-cases (s.tables t i).present) [
      | inl linked ↦
          rw (set_entry, linked)
            (set_entry_above (suc n) count rank s (entry_ptr (s.tables t i)) v p user code writable
              u j r (omega (arith, c)) (r.linked t i n e linked) (omega (arith, l)))
      | inr missing ↦
          rw (set_entry, missing)
            (set_entry_above (suc n) (count - 1) (ranked rank (s.created 0) (suc n))
                (link_entries s t i) (s.created 0) v p user code writable u j
                (link_entries-IsRanked count rank s t i n r (omega (arith, c)) e) (omega (arith, c))
                (rw (==_self (s.created 0)) refl)
                (rw (==_ne u (s.created 0) (λ z. omega (arith, l, ap rank z, r.unranked 0)))
                  (omega (arith, l)))
              ∙ unfold link_entries in
                set_table_other s.tables t i u j _ (λ z. omega (arith, l, e, ap rank z)))
    ]
