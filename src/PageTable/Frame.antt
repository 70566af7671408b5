-- ===== src/PageTable/Frame.antt =====
-- The pages that a write to the page tables leaves as they are.
use bubackos.Prelude.{
  ℕ, zero, suc, ◌-◌, ◌≡◌, ◌≢◌, ◌⊎◌, ◌<◌, ◌≤◌, refl, sym, ap, ◌∙◌, Bool, true, false, none, arith,
  inl, inr, Bool-cases, ==_self, ==_ne, ◌==◌,
}
use bubackos.PageTable.{PageEntry, index_for_level}
use bubackos.PageTable.Writing.{Tables, Paging, set_table, entry_ptr, link_entries, set_entry}
use bubackos.PageTable.Levels.{IsRanked, set_table_other, ranked}
use bubackos.PageTable.Links.{link_entries-IsRanked, set_entry_above}
use bubackos.PageTable.Walk.{walk, walk_step}

pub walk-none :
    (n : ℕ) (tables : Tables) (t v : ℕ)
    → (tables t (index_for_level (suc n) v)).present ≡ false
    → walk (suc n) tables t v ≡ none
unfolding walk
walk-none zero tables t v e = rw (walk, e) refl
walk-none (suc n) tables t v e = rw (walk, e) refl

pub walk_leaf :
    (tables tables' : Tables) (t v : ℕ)
    → tables' t (index_for_level 1 v) ≡ tables t (index_for_level 1 v)
    → walk 1 tables' t v ≡ walk 1 tables t v
unfolding walk
walk_leaf tables tables' t v e = rw e refl

-- The walk from a table reads the tables of its level and of those below.
walk-same :
    (n : ℕ) {count : ℕ} (rank : ℕ → ℕ) (s : Paging) (tables : Tables) (u v : ℕ)
    → IsRanked rank count s
    → rank u ≡ suc n
    → ((w j : ℕ) → rank w ≤ suc n → 0 < rank w → tables w j ≡ s.tables w j)
    → walk (suc n) tables u v ≡ walk (suc n) s.tables u v
walk-same zero rank s tables u v r e same =
    walk_leaf s.tables tables u v
      (same u (index_for_level 1 v) (omega (arith, e)) (omega (arith, e)))
walk-same (suc n) rank s tables u v r e same =
    let i = index_for_level (suc (suc n)) v in
    let here = same u i (omega (arith, e)) (omega (arith, e)) in
    elim (Bool-cases (s.tables u i).present) [
      | inl linked ↦
          walk_step n tables u v (entry_ptr (s.tables u i)) (s.tables u i) here linked refl
          ∙ walk-same n rank s tables (entry_ptr (s.tables u i)) v r (r.linked u i n e linked)
              (λ w j l o. same w j (omega (arith, l)) o)
          ∙ sym
              (walk_step n s.tables u v (entry_ptr (s.tables u i)) (s.tables u i) refl linked refl)
      | inr missing ↦
          walk-none (suc n) tables u v (ap (λ (x : PageEntry). x.present) here ∙ missing)
          ∙ sym (walk-none (suc n) s.tables u v missing)
    ]

link-same :
    {count : ℕ} (rank : ℕ → ℕ) (s : Paging) (t i n u v : ℕ)
    → IsRanked rank count s
    → rank t ≡ suc (suc n)
    → rank u ≡ suc n
    → walk (suc n) (link_entries s t i).tables u v ≡ walk (suc n) s.tables u v
unfolding link_entries
link-same rank s t i n u v r e l =
    walk-same n rank s (link_entries s t i).tables u v r l
      (λ w j h o. set_table_other s.tables t i w j _ (λ z. omega (arith, e, h, ap rank z)))

set_table_beside :
    (tables : Tables) (t i u j : ℕ) (e : PageEntry)
    → (u ≢ t) ⊎ (j ≢ i)
    → set_table tables t i e u j ≡ tables u j
set_table_beside tables t i u j e (inl n) = set_table_other tables t i u j e n
set_table_beside tables t i u j e (inr n) = elim (Bool-cases (u == t)) [
  | inl here ↦ rw (here, ==_ne j i n) refl
  | inr there ↦ rw there refl
]

-- A table of blank entries leads nowhere.
pub walk-blank :
    (n : ℕ) (tables : Tables) (t v : ℕ)
    → ((i : ℕ) → (tables t i).present ≡ false)
    → walk (suc n) tables t v ≡ none
walk-blank n tables t v blank = walk-none n tables t v (blank (index_for_level (suc n) v))

-- Some index of the two addresses differs, at this level or at one below.
abbrev pub Differs : (level v v' : ℕ) → Type 0
Differs zero v v' = ⊥
Differs (suc n) v v' =
    (index_for_level (suc n) v' ≢ index_for_level (suc n) v)
    ⊎ ((index_for_level (suc n) v' ≡ index_for_level (suc n) v) × Differs n v v')

module _ (v p : ℕ) (user code writable : Bool) where
  pub set_entry-linked :
      (n : ℕ) (s : Paging) (t : ℕ)
      → (s.tables t (index_for_level (suc (suc n)) v)).present ≡ true
      → set_entry (suc (suc n)) s t v p user code writable
        ≡ set_entry
            (suc n)
            s
            (entry_ptr (s.tables t (index_for_level (suc (suc n)) v)))
            v
            p
            user
            code
            writable
  unfolding set_entry
  set_entry-linked n s t e = rw (set_entry, e) refl

  pub set_entry-missing :
      (n : ℕ) (s : Paging) (t : ℕ)
      → (s.tables t (index_for_level (suc (suc n)) v)).present ≡ false
      → set_entry (suc (suc n)) s t v p user code writable
        ≡ set_entry
            (suc n)
            (link_entries s t (index_for_level (suc (suc n)) v))
            (s.created 0)
            v
            p
            user
            code
            writable
  unfolding set_entry
  set_entry-missing n s t e = rw (set_entry, e) refl

  -- Other tables of the level, and other entries of the table, stay.
  pub set_entry_beside :
      (n count : ℕ) (rank : ℕ → ℕ) (s : Paging) (t u j : ℕ)
      → IsRanked rank count s
      → n ≤ count
      → rank t ≡ suc n
      → rank u ≡ suc n
      → (u ≢ t) ⊎ (j ≢ index_for_level (suc n) v)
      → (set_entry (suc n) s t v p user code writable).tables u j ≡ s.tables u j
  unfolding set_entry
  set_entry_beside zero count rank s t u j r c e l o =
      set_table_beside s.tables t (index_for_level 1 v) u j _ o
  set_entry_beside (suc n) count rank s t u j r c e l o =
      let i = index_for_level (suc (suc n)) v in
      elim (Bool-cases (s.tables t i).present) [
        | inl linked ↦
            ap (λ (x : Paging). x.tables u j) (set_entry-linked n s t linked)
            ∙ set_entry_above (suc n) count rank s (entry_ptr (s.tables t i)) v p user code writable
                u j r (omega (arith, c)) (r.linked t i n e linked) (omega (arith, l))
        | inr missing ↦
            ap (λ (x : Paging). x.tables u j) (set_entry-missing n s t missing)
            ∙ set_entry_above (suc n) (count - 1) (ranked rank (s.created 0) (suc n))
                (link_entries s t i) (s.created 0) v p user code writable u j
                (link_entries-IsRanked count rank s t i n r (omega (arith, c)) e) (omega (arith, c))
                (rw (==_self (s.created 0)) refl)
                (rw (==_ne u (s.created 0) (λ z. omega (arith, l, ap rank z, r.unranked 0)))
                  (omega (arith, l)))
            ∙ unfold link_entries in set_table_beside s.tables t i u j _ o
      ]

  -- The new table is another one than those that were linked.
  past :
      (n count : ℕ) (rank : ℕ → ℕ) (s : Paging) (t a v' : ℕ)
      → IsRanked rank count s
      → suc n ≤ count
      → rank t ≡ suc (suc n)
      → rank a ≡ suc n
      → (IsRanked
            (ranked rank (s.created 0) (suc n))
            (count - 1)
            (link_entries s t (index_for_level (suc (suc n)) v))
          → n ≤ count - 1
          → ranked rank (s.created 0) (suc n) (s.created 0) ≡ suc n
          → ranked rank (s.created 0) (suc n) a ≡ suc n
          → (a ≢ s.created 0) ⊎ (index_for_level (suc n) v' ≢ index_for_level (suc n) v)
          → walk
              (suc n)
              (set_entry
                (suc n)
                (link_entries s t (index_for_level (suc (suc n)) v))
                (s.created 0)
                v
                p
                user
                code
                writable).tables
              a
              v'
            ≡ walk (suc n) (link_entries s t (index_for_level (suc (suc n)) v)).tables a v')
      → walk
          (suc n)
          (set_entry
            (suc n)
            (link_entries s t (index_for_level (suc (suc n)) v))
            (s.created 0)
            v
            p
            user
            code
            writable).tables
          a
          v'
        ≡ walk (suc n) s.tables a v'
  past n count rank s t a v' r c e l rest =
      let i = index_for_level (suc (suc n)) v in
      let other : a ≢ s.created 0 = λ z. omega (arith, l, ap rank z, r.unranked 0) in
      rest (link_entries-IsRanked count rank s t i n r (omega (arith, c)) e) (omega (arith, c))
        (rw (==_self (s.created 0)) refl) (rw (==_ne a (s.created 0) other) l) (inl other)
      ∙ link-same rank s t i n a v' r e l

  -- The walk from another table of the level, or through another entry
  pub walk_beside :
      (n count : ℕ) (rank : ℕ → ℕ) (s : Paging) (t u v' : ℕ)
      → IsRanked rank count s
      → n ≤ count
      → rank t ≡ suc n
      → rank u ≡ suc n
      → (u ≢ t) ⊎ (index_for_level (suc n) v' ≢ index_for_level (suc n) v)
      → walk (suc n) (set_entry (suc n) s t v p user code writable).tables u v'
        ≡ walk (suc n) s.tables u v'
  walk_beside zero count rank s t u v' r c e l o =
      walk_leaf s.tables (set_entry 1 s t v p user code writable).tables u v'
        (set_entry_beside zero count rank s t u (index_for_level 1 v') r c e l o)
  walk_beside (suc n) count rank s t u v' r c e l o =
      let i = index_for_level (suc (suc n)) v in
      let j = index_for_level (suc (suc n)) v' in
      let s' = set_entry (suc (suc n)) s t v p user code writable in
      let here = set_entry_beside (suc n) count rank s t u j r c e l o in
      elim (Bool-cases (s.tables u j).present) [
        | inl there ↦
            walk_step n s'.tables u v' (entry_ptr (s.tables u j)) (s.tables u j) here there refl
            ∙ elim (Bool-cases (s.tables t i).present) [
              | inl linked ↦
                  ap (λ (x : Paging). walk (suc n) x.tables (entry_ptr (s.tables u j)) v')
                    (set_entry-linked n s t linked)
                  ∙ walk_beside n count rank s (entry_ptr (s.tables t i)) (entry_ptr (s.tables u j))
                      v' r (omega (arith, c)) (r.linked t i n e linked) (r.linked u j n l there)
                      (inl (apart o (r.separate u j t i n n l e there linked)))
              | inr missing ↦
                  ap (λ (x : Paging). walk (suc n) x.tables (entry_ptr (s.tables u j)) v')
                    (set_entry-missing n s t missing)
                  ∙ past n count rank s t (entry_ptr (s.tables u j)) v' r c e
                      (r.linked u j n l there)
                      (walk_beside n (count - 1) (ranked rank (s.created 0) (suc n))
                        (link_entries s t i) (s.created 0) (entry_ptr (s.tables u j)) v')
            ]
            ∙ sym (
                walk_step n s.tables u v' (entry_ptr (s.tables u j)) (s.tables u j) refl there refl)
        | inr nothing ↦
            walk-none (suc n) s'.tables u v' (ap (λ (x : PageEntry). x.present) here ∙ nothing)
            ∙ sym (walk-none (suc n) s.tables u v' nothing)
      ]
    where
      apart :
          {a b : ℕ}
          → (u ≢ t) ⊎ (index_for_level (suc (suc n)) v' ≢ index_for_level (suc (suc n)) v)
          → (a ≡ b → (u ≡ t) × (index_for_level (suc (suc n)) v' ≡ index_for_level (suc (suc n)) v))
          → a ≢ b
      apart (inl o) f z = o (f z).0
      apart (inr o) f z = o (f z).1
