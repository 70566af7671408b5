-- ===== src/PageTable/Levels.antt =====
-- The levels of the page tables, and the tables that set_entry leaves as they are.
use bubackos.Prelude.{
  ℕ, suc, ◌%◌, ◌^◌, ◌≡◌, ◌≢◌, ◌<◌, refl, Bool, true, false, arith, ==_self, ==_ne, ◌==◌,
  if◌then◌else◌,
}
use bubackos.PageTable.{PageEntry, fill_entry_value}
use bubackos.PageTable.Index.{filled}
use bubackos.PageTable.Writing.{Tables, Paging, set_table, entry_ptr}

-- The level of each table: an entry that is present leads one level
-- down, to a table that no other entry leads to. The tables to come have
-- no level yet and no entry, are no two the same, and the next `count` of them stand at page
-- boundaries below 2^48.
pub record IsRanked (rank : ℕ → ℕ) (count : ℕ) (s : Paging) : Type 0 where
  pub linked :
      (t i n : ℕ)
      → rank t ≡ suc (suc n)
      → (s.tables t i).present ≡ true
      → rank (entry_ptr (s.tables t i)) ≡ suc n
  pub separate :
      (t i u j n m : ℕ)
      → rank t ≡ suc (suc n)
      → rank u ≡ suc (suc m)
      → (s.tables t i).present ≡ true
      → (s.tables u j).present ≡ true
      → entry_ptr (s.tables t i) ≡ entry_ptr (s.tables u j)
      → (t ≡ u) × (i ≡ j)
  pub unranked : (j : ℕ) → rank (s.created j) ≡ 0
  pub different : (j k : ℕ) → j ≢ k → s.created j ≢ s.created k
  pub blank : (j i : ℕ) → (s.tables (s.created j) i).present ≡ false
  pub placed : (j : ℕ) → j < count → (s.created j < 2 ^ 48) × (s.created j % 4096 ≡ 0)

pub filled_ptr :
    (e : PageEntry) (p : ℕ) (user code writable : Bool)
    → p < 2 ^ 48
    → p % 4096 ≡ 0
    → (entry_ptr (fill_entry_value e p user code writable) ≡ p)
      × ((fill_entry_value e p user code writable).present ≡ true)
filled_ptr e p user code writable l a =
    rw (filled e p user code writable) (omega (arith, l, a), refl)

pub set_table_self : (tables : Tables) (t i : ℕ) (e : PageEntry) → set_table tables t i e t i ≡ e
set_table_self tables t i e = rw (==_self t, ==_self i) refl

pub set_table_other :
    (tables : Tables) (t i u j : ℕ) (e : PageEntry)
    → u ≢ t
    → set_table tables t i e u j ≡ tables u j
set_table_other tables t i u j e n = rw (==_ne u t n) refl

-- The levels with the new table
abbrev pub ranked : (rank : ℕ → ℕ) → (a n : ℕ) → ℕ → ℕ
ranked rank a n t = if t == a then n else rank t
