-- ===== src/PageTable/Index.antt =====
-- The indices of an address and the addresses of an entry.
use bubackos.Prelude.{ℕ, ◌+◌, ◌*◌, ◌/◌, ◌%◌, ◌^◌, ◌<◌, ◌≡◌, refl, Bool, true, false, arith}
use bubackos.PageTable.{index_for_level, PageEntry, fill_entry_value}

-- For an address below 2^48, `index_for_level` answers an index below 512 at each of the four
-- levels, and the address is recovered from its four indices and its offset in the page.
pub index_for_level-digits :
    (v : ℕ)
    → v < 2 ^ 48
    → (index_for_level 4 v < 512)
      × (index_for_level 3 v < 512)
      × (index_for_level 2 v < 512)
      × (index_for_level 1 v < 512)
      × (v
          ≡ (((index_for_level 4 v * 512 + index_for_level 3 v) * 512 + index_for_level 2 v) * 512
                + index_for_level 1 v)
              * 4096
            + v % 4096)
unfolding index_for_level
index_for_level-digits v small = (
  omega (arith, small),
  omega (arith, small),
  omega (arith, small),
  omega (arith, small),
  omega (arith, small),
)

-- The permissions that are asked for make no difference.
pub filled :
    (entry : PageEntry) (ptr : ℕ) (user code writable : Bool)
    → fill_entry_value entry ptr user code writable ≡ record entry {
      present = true;
      addr_12_shifted = (ptr / 4096) % 2 ^ 48;
      user = true;
      writable = true;
      execute_disable = false;
    }
unfolding fill_entry_value
filled entry ptr true true true = refl
filled entry ptr true true false = refl
filled entry ptr true false true = refl
filled entry ptr true false false = refl
filled entry ptr false true true = refl
filled entry ptr false true false = refl
filled entry ptr false false true = refl
filled entry ptr false false false = refl

-- `fill_entry_value` of an address of 48 bits on a page boundary makes an entry that is present and
-- keeps the address; whatever permissions are asked for, it lets user code read, write and execute.
-- The other flags stay.
pub fill_entry_value-address :
    (entry : PageEntry) (ptr : ℕ) (user code writable : Bool)
    → ptr < 2 ^ 48
    → ptr % 4096 ≡ 0
    → (fill_entry_value entry ptr user code writable ≡ (record entry {
      present = true;
      addr_12_shifted = ptr / 4096;
      user = true;
      writable = true;
      execute_disable = false;
    }))
      × ((fill_entry_value entry ptr user code writable).addr_12_shifted * 4096 ≡ ptr)
fill_entry_value-address entry ptr user code writable small even =
    rw (filled entry ptr user code writable, address) (refl, omega (arith, even))
  where
    address : (ptr / 4096) % 2 ^ 48 ≡ ptr / 4096
    address = omega (arith, small)
