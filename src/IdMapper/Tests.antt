-- ===== src/IdMapper/Tests.antt =====
-- The id mapper, on a mapper with two entries.
use bubackos.Prelude.{
  ℕ, ◌≡◌, ◌≢◌, refl, Bool, true, false, some, List, [], ◌∷◌, ◌==◌, if◌then◌else◌, arith,
}
use bubackos.IdMapper.{Entry, IdMapper, get, add, del, IsValid}
use bubackos.IdMapper.Invariant.{added, add-IsValid, del-IsValid}
use bubackos.IdMapper.Lookup.{get-add, get-del}

abbrev entries : List Entry
entries = record { id = 1; val = 4096 } ∷ record { id = 3; val = 8192 } ∷ []

abbrev two : IdMapper
two = record { next = 5; list = some entries }

two-IsValid : IsValid two entries
two-IsValid = record {
  holds = refl;
  distinct = (
    (λ e. omega (arith, e), tt),
    λ e. omega (arith, e),
    omega arith,
    λ e. omega (arith, e),
    (tt, λ e. omega (arith, e), omega arith, λ e. omega (arith, e), tt),
  );
  counting = omega arith;
  small = omega arith;
}

add-IsValid_example : IsValid (add true false two 12288).1 (added true false two 12288 entries)
add-IsValid_example = add-IsValid true false 12288 two-IsValid (omega arith)

del-IsValid_example :
    (b : Bool) × (m' : IdMapper) × (es' : List Entry) × (del two 3 ≡ some (b, m'))
    × IsValid m' es'
    × (m'.next ≡ two.next)
del-IsValid_example = del-IsValid 3 two-IsValid

get-add_example :
    ((add true true two 12288).0 ≢ 0)
    × (get (some two) (add true true two 12288).0 ≡ some 0)
    × ((j : ℕ)
        → get (some (add true true two 12288).1) j
          ≡ (if (add true true two 12288).0 == j then some 12288 else get (some two) j))
get-add_example = get-add 12288 two-IsValid (omega arith) (λ e. omega (arith, e))

get-del_example :
    (b : Bool) × (m' : IdMapper) × (del two 3 ≡ some (b, m'))
    × ((b ≡ true → get (some two) 3 ≢ some 0) × (b ≡ false → get (some two) 3 ≡ some 0))
    × ((j : ℕ) → get (some m') j ≡ (if 3 == j then some 0 else get (some two) j))
get-del_example = get-del 3 two-IsValid

known : get (some two) 3 ≡ some 8192
unfolding get
known = refl
