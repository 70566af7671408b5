-- ===== src/IdMapper/Invariant.antt =====
-- The operations keep the ids distinct, as long as the counter does not wrap.
use bubackos.Prelude.{
  ℕ, suc, ◌+◌, ◌<◌, ◌≡◌, ◌≢◌, refl, Bool, true, false, some, List, [], ◌∷◌, ◌++◌, ◌==◌,
  if◌then◌else◌, add64, word_mod, All-append, arith, Bool-cases, inl, inr, sym,
}
use bubackos.LinkedList.View.{act}
use bubackos.IdMapper.Find.{IsDistinct-act}
use bubackos.IdMapper.{
  Entry, IdMapper, create, push, add, find_id, found, del, Fresh, IsDistinct, IsValid,
}

pub Fresh-of_lt : (next n : ℕ) (es : List Entry) → next < suc n → IsDistinct next es → Fresh n es
Fresh-of_lt next n [] le d = tt
Fresh-of_lt next n (e ∷ es) le d = (λ eq. omega (arith, d.2), Fresh-of_lt next n es le d.4)

IsDistinct-mono :
    (next n : ℕ) (es : List Entry) → next < suc n → IsDistinct next es → IsDistinct n es
IsDistinct-mono next n [] le d = tt
IsDistinct-mono next n (e ∷ es) le d =
    (d.0, d.1, omega (arith, d.2), d.3, IsDistinct-mono next n es le d.4)

IsDistinct-append :
    (next : ℕ) (es : List Entry) (e : Entry)
    → IsDistinct next es
    → Fresh e.id es
    → e.id ≢ 0
    → e.id < next
    → e.val ≢ 0
    → IsDistinct next (es ++ (e ∷ []))
IsDistinct-append next [] e d f ne lt nv = (tt, ne, lt, nv, tt)
IsDistinct-append next (x ∷ es) e d f ne lt nv = (
  All-append _ es (e ∷ []) d.0 (λ eq. f.0 (sym eq), tt),
  d.1,
  d.2,
  d.3,
  IsDistinct-append next es e d.4 f.1 ne lt nv,
)

-- A new mapper whose list could be allocated is valid and empty.
pub create-IsValid : IsValid (create true) []
unfolding create
create-IsValid = record { holds = refl; distinct = tt; counting = omega arith; small = omega arith }

pub add-IsValid_stored :
    {m : IdMapper} {es : List Entry} (val : ℕ)
    → IsValid m es
    → (val == 0) ≡ false
    → m.next + 1 < word_mod
    → IsValid
        (record {
          next = add64 m.next 1;
          list = some (es ++ (record { id = m.next; val = val } ∷ []));
        })
        (es ++ (record { id = m.next; val = val } ∷ []))
add-IsValid_stored {m} {es} val v some_val small = record {
  holds = refl;
  distinct =
      IsDistinct-append _ es (record { id = m.next; val = val })
        (IsDistinct-mono m.next _ es (omega arith) v.distinct)
        (Fresh-of_lt m.next m.next es (omega arith) v.distinct) (omega (arith, v.counting))
        (omega arith) (ground arith);
  counting = omega (arith, v.counting);
  small = omega arith;
}

-- What `id_mapper_add` does to the entries: one more, with the old counter as its id, if both
-- allocations succeed.
abbrev pub added : Bool → Bool → IdMapper → ℕ → List Entry → List Entry
added entry_ok node_ok m val es =
    if val == 0
    then es
    else if entry_ok
    then (if node_ok then es ++ (record { id = m.next; val = val } ∷ []) else es)
    else es

-- `id_mapper_add` keeps a mapper valid on every path, unless the counter wraps: the entries then
-- have one more, with a fresh id, exactly when the value is not NULL and memory was there.
pub add-IsValid :
    {m : IdMapper} {es : List Entry} (entry_ok node_ok : Bool) (val : ℕ)
    → IsValid m es
    → m.next + 1 < word_mod
    → IsValid (add entry_ok node_ok m val).1 (added entry_ok node_ok m val es)
unfolding add
add-IsValid {m} {es} entry_ok node_ok val v small = elim (Bool-cases (val == 0)) [
  | inl nil ↦ rw nil v
  | inr some_val ↦ grow entry_ok node_ok some_val
]
  where
    grow : (a b : Bool) → (val == 0) ≡ false → IsValid (add a b m val).1 (added a b m val es)
    grow false b some_val = rw some_val v
    grow true false some_val =
        rw (some_val, v.holds, push)
          (record {
            holds = refl;
            distinct = IsDistinct-mono m.next _ es (omega arith) v.distinct;
            counting = omega (arith, v.counting);
            small = omega arith;
          })
    grow true true some_val = rw (some_val, v.holds, push) (add-IsValid_stored val v some_val small)

-- `id_mapper_del` of any id is defined on a valid mapper, keeps it valid, and leaves the counter.
pub del-IsValid :
    {m : IdMapper} {es : List Entry} (id : ℕ)
    → IsValid m es
    → (b : Bool) × (m' : IdMapper) × (es' : List Entry) × (del m id ≡ some (b, m'))
      × IsValid m' es'
      × (m'.next ≡ m.next)
unfolding del
del-IsValid {m} {es} id v = elim (Bool-cases (id == 0)) [
  | inl nil ↦ (false, m, es, rw nil, v, refl)
  | inr some_id ↦ (
    found (act find_id id es).value,
    record m { list = some (act find_id id es).rest },
    (act find_id id es).rest,
    rw (some_id, v.holds),
    record {
      holds = refl;
      distinct = IsDistinct-act m.next id es v.distinct;
      counting = v.counting;
      small = v.small;
    },
    refl,
  )
]

-- The list of a mapper, once allocated, stays: `id_mapper_add` and `id_mapper_del` keep it.
abbrev pub HasList : IdMapper → Type 0
HasList m = (es : List Entry) × (m.list ≡ some es)

pub add-HasList :
    (entry_ok node_ok : Bool) (m : IdMapper) (val : ℕ)
    → HasList m
    → HasList (add entry_ok node_ok m val).1
unfolding add
add-HasList entry_ok node_ok m val (es, e) = elim (Bool-cases (val == 0)) [
  | inl nil ↦ rw nil (es, e)
  | inr some_val ↦ grow entry_ok node_ok some_val
]
  where
    grow : (a b : Bool) → (val == 0) ≡ false → HasList (add a b m val).1
    grow false b some_val = rw some_val (es, e)
    grow true false some_val = rw (some_val, e, push) (es, refl)
    grow true true some_val =
        rw (some_val, e, push) (es ++ (record { id = m.next; val = val } ∷ []), refl)

pub del-HasList :
    (m : IdMapper) (id : ℕ) → HasList m → (r : Bool × IdMapper) × (del m id ≡ some r) × HasList r.1
unfolding del
del-HasList m id (es, e) = elim (Bool-cases (id == 0)) [
  | inl nil ↦ ((false, m), rw nil refl, (es, e))
  | inr some_id ↦ (
    (found (act find_id id es).value, record m { list = some (act find_id id es).rest }),
    rw (some_id, e) refl,
    ((act find_id id es).rest, refl),
  )
]
