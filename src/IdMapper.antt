-- ===== src/IdMapper.antt =====
-- The id mapper, src/kernel/libutils/src/libutils/id_mapper.c, over the sequence view of its list.
-- `entry_ok`, `node_ok` and `list_ok` say which calls of MEM_ALLOC return memory. The list holds
-- pointers to entries, which are never NULL and never written again, so it is a list of entries.
pub mod Find
pub mod Invariant
pub mod Lookup
mod Tests
use bubackos.Prelude.{
  ℕ, ◌+◌, ◌<◌, ◌≡◌, ◌≢◌, Bool, true, false, Option, none, some, List, [], ◌∷◌, ◌++◌, ◌==◌, ◌||◌,
  if◌then◌else◌, add64, word_mod, All,
}
use bubackos.LinkedList.{Action, go_next, remove_and_return}
use bubackos.LinkedList.View.{Acted, act}

-- `id_mapper_entry_t`
pub record Entry : Type 0 where
  pub id : ℕ
  pub val : ℕ

-- `id_mapper_t`; the list is NULL if it could not be allocated.
pub record IdMapper : Type 0 where
  pub next : ℕ
  pub list : Option (List Entry)

-- `id_mapper_create` of a struct that the caller owns.
pub create : (list_ok : Bool) → IdMapper
create list_ok = record { next = 1; list = if list_ok then some [] else none }

-- `id_mapper_next_id`, for a mapper that is not NULL: the id, and the mapper.
pub next_id : IdMapper → ℕ × IdMapper
next_id m = (m.next, record m { next = add64 m.next 1 })

-- The loop of `id_mapper_get`.
unfoldable pub get_in : List Entry → ℕ → ℕ
get_in [] id = 0
get_in (e ∷ es) id = let rest = get_in es id in if e.id == id then e.val else rest

-- `id_mapper_get`, where NULL is 0. `none` is the walk over a list that is NULL: its iterator was
-- not initialised.
unfoldable pub get : Option IdMapper → ℕ → Option ℕ
unfolding get_in
get none id = some 0
get (some m) id =
    if id == 0 then some 0 else elim m.list [ none ↦ none | some es ↦ some (get_in es id) ]

-- `linkedlist_append` of the entry on the mapper's list.
push : Bool → Option (List Entry) → Entry → Bool × Option (List Entry)
push node_ok none e = (false, none)
push node_ok (some es) e = if node_ok then (true, some (es ++ (e ∷ []))) else (false, some es)

-- `id_mapper_add`: the id, or 0, and the mapper. An id is used up also where the append fails.
pub add : (entry_ok node_ok : Bool) → IdMapper → ℕ → ℕ × IdMapper
unfolding next_id push
add entry_ok node_ok m val =
    if val == 0
    then (0, m)
    else if entry_ok
    then (let (id, m') = next_id m in
        let (pushed, list') = push node_ok m'.list (record { id = id; val = val }) in
        if pushed then (id, record m' { list = list' }) else (0, m'))
    else (0, m)

-- `_find_id`
unfoldable pub find_id : ℕ → Entry → Action × ℕ
find_id id e = (if e.id == id then remove_and_return else go_next, id)

abbrev pub found : Option Entry → Bool
found none = false
found (some e) = true

-- `id_mapper_del`; `none` as in `get`.
pub del : IdMapper → ℕ → Option (Bool × IdMapper)
unfolding find_id
del m id = if id == 0 then some (false, m) else elim m.list [
  | none ↦ none
  | some es ↦ let r = act find_id id es in some (found r.value, record m { list = some r.rest })
]

-- No entry of the list has this id.
abbrev pub Fresh : ℕ → List Entry → Type 0
Fresh id = All (λ e. e.id ≢ id)

-- The ids are distinct, none is 0 and all lie below the next one; no value is NULL.
abbrev pub IsDistinct : ℕ → List Entry → Type 0
IsDistinct next [] = Unit {0}
IsDistinct next (e ∷ es) =
    Fresh e.id es × (e.id ≢ 0) × (e.id < next) × (e.val ≢ 0) × IsDistinct next es

-- The mapper has its list `es`, and the counter has not wrapped.
pub record IsValid (m : IdMapper) (es : List Entry) : Type 0 where
  pub holds : m.list ≡ some es
  pub distinct : IsDistinct m.next es
  pub counting : 0 < m.next
  pub small : m.next < word_mod
