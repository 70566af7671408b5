-- ===== src/IdMapper/Lookup.antt =====
-- What `id_mapper_get` answers after `id_mapper_add` and `id_mapper_del`: a finite map.
use mathlib.Core.Bool.{false≢true, true≢false}
use bubackos.Prelude.{
  ℕ, ◌+◌, ◌<◌, ◌≡◌, ◌≢◌, refl, Bool, true, false, some, List, [], ◌∷◌, ◌++◌, ◌==◌, if◌then◌else◌,
  add64, word_mod, arith, Bool-cases, inl, inr, ap, ==_eq, ==_ne, ◌∙◌, sym,
}
use bubackos.LinkedList.View.{act}
use bubackos.IdMapper.{
  Entry, IdMapper, get_in, get, push, add, find_id, del, Fresh, IsDistinct, IsValid,
}
use bubackos.IdMapper.Invariant.{Fresh-of_lt, add-IsValid_stored}
use bubackos.IdMapper.Find.{act-hit, act-miss, is_present, found-act, IsDistinct-act}

get_in-Fresh : (id : ℕ) (es : List Entry) → Fresh id es → get_in es id ≡ 0
unfolding get_in
get_in-Fresh id [] f = refl
get_in-Fresh id (e ∷ es) f = rw (==_ne e.id id f.0) (get_in-Fresh id es f.1)

get_in-append :
    (id : ℕ) (es : List Entry) (e : Entry)
    → Fresh e.id es
    → get_in (es ++ (e ∷ [])) id ≡ (if e.id == id then e.val else get_in es id)
unfolding get_in
get_in-append id [] e f = refl
get_in-append id (x ∷ es) e f = ground (arith, get_in-append id es e f.1, f.0)

get_in-act :
    (id j next : ℕ) (es : List Entry)
    → IsDistinct next es
    → get_in (act find_id id es).rest j ≡ (if id == j then 0 else get_in es j)
unfolding get_in
get_in-act id j next [] d = unfold act in ground arith
get_in-act id j next (e ∷ es) d = elim (Bool-cases (e.id == id)) [
  | inl hit ↦ rw (act-hit id e es hit) (ground (arith, get_in-Fresh e.id es d.0, ==_eq e.id id hit))
  | inr miss ↦ rw (act-miss id e es miss) (ground (arith, miss, get_in-act id j next es d.4))
]

get_in-zero : (next : ℕ) (es : List Entry) → IsDistinct next es → get_in es 0 ≡ 0
unfolding get_in
get_in-zero next [] d = refl
get_in-zero next (e ∷ es) d = rw (==_ne e.id 0 d.1) (get_in-zero next es d.4)

-- On a valid mapper, `id_mapper_get` is the search, for the id 0 too.
get-get_in :
    {m : IdMapper} {es : List Entry} (id : ℕ) → IsValid m es → get (some m) id ≡ some (get_in es id)
unfolding get
get-get_in {m} {es} id v = elim (Bool-cases (id == 0)) [
  | inl nil ↦ rw (nil, ==_eq id 0 nil, get_in-zero m.next es v.distinct) refl
  | inr some_id ↦ rw (some_id, v.holds) refl
]

add-stored :
    {m : IdMapper} {es : List Entry} (val : ℕ)
    → IsValid m es
    → (val == 0) ≡ false
    → add true true m val ≡ (
      m.next,
      record {
        next = add64 m.next 1;
        list = some (es ++ (record { id = m.next; val = val } ∷ []));
      },
    )
unfolding add
add-stored val v some_val = rw (some_val, v.holds, push) refl

-- On a valid mapper whose counter does not wrap, for a value that is not NULL, when both
-- allocations succeed: `id_mapper_add` answers an id that is not 0 and that `id_mapper_get` did
-- not know; `id_mapper_get` of it then answers the value, and of every other id what it answered
-- before.
pub get-add :
    {m : IdMapper} {es : List Entry} (val : ℕ)
    → IsValid m es
    → m.next + 1 < word_mod
    → val ≢ 0
    → ((add true true m val).0 ≢ 0)
      × (get (some m) (add true true m val).0 ≡ some 0)
      × ((j : ℕ)
          → get (some (add true true m val).1) j
            ≡ (if (add true true m val).0 == j then some val else get (some m) j))
get-add {m} {es} val v small nv = rw (add-stored val v some_val) (
  (λ z. omega (arith, v.counting)),
  get-get_in m.next v ∙ ap some (get_in-Fresh m.next es fresh),
  (λ j.
      rw
        (
          get-get_in j w,
          get-get_in j v,
          get_in-append j es (record { id = m.next; val = val }) fresh,
        )
        (elim (Bool-cases (m.next == j)) [ inl e ↦ rw e refl | inr e ↦ rw e refl ])),
)
  where
    some_val : (val == 0) ≡ false
    some_val = ==_ne val 0 nv

    fresh : Fresh m.next es
    fresh = Fresh-of_lt m.next m.next es (omega arith) v.distinct

    w :
        IsValid
          (record {
            next = add64 m.next 1;
            list = some (es ++ (record { id = m.next; val = val } ∷ []));
          })
          (es ++ (record { id = m.next; val = val } ∷ []))
    w = add-IsValid_stored val v some_val small

is_present-get_in :
    (id next : ℕ) (es : List Entry)
    → IsDistinct next es
    → (is_present id es ≡ true → get_in es id ≢ 0) × (is_present id es ≡ false → get_in es id ≡ 0)
unfolding get_in
is_present-get_in id next [] d = (λ e z. false≢true e, λ e. refl)
is_present-get_in id next (e ∷ es) d = elim (Bool-cases (e.id == id)) [
  | inl hit ↦ rw hit (λ _. d.3, λ eq. absurd (true≢false eq))
  | inr miss ↦ rw miss (is_present-get_in id next es d.4)
]

del-some :
    {m : IdMapper} {es : List Entry} (id : ℕ)
    → IsValid m es
    → (id == 0) ≡ false
    → del m id ≡ some (is_present id es, record m { list = some (act find_id id es).rest })
unfolding del
del-some {m} {es} id v some_id = rw (some_id, v.holds, found-act id es) refl

-- On a valid mapper, `id_mapper_del` of an id is defined; it answers whether `id_mapper_get` knew
-- the id; after it `id_mapper_get` answers NULL for this id and as before for every other.
pub get-del :
    {m : IdMapper} {es : List Entry} (id : ℕ)
    → IsValid m es
    → (b : Bool) × (m' : IdMapper) × (del m id ≡ some (b, m'))
      × ((b ≡ true → get (some m) id ≢ some 0) × (b ≡ false → get (some m) id ≡ some 0))
      × ((j : ℕ) → get (some m') j ≡ (if id == j then some 0 else get (some m) j))
get-del {m} {es} id v = elim (Bool-cases (id == 0)) [
  | inl nil ↦ (
    false,
    m,
    unfold del in rw nil refl,
    (λ e. absurd (false≢true e), λ e. zero id nil),
    λ j. elim (Bool-cases (id == j)) [
      | inl e ↦ rw e (ap (get (some m)) (sym (==_eq id j e)) ∙ zero id nil)
      | inr e ↦ rw e refl
    ],
  )
  | inr some_id ↦ (
    is_present id es,
    record m { list = some (act find_id id es).rest },
    del-some id v some_id,
    (
      λ e z. (is_present-get_in id m.next es v.distinct).0 e (unwrap (sym (get-get_in id v) ∙ z)),
      λ e. get-get_in id v ∙ ap some ((is_present-get_in id m.next es v.distinct).1 e),
    ),
    λ j.
        rw (get-get_in j (after v), get-get_in j v, get_in-act id j m.next es v.distinct)
          (elim (Bool-cases (id == j)) [ inl e ↦ rw e refl | inr e ↦ rw e refl ]),
  )
]
  where
    zero : (id : ℕ) → (id == 0) ≡ true → get (some m) id ≡ some 0
    zero id nil = unfold get in rw nil refl

    unwrap : {a b : ℕ} → some a ≡ some b → a ≡ b
    unwrap e = cc

    after :
        IsValid m es
        → IsValid (record m { list = some (act find_id id es).rest }) (act find_id id es).rest
    after v = record {
      holds = refl;
      distinct = IsDistinct-act m.next id es v.distinct;
      counting = v.counting;
      small = v.small;
    }
