-- ===== src/IdMapper/Find.antt =====
-- The step lemmas of the search for an id in the list of entries.
use bubackos.Prelude.{
  ℕ, ◌≡◌, refl, Bool, true, false, some, List, [], ◌∷◌, ◌==◌, if◌then◌else◌, Bool-cases, inl, inr,
}
use bubackos.LinkedList.View.{act}
use bubackos.IdMapper.{Entry, find_id, found, Fresh, IsDistinct}

pub act-hit :
    (id : ℕ) (e : Entry) (es : List Entry)
    → (e.id == id) ≡ true
    → act find_id id (e ∷ es) ≡ record { value = some e; after = id; rest = es }
unfolding act find_id
act-hit id e es hit = rw (act, find_id, hit) refl

pub act-miss :
    (id : ℕ) (e : Entry) (es : List Entry)
    → (e.id == id) ≡ false
    → act find_id id (e ∷ es) ≡ (
        let r = act find_id id es in record { value = r.value; after = r.after; rest = e ∷ r.rest })
unfolding act find_id
act-miss id e es miss = rw (act, find_id, miss) refl

pub Fresh-act : (n id : ℕ) (es : List Entry) → Fresh n es → Fresh n (act find_id id es).rest
Fresh-act n id [] f = unfold act in tt
Fresh-act n id (e ∷ es) f = elim (Bool-cases (e.id == id)) [
  | inl hit ↦ rw (act-hit id e es hit) f.1
  | inr miss ↦ rw (act-miss id e es miss) (f.0, Fresh-act n id es f.1)
]

pub IsDistinct-act :
    (next id : ℕ) (es : List Entry) → IsDistinct next es → IsDistinct next (act find_id id es).rest
IsDistinct-act next id [] d = unfold act in tt
IsDistinct-act next id (e ∷ es) d = elim (Bool-cases (e.id == id)) [
  | inl hit ↦ rw (act-hit id e es hit) d.4
  | inr miss ↦
      rw (act-miss id e es miss)
        (Fresh-act e.id id es d.0, d.1, d.2, d.3, IsDistinct-act next id es d.4)
]

-- Whether the search finds an entry, by the ids of the entries.
abbrev pub is_present : ℕ → List Entry → Bool
is_present id [] = false
is_present id (e ∷ es) = let rest = is_present id es in if e.id == id then true else rest

pub found-act : (id : ℕ) (es : List Entry) → found (act find_id id es).value ≡ is_present id es
found-act id [] = unfold act in refl
found-act id (e ∷ es) = elim (Bool-cases (e.id == id)) [
  | inl hit ↦ rw (act-hit id e es hit, hit) refl
  | inr miss ↦ rw (act-miss id e es miss, miss) (found-act id es)
]
