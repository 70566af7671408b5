-- ===== src/LinkedList/View.antt =====
-- The list as its users see it: the sequence of its values. `act` is `linkedlist_iter_with_action`
-- on that sequence, `without_first` is `linkedlist_remove_element`.
use bubackos.Prelude.{
  ℕ, ◌≡◌, refl, Option, none, some, List, [], ◌∷◌, ◌==◌, if◌then◌else◌, ap, Bool-cases, inl, inr,
}
use bubackos.LinkedList.{
  Action, go_next, stop_and_return, remove_and_return, remove_and_next, invalid, Callback,
}
use bubackos.LinkedList.Chain.{Cells, values}
use bubackos.LinkedList.Walk.{walk, walk-go, walk-stop, walk-remove, walk-invalid}
use bubackos.LinkedList.Removal.{erase}

-- The value that is answered (`none` is NULL), the data, and the sequence that is left.
pub record Acted (A D : Type 0) : Type 0 where
  pub value : Option A
  pub after : D
  pub rest : List A

-- A callback that never answers ITER_REMOVE_AND_NEXT.
unfoldable pub act : {A D : Type 0} → (D → A → Action × D) → D → List A → Acted A D
act f d [] = record { value = none; after = d; rest = [] }
act f d (x ∷ xs) =
    let r = act f (f d x).1 xs in
    elim (f d x).0 [
      | go_next ↦ record r { rest = x ∷ r.rest }
      | stop_and_return ↦ record { value = some x; after = (f d x).1; rest = x ∷ xs }
      | remove_and_return ↦ record { value = some x; after = (f d x).1; rest = xs }
      | _ ↦ record { value = none; after = (f d x).1; rest = x ∷ xs }
    ]

unfoldable pub without_first : ℕ → List ℕ → List ℕ
without_first a [] = []
without_first a (x ∷ xs) = let rest = without_first a xs in if x == a then xs else x ∷ rest

-- The values of the cells that the walk leaves are what `act` leaves of the values.
pub values-walk :
    {D : Type 0} (f : Callback D) (d : D) (cs : Cells)
    → (values (walk f d cs).rest ≡ (act f d (values cs)).rest)
      × ((walk f d cs).after ≡ (act f d (values cs)).after)
unfolding act
values-walk f d [] = unfold walk in (refl, refl)
values-walk {D} f d ((p, v) ∷ cs) = split (f d v).0 refl (values-walk f (f d v).1 cs)
  where
    split :
        (b : Action)
        → (f d v).0 ≡ b
        → (values (walk f (f d v).1 cs).rest ≡ (act f (f d v).1 (values cs)).rest)
          × ((walk f (f d v).1 cs).after ≡ (act f (f d v).1 (values cs)).after)
        → (values (walk f d ((p, v) ∷ cs)).rest ≡ (act f d (v ∷ values cs)).rest)
          × ((walk f d ((p, v) ∷ cs)).after ≡ (act f d (v ∷ values cs)).after)
    split go_next e ih = rw (walk-go f d p v cs e, e, act) (ap (λ r. v ∷ r) ih.0, ih.1)
    split stop_and_return e ih = rw (walk-stop f d p v cs e, e, act) (refl, refl)
    split remove_and_return e ih = rw (walk-remove f d p v cs e, e, act) (refl, refl)
    split remove_and_next e ih = unfold walk in rw (e, walk, act) (refl, refl)
    split invalid e ih = rw (walk-invalid f d p v cs e, e, act) (refl, refl)

-- So for `linkedlist_remove_element`.
pub values-erase : (a : ℕ) (cs : Cells) → values (erase a cs) ≡ without_first a (values cs)
unfolding without_first
values-erase a [] = refl
values-erase a ((p, v) ∷ cs) = elim (Bool-cases (v == a)) [
  | inl hit ↦ rw hit
  | inr miss ↦ rw miss (ap (λ r. v ∷ r) (values-erase a cs))
]
