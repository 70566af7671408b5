-- ===== src/LinkedList/Removal.antt =====
-- `linkedlist_remove`, `linkedlist_pop` and `linkedlist_remove_element`.
use bubackos.Prelude.{
  ℕ, zero, suc, ◌-◌, ◌<◌, ◌≤◌, ◌≡◌, refl, Bool, true, false, Option, none, some, [], ◌∷◌, arith,
  ◌==◌, leb, ◌||◌, if◌then◌else◌, length, get_elem?, Bool-cases, inl, inr, ◌⊎◌, ◌∙◌, ==_eq, sub64,
  word_mod, ap,
}
use bubackos.LinkedList.Heap.{Ptr, null, Node, Heap, done, fault, spent, return, Run, follow, deref}
use bubackos.LinkedList.{
  Linkedlist, Iter, fuel, begin, size, iter_next_node, remove_node, go_next, remove_and_return,
  Callback, action_loop, iter_with_action, iter_remove_element, remove, pop, remove_element,
  remove_element_loop,
}
use bubackos.LinkedList.Chain.{
  Cells, values, owns, Chain, stop, link, IsList, AgreesOff, Succeeds, succeeds, and_then,
}
use bubackos.LinkedList.Reading.{or_null}
use bubackos.LinkedList.Walk.{
  walk, walk-go, walk-remove, Acted, KeepsOrReturns, iter_with_action-walk,
}

-- The cells without the one at the index.
abbrev pub remove_at : Cells → ℕ → Cells
remove_at [] i = []
remove_at (c ∷ cs) zero = cs
remove_at (c ∷ cs) (suc i) = c ∷ remove_at cs i

iter_remove_element-zero : (v : ℕ) → iter_remove_element 0 v ≡ (remove_and_return, 0)
unfolding iter_remove_element
iter_remove_element-zero v = refl

iter_remove_element-suc : (i v : ℕ) → iter_remove_element (suc i) v ≡ (go_next, i)
unfolding iter_remove_element
iter_remove_element-suc i v = ground arith

walk-remove_at :
    (i : ℕ) (cs : Cells)
    → ((walk iter_remove_element i cs).value ≡ or_null (get_elem? (values cs) i))
      × ((walk iter_remove_element i cs).rest ≡ remove_at cs i)
walk-remove_at zero [] = unfold walk in (refl, refl)
walk-remove_at (suc i) [] = unfold walk in (refl, refl)
walk-remove_at zero ((p, v) ∷ cs) =
    rw (walk-remove iter_remove_element 0 p v cs (ap (λ r. r.0) (iter_remove_element-zero v)))
      (refl, refl)
walk-remove_at (suc i) ((p, v) ∷ cs) =
    let ih = walk-remove_at i cs in
    rw
      (
        walk-go iter_remove_element (suc i) p v cs (ap (λ r. r.0) (iter_remove_element-suc i v)),
        iter_remove_element-suc i v,
      )
      (ih.0, ap (λ r. (p, v) ∷ r) ih.1)

iter_remove_element-keeps : KeepsOrReturns iter_remove_element
unfolding iter_remove_element
iter_remove_element-keeps d v = ground arith

-- A removal: the value, and the list of the cells that are left; a dropped cell is freed, and no
-- other address is touched.
abbrev pub Removed : Heap → Cells → ℕ → Cells → ℕ × Option Linkedlist → Heap → Type 0
Removed h cs value rest (v, ll) g =
    (v ≡ value)
    × ((l : Linkedlist) × (ll ≡ some l) × IsList g l rest)
    × AgreesOff cs h g
    × ((a : Ptr) → owns cs a ≡ true → owns rest a ≡ false → g a ≡ none)

module _ {h : Heap} {l : Linkedlist} {cs : Cells} (is : IsList h l cs) where
  -- For a list of under 2^64 elements that the heap holds: `linkedlist_remove` at an index inside the list
  -- answers the value there, unlinks its node and frees it.
  pub remove-at :
      (index : ℕ)
      → index < length cs
      → length cs < word_mod
      → Succeeds
          (Removed h cs (or_null (get_elem? (values cs) index)) (remove_at cs index))
          (remove (some l) index h)
  unfolding remove
  remove-at index lt small =
      let inside : leb l.size index ≡ false = ground (arith, is.counted) in
      let spec = walk-remove_at index cs in
      rw inside (
        and_then
          (iter_with_action-walk iter_remove_element index iter_remove_element-keeps is small)
          λ r g acted. succeeds (
            acted.0 ∙ spec.0,
            (r.2, refl, rw spec.1 at (acted.2)),
            acted.3,
            rw spec.1 at (acted.4),
          ))

  -- Outside the list `linkedlist_remove` answers NULL and changes nothing.
  remove_outside : (index : ℕ) → length cs ≤ index → remove (some l) index h ≡ done (0, some l) h
  unfolding remove
  remove_outside index le =
      let outside : leb l.size index ≡ true = ground (arith, is.counted) in rw outside

first-null : {h : Heap} {p : Ptr} {cs : Cells} → Chain h p cs → (p == null) ≡ true → length cs ≡ 0
first-null stop e = refl
first-null (link node apart c) e = absurd (node.ne_null (==_eq _ null e))

-- For a list of under 2^64 elements that the heap holds: `linkedlist_pop` on a list that is not empty
-- removes the last element and answers its value.
pub pop-last :
    {h : Heap} {l : Linkedlist} {cs : Cells}
    → IsList h l cs
    → 0 < length cs
    → length cs < word_mod
    → Succeeds
        (Removed h cs
          (or_null (get_elem? (values cs) (length cs - 1)))
          (remove_at cs (length cs - 1)))
        (pop (some l) h)
unfolding pop size
pop-last {h} {l} {cs} is some_cell small = elim (Bool-cases (l.first == null)) [
  | inl nil ↦ absurd (omega (arith, first-null is.chain nil))
  | inr ne ↦
      let e : sub64 l.size 1 ≡ length cs - 1 = omega (arith, is.counted) in
      rw (ne, e) (remove-at is (length cs - 1) (omega arith) small)
]

-- The search of `linkedlist_remove_element` as a callback: the data says whether it was found.
finder : ℕ → Callback Bool
finder addr found v = if v == addr then (remove_and_return, true) else (go_next, found)

finder-keeps : (addr : ℕ) → KeepsOrReturns (finder addr)
unfolding finder
finder-keeps addr d v = ground arith

finder-hit :
    (addr : ℕ) (b : Bool) (v : ℕ) → (v == addr) ≡ true → finder addr b v ≡ (remove_and_return, true)
unfolding finder
finder-hit addr b v e = rw e

finder-miss : (addr : ℕ) (b : Bool) (v : ℕ) → (v == addr) ≡ false → finder addr b v ≡ (go_next, b)
unfolding finder
finder-miss addr b v e = rw e

Run-cases :
    {A : Type 0} (r : Run A) → ((a : A) × (h : Heap) × (r ≡ done a h)) ⊎ ((r ≡ fault) ⊎ (r ≡ spent))
Run-cases (done a h) = inl (a, h, refl)
Run-cases fault = inr (inl refl)
Run-cases spent = inr (inr refl)

abbrev answer : ℕ × Bool × Linkedlist → Bool × Linkedlist
answer r = (r.1, r.2)

settle :
    (r : Run Linkedlist) (v : ℕ)
    → follow r (λ l'. return (true, l'))
      ≡ follow
          (follow r (λ l'. return {A = ℕ × Bool × Linkedlist} (v, true, l')))
          (λ r'. return (answer r'))
settle (done l h) v = refl
settle fault v = refl
settle spent v = refl

-- One round of the loop of `linkedlist_iter_with_action`, by what the node reads answer.
module _ {D : Type 0} (f : Callback D) (k : ℕ) (l : Linkedlist) (d : D) (previous : Ptr)
    (it : Option Iter) (h : Heap) where
  action_loop-spent : iter_next_node it h ≡ spent → action_loop f (suc k) l d previous it h ≡ spent
  unfolding action_loop
  action_loop-spent e = rw e

  action_loop-fault : iter_next_node it h ≡ fault → action_loop f (suc k) l d previous it h ≡ fault
  unfolding action_loop
  action_loop-fault e = rw e

  module _ {next : Ptr} {it' : Option Iter} {g : Heap}
      (e : iter_next_node it h ≡ done (next, it') g) where
    action_loop-end :
        (next == null) ≡ true → action_loop f (suc k) l d previous it h ≡ done (0, d, l) g
    unfolding action_loop
    action_loop-end end = rw (e, end)

    module _ (more : (next == null) ≡ false) where
      action_loop-deref_fault :
          deref next g ≡ fault → action_loop f (suc k) l d previous it h ≡ fault
      unfolding action_loop
      action_loop-deref_fault e' = rw (e, more, e')

      action_loop-deref_spent :
          deref next g ≡ spent → action_loop f (suc k) l d previous it h ≡ spent
      unfolding action_loop
      action_loop-deref_spent e' = rw (e, more, e')

      module _ {n : Node} {g' : Heap} (e' : deref next g ≡ done n g') {d' : D} where
        action_loop-remove :
            f d n.val ≡ (remove_and_return, d')
            → action_loop f (suc k) l d previous it h
              ≡ follow (remove_node l previous next g') (λ l'. return (n.val, d', l'))
        unfolding action_loop
        action_loop-remove a = rw (e, more, e', a, a)

        action_loop-go :
            f d n.val ≡ (go_next, d')
            → action_loop f (suc k) l d previous it h ≡ action_loop f k l d' next it' g'
        unfolding action_loop
        action_loop-go a = rw (e, more, e', a, a)

-- The two loops take the same steps.
remove_element_loop-finder :
    (k : ℕ) (l : Linkedlist) (addr : ℕ) (previous : Ptr) (it : Option Iter) (h : Heap)
    → remove_element_loop k l addr previous it h
      ≡ follow (action_loop (finder addr) k l false previous it h) (λ r. return (answer r))
unfolding remove_element_loop
remove_element_loop-finder zero l addr previous it h = unfold action_loop in refl
remove_element_loop-finder (suc k) l addr previous it h = elim (Run-cases (iter_next_node it h)) [
  | inr (inl e) ↦ rw (e, action_loop-fault f k l false previous it h e)
  | inr (inr e) ↦ rw (e, action_loop-spent f k l false previous it h e)
  | inl ((next, it'), g, e) ↦ elim (Bool-cases (next == null)) [
    | inl end ↦ rw (e, end, action_loop-end f k l false previous it h e end)
    | inr more ↦ elim (Run-cases (deref next g)) [
      | inr (inl e') ↦ rw (e, more, e', action_loop-deref_fault f k l false previous it h e more e')
      | inr (inr e') ↦ rw (e, more, e', action_loop-deref_spent f k l false previous it h e more e')
      | inl (n, g', e') ↦ elim (Bool-cases (n.val == addr)) [
        | inl hit ↦
            rw
              (
                e,
                more,
                e',
                hit,
                action_loop-remove f k l false previous it h e more e'
                    (finder-hit addr false n.val hit),
              )
              (settle (remove_node l previous next g') n.val)
        | inr miss ↦
            rw
              (
                e,
                more,
                e',
                miss,
                action_loop-go f k l false previous it h e more e'
                    (finder-miss addr false n.val miss),
              )
              (remove_element_loop-finder k l addr next it' g')
      ]
    ]
  ]
]
  where
    f : Callback Bool
    f = finder addr

-- Whether a cell holds the value, and the cells without the first that does.
abbrev pub contains : ℕ → Cells → Bool
contains addr [] = false
contains addr ((p, v) ∷ cs) = (v == addr) || contains addr cs

abbrev pub erase : ℕ → Cells → Cells
erase addr [] = []
erase addr ((p, v) ∷ cs) = if v == addr then cs else (p, v) ∷ erase addr cs

walk-finder :
    (addr : ℕ) (cs : Cells)
    → ((walk (finder addr) false cs).after ≡ contains addr cs)
      × ((walk (finder addr) false cs).rest ≡ erase addr cs)
walk-finder addr [] = unfold walk in (refl, refl)
walk-finder addr ((p, v) ∷ cs) = elim (Bool-cases (v == addr)) [
  | inl hit ↦
      let a = finder-hit addr false v hit in
      rw (walk-remove (finder addr) false p v cs (ap (λ r. r.0) a), a, hit) (refl, refl)
  | inr miss ↦
      let a = finder-miss addr false v miss in
      let ih = walk-finder addr cs in
      rw (walk-go (finder addr) false p v cs (ap (λ r. r.0) a), a, miss)
        (ih.0, ap (λ r. (p, v) ∷ r) ih.1)
]

-- A removal by value: the answer, the list that is left, and the heap.
abbrev pub Erased : Heap → Cells → ℕ → Bool × Option Linkedlist → Heap → Type 0
Erased h cs addr (found, ll) g =
    (found ≡ contains addr cs)
    × ((l : Linkedlist) × (ll ≡ some l) × IsList g l (erase addr cs))
    × AgreesOff cs h g
    × ((a : Ptr) → owns cs a ≡ true → owns (erase addr cs) a ≡ false → g a ≡ none)

settle-Erased :
    {h : Heap} (cs : Cells) (addr : ℕ) {r : Run (ℕ × Bool × Linkedlist)}
    → Succeeds (Acted (finder addr) h cs (walk (finder addr) false cs)) r
    → Succeeds
        (Erased h cs addr)
        (follow (follow r (λ r'. return (answer r'))) (λ r'. return (r'.0, some r'.1)))
settle-Erased cs addr (succeeds {a = a} acted) =
    let spec = walk-finder addr cs in
    succeeds
      (acted.1 ∙ spec.0, (a.2, refl, rw spec.1 at (acted.2)), acted.3, rw spec.1 at (acted.4))

-- For a list of under 2^64 elements that the heap holds: `linkedlist_remove_element` says whether some
-- element equals `addr`; the first that does is unlinked and its node freed, all others stay in
-- order, and no other address is touched.
pub remove_element-erase :
    {h : Heap} {l : Linkedlist} {cs : Cells} (addr : ℕ)
    → IsList h l cs
    → length cs < word_mod
    → Succeeds (Erased h cs addr) (remove_element (some l) addr h)
unfolding remove_element
remove_element-erase {h} {l} {cs} addr is small =
    rw (remove_element_loop-finder (fuel l) l addr null (begin l) h) (
      settle-Erased cs addr (
        unfold iter_with_action in
        iter_with_action-walk (finder addr) false (finder-keeps addr) is small))
