-- ===== src/LinkedList/Reading.antt =====
-- `linkedlist_get` and `linkedlist_find`: what they answer, with the heap as it was.
use bubackos.Prelude.{
  All, ℕ, zero, suc, ◌+◌, ◌<◌, ◌≤◌, ◌≡◌, ◌≢◌, refl, false, Option, none, some, List, [], ◌∷◌, ◌++◌,
  arith, ◌==◌, leb, if◌then◌else◌, length, get_elem?, Bool-cases, inl, inr,
}
use bubackos.LinkedList.Heap.{Ptr, null, Heap, done}
use bubackos.LinkedList.{
  Linkedlist, Iter, fuel, iter_next_node, iter_next, get_loop, get, find_loop, find,
}
use bubackos.LinkedList.Chain.{
  Cells, values, Chain, stop, link, IsList, IsNode, not_null, deref-node,
}

abbrev pub at : Ptr → Option Iter
at p = some (record { next_node = p })

-- The element, or NULL.
abbrev pub or_null : Option ℕ → ℕ
or_null none = 0
or_null (some v) = v

get_elem?-values : (cs : Cells) (i : ℕ) → length cs ≤ i → or_null (get_elem? (values cs) i) ≡ 0
get_elem?-values [] i le = refl
get_elem?-values ((p, v) ∷ cs) zero le = absurd (omega arith)
get_elem?-values ((p, v) ∷ cs) (suc i) le = get_elem?-values cs i (omega arith)

module _ {h : Heap} where
  pub iter_next_node-link :
      {p q : Ptr} {v : ℕ} → IsNode h p v q → iter_next_node (at p) h ≡ done (p, at q) h
  unfolding iter_next_node
  iter_next_node-link e = rw (not_null e, deref-node e)

  pub iter_next_node-stop : iter_next_node (at null) h ≡ done (null, at null) h
  unfolding iter_next_node
  iter_next_node-stop = refl

  get_loop-get :
      (k : ℕ) {p q : Ptr} {v : ℕ} {cs : Cells}
      → IsNode h p v q
      → Chain h q cs
      → k < suc (length cs)
      → (r : Ptr) × (w : ℕ) × (s : Ptr) × (get_loop k p (at q) h ≡ done r h)
        × IsNode h r w s
        × (get_elem? (v ∷ values cs) k ≡ some w)
  unfolding get_loop
  get_loop-get zero {p} {q} {v} e c lt = (p, v, q, refl, e, refl)
  get_loop-get (suc k) e stop lt = absurd (omega arith)
  get_loop-get (suc k) e (link e' apart c) lt =
      rw (not_null e, iter_next_node-link e') (get_loop-get k e' c (omega arith))

  get-Chain :
      {p : Ptr} {n : ℕ} {cs : Cells} (index : ℕ)
      → Chain h p cs
      → n ≡ length cs
      → index < n
      → get (some (record { first = p; size = n })) index h
        ≡ done (or_null (get_elem? (values cs) index)) h
  unfolding get
  get-Chain index stop counted lt = absurd (omega arith)
  get-Chain {n} index (link {cs} e apart c) counted lt =
      let (r, w, s, run, e', is) = get_loop-get index e c (omega arith) in
      let inside : leb n index ≡ false = ground arith in
      rw (inside, iter_next_node-link e, run, not_null e', deref-node e') (rw is)

  -- For a list that the heap holds with its size: `linkedlist_get` answers the value at the
  -- index, and NULL behind the end; it writes nothing.
  pub get-value :
      {l : Linkedlist} {cs : Cells} (index : ℕ)
      → IsList h l cs
      → get (some l) index h ≡ done (or_null (get_elem? (values cs) index)) h
  get-value {l} {cs} index is = elim (Bool-cases (leb l.size index)) [
    | inl out ↦ unfold get in rw out (rw (get_elem?-values cs index (ground (arith, is.counted))))
    | inr inside ↦ get-Chain index is.chain is.counted (ground arith)
  ]

  iter_next-link : {p q : Ptr} {v : ℕ} → IsNode h p v q → iter_next (at p) h ≡ done (v, at q) h
  unfolding iter_next
  iter_next-link e = rw (iter_next_node-link e, not_null e, deref-node e)

-- The position of the first `el`, counted from `i`, among the values before the first NULL.
pub position : ℕ → List ℕ → ℕ → Option ℕ
position el [] i = none
position el (v ∷ vs) i =
    let rest = position el vs (suc i) in if v == 0 then none else if v == el then some i else rest

module _ {h : Heap} where
  find_loop-position :
      (k : ℕ) {p : Ptr} {cs : Cells} (el i : ℕ)
      → Chain h p cs
      → length cs < k
      → find_loop k el i (at p) h ≡ done (position el (values cs) i) h
  unfolding find_loop position
  find_loop-position zero el i c lt = absurd (omega arith)
  find_loop-position (suc k) el i stop lt = unfold iter_next iter_next_node in refl
  find_loop-position (suc k) el i (link {v} e apart c) lt =
      rw (iter_next-link e) (elim (Bool-cases (v == 0)) [
        | inl nil ↦ rw nil
        | inr other ↦ elim (Bool-cases (v == el)) [
          | inl hit ↦ rw (other, hit)
          | inr miss ↦ rw (other, miss) (find_loop-position k el (suc i) c (omega arith))
        ]
      ])

  -- For a list that the heap holds with its size: `linkedlist_find` answers the position of the
  -- first `el`, or -1 if there is none; but a NULL value hides all that stands behind it. It
  -- writes nothing.
  pub find-position :
      {l : Linkedlist} {cs : Cells} (el : ℕ)
      → IsList h l cs
      → find (some l) el h ≡ done (position el (values cs) 0) h
  unfolding find
  find-position {l} el is = find_loop-position (fuel l) el 0 is.chain (omega (arith, is.counted))

-- With no NULL among the values, `position` says where the value stands for the first time.
pub position-first :
    (el : ℕ) (vs ws : List ℕ) (i : ℕ)
    → el ≢ 0
    → All (λ v. (v ≢ 0) × (v ≢ el)) vs
    → position el (vs ++ el ∷ ws) i ≡ some (i + length vs)
unfolding position
position-first el [] ws i ne h = ground arith
position-first el (v ∷ vs) ws i ne h = ground (arith, position-first el vs ws (suc i) ne h.1, h.0)
