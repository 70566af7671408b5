-- ===== src/LinkedList/Chain.antt =====
-- What the nodes of a list stand for, and when a program succeeds.
use bubackos.Prelude.{
  ℕ, ◌≡◌, ◌≢◌, refl, Bool, true, false, ◌||◌, Option, none, some, List, [], ◌∷◌, ◌++◌, arith, ◌==◌,
  length, ==_ne,
}
use bubackos.LinkedList.Heap.{
  Ptr, null, Node, Heap, put, Run, done, Prog, follow, deref, assign, mem_free,
}
use bubackos.LinkedList.{Linkedlist}

-- The address and the value of each node, in order.
abbrev pub Cells : Type 0
Cells = List (Ptr × ℕ)

abbrev pub values : Cells → List ℕ
values [] = []
values ((p, v) ∷ cs) = v ∷ values cs

-- `p` is one of the addresses.
abbrev pub owns : Cells → Ptr → Bool
owns [] p = false
owns ((q, v) ∷ cs) p = (p == q) || owns cs p

-- Node `p` is allocated and holds `v` and the link `q`.
pub record IsNode (h : Heap) (p : Ptr) (v : ℕ) (q : Ptr) : Type 0 where
  pub ne_null : p ≢ null
  pub content : h p ≡ some (record { val = v; next = q })

-- From `p` the links lead through the nodes of the cells, all distinct, to NULL.
pub data Chain (h : Heap) : Ptr → Cells → Type 0 where
  stop : Chain h null []
  link :
      {p q : Ptr} {v : ℕ} {cs : Cells}
      → IsNode h p v q
      → owns cs p ≡ false
      → Chain h q cs
      → Chain h p ((p, v) ∷ cs)

-- `l` is the list of these cells.
pub record IsList (h : Heap) (l : Linkedlist) (cs : Cells) : Type 0 where
  pub chain : Chain h l.first cs
  pub counted : l.size ≡ length cs

-- `g` agrees with `h` except at the addresses of the cells.
abbrev pub AgreesOff : Cells → Heap → Heap → Type 0
AgreesOff cs h g = (a : Ptr) → owns cs a ≡ false → g a ≡ h a

-- The program succeeds: no fault, enough fuel, and `P` of the result and the heap.
pub data Succeeds {A : Type 0} (P : A → Heap → Type 0) : Run A → Type 0 where
  succeeds : {a : A} {h : Heap} → P a h → Succeeds P (done a h)

module _ {A : Type 0} {P : A → Heap → Type 0} where
  pub and_then :
      {B : Type 0} {Q : B → Heap → Type 0} {r : Run A} {k : A → Prog B}
      → Succeeds P r
      → ((a : A) (h : Heap) → P a h → Succeeds Q (k a h))
      → Succeeds Q (follow r k)
  and_then (succeeds p) rest = rest _ _ p

  pub weaken :
      {Q : A → Heap → Type 0} {r : Run A}
      → Succeeds P r
      → ((a : A) (h : Heap) → P a h → Q a h)
      → Succeeds Q r
  weaken (succeeds p) f = succeeds (f _ _ p)

module _ {h : Heap} {p : Ptr} {v : ℕ} {q : Ptr} (e : IsNode h p v q) where
  pub not_null : (p == null) ≡ false
  not_null = ==_ne p null e.ne_null

  pub deref-node : deref p h ≡ done (record { val = v; next = q }) h
  unfolding deref
  deref-node = rw (not_null, e.content)

  pub assign-node : (n : Node) → assign p n h ≡ done tt (put h p (some n))
  unfolding assign
  assign-node n = rw (not_null, e.content)

  pub mem_free-node : mem_free p h ≡ done tt (put h p none)
  unfolding mem_free
  mem_free-node = rw (not_null, e.content)

module _ {h : Heap} where
  -- A chain survives what happens at other addresses.
  pub transfer :
      {g : Heap} {p : Ptr} {cs : Cells}
      → Chain h p cs
      → ((a : Ptr) → owns cs a ≡ true → g a ≡ h a)
      → Chain g p cs
  transfer stop same = stop
  transfer (link {p} e apart c) same =
      link (record { ne_null = e.ne_null; content = ground (arith, same p, e.content) }) apart
        (transfer c (λ a i. same a (ground arith)))

  pub transfer-put :
      {p : Ptr} {cs : Cells} (a : Ptr) (c : Option Node)
      → Chain h p cs
      → owns cs a ≡ false
      → Chain (put h a c) p cs
  unfolding put
  transfer-put a c chain out = transfer chain (λ b i. ground arith)

  pub IsNode-transfer :
      {g : Heap} {p : Ptr} {v : ℕ} {q : Ptr} → IsNode h p v q → g p ≡ h p → IsNode g p v q
  IsNode-transfer e same = record { ne_null = e.ne_null; content = ground (arith, same, e.content) }

  -- An address that is not allocated belongs to no node of a chain.
  pub not-owns : {p : Ptr} {cs : Cells} (a : Ptr) → Chain h p cs → h a ≡ none → owns cs a ≡ false
  not-owns a stop unused = refl
  not-owns a (link e apart c) unused = ground (arith, not-owns a c unused, e.content)

  pub not-owns-null : {p : Ptr} {cs : Cells} → Chain h p cs → owns cs null ≡ false
  not-owns-null stop = refl
  not-owns-null (link e apart c) = ground (arith, not-owns-null c, e.ne_null)

pub owns-append : (cs ds : Cells) (a : Ptr) → owns (cs ++ ds) a ≡ (owns cs a || owns ds a)
owns-append [] ds a = refl
owns-append ((p, v) ∷ cs) ds a = ground (arith, owns-append cs ds a)
