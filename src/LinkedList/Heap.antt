-- ===== src/LinkedList/Heap.antt =====
-- The memory of the list nodes (`linkedlist_node_t` of linkedlist.h) and programs over it.
use bubackos.Prelude.{ℕ, Option, none, some, ◌==◌, if◌then◌else◌}

-- Addresses; `NULL` is 0.
abbrev pub Ptr : Type 0
Ptr = ℕ

abbrev pub null : Ptr
null = 0

-- `linkedlist_node_t`: a `void*` value is a number as well.
pub record Node : Type 0 where
  pub val : ℕ
  pub next : Ptr

-- The nodes that are allocated.
abbrev pub Heap : Type 0
Heap = Ptr → Option Node

unfoldable pub put : Heap → Ptr → Option Node → Heap
put h p c q = if q == p then c else h q

-- `fault`: a NULL or freed address was read or written. `spent`: a loop used up its fuel.
pub data Run (A : Type 0) : Type 0 where
  done : A → Heap → Run A
  fault : Run A
  spent : Run A

abbrev pub Prog : Type 0 → Type 0
Prog A = Heap → Run A

abbrev pub return : {A : Type 0} → A → Prog A
return a h = done a h

abbrev pub follow : {A B : Type 0} → Run A → (A → Prog B) → Run B
follow (done a h) k = k a h
follow fault k = fault
follow spent k = spent

infixl 5 ◌>>=◌ ◌>>◌
abbrev pub ◌>>=◌ : {A B : Type 0} → Prog A → (A → Prog B) → Prog B
◌>>=◌ m k h = follow (m h) k

abbrev pub ◌>>◌ : {B : Type 0} → Prog (Unit {0}) → Prog B → Prog B
◌>>◌ m k h = follow (m h) (λ _. k)

-- `*p`
unfoldable pub deref : Ptr → Prog Node
deref p h = if p == null then fault else elim (h p) [ some n ↦ done n h | none ↦ fault ]

-- `*p = n`, for an allocated `p`
unfoldable pub assign : Ptr → Node → Prog (Unit {0})
assign p n h =
    if p == null then fault else elim (h p) [ some _ ↦ done tt (put h p (some n)) | none ↦ fault ]

-- `MEM_FREE(p)`: freeing NULL does nothing.
unfoldable pub mem_free : Ptr → Prog (Unit {0})
mem_free p h =
    if p == null then done tt h else elim (h p) [ some _ ↦ done tt (put h p none) | none ↦ fault ]

-- `p->val = v; p->next = q` in the zeroed memory at `p` that `MEM_ALLOC` returned.
abbrev pub fill : Ptr → Node → Prog (Unit {0})
fill p n h = done tt (put h p (some n))
