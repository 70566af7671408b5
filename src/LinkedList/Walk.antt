-- ===== src/LinkedList/Walk.antt =====
-- `linkedlist_iter_with_action`: what the loop does to the cells, for callbacks that never answer
-- ITER_REMOVE_AND_NEXT.
use mathlib.Core.Path.{subst}
use bubackos.Prelude.{
  ℕ, zero, suc, ◌+◌, ◌<◌, ◌≤◌, ◌≡◌, ◌≢◌, refl, true, false, none, some, [], ◌∷◌, arith, ◌==◌,
  length, ◌∙◌, sub64, word_mod, sym,
}
use bubackos.LinkedList.Heap.{Ptr, null, Node, Heap, put}
use bubackos.LinkedList.{
  Linkedlist, fuel, remove_node, Action, go_next, stop_and_return, remove_and_return,
  remove_and_next, invalid, Callback, action_loop, iter_with_action,
}
use bubackos.LinkedList.Chain.{
  Cells, owns, Chain, stop, link, IsList, IsNode, not_null, deref-node, assign-node, mem_free-node,
  AgreesOff, Succeeds, succeeds, and_then, weaken, transfer-put, IsNode-transfer,
}
use bubackos.LinkedList.Reading.{at, iter_next_node-link, iter_next_node-stop}

-- What the walk answers: the value, the data, and the cells that are left.
pub record Outcome (D : Type 0) : Type 0 where
  pub value : ℕ
  pub after : D
  pub rest : Cells

module _ {D : Type 0} (f : Callback D) where
  -- The walk over the cells: it ends at the first answer that is not ITER_GO_NEXT.
  unfoldable pub walk : D → Cells → Outcome D
  walk d [] = record { value = 0; after = d; rest = [] }
  walk d ((p, v) ∷ cs) =
      let r = walk (f d v).1 cs in
      elim (f d v).0 [
        | go_next ↦ record r { rest = (p, v) ∷ r.rest }
        | stop_and_return ↦ record { value = v; after = (f d v).1; rest = (p, v) ∷ cs }
        | remove_and_return ↦ record { value = v; after = (f d v).1; rest = cs }
        | _ ↦ record { value = 0; after = (f d v).1; rest = (p, v) ∷ cs }
      ]

-- The place that links to `cur`: the header, or a node of value `w` in front of it that is not
-- among the cells.
data Slot (h : Heap) (l : Linkedlist) (cs : Cells) (cur : Ptr) (w : ℕ) : Ptr → Type 0 where
  at_head : l.first ≡ cur → Slot h l cs cur w null
  at_node :
      {previous : Ptr}
      → IsNode h previous w cur
      → owns cs previous ≡ false
      → owns cs l.first ≡ false
      → Slot h l cs cur w previous

Slot-IsNode :
    {h : Heap} {l : Linkedlist} {cs : Cells} {cur previous : Ptr} {w : ℕ}
    → Slot h l cs cur w previous
    → previous ≢ null
    → IsNode h previous w cur
Slot-IsNode (at_head first) ne = absurd (ne refl)
Slot-IsNode (at_node e out away) ne = e

Slot-first :
    {h : Heap} {l : Linkedlist} {cs : Cells} {cur previous : Ptr} {w : ℕ}
    → Slot h l cs cur w previous
    → previous ≡ null
    → l.first ≡ cur
Slot-first (at_head first) e = first
Slot-first (at_node node out away) e = absurd (node.ne_null e)

-- After the removal of the node that the slot links to, the slot links to what stood behind it.
record Unlinked (h : Heap) (l : Linkedlist) (previous removed q : Ptr) (w : ℕ) (cs : Cells)
    (l' : Linkedlist) (g : Heap) : Type 0 where
  slot : Slot g l' cs q w previous
  chain : Chain g q cs
  counted : l'.size ≡ sub64 l.size 1
  first : previous ≢ null → l'.first ≡ l.first
  gone : g removed ≡ none
  same :
      (a : Ptr) → (previous ≢ null → (a == previous) ≡ false) → (a == removed) ≡ false → g a ≡ h a

module _ {h : Heap} {l : Linkedlist} where
  remove_node-Unlinked :
      {previous p q : Ptr} {v w : ℕ} {cs : Cells}
      → Slot h l ((p, v) ∷ cs) p w previous
      → IsNode h p v q
      → owns cs p ≡ false
      → Chain h q cs
      → Succeeds (Unlinked h l previous p q w cs) (remove_node l previous p h)
  unfolding remove_node put
  remove_node-Unlinked {p} {q} (at_head first) e apart c =
      let hit : (l.first == p) ≡ true = ground (arith, first) in
      rw (not_null e, deref-node e, mem_free-node e, hit)
        (succeeds (record {
          slot = at_head refl;
          chain = transfer-put p none c apart;
          counted = refl;
          first = λ ne. absurd (ne refl);
          gone = ground arith;
          same = λ a ne ne'. ground arith;
        }))
  remove_node-Unlinked {p} {q} {v} {w} (at_node {previous} e' out away) e apart c =
      let miss : (l.first == p) ≡ false = ground (arith, away) in
      let n : Node = record { val = w; next = q } in
      let still : IsNode (put h previous (some n)) p v q = IsNode-transfer e (ground arith) in
      rw
        (
          not_null e,
          deref-node e,
          not_null e',
          deref-node e',
          assign-node e' n,
          mem_free-node still,
          miss,
        )
        (succeeds (record {
          slot =
              at_node (record { ne_null = e'.ne_null; content = ground arith }) (ground arith)
                (ground arith);
          chain = transfer-put p none (transfer-put previous (some n) c (ground arith)) apart;
          counted = refl;
          first = λ ne. refl;
          gone = ground arith;
          same = λ a ne ne'. ground (arith, ne e'.ne_null);
        }))

-- What the loop has done when it stops, from the slot `previous` and the cells behind it.
record Walked (D : Type 0) (h : Heap) (l : Linkedlist) (previous : Ptr) (w : ℕ) (cs : Cells)
    (o : Outcome D) (r : ℕ × D × Linkedlist) (g : Heap) : Type 0 where
  cur : Ptr
  value : r.0 ≡ o.value
  after : r.1 ≡ o.after
  slot : Slot g r.2 o.rest cur w previous
  chain : Chain g cur o.rest
  counted : r.2.size + length cs ≡ l.size + length o.rest
  first : previous ≢ null → r.2.first ≡ l.first
  same : (a : Ptr) → (previous ≢ null → (a == previous) ≡ false) → owns cs a ≡ false → g a ≡ h a
  freed : (a : Ptr) → owns cs a ≡ true → owns o.rest a ≡ false → g a ≡ none

module _ {D : Type 0} (f : Callback D) where
  walk-owns : (d : D) (cs : Cells) (a : Ptr) → owns cs a ≡ false → owns (walk f d cs).rest a ≡ false
  unfolding walk
  walk-owns d [] a h = refl
  walk-owns d ((p, v) ∷ cs) a h = ground (arith, walk-owns (f d v).1 cs a)

  -- The answers that the walk allows.
  abbrev pub KeepsOrReturns : Type 0
  KeepsOrReturns = (d : D) (v : ℕ) → (f d v).0 ≢ remove_and_next

  Walked-stop :
      {h : Heap} {l : Linkedlist} {previous cur : Ptr} {w : ℕ} {cs : Cells} (x : ℕ) (d : D)
      → Slot h l cs cur w previous
      → Chain h cur cs
      → Walked D h l previous w cs (record { value = x; after = d; rest = cs }) (x, d, l) h
  Walked-stop {cur} x d s c = record {
    cur = cur;
    value = refl;
    after = refl;
    slot = s;
    chain = c;
    counted = refl;
    first = λ ne. refl;
    same = λ a ne o. refl;
    freed = λ a i o. cc;
  }

  module _ {h : Heap} {l : Linkedlist} {previous p q : Ptr} {v w : ℕ} {cs : Cells}
      (s : Slot h l ((p, v) ∷ cs) p w previous) (e : IsNode h p v q)
      (apart : owns cs p ≡ false) where
    -- The slot of the next round: the node `p` itself.
    next-Slot : Slot h l cs q v p
    next-Slot = at_node e apart (first_apart s)
      where
        first_apart : {a : Ptr} → Slot h l ((p, v) ∷ cs) p w a → owns cs l.first ≡ false
        first_apart (at_head first) = rw first apart
        first_apart (at_node e' out away) = ground (arith, away)

    slot_apart : (previous == p) ≡ false
    slot_apart = apart_of s
      where
        apart_of : {a : Ptr} → Slot h l ((p, v) ∷ cs) p w a → (a == p) ≡ false
        apart_of (at_head first) = ground (arith, e.ne_null)
        apart_of (at_node e' out away) = ground (arith, out)

    Walked-go :
        (o : Outcome D) {r : ℕ × D × Linkedlist} {g : Heap}
        → ((a : Ptr) → owns cs a ≡ false → owns o.rest a ≡ false)
        → Walked D h l p v cs o r g
        → Walked D h l previous w ((p, v) ∷ cs) (record o { rest = (p, v) ∷ o.rest }) r g
    Walked-go o {r} {g} sub k = record {
      cur = p;
      value = k.value;
      after = k.after;
      slot = outer s;
      chain = link (Slot-IsNode k.slot e.ne_null) (sub p apart) k.chain;
      counted = omega (arith, k.counted);
      first = λ ne. k.first e.ne_null;
      same = λ a ne out. k.same a (λ _. ground arith) (ground arith);
      freed = λ a i out. k.freed a (ground arith) (ground arith);
    }
      where
        outer : {a : Ptr} → Slot h l ((p, v) ∷ cs) p w a → Slot g r.2 ((p, v) ∷ o.rest) p w a
        outer (at_head first) = at_head (k.first e.ne_null ∙ first)
        outer (at_node {previous = a} e' out away) =
            at_node (IsNode-transfer e' (k.same a (λ _. ground arith) (ground arith)))
              (ground (arith, out, sub a))
              (rw (k.first e.ne_null) (ground (arith, away, sub l.first)))

    Walked-remove :
        (d : D) {l' : Linkedlist} {g : Heap}
        → length ((p, v) ∷ cs) ≤ l.size
        → l.size < word_mod
        → Unlinked h l previous p q w cs l' g
        → Walked D h l previous w
            ((p, v) ∷ cs)
            (record { value = v; after = d; rest = cs })
            (v, d, l')
            g
    Walked-remove d le small u = record {
      cur = q;
      value = refl;
      after = refl;
      slot = u.slot;
      chain = u.chain;
      counted = omega (arith, u.counted);
      first = u.first;
      same = λ a ne out. u.same a ne (ground arith);
      freed = λ a i out. ground (arith, u.gone);
    }

  pub walk-go :
      (d : D) (p : Ptr) (v : ℕ) (cs : Cells)
      → (f d v).0 ≡ go_next
      → walk f d ((p, v) ∷ cs)
        ≡ record (walk f (f d v).1 cs) { rest = (p, v) ∷ (walk f (f d v).1 cs).rest }
  unfolding walk
  walk-go d p v cs eq = rw (eq, walk)

  pub walk-stop :
      (d : D) (p : Ptr) (v : ℕ) (cs : Cells)
      → (f d v).0 ≡ stop_and_return
      → walk f d ((p, v) ∷ cs) ≡ record { value = v; after = (f d v).1; rest = (p, v) ∷ cs }
  unfolding walk
  walk-stop d p v cs eq = rw (eq, walk)

  pub walk-remove :
      (d : D) (p : Ptr) (v : ℕ) (cs : Cells)
      → (f d v).0 ≡ remove_and_return
      → walk f d ((p, v) ∷ cs) ≡ record { value = v; after = (f d v).1; rest = cs }
  unfolding walk
  walk-remove d p v cs eq = rw (eq, walk)

  pub walk-invalid :
      (d : D) (p : Ptr) (v : ℕ) (cs : Cells)
      → (f d v).0 ≡ invalid
      → walk f d ((p, v) ∷ cs) ≡ record { value = 0; after = (f d v).1; rest = (p, v) ∷ cs }
  unfolding walk
  walk-invalid d p v cs eq = rw (eq, walk)

  action_loop-Walked :
      (k : ℕ) {h : Heap} {l : Linkedlist} {previous cur : Ptr} {w : ℕ} (d : D) {cs : Cells}
      → KeepsOrReturns
      → Slot h l cs cur w previous
      → Chain h cur cs
      → length cs < k
      → length cs ≤ l.size
      → l.size < word_mod
      → Succeeds
          (Walked D h l previous w cs (walk f d cs))
          (action_loop f k l d previous (at cur) h)
  unfolding action_loop
  action_loop-Walked zero d keeps s c lt le small = absurd (omega arith)
  action_loop-Walked (suc k) d keeps s stop lt le small =
      rw iter_next_node-stop (unfold walk in succeeds (Walked-stop 0 d s stop))
  action_loop-Walked (suc k) {h} {l} {previous} {w} d keeps s (link {p} {q} {v} {cs} e apart c) lt
        le small =
      split (f d v).0 refl (
        action_loop-Walked k (f d v).1 keeps (next-Slot s e apart) c (omega arith) (omega arith)
          small)
    where
      split :
          (b : Action)
          → (f d v).0 ≡ b
          → Succeeds
              (Walked D h l p v cs (walk f (f d v).1 cs))
              (action_loop f k l (f d v).1 p (at q) h)
          → Succeeds
              (Walked D h l previous w ((p, v) ∷ cs) (walk f d ((p, v) ∷ cs)))
              (action_loop f (suc k) l d previous (at p) h)
      split go_next eq ih =
          rw (iter_next_node-link e, not_null e, deref-node e, walk-go d p v cs eq, eq)
            (weaken ih (λ r g k. Walked-go s e apart _ (walk-owns (f d v).1 cs) k))
      split stop_and_return eq ih =
          rw (iter_next_node-link e, not_null e, deref-node e, walk-stop d p v cs eq, eq)
            (succeeds (Walked-stop v (f d v).1 s (link e apart c)))
      split remove_and_return eq ih =
          rw (iter_next_node-link e, not_null e, deref-node e, walk-remove d p v cs eq, eq)
            (and_then (remove_node-Unlinked s e apart c)
              (λ l' g u. succeeds (Walked-remove s e apart (f d v).1 le small u)))
      split remove_and_next eq ih = absurd (keeps d v eq)
      split invalid eq ih =
          rw (iter_next_node-link e, not_null e, deref-node e, walk-invalid d p v cs eq, eq)
            (succeeds (Walked-stop 0 (f d v).1 s (link e apart c)))

  -- What `linkedlist_iter_with_action` leaves: the answer of the walk, and the list of the cells
  -- that the walk leaves; the cell that it drops is freed, and no other address is touched.
  abbrev pub Acted : Heap → Cells → Outcome D → ℕ × D × Linkedlist → Heap → Type 0
  Acted h cs o r g =
      (r.0 ≡ o.value)
      × (r.1 ≡ o.after)
      × IsList g r.2 o.rest
      × AgreesOff cs h g
      × ((a : Ptr) → owns cs a ≡ true → owns o.rest a ≡ false → g a ≡ none)

  -- For a list of under 2^64 elements that the heap holds: With a callback that never answers
  -- ITER_REMOVE_AND_NEXT, `linkedlist_iter_with_action` ends and does what the walk over the
  -- cells says.
  pub iter_with_action-walk :
      {h : Heap} {l : Linkedlist} (d : D) {cs : Cells}
      → KeepsOrReturns
      → IsList h l cs
      → length cs < word_mod
      → Succeeds (Acted h cs (walk f d cs)) (iter_with_action f l d h)
  unfolding iter_with_action
  iter_with_action-walk {h} {l} d {cs} keeps is small =
      weaken
        (action_loop-Walked (fuel l) {w = 0} d keeps (at_head refl) is.chain
          (omega (arith, is.counted)) (omega (arith, is.counted)) (omega (arith, is.counted)))
        (λ r g k. (
          k.value,
          k.after,
          record {
            chain =
                subst (λ c. Chain g c (walk f d cs).rest) (sym (Slot-first k.slot refl)) k.chain;
            counted = omega (arith, k.counted, is.counted);
          },
          λ a out. k.same a (λ ne. absurd (ne refl)) out,
          k.freed,
        ))
