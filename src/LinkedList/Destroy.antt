-- ===== src/LinkedList/Destroy.antt =====
-- `linkedlist_destroy`, and the answer ITER_REMOVE_AND_NEXT: what they do to the nodes.
use mathlib.Core.Path.{subst}
use bubackos.Prelude.{
  ℕ, zero, suc, ◌-◌, ◌<◌, ◌≡◌, ◌≢◌, refl, false, none, some, [], ◌∷◌, arith, ◌==◌, ==_ne, ==_self,
  if◌then◌else◌, length, Bool-cases, inl, inr, ◌∙◌, sub64, sym,
}
use bubackos.LinkedList.Heap.{Ptr, null, Heap, put, done, fault, follow, mem_free, deref}
use bubackos.LinkedList.{
  Linkedlist, iter_next_node, destroy_loop, destroy, remove_node, Callback, remove_and_next,
  iter_with_action, action_loop,
}
use bubackos.LinkedList.Chain.{
  Cells, owns, Chain, stop, link, IsList, IsNode, Succeeds, succeeds, and_then, weaken, not_null,
  mem_free-node, deref-node, transfer-put, IsNode-transfer,
}
use bubackos.LinkedList.Reading.{at, iter_next_node-link}

-- `g` is `h` without the nodes of the cells.
abbrev pub Without : Cells → Heap → Heap → Type 0
Without cs h g = (a : Ptr) → g a ≡ (if owns cs a then none else h a)

-- The cells but for the second.
abbrev pub but_second : Cells → Cells
but_second [] = []
but_second (c ∷ []) = c ∷ []
but_second (c ∷ d ∷ cs) = c ∷ cs

-- From `last`, a node that is not among the cells ahead, all of them are freed but the one that
-- is `last` in the end.
destroy_loop-Without :
    (k : ℕ) {h : Heap} {last q cur : Ptr} {v : ℕ} {cs : Cells}
    → IsNode h last v q
    → owns cs last ≡ false
    → Chain h cur cs
    → length cs < k
    → Succeeds
        (λ final g. Succeeds (λ _ g'. Without ((last, v) ∷ cs) h g') (mem_free final g))
        (destroy_loop k last (at cur) h)
unfolding destroy_loop put
destroy_loop-Without zero e apart c lt = absurd (omega arith)
destroy_loop-Without (suc k) {h} {last} e apart stop lt =
    unfold iter_next_node in
    succeeds {a = last} {h = h} (rw (mem_free-node e) (succeeds (λ a. ground arith)))
destroy_loop-Without (suc k) {h} {last} {v} e apart (link {p} {q = r} {cs} e' apart' c) lt =
    let e'' : IsNode (put h last none) p _ r = IsNode-transfer e' (ground arith) in
    rw (iter_next_node-link e', not_null e', mem_free-node e)
      (weaken
        (destroy_loop-Without k e'' apart' (transfer-put last none c (ground arith)) (omega arith))
        (λ final g s. weaken s (λ _ g' w a. ground (arith, w a))))

destroy-Chain :
    {h : Heap} {p : Ptr} {n : ℕ} {cs : Cells}
    → Chain h p cs
    → n ≡ length cs
    → Succeeds
        (λ _ g. Without (but_second cs) h g)
        (destroy (some (record { first = p; size = n })) h)
unfolding destroy
destroy-Chain {h} stop counted = unfold iter_next_node destroy_loop mem_free in succeeds (λ a. refl)
destroy-Chain {n} (link {p} e apart stop) counted = rw (iter_next_node-link e) (
    unfold iter_next_node in
    and_then (destroy_loop-Without (suc n) e refl stop (omega arith)) (λ final g s. s))
destroy-Chain {n} (link {p} e apart (link e' apart' c)) counted =
    rw (iter_next_node-link e, iter_next_node-link e')
      (and_then (destroy_loop-Without (suc n) e (ground arith) c (omega arith)) (λ final g s. s))

-- For a list that the heap holds with its size: `linkedlist_destroy` frees the nodes of the list
-- but for the second one, which stays allocated; it faults nowhere, frees nothing twice, and
-- touches no other address.
pub destroy-Without :
    {h : Heap} {l : Linkedlist} {cs : Cells}
    → IsList h l cs
    → Succeeds (λ _ g. Without (but_second cs) h g) (destroy (some l) h)
destroy-Without is = destroy-Chain is.chain is.counted

deref-gone : (g : Heap) (p : Ptr) → g p ≡ none → deref p g ≡ fault
unfolding deref
deref-gone g p gone = elim (Bool-cases (p == null)) [ inl e ↦ rw e | inr e ↦ rw (e, gone) ]

remove_node-fault :
    {g : Heap} (l : Linkedlist) (previous : Ptr) {p q : Ptr} {v : ℕ}
    → IsNode g p v q
    → previous ≢ null
    → g previous ≡ none
    → remove_node l previous p g ≡ fault
unfolding remove_node
remove_node-fault l previous e ne gone =
    rw (not_null e, deref-node e, ==_ne previous null ne, deref-gone _ previous gone)

remove_node-first :
    {h : Heap} (l : Linkedlist) {q : Ptr} {v : ℕ}
    → IsNode h l.first v q
    → remove_node l null l.first h
      ≡ done (record { first = q; size = sub64 l.size 1 }) (put h l.first none)
unfolding remove_node
remove_node-first l e = rw (not_null e, deref-node e, mem_free-node e, ==_self l.first)

module _ {D : Type 0} (f : Callback D) where
  action_loop-remove_next :
      (k : ℕ) {h : Heap} (l : Linkedlist) (d : D) (previous : Ptr) {p q : Ptr} {v : ℕ}
      → IsNode h p v q
      → (f d v).0 ≡ remove_and_next
      → action_loop f (suc k) l d previous (at p) h
        ≡ follow (remove_node l previous p h) (λ l'. action_loop f k l' (f d v).1 p (at q))
  unfolding action_loop
  action_loop-remove_next k l d previous e a =
      rw (iter_next_node-link e, not_null e, deref-node e, a)

  -- A callback that answers ITER_REMOVE_AND_NEXT for the first two elements makes
  -- `linkedlist_iter_with_action` write to the node that it has just freed.
  pub iter_with_action-fault :
      {h : Heap} {l : Linkedlist} (d : D) {q r : Ptr} {v w : ℕ}
      → IsNode h l.first v q
      → IsNode h q w r
      → l.first ≢ q
      → (f d v).0 ≡ remove_and_next
      → (f (f d v).1 w).0 ≡ remove_and_next
      → 1 < l.size
      → iter_with_action f l d h ≡ fault
  unfolding iter_with_action put
  iter_with_action-fault {h} {l} d {q} {r} {v} {w} e e' ne a b long =
      let g = put h l.first none in
      let l' = record l { first = q; size = sub64 l.size 1 } in
      let e'' : IsNode g q w r = IsNode-transfer e' (ground arith) in
      let more : l.size ≡ suc (l.size - 1) = omega arith in
      action_loop-remove_next l.size l d null e a
      ∙ rw (remove_node-first l e) (
          subst (λ k. action_loop f k l' (f d v).1 l.first (at q) g ≡ fault) (sym more)
            (action_loop-remove_next (l.size - 1) l' (f d v).1 l.first e'' b
              ∙ rw (remove_node-fault l' l.first e'' e.ne_null (ground arith))))
