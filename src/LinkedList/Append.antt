-- ===== src/LinkedList/Append.antt =====
-- `linkedlist_create` and `linkedlist_append`.
use bubackos.Prelude.{
  ℕ, zero, suc, ◌+◌, ◌<◌, ◌≡◌, ◌≢◌, refl, Bool, true, false, Option, none, some, [], ◌∷◌, ◌++◌,
  arith, ◌==◌, ==_ne, length, length-append, inl, inr, ◌⊎◌, add64, word_mod, ap, sym,
}
use bubackos.LinkedList.Heap.{Ptr, null, Node, Heap, put, done}
use bubackos.LinkedList.{Linkedlist, iter_next_node, last_loop, append}
use bubackos.LinkedList.Chain.{
  Cells, owns, owns-append, Chain, stop, link, IsList, IsNode, not_null, deref-node, assign-node,
  AgreesOff, Succeeds, succeeds, transfer-put, not-owns, IsNode-transfer,
}
use bubackos.LinkedList.Reading.{at, iter_next_node-link}

abbrev cell : ℕ → Ptr → Node
cell v q = record { val = v; next = q }

-- The walk to the last node, and what a write of the link to `fresh` there makes of the chain.
record Ends (h : Heap) (k : ℕ) (p q : Ptr) (v : ℕ) (cs : Cells) (fresh : Ptr) (x : ℕ) : Type 0 where
  last : Ptr
  content : ℕ
  run : last_loop k p (at q) h ≡ done last h
  node : IsNode h last content null
  owned : owns ((p, v) ∷ cs) last ≡ true
  longer : Chain (put h last (some (cell content fresh))) p (((p, v) ∷ cs) ++ ((fresh, x) ∷ []))

module _ {h : Heap} {fresh : Ptr} {x : ℕ} (new : IsNode h fresh x null) where
  last_loop-Ends :
      (k : ℕ) {p q : Ptr} {v : ℕ} {cs : Cells}
      → IsNode h p v q
      → owns cs p ≡ false
      → Chain h q cs
      → owns ((p, v) ∷ cs) fresh ≡ false
      → length cs < k
      → Ends h k p q v cs fresh x
  unfolding last_loop put
  last_loop-Ends zero e apart c out lt = absurd (omega arith)
  last_loop-Ends (suc k) {p} {v} e apart stop out lt = record {
    last = p;
    content = v;
    run = unfold iter_next_node in refl;
    node = e;
    owned = ground arith;
    longer =
        link (record { ne_null = e.ne_null; content = ground arith }) (ground arith)
          (link (record { ne_null = new.ne_null; content = ground (arith, new.content) }) refl
            stop);
  }
  last_loop-Ends (suc k) {p} {v} e apart (link {p = q} {v = w} {cs = cs} e' apart' c) out lt =
      let r = last_loop-Ends k e' apart' c (ground arith) (omega arith) in
      record {
        last = r.last;
        content = r.content;
        run = rw (iter_next_node-link e', not_null e') r.run;
        node = r.node;
        owned = ground (arith, r.owned);
        longer =
            link (record { ne_null = e.ne_null; content = ground (arith, r.owned, e.content) })
              (ground (arith, owns-append cs ((fresh, x) ∷ []) p)) r.longer;
      }

-- What a successful `linkedlist_append` leaves: one more cell at the end, nothing else touched.
abbrev pub Appended : Heap → Cells → Ptr → ℕ → Bool × Option Linkedlist → Heap → Type 0
Appended h cs fresh x (answer, ll) g =
    (answer ≡ true)
    × ((l : Linkedlist) × (ll ≡ some l) × IsList g l (cs ++ ((fresh, x) ∷ [])))
    × AgreesOff (cs ++ ((fresh, x) ∷ [])) h g

append-Chain :
    {h : Heap} {p : Ptr} {n : ℕ} {cs : Cells} (fresh : Ptr) (x : ℕ)
    → Chain h p cs
    → n ≡ length cs
    → fresh ≢ null
    → h fresh ≡ none
    → n + 1 < word_mod
    → Succeeds (Appended h cs fresh x) (append fresh (some (record { first = p; size = n })) x h)
unfolding append put
append-Chain {n} fresh x stop counted ne unused small =
    rw (==_ne fresh null ne, counted)
      (succeeds (
        refl,
        (
          record { first = fresh; size = add64 n 1 },
          ap (λ s. some (record { first = fresh; size = add64 s 1 })) (sym counted),
          record {
            chain = link (record { ne_null = ne; content = ground arith }) refl stop;
            counted = omega arith;
          },
        ),
        λ a o. ground arith,
      ))
append-Chain {h} {p} {n} fresh x (link {cs} e apart c) counted ne unused small =
    let out = not-owns fresh (link e apart c) unused in
    let g = put h fresh (some (cell x null)) in
    let new : IsNode g fresh x null = record { ne_null = ne; content = ground arith } in
    let full : (n == 0) ≡ false = ground arith in
    let r =
      last_loop-Ends new n (IsNode-transfer {g = g} e (ground arith)) apart
        (transfer-put fresh _ c (ground arith)) out (omega arith) in
    rw
      (
        ==_ne fresh null ne,
        full,
        iter_next_node-link (IsNode-transfer {g = g} e (ground arith)),
        not_null e,
        r.run,
        deref-node r.node,
        assign-node r.node,
      )
      (succeeds (
        refl,
        (
          record { first = p; size = add64 n 1 },
          refl,
          record { chain = r.longer; counted = omega (arith, length-append cs ((fresh, x) ∷ [])) },
        ),
        λ a o. ground (arith, owns-append cs ((fresh, x) ∷ []) a, r.owned),
      ))

-- For a list that the heap holds with its size: `linkedlist_append` with memory for the node, at
-- an unused address, answers true and puts one cell with the value behind the others; every other
-- address keeps its content. (The size does not wrap.)
pub append-cells :
    {h : Heap} {l : Linkedlist} {cs : Cells} (fresh : Ptr) (x : ℕ)
    → IsList h l cs
    → fresh ≢ null
    → h fresh ≡ none
    → length cs + 1 < word_mod
    → Succeeds (Appended h cs fresh x) (append fresh (some l) x h)
append-cells fresh x is ne unused small =
    append-Chain fresh x is.chain is.counted ne unused (omega (arith, is.counted))

-- With no memory for the node, or on NULL, `linkedlist_append` answers false and changes nothing.
pub append-fails :
    (h : Heap) (ll : Option Linkedlist) (fresh : Ptr) (x : ℕ)
    → (ll ≡ none) ⊎ (fresh ≡ null)
    → append fresh ll x h ≡ done (false, ll) h
unfolding append
append-fails h none fresh x e = refl
append-fails h (some l) fresh x (inl e) = cc
append-fails h (some l) fresh x (inr e) = rw e
