-- ===== src/LinkedList.antt =====
-- The singly linked list, src/kernel/libutils/src/algorithms/linkedlist.c, over a heap of nodes.
-- A `linkedlist_t*` is an option (NULL is `none`) of the header, which a function that writes it
-- returns anew; a `linkedlist_iter_t*` likewise. `fresh` is what `MEM_ALLOC` returns. A loop that
-- walks the list has `size + 1` rounds of fuel.
pub mod Heap
pub mod Chain
pub mod Reading
pub mod Append
pub mod Walk
pub mod Removal
pub mod Destroy
pub mod View
mod Tests
use bubackos.Prelude.{
  ℕ, zero, suc, ◌+◌, ◌-◌, Bool, true, false, Option, none, some, leb, ltb, ◌==◌, ◌&&◌, ◌||◌, not,
  if◌then◌else◌, add64, sub64,
}
use bubackos.LinkedList.Heap.{
  Ptr, null, Node, Run, spent, Prog, return, ◌>>=◌, ◌>>◌, deref, assign, mem_free, fill,
}

-- `linkedlist_t`
pub record Linkedlist : Type 0 where
  pub first : Ptr
  pub size : ℕ

-- `linkedlist_iter_t`
pub record Iter : Type 0 where
  pub next_node : Ptr

-- `iter_action_enum`; `invalid` is any other int that a callback may answer.
pub data Action : Type 0 where
  go_next stop_and_return remove_and_return remove_and_next invalid : Action

abbrev pub fuel : Linkedlist → ℕ
fuel l = suc l.size

-- `linkedlist_create`
pub create : (fresh : Ptr) → Option Linkedlist
create fresh = if fresh == null then none else some (record { first = null; size = 0 })

-- `linkedlist_size`
pub size : Option Linkedlist → ℕ
size none = 0
size (some l) = l.size

-- `linkedlist_iter_initialize`: whether it could, and the iterator.
pub iter_initialize : Option Linkedlist → Option Iter → Bool × Option Iter
iter_initialize none iter = (false, iter)
iter_initialize (some l) none = (false, none)
iter_initialize (some l) (some it) = (true, some (record it { next_node = l.first }))

-- `linkedlist_iter_next_node`: the node, and the iterator.
pub iter_next_node : Option Iter → Prog (Ptr × Option Iter)
iter_next_node none = return (null, none)
iter_next_node (some it) =
    if it.next_node == null
    then return (null, some it)
    else do n ← deref it.next_node; return (it.next_node, some (record { next_node = n.next }))

-- `linkedlist_iter_next`
pub iter_next : Option Iter → Prog (ℕ × Option Iter)
unfolding iter_next_node
iter_next iter = do
  (current, iter') ← iter_next_node iter
  if current == null then return (0, iter') else do n ← deref current; return (n.val, iter')

-- The iterator that `linkedlist_iter_initialize(ll, &iter)` leaves in a local variable.
abbrev pub begin : Linkedlist → Option Iter
begin l = some (record { next_node = l.first })

-- `for (i = 0; i < index && next; ++i)`, with the rounds `index - i` left.
get_loop : ℕ → Ptr → Option Iter → Prog Ptr
get_loop zero next iter = return next
get_loop (suc k) next iter =
    if next == null
    then return next
    else do (next', iter') ← iter_next_node iter; get_loop k next' iter'

-- `linkedlist_get`
pub get : Option Linkedlist → ℕ → Prog ℕ
unfolding iter_next_node get_loop
get none index = return 0
get (some l) index = if leb l.size index then return 0 else do
  (next, iter) ← iter_next_node (begin l)
  next' ← get_loop index next iter
  if next' == null then return 0 else do n ← deref next'; return n.val

-- The loop of `linkedlist_find`, a WHILE_LINKEDLIST_ITER: it ends at the first NULL value.
find_loop : ℕ → ℕ → ℕ → Option Iter → Prog (Option ℕ)
find_loop zero el i iter = λ _. spent
find_loop (suc k) el i iter = do
  (e, iter') ← iter_next iter
  if e == 0 then return none else if e == el then return (some i) else find_loop k el (suc i) iter'

-- `linkedlist_find`; -1 is `none`.
pub find : Option Linkedlist → ℕ → Prog (Option ℕ)
unfolding iter_next find_loop
find none el = return none
find (some l) el = find_loop (fuel l) el 0 (begin l)

-- `while ((next = linkedlist_iter_next_node(&iter))) last = next;`
last_loop : ℕ → Ptr → Option Iter → Prog Ptr
last_loop zero last iter = λ _. spent
last_loop (suc k) last iter = do
  (next, iter') ← iter_next_node iter
  if next == null then return last else last_loop k next iter'

-- `linkedlist_append`
pub append : (fresh : Ptr) → Option Linkedlist → ℕ → Prog (Bool × Option Linkedlist)
unfolding iter_next_node last_loop
append fresh none value = return (false, none)
append fresh (some l) value = if fresh == null then return (false, some l) else do
  fill fresh (record { val = value; next = null })
  if l.size == 0 then return (true, some (record { first = fresh; size = add64 l.size 1 })) else do
    last ← last_loop (fuel l) null (begin l)
    n ← deref last
    assign last (record n { next = fresh })
    return (true, some (record l { size = add64 l.size 1 }))

-- `previous->next = removed->next`, if there is a previous node.
bypass : Ptr → Ptr → Prog (Unit {0})
bypass previous next =
    if previous == null
    then return tt
    else do n ← deref previous; assign previous (record n { next = next })

-- `linkedlist_remove_node`
pub remove_node : Linkedlist → (previous removed : Ptr) → Prog Linkedlist
unfolding bypass
remove_node l previous removed = if removed == null then return l else do
  n ← deref removed
  bypass previous n.next
  mem_free removed
  return (record { first = if l.first == removed then n.next else l.first; size = sub64 l.size 1 })

-- The loop of `linkedlist_remove_element`.
remove_element_loop : ℕ → Linkedlist → ℕ → Ptr → Option Iter → Prog (Bool × Linkedlist)
remove_element_loop zero l addr previous iter = λ _. spent
remove_element_loop (suc k) l addr previous iter = do
  (next, iter') ← iter_next_node iter
  if next == null then return (false, l) else do
    n ← deref next
    if n.val == addr
        then (do l' ← remove_node l previous next; return (true, l'))
        else remove_element_loop k l addr next iter'

-- `linkedlist_remove_element`
pub remove_element : Option Linkedlist → ℕ → Prog (Bool × Option Linkedlist)
unfolding remove_element_loop
remove_element none addr = return (false, none)
remove_element (some l) addr = do
  (found, l') ← remove_element_loop (fuel l) l addr null (begin l)
  return (found, some l')

-- A `linkedlist_iter_action_func` with the data that it updates: the answer and the new data.
abbrev pub Callback : Type 0 → Type 0
Callback D = D → ℕ → Action × D

module _ {D : Type 0} (iter_func : Callback D) where
  -- The loop of `linkedlist_iter_with_action`.
  action_loop : ℕ → Linkedlist → D → Ptr → Option Iter → Prog (ℕ × D × Linkedlist)
  action_loop zero l d previous iter = λ _. spent
  action_loop (suc k) l d previous iter = do
    (next, iter') ← iter_next_node iter
    if next == null then return (0, d, l) else do
      n ← deref next
      let answer = iter_func d n.val
      elim answer.0 [
        | stop_and_return ↦ return (n.val, answer.1, l)
        | go_next ↦ action_loop k l answer.1 next iter'
        | remove_and_next ↦ (do
          l' ← remove_node l previous next
          action_loop k l' answer.1 next iter')
        | remove_and_return ↦ (do l' ← remove_node l previous next; return (n.val, answer.1, l'))
        | invalid ↦ return (0, answer.1, l)
      ]

  -- `linkedlist_iter_with_action`, for a list that is not NULL: the value, the data, the list.
  pub iter_with_action : Linkedlist → D → Prog (ℕ × D × Linkedlist)
  unfolding iter_next_node action_loop remove_node
  iter_with_action l d = action_loop (fuel l) l d null (begin l)

-- `linkedlist_iter_remove_element`
pub iter_remove_element : Callback ℕ
iter_remove_element remaining value =
    if remaining == 0 then (remove_and_return, remaining) else (go_next, remaining - 1)

-- `linkedlist_remove`
pub remove : Option Linkedlist → ℕ → Prog (ℕ × Option Linkedlist)
remove none index = return (0, none)
remove (some l) index =
    if leb l.size index
    then return (0, some l)
    else do (val, _, l') ← iter_with_action iter_remove_element l index; return (val, some l')

-- `linkedlist_pop`
pub pop : Option Linkedlist → Prog (ℕ × Option Linkedlist)
pop none = return (0, none)
pop (some l) =
    if l.first == null then return (0, some l) else remove (some l) (sub64 (size (some l)) 1)

-- `while ((next = linkedlist_iter_next_node(&iter))) { MEM_FREE(last); last = next; }`
destroy_loop : ℕ → Ptr → Option Iter → Prog Ptr
destroy_loop zero last iter = λ _. spent
destroy_loop (suc k) last iter = do
  (next, iter') ← iter_next_node iter
  if next == null then return last else do mem_free last; destroy_loop k next iter'

-- `linkedlist_destroy`; the header, which is no node, is gone afterwards.
pub destroy : Option Linkedlist → Prog (Unit {0})
unfolding iter_next_node destroy_loop
destroy none = return tt
destroy (some l) = do
  (last, iter) ← iter_next_node (begin l)
  (next, iter') ← iter_next_node iter
  last' ← destroy_loop (fuel l) last iter'
  mem_free last'
