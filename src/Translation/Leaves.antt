-- ===== src/Translation/Leaves.antt =====
-- The dump as a walk over the entries of the page tables that map memory.
use bubackos.Prelude.{
  ℕ, zero, suc, ◌-◌, ◌*◌, ◌%◌, ◌^◌, ◌≡◌, refl, ap, sym, ◌∙◌, Bool, true, false, ◌||◌, ◌==◌,
  if◌then◌else◌, List, [], ◌∷◌, ◌++◌, All, add64, word_mod, arith,
}
use bubackos.PageTable.Writing.{Tables, entry_ptr}
use bubackos.Translation.Dump.{
  Dump, flushed, empty, accumulate_entries, entries_loop, parse_entries, parse_intel_memory,
}
use bubackos.Translation.Ranges.{Query, covers, Leaf, leads, any, shown}
use bubackos.Translation.Gather.{gather, gather-shown, LeafFits, DumpFits, or_assoc, or_false}

-- The entries that map memory, in the order of their addresses, as the levels say: `rounds` entries
-- of a table from `index` on, and the tables below those that are present
unfoldable pub leaves_loop :
    (level : ℕ) (below : ℕ → ℕ → List Leaf) → Tables → (entries rounds index base : ℕ) → List Leaf
leaves_loop level below tables entries zero index base = []
leaves_loop level below tables entries (suc n) index base =
    let e = tables entries index in
    (if e.present
      then (if (level == 1) || e.entry_or_pat
          then record { level = level; entry = e; vaddr = (base * 4096) % word_mod } ∷ []
          else below (entry_ptr e) base)
      else [])
    ++ leaves_loop level below tables entries n (suc index) (add64 base (2 ^ ((level - 1) * 9)))

unfoldable pub leaves : (level : ℕ) → Tables → (entries base : ℕ) → List Leaf
leaves zero tables entries base = []
leaves (suc n) tables entries base = leaves_loop (suc n) (leaves n tables) tables entries 512 0 base

gather_all : Dump → List Leaf → Dump
gather_all d [] = d
gather_all d (l ∷ ls) = gather_all (gather d l) ls

gather_all-append :
    (d : Dump) (ls ms : List Leaf) → gather_all d (ls ++ ms) ≡ gather_all (gather_all d ls) ms
unfolding gather_all
gather_all-append d [] ms = refl
gather_all-append d (l ∷ ls) ms = gather_all-append (gather d l) ls ms

round :
    (b c : Bool) (d x y : Dump) (l : Leaf) (ls : List Leaf)
    → gather d l ≡ x
    → gather_all d ls ≡ y
    → (if b then (if c then x else y) else d)
      ≡ gather_all d (if b then (if c then l ∷ [] else ls) else [])
unfolding gather_all
round true true d x y l ls e f = sym e
round true false d x y l ls e f = sym f
round false c d x y l ls e f = refl

entries_loop-gather :
    (level : ℕ) (below : ℕ → Dump → ℕ → Dump) (below' : ℕ → ℕ → List Leaf) (tables : Tables)
    (entries rounds index : ℕ) (d : Dump) (base : ℕ)
    → ((t : ℕ) (d : Dump) (b : ℕ) → below t d b ≡ gather_all d (below' t b))
    → entries_loop level below tables entries rounds index d base
      ≡ gather_all d (leaves_loop level below' tables entries rounds index base)
unfolding entries_loop leaves_loop
entries_loop-gather level below below' tables entries zero index d base h =
    unfold gather_all in refl
entries_loop-gather level below below' tables entries (suc n) index d base h =
    let e = tables entries index in
    let here =
      round e.present ((level == 1) || e.entry_or_pat) d
        (accumulate_entries level d e ((base * 4096) % word_mod)) (below (entry_ptr e) d base)
        (record { level = level; entry = e; vaddr = (base * 4096) % word_mod })
        (below' (entry_ptr e) base) refl (sym (h (entry_ptr e) d base)) in
    ap
      (λ x.
        entries_loop level below tables entries n (suc index) x
          (add64 base (2 ^ ((level - 1) * 9))))
      here
    ∙ entries_loop-gather level below below' tables entries n (suc index) _ _ h
    ∙ sym (gather_all-append d _ _)

parse_entries-gather :
    (level : ℕ) (tables : Tables) (entries : ℕ) (d : Dump) (base : ℕ)
    → parse_entries level tables entries d base ≡ gather_all d (leaves level tables entries base)
unfolding parse_entries leaves
parse_entries-gather zero tables entries d base = unfold gather_all in refl
parse_entries-gather (suc n) tables entries d base =
    entries_loop-gather (suc n) (parse_entries n tables) (leaves n tables) tables entries 512 0 d
      base (λ t d b. parse_entries-gather n tables t d b)

gather_all-shown :
    (ls : List Leaf) (d : Dump) (q : Query)
    → DumpFits d
    → All LeafFits ls
    → shown (gather_all d ls) q ≡ shown d q || any (λ l. leads l q) ls
unfolding gather_all any
gather_all-shown [] d q f g = sym (or_false (shown d q))
gather_all-shown (l ∷ ls) d q f (g, gs) =
    let (fit, e) = gather-shown d l q f g in
    gather_all-shown ls (gather d l) q fit gs
    ∙ ap (λ b. b || any (λ l. leads l q) ls) e
    ∙ or_assoc (shown d q) (leads l q) (any (λ l. leads l q) ls)

pub parse_intel_memory-leaves :
    (tables : Tables) (entries : ℕ) (q : Query)
    → All LeafFits (leaves 4 tables entries 0)
    → any (λ e. covers e q) (parse_intel_memory tables entries)
      ≡ any (λ l. leads l q) (leaves 4 tables entries 0)
unfolding parse_intel_memory shown
parse_intel_memory-leaves tables entries q g =
    ap (λ d. any (λ e. covers e q) (flushed d)) (parse_entries-gather 4 tables entries empty 0)
    ∙ gather_all-shown (leaves 4 tables entries 0) empty q (omega arith, omega arith) g
    ∙ unfold any in refl
