-- ===== src/Translation/Follows.antt =====
-- The entries of the dump against the walk that follows the pointers as the kernel reads them.
use bubackos.Prelude.{
  ℕ, zero, suc, ◌+◌, ◌-◌, ◌*◌, ◌%◌, ◌≡◌, ◌<◌, ◌≤◌, refl, ap, sym, ◌∙◌, Bool, true, false, not, ◌&&◌,
  ◌||◌, ◌==◌, if◌then◌else◌, List, [], ◌∷◌, add64, word_mod, arith,
}
use bubackos.PageTable.{PageEntry}
use bubackos.PageTable.Writing.{Tables, entry_ptr}
use bubackos.Translation.Dump.{entry_size}
use bubackos.PageTable.{index_for_level}
use bubackos.Translation.Ranges.{Query, Leaf, leads, allows, any, any-append, distribute}
use bubackos.Translation.Gather.{or_false}
use bubackos.Translation.Leaves.{leaves, leaves_loop}
use bubackos.Translation.Spans.{
  span, between, IsPlaced, next_base, index_of, in_range-between, below_IsPlaced,
}

-- The walk with the addresses that the kernel takes from the entries, and large pages at any level
unfoldable pub follows : (level : ℕ) → Tables → (entries : ℕ) → Query → Bool
follows zero tables entries q = false
follows (suc n) tables entries q =
    let e = tables entries (index_for_level (suc n) q.virtual) in
    if e.present
    then (if (suc n == 1) || e.entry_or_pat
        then (q.physical == entry_ptr e + q.virtual % entry_size (suc n))
          && allows (not e.user) e.writable (not e.execute_disable) q
        else follows n tables (entry_ptr e) q)
    else false

-- What the walk does with an entry
entry_follows : (n : ℕ) → Tables → PageEntry → Query → Bool
entry_follows n tables e q =
    if e.present
    then (if (suc n == 1) || e.entry_or_pat
        then (q.physical == entry_ptr e + q.virtual % entry_size (suc n))
          && allows (not e.user) e.writable (not e.execute_disable) q
        else follows n tables (entry_ptr e) q)
    else false

and_assoc : (a b c : Bool) → ((a && b) && c) ≡ (a && (b && c))
and_assoc true b c = refl
and_assoc false b c = refl

and_false : (a : Bool) → (a && false) ≡ false
and_false true = refl
and_false false = refl

head-follows :
    (f : Leaf → Bool) (b c : Bool) (l : Leaf) (ls : List Leaf) (t w r : Bool)
    → f l ≡ (t && w)
    → any f ls ≡ (t && r)
    → any f (if b then (if c then l ∷ [] else ls) else [])
      ≡ (t && (if b then (if c then w else r) else false))
unfolding any
head-follows f true true l ls t w r e g = or_false (f l) ∙ e
head-follows f true false l ls t w r e g = g
head-follows f false c l ls t w r e g = sym (and_false t)

swap_entry :
    (n : ℕ) (tables : Tables) (t v i : ℕ) (q : Query) (here : Bool)
    → (here ≡ true → v ≡ i)
    → (here && entry_follows n tables (tables t i) q)
      ≡ (here && entry_follows n tables (tables t v) q)
swap_entry n tables t v i q true e = ap (λ j. entry_follows n tables (tables t j) q) (sym (e refl))
swap_entry n tables t v i q false e = refl

between-joined : (a b c v : ℕ) → a ≤ b → b ≤ c → between a c v ≡ between a b v || between b c v
between-joined a b c v l m = ground (arith, l, m)

between-empty : (a b v : ℕ) → a ≡ b → between a b v ≡ false
between-empty a b v e = ground (arith, e)

-- What the leaves below the entries of a table say
abbrev Below : (n : ℕ) → (ℕ → ℕ → List Leaf) → Tables → (first : ℕ) → Query → Type 0
Below n below tables first q =
    (t base index : ℕ)
    → IsPlaced n first base index
    → index < 512
    → any (λ l. leads l q) (below t base)
      ≡ (between base (base + span n) q.virtual && follows n tables t q)

-- The part of the leaves that an entry gives
abbrev head_of : (n : ℕ) → (ℕ → ℕ → List Leaf) → Tables → (entries index base : ℕ) → List Leaf
head_of n below tables entries index base =
    let e = tables entries index in
    if e.present
    then (if (suc n == 1) || e.entry_or_pat
        then record { level = suc n; entry = e; vaddr = (base * 4096) % word_mod } ∷ []
        else below (entry_ptr e) base)
    else []

head_leaf :
    (n first base index : ℕ) (tables : Tables) (t : ℕ) (below : ℕ → ℕ → List Leaf) (q : Query)
    → Below n below tables first q
    → IsPlaced n first base index
    → index < 512
    → any (λ l. leads l q) (head_of n below tables t index base) ≡ (
        between base (base + span n) q.virtual
        && entry_follows n tables (tables t (index_for_level (suc n) q.virtual)) q)
unfolding entry_follows
head_leaf n first base index tables t below q h p l =
    let e = tables t index in
    head-follows (λ x. leads x q) e.present ((suc n == 1) || e.entry_or_pat)
      (record { level = suc n; entry = e; vaddr = (base * 4096) % word_mod })
      (below (entry_ptr e) base) (between base (base + span n) q.virtual)
      ((q.physical == entry_ptr e + q.virtual % entry_size (suc n))
        && allows (not e.user) e.writable (not e.execute_disable) q)
      (follows n tables (entry_ptr e) q)
      (ap (λ b. b && allows (not e.user) e.writable (not e.execute_disable) q)
          (in_range-between n first base index (entry_ptr e) q.virtual q.physical p l)
        ∙ and_assoc (between base (base + span n) q.virtual)
            (q.physical == entry_ptr e + q.virtual % entry_size (suc n))
            (allows (not e.user) e.writable (not e.execute_disable) q))
      (h (entry_ptr e) base index p l)
    ∙ swap_entry n tables t (index_for_level (suc n) q.virtual) index q
        (between base (base + span n) q.virtual) (λ z. index_of n first base index q.virtual p l z)

loop-follows :
    (n first rounds index base : ℕ) (tables : Tables) (t : ℕ) (below : ℕ → ℕ → List Leaf)
    (q : Query)
    → Below n below tables first q
    → IsPlaced n first base index
    → index + rounds ≡ 512
    → any (λ l. leads l q) (leaves_loop (suc n) below tables t rounds index base) ≡ (
        between base (first + 512 * span n) q.virtual
        && entry_follows n tables (tables t (index_for_level (suc n) q.virtual)) q)
unfolding leaves_loop
loop-follows n first zero index base tables t below q h p e =
    unfold any in
    ap (λ b. b && entry_follows n tables (tables t (index_for_level (suc n) q.virtual)) q)
      (sym (
        between-empty base (first + 512 * span n) q.virtual
          (p.2 ∙ ap (λ i. first + i * span n) (omega (arith, e)))))
loop-follows n first (suc r) index base tables t below q h p e =
    let l : index < 512 = omega (arith, e) in
    let down : suc n - 1 ≡ n = omega arith in
    let (next, p', last) = next_base n first base index p l in
    let r' = entry_follows n tables (tables t (index_for_level (suc n) q.virtual)) q in
    any-append (λ x. leads x q) _ _
    ∙ ap
        (λ m.
          any (λ x. leads x q) (head_of n below tables t index base)
          || any (λ x. leads x q)
              (leaves_loop (suc n) below tables t r (suc index) (add64 base (span m))))
        down
    ∙ ap
        (λ b.
          b
          || any (λ x. leads x q)
              (leaves_loop (suc n) below tables t r (suc index) (add64 base (span n))))
        (head_leaf n first base index tables t below q h p l)
    ∙ ap
        (λ x.
          (between base (base + span n) q.virtual && r')
          || any (λ x. leads x q) (leaves_loop (suc n) below tables t r (suc index) x))
        next
    ∙ ap (λ b. (between base (base + span n) q.virtual && r') || b)
        (loop-follows n first r (suc index) (base + span n) tables t below q h p'
          (omega (arith, e)))
    ∙ sym (
        ap (λ b. b && r')
          (between-joined base (base + span n) (first + 512 * span n) q.virtual (omega arith) last)
        ∙ distribute (between base (base + span n) q.virtual)
            (between (base + span n) (first + 512 * span n) q.virtual) r')

follows_entry :
    (n : ℕ) (tables : Tables) (t : ℕ) (q : Query)
    → entry_follows n tables (tables t (index_for_level (suc n) q.virtual)) q
      ≡ follows (suc n) tables t q
unfolding follows entry_follows
follows_entry n tables t q = refl

Below-leaves : (tables : Tables) (first : ℕ) (q : Query) → Below 0 (leaves 0 tables) tables first q
unfolding leaves follows any
Below-leaves tables first q t base index p l = sym (and_false _)

pub leaves-follows :
    (n first : ℕ) (tables : Tables) (t : ℕ) (q : Query)
    → IsPlaced n first first 0
    → any (λ l. leads l q) (leaves (suc n) tables t first)
      ≡ (between first (first + 512 * span n) q.virtual && follows (suc n) tables t q)
unfolding leaves
leaves-follows zero first tables t q p =
    loop-follows zero first 512 0 first tables t (leaves 0 tables) q (Below-leaves tables first q) p
      refl
    ∙ ap (λ b. between first (first + 512 * span 0) q.virtual && b) (follows_entry 0 tables t q)
leaves-follows (suc n) first tables t q p =
    loop-follows (suc n) first 512 0 first tables t (leaves (suc n) tables) q
      (λ t' b i p' l.
        let (placed, last) = below_IsPlaced n first b i p' l in
        leaves-follows n b tables t' q placed
        ∙ ap (λ x. between b x q.virtual && follows (suc n) tables t' q) last)
      p refl
    ∙ ap (λ b. between first (first + 512 * span (suc n)) q.virtual && b)
        (follows_entry (suc n) tables t q)
