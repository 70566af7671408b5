-- ===== src/Translation/Gather.antt =====
-- An entry gathered into the ranges of the dump.
use bubackos.Prelude.{
  ℕ, ◌+◌, ◌≡◌, ◌<◌, refl, ap, sym, ◌∙◌, Bool, true, false, not, ◌&&◌, ◌||◌, ◌==◌, ==_eq,
  if◌then◌else◌, List, [], ◌∷◌, ◌++◌, add64, word_mod, arith, Bool-cases, inl, inr,
}
use mathlib.Core.Path.{subst}
use bubackos.VirtualMemory.{PageMapEntry}
use bubackos.PageTable.{PageEntry}
use bubackos.PageTable.Writing.{entry_ptr}
use bubackos.Translation.{read_bit, is_write, is_exec, is_kernel_mode}
use bubackos.Translation.Dump.{
  Dump, put_bit, same, merges, flushed, entry_size, permission_after, accumulate_entries,
}
use bubackos.Translation.Ranges.{
  Query, in_range, allows, covers, Leaf, leads, any, any-append, in_range-joined, same_eq,
  distribute, shown,
}

put_bit_1 :
    (x : ℕ) (b : Bool)
    → (read_bit (put_bit x 1 b) 1 ≡ b) × (read_bit (put_bit x 1 b) 3 ≡ read_bit x 3)
put_bit_1 x true = ground arith
put_bit_1 x false = ground arith

put_bit_2 :
    (x : ℕ) (b : Bool)
    → (read_bit (put_bit x 2 b) 2 ≡ b)
      × (read_bit (put_bit x 2 b) 1 ≡ read_bit x 1)
      × (read_bit (put_bit x 2 b) 3 ≡ read_bit x 3)
put_bit_2 x true = ground arith
put_bit_2 x false = ground arith

put_bit_3 : (x : ℕ) (b : Bool) → read_bit (put_bit x 3 b) 3 ≡ b
put_bit_3 x true = ground arith
put_bit_3 x false = ground arith

permission_read :
    (n : ℕ) (e : PageEntry)
    → (is_kernel_mode (permission_after n e) ≡ not e.user)
      × (is_write (permission_after n e) ≡ e.writable)
      × (is_exec (permission_after n e) ≡ not e.execute_disable)
unfolding permission_after
permission_read n e =
    let x = put_bit n 3 (not e.user) in
    let y = put_bit x 1 e.writable in
    let z = put_bit_2 y (not e.execute_disable) in
    (
      z.2 ∙ (put_bit_1 x e.writable).1 ∙ put_bit_3 n (not e.user),
      z.1 ∙ (put_bit_1 x e.writable).0,
      z.0,
    )

-- A range or an entry within the 64-bit addresses
abbrev pub Fits : (start base size : ℕ) → Type 0
Fits start base size = (start + size < word_mod) × (base + size < word_mod)

abbrev pub LeafFits : Leaf → Type 0
LeafFits l = Fits l.vaddr (entry_ptr l.entry) (entry_size l.level)

abbrev pub DumpFits : Dump → Type 0
DumpFits d = Fits d.acc.virtual_addr d.acc.physical_addr d.acc.size

abbrev pub gather : Dump → Leaf → Dump
gather d l = accumulate_entries l.level d l.entry l.vaddr

and_eq : (a b : Bool) → (a && b) ≡ true → (a ≡ true) × (b ≡ true)
and_eq true b e = (refl, e)
and_eq false b e = absurd cc

all_true :
    (a b c d e f : Bool)
    → (a && b && c && d && e && f) ≡ true
    → (a ≡ true) × (b ≡ true) × (c ≡ true) × (d ≡ true) × (e ≡ true) × (f ≡ true)
all_true a b c d e f m =
    let (m1, hf) = and_eq (a && b && c && d && e) f m in
    let (m2, he) = and_eq (a && b && c && d) e m1 in
    let (m3, hd) = and_eq (a && b && c) d m2 in
    let (m4, hc) = and_eq (a && b) c m3 in let (ha, hb) = and_eq a b m4 in (ha, hb, hc, hd, he, hf)

-- The new range says what its entry does.
covers-new :
    (n : ℕ) (l : Leaf) (q : Query)
    → covers
        (record {
          virtual_addr = l.vaddr;
          physical_addr = entry_ptr l.entry;
          size = entry_size l.level;
          permission = permission_after n l.entry;
          present = true;
        })
        q
      ≡ leads l q
covers-new n l q = let (a, b, c) = permission_read n l.entry in rw (a, b, c) refl

-- A range and the one right behind it, with the same permissions
join :
    (start base size more vaddr paddr : ℕ) (k w x k' w' x' : Bool) (q : Query)
    → add64 base size ≡ paddr
    → add64 start size ≡ vaddr
    → same x x' ≡ true
    → same w w' ≡ true
    → same k k' ≡ true
    → Fits start base size
    → Fits vaddr paddr more
    → (in_range start base (add64 size more) q.virtual q.physical && allows k w x q) ≡ (
        (in_range start base size q.virtual q.physical && allows k w x q)
        || (in_range vaddr paddr more q.virtual q.physical && allows k' w' x' q))
join start base size more vaddr paddr k w x k' w' x' q p v ex ew ek f g =
    let e1 : paddr ≡ base + size = ground (arith, p, f) in
    let e2 : vaddr ≡ start + size = ground (arith, v, f) in
    let e3 : add64 size more ≡ size + more = ground (arith, e2, g.0) in
    rw
      (
        e3,
        e1,
        e2,
        sym (same_eq x x' ex),
        sym (same_eq w w' ew),
        sym (same_eq k k' ek),
        in_range-joined start base size more q.virtual q.physical,
      )
      (distribute (in_range start base size q.virtual q.physical)
        (in_range (start + size) (base + size) more q.virtual q.physical) (allows k w x q))

covers-merged :
    (acc : PageMapEntry) (l : Leaf) (q : Query)
    → merges acc l.entry l.vaddr ≡ true
    → Fits acc.virtual_addr acc.physical_addr acc.size
    → LeafFits l
    → (acc.present ≡ true)
      × Fits acc.virtual_addr acc.physical_addr (add64 acc.size (entry_size l.level))
      × (covers (record acc { size = add64 acc.size (entry_size l.level) }) q
          ≡ covers acc q || leads l q)
covers-merged acc l q m f g =
    let (there, p, v, x, w, k) =
      all_true acc.present (add64 acc.physical_addr acc.size == entry_ptr l.entry)
        (add64 acc.virtual_addr acc.size == l.vaddr)
        (same (is_exec acc.permission) (not l.entry.execute_disable))
        (same (is_write acc.permission) l.entry.writable)
        (same (is_kernel_mode acc.permission) (not l.entry.user)) m in
    let p' = ==_eq _ _ p in
    let v' = ==_eq _ _ v in
    (
      there,
      fits acc.virtual_addr acc.physical_addr acc.size (entry_size l.level) l.vaddr
          (entry_ptr l.entry) p' v' f g,
      join acc.virtual_addr acc.physical_addr acc.size (entry_size l.level) l.vaddr
          (entry_ptr l.entry) _ _ _ (not l.entry.user) l.entry.writable
          (not l.entry.execute_disable) q p' v' x w k f g,
    )
  where
    fits :
        (start base size more vaddr paddr : ℕ)
        → add64 base size ≡ paddr
        → add64 start size ≡ vaddr
        → Fits start base size
        → Fits vaddr paddr more
        → Fits start base (add64 size more)
    fits start base size more vaddr paddr p v f g =
        (ground (arith, p, v, f, g), ground (arith, p, v, f, g))

pub or_assoc : (a b c : Bool) → ((a || b) || c) ≡ (a || (b || c))
or_assoc true b c = refl
or_assoc false b c = refl

pub or_false : (a : Bool) → (a || false) ≡ a
or_false true = refl
or_false false = refl

any-last {ℓ} :
    {A : Type ℓ} (f : A → Bool) (xs : List A) (x : A) → any f (xs ++ (x ∷ [])) ≡ any f xs || f x
unfolding any
any-last f xs x = any-append f xs (x ∷ []) ∙ ap (λ b. any f xs || b) (or_false (f x))

if_true {ℓ} : {A : Type ℓ} (b : Bool) (x y : A) → b ≡ true → (if b then x else y) ≡ x
if_true b x y e = rw e refl

if_false {ℓ} : {A : Type ℓ} (b : Bool) (x y : A) → b ≡ false → (if b then x else y) ≡ y
if_false b x y e = rw e refl

shown_present :
    (d : Dump) (q : Query)
    → d.acc.present ≡ true
    → shown d q ≡ any (λ e. covers e q) d.logged || covers d.acc q
unfolding shown
shown_present d q e =
    ap (any (λ e. covers e q)) (if_true d.acc.present (d.logged ++ (d.acc ∷ [])) d.logged e)
    ∙ any-last (λ e. covers e q) d.logged d.acc

abbrev pub Gathered : Dump → Leaf → Query → Dump → Type 0
Gathered d l q d' = DumpFits d' × (shown d' q ≡ shown d q || leads l q)

pub gather-shown :
    (d : Dump) (l : Leaf) (q : Query) → DumpFits d → LeafFits l → Gathered d l q (gather d l)
unfolding accumulate_entries
gather-shown d l q f g = elim (Bool-cases (merges d.acc l.entry l.vaddr)) [
  | inl m ↦
      let (there, fit, c) = covers-merged d.acc l q m f g in
      subst (Gathered d l q) (sym (if_true (merges d.acc l.entry l.vaddr) _ _ m)) (
        fit,
        shown_present
              (record d { acc = record (d.acc) { size = add64 d.acc.size (entry_size l.level) } }) q
              there
            ∙ ap (λ b. any (λ e. covers e q) d.logged || b) c
            ∙ sym (or_assoc (any (λ e. covers e q) d.logged) (covers d.acc q) (leads l q))
            ∙ ap (λ b. b || leads l q) (sym (shown_present d q there)),
      )
  | inr n ↦ subst (Gathered d l q) (sym (if_false (merges d.acc l.entry l.vaddr) _ _ n)) (
    g,
    unfold shown in
        (any-last (λ e. covers e q) (flushed d) _
          ∙ ap (λ b. any (λ e. covers e q) (flushed d) || b) (covers-new d.acc.permission l q)),
  )
]
