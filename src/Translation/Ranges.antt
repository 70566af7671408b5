-- ===== src/Translation/Ranges.antt =====
-- The ranges of the dump against the entries of the page tables.
use bubackos.Prelude.{
  ℕ, ◌+◌, ◌-◌, ◌≡◌, refl, sym, Bool, true, false, not, ◌&&◌, ◌||◌, ◌==◌, List, [], ◌∷◌, ◌++◌, leb,
  ltb, arith, Bool-cases, inl, inr,
}
use bubackos.VirtualMemory.{PageMapEntry}
use bubackos.PageTable.{PageEntry}
use bubackos.PageTable.Writing.{entry_ptr}
use bubackos.Translation.{is_write, is_exec, is_kernel_mode}
use bubackos.Translation.Dump.{Dump, same, flushed, entry_size}

-- A virtual address, the physical address it is at, and who may do what there
pub record Query : Type 0 where
  pub virtual : ℕ
  pub physical : ℕ
  pub kernel_mode : Bool
  pub write : Bool
  pub exec : Bool

unfoldable pub in_range : (start base size v p : ℕ) → Bool
in_range start base size v p = leb start v && ltb v (start + size) && (p == base + (v - start))

abbrev pub allows : (kernel_mode write exec : Bool) → Query → Bool
allows kernel_mode write exec q =
    same kernel_mode q.kernel_mode && same write q.write && same exec q.exec

-- What a range says
abbrev pub covers : PageMapEntry → Query → Bool
covers e q =
    in_range e.virtual_addr e.physical_addr e.size q.virtual q.physical
    && allows (is_kernel_mode e.permission) (is_write e.permission) (is_exec e.permission) q

-- An entry of the page tables that maps memory
pub record Leaf : Type 0 where
  pub level : ℕ
  pub entry : PageEntry
  pub vaddr : ℕ

-- What the entry says of an address
abbrev pub leads : Leaf → Query → Bool
leads l q =
    in_range l.vaddr (entry_ptr l.entry) (entry_size l.level) q.virtual q.physical
    && allows (not l.entry.user) l.entry.writable (not l.entry.execute_disable) q

unfoldable pub any {ℓ} : {A : Type ℓ} → (A → Bool) → List A → Bool
any f [] = false
any f (x ∷ xs) = f x || any f xs

pub any-append {ℓ} :
    {A : Type ℓ} (f : A → Bool) (xs ys : List A) → any f (xs ++ ys) ≡ any f xs || any f ys
unfolding any
any-append f [] ys = refl
any-append f (x ∷ xs) ys = elim (Bool-cases (f x)) [
  | inl e ↦ rw e refl
  | inr e ↦ rw e (any-append f xs ys)
]

pub in_range-joined :
    (start base a b v p : ℕ)
    → in_range start base (a + b) v p
      ≡ in_range start base a v p || in_range (start + a) (base + a) b v p
unfolding in_range
in_range-joined start base a b v p = ground arith

pub same_eq : (a b : Bool) → same a b ≡ true → a ≡ b
same_eq true b e = sym e
same_eq false true e = absurd (cc)
same_eq false false e = refl

pub distribute : (a b c : Bool) → ((a || b) && c) ≡ ((a && c) || (b && c))
distribute true b true = refl
distribute true true false = refl
distribute true false false = refl
distribute false b c = refl

unfoldable pub shown : Dump → Query → Bool
shown d q = any (λ e. covers e q) (flushed d)
