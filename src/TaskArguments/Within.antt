-- ===== src/TaskArguments/Within.antt =====
-- What copy_arguments_to_task writes to.
use bubackos.Prelude.{
  ℕ, suc, ◌+◌, ◌-◌, ◌*◌, ◌^◌, ◌≡◌, ◌<◌, ◌≤◌, ◌⊎◌, inl, inr, refl, ◌∙◌, ltb, arith, List, [], ◌∷◌,
  Option, some, Bool-cases, length, All, add64, word_mod,
}
use bubackos.CString.{memcpy}
use bubackos.CString.Bytes.{memcpy-outside}
use bubackos.Multiboot.{Bytes}
use bubackos.VirtualMemory.{Memory, vmem_get_physical_address}
use bubackos.TaskArguments.{store64, Argument, copy_loop}
use bubackos.TaskArguments.Words.{store64-outside}

-- The data ends by the limit, and there the physical addresses are still below 2^64.
abbrev pub Bounded : (limit v phys : ℕ) → List Argument → Type 0
Bounded limit v phys args =
    (limit < 2 ^ 63)
    × (v ≤ 2 ^ 63)
    × (phys < word_mod)
    × (phys + limit < v + word_mod)
    × All (λ x. x.0 < 2 ^ 63) args

-- The bytes between the pointers and the data, and those before the pointers, stay.
pub copy_loop-frame :
    (limit : ℕ) (args : List Argument) (ptr v phys : ℕ) (m : Bytes) (a : ℕ)
    → Bounded limit v phys args
    → ptr + 8 * length args ≤ phys
    → (a < ptr) ⊎ ((ptr + 8 * length args ≤ a) × (a < phys))
    → (copy_loop limit args ptr v phys m).1 a ≡ m a
unfolding copy_loop
copy_loop-frame limit [] ptr v phys m a b h o = refl
copy_loop-frame limit ((size, arg) ∷ args) ptr v phys m a (b0, b1, b2, b3, (s, ss)) h o =
    let sum : add64 v size ≡ v + size = omega (arith, b1, s) in
    let word_after : add64 ptr 8 ≡ ptr + 8 = omega (arith, h, b2) in
    elim (Bool-cases (ltb limit (v + size))) [
      | inl full ↦ rw (sum, full) refl
      | inr room ↦
          rw (sum, room, word_after, after (ground (arith, room)))
            (copy_loop-frame limit args (ptr + 8) (v + size) (phys + size)
                (store64 ptr v (memcpy phys arg size m)) a
                (b0, ground (arith, room, b0), ground (arith, room, b3), omega (arith, b3), ss)
                (omega (arith, h)) (next o)
              ∙ store64-outside ptr v a (memcpy phys arg size m) (word o)
              ∙ memcpy-outside phys arg size m a (text o))
    ]
  where
    after : v + size ≤ limit → add64 phys size ≡ phys + size
    after l = omega (arith, l, b3)

    next :
        (a < ptr) ⊎ ((ptr + 8 * suc (length args) ≤ a) × (a < phys))
        → (a < ptr + 8) ⊎ ((ptr + 8 + 8 * length args ≤ a) × (a < phys + size))
    next (inl l) = inl (omega (arith, l))
    next (inr (l, u)) = inr (omega (arith, l), omega (arith, u))

    word : (a < ptr) ⊎ ((ptr + 8 * suc (length args) ≤ a) × (a < phys)) → (a < ptr) ⊎ (ptr + 8 ≤ a)
    word (inl l) = inl l
    word (inr (l, u)) = inr (omega (arith, l))

    text :
        (a < ptr) ⊎ ((ptr + 8 * suc (length args) ≤ a) × (a < phys))
        → (a < phys) ⊎ (phys + size ≤ a)
    text (inl l) = inl (omega (arith, l, h))
    text (inr (l, u)) = inl u

-- The region from `base` on with `space` bytes, of which the data starts at the offset `off`; its
-- virtual address is `stack`.
pub copy_loop-below :
    (args : List Argument) (stack space base off ptr : ℕ) (m : Bytes) (a : ℕ)
    → stack + space ≤ 2 ^ 63
    → base + space < word_mod
    → 16 ≤ space
    → All (λ x. x.0 < 2 ^ 63) args
    → (args ≡ [] → off + 16 ≤ space)
    → off ≤ space
    → ptr + 8 * length args ≤ base + off
    → base + space ≤ a
    → ((copy_loop (stack + space - 16) args ptr (stack + off) (base + off) m).1 a ≡ m a)
      × ((v p : ℕ)
          → (copy_loop (stack + space - 16) args ptr (stack + off) (base + off) m).0 ≡ some (v, p)
          → (base ≤ p) × (p + 16 ≤ base + space))
unfolding copy_loop
copy_loop-below [] stack space base off ptr m a b bw w s e f h l =
    (refl, λ v p q. (omega (arith, physical q), omega (arith, e refl, physical q)))
  where
    physical :
        {v p : ℕ}
        → ◌≡◌ {A = Option (ℕ × ℕ)} (some (stack + off, base + off)) (some (v, p))
        → base + off ≡ p
    physical q = cc
copy_loop-below ((size, arg) ∷ args) stack space base off ptr m a b bw w s e f h l =
    let word_after : add64 ptr 8 ≡ ptr + 8 = omega (arith, h, f, bw) in
    let sum : add64 (stack + off) size ≡ stack + (off + size) = omega (arith, b, f, s.0) in
    elim (Bool-cases (ltb (stack + space - 16) (stack + (off + size)))) [
      | inl full ↦ rw (sum, full) (refl, λ v p q. cc)
      | inr room ↦
          (let fits : off + size + 16 ≤ space = ground (arith, room, w) in
            let at : add64 (base + off) size ≡ base + (off + size) = omega (arith, fits, bw) in
            let (same, last) =
              copy_loop-below args stack space base (off + size) (ptr + 8)
                (store64 ptr (stack + off) (memcpy (base + off) arg size m)) a b bw w s.1
                (λ z. fits) (omega (arith, fits)) (omega (arith, h)) l in
            rw (sum, room, at, word_after)
              (
                same
                    ∙ store64-outside ptr (stack + off) a (memcpy (base + off) arg size m)
                        (inr (omega (arith, l, h, f)))
                    ∙ memcpy-outside (base + off) arg size m a (inr (omega (arith, l, fits))),
                last,
              ))
    ]

-- The physical memory of a region is one block.
abbrev pub OneBlock : Memory → (handler stack space : ℕ) → Type 0
OneBlock k handler stack space =
    (i : ℕ)
    → i < space
    → vmem_get_physical_address k handler (stack + i)
      ≡ vmem_get_physical_address k handler stack + i
