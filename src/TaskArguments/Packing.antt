-- ===== src/TaskArguments/Packing.antt =====
-- What the new task finds in the region of its arguments.
use bubackos.Prelude.{
  ℕ, suc, ◌+◌, ◌-◌, ◌*◌, ◌^◌, ◌≡◌, ◌<◌, ◌≤◌, ◌⊎◌, inl, inr, refl, sym, ap, ◌∙◌, true, false, ◌&&◌,
  leb, ltb, if◌then◌else◌, arith, List, [], ◌∷◌, Option, some, length, All, add64, word_mod,
}
use mathlib.Core.Path.{subst}
use bubackos.CString.{memcpy}
use bubackos.CString.Bytes.{memcpy-outside, memcpy-bytes, memcpy-small}
use bubackos.Multiboot.{Bytes, read64}
use bubackos.TaskArguments.{store64, Argument, copy_loop}
use bubackos.TaskArguments.Words.{store64-outside, read64-store64, read64-same, read64-moved}
use bubackos.TaskArguments.Within.{copy_loop-frame}

abbrev pub total : List Argument → ℕ
total [] = 0
total ((size, argument) ∷ args) = size + total args

-- The bytes of an argument do not stand in the region.
abbrev pub Beside : (base space : ℕ) → List Argument → Type 0
Beside base space = All (λ x. (x.1 + x.0 ≤ base) ⊎ (base + space ≤ x.1))

-- Each pointer is the virtual address `v` of the argument, whose bytes, in the memory `m` before,
-- stand at its physical address `phys`.
abbrev pub Stored : (m m' : Bytes) → (ptr v phys : ℕ) → List Argument → Type 0
Stored m m' ptr v phys [] = Unit
Stored m m' ptr v phys ((size, argument) ∷ args) =
    (read64 m' ptr ≡ v)
    × ((j : ℕ) → j < size → m' (phys + j) ≡ m (argument + j))
    × Stored m m' (ptr + 8) (v + size) (phys + size) args

store64-small : (p v : ℕ) (m : Bytes) → ((b : ℕ) → m b < 256) → (b : ℕ) → store64 p v m b < 256
store64-small p v m small b = ground (arith, small b)

pub word-kept :
    (p v : ℕ) (m m' : Bytes)
    → v < 2 ^ 64
    → ((a : ℕ) → p ≤ a → a < p + 8 → m' a ≡ store64 p v m a)
    → read64 m' p ≡ v
word-kept p v m m' l same =
    read64-same p (store64 p v m) m' (λ n h. same (p + n) (omega arith) (omega (arith, h)))
    ∙ read64-store64 p v m l

-- The sources may be read before or after what was written to the region.
Stored-before :
    (m1 m m' : Bytes) (ptr v phys base space : ℕ) (args : List Argument)
    → Beside base space args
    → ((a : ℕ) → (a < base) ⊎ (base + space ≤ a) → m1 a ≡ m a)
    → Stored m1 m' ptr v phys args
    → Stored m m' ptr v phys args
Stored-before m1 m m' ptr v phys base space [] b same s = tt
Stored-before m1 m m' ptr v phys base space ((size, arg) ∷ args) b same s = (
  s.0,
  λ j l. s.1 j l ∙ same (arg + j) (beside b.0 l),
  Stored-before m1 m m' (ptr + 8) (v + size) (phys + size) base space args b.1 same s.2,
)
  where
    beside :
        {j : ℕ}
        → (arg + size ≤ base) ⊎ (base + space ≤ arg)
        → j < size
        → (arg + j < base) ⊎ (base + space ≤ arg + j)
    beside (inl h) l = inl (omega (arith, h, l))
    beside (inr h) l = inr (omega (arith, h))

-- Later writes behind the data do not matter.
pub Stored-after :
    (m m1 m2 : Bytes) (ptr v phys : ℕ) (args : List Argument)
    → ptr + 8 * length args ≤ phys
    → ((a : ℕ) → a < phys + total args → m2 a ≡ m1 a)
    → Stored m m1 ptr v phys args
    → Stored m m2 ptr v phys args
Stored-after m m1 m2 ptr v phys [] h same s = tt
Stored-after m m1 m2 ptr v phys ((size, arg) ∷ args) h same s = (
  read64-same ptr m1 m2 (λ n l. same (ptr + n) (omega (arith, h, l))) ∙ s.0,
  λ j l. same (phys + j) (omega (arith, l)) ∙ s.1 j l,
  Stored-after m m1 m2 (ptr + 8) (v + size) (phys + size) args (omega (arith, h))
      (λ a l. same a (omega (arith, l))) s.2,
)

copy_loop-step :
    (limit size arg : ℕ) (args : List Argument) (ptr v v' phys phys' : ℕ) (m : Bytes)
    → add64 v size ≡ v'
    → add64 phys size ≡ phys'
    → add64 ptr 8 ≡ ptr + 8
    → ltb limit v' ≡ false
    → copy_loop limit ((size, arg) ∷ args) ptr v phys m
      ≡ copy_loop limit args (ptr + 8) v' phys' (store64 ptr v (memcpy phys arg size m))
unfolding copy_loop
copy_loop-step limit size arg args ptr v v' phys phys' m e p q room = rw (e, p, q, room) refl

-- The first argument, where the others leave `m2`
first-Stored :
    (args : List Argument) (size arg ptr v v' phys phys' base space : ℕ) (m m2 : Bytes)
    → v < 2 ^ 64
    → v + size ≡ v'
    → phys + size ≡ phys'
    → base ≤ ptr
    → ptr + 8 * suc (length args) ≤ phys
    → phys' ≤ base + space
    → Beside base space ((size, arg) ∷ args)
    → ((b : ℕ) → m b < 256)
    → ((a : ℕ)
        → (a < ptr + 8) ⊎ ((ptr + 8 + 8 * length args ≤ a) × (a < phys'))
        → m2 a ≡ store64 ptr v (memcpy phys arg size m) a)
    → Stored (store64 ptr v (memcpy phys arg size m)) m2 (ptr + 8) v' phys' args
    → Stored m m2 ptr v phys ((size, arg) ∷ args)
first-Stored args size arg ptr v v' phys phys' base space m m2 l ev ep g h f s small frame t = (
  word-kept ptr v (memcpy phys arg size m) m2 l (λ a x y. frame a (inl y)),
  λ j k.
      frame (phys + j) (inr (omega (arith, h), omega (arith, k, ep)))
      ∙ store64-outside ptr v (phys + j) (memcpy phys arg size m) (inr (omega (arith, h)))
      ∙ memcpy-bytes phys arg size m (phys + j) small (apart s.0)
      ∙ read k,
  subst (λ (x : ℕ). Stored m m2 (ptr + 8) x (phys + size) args) (sym ev)
      (subst (λ (x : ℕ). Stored m m2 (ptr + 8) v' x args) (sym ep)
        (Stored-before (store64 ptr v (memcpy phys arg size m)) m m2 (ptr + 8) v' phys' base space
          args s.1 outside t)),
)
  where
    apart : (arg + size ≤ base) ⊎ (base + space ≤ arg) → (phys ≤ arg) ⊎ (arg + size ≤ phys)
    apart (inl o) = inr (omega (arith, o, g, h))
    apart (inr o) = inl (omega (arith, o, f, ep))

    read :
        {j : ℕ}
        → j < size
        → (if leb phys (phys + j) && ltb (phys + j) (phys + size)
            then m (arg + (phys + j - phys))
            else m (phys + j))
          ≡ m (arg + j)
    read {j} k =
        let inside : (leb phys (phys + j) && ltb (phys + j) (phys + size)) ≡ true =
          ground (arith, k) in
        rw inside (ap m (omega arith))

    outside :
        (a : ℕ) → (a < base) ⊎ (base + space ≤ a) → store64 ptr v (memcpy phys arg size m) a ≡ m a
    outside a (inl o) =
        store64-outside ptr v a (memcpy phys arg size m) (inl (omega (arith, o, g)))
        ∙ memcpy-outside phys arg size m a (inl (omega (arith, o, g, h)))
    outside a (inr o) =
        store64-outside ptr v a (memcpy phys arg size m) (inr (omega (arith, o, h, f, ep)))
        ∙ memcpy-outside phys arg size m a (inr (omega (arith, o, f, ep)))

sizes : (args : List Argument) → total args < 2 ^ 63 → All (λ x. x.0 < 2 ^ 63) args
sizes [] l = tt
sizes ((size, arg) ∷ args) l = (omega (arith, l), sizes args (omega (arith, l)))

-- What stands in one memory stands in another that has the same bytes from `ptr'` on.
pub Stored-moved :
    (m m1 m2 : Bytes) (base base' space a b v : ℕ) (args : List Argument)
    → ((i : ℕ) → i < space → m2 (base' + i) ≡ m1 (base + i))
    → a + 8 * length args ≤ b
    → b + total args ≤ space
    → Stored m m1 (base + a) v (base + b) args
    → Stored m m2 (base' + a) v (base' + b) args
Stored-moved m m1 m2 base base' space a b v [] same h f s = tt
Stored-moved m m1 m2 base base' space a b v ((size, arg) ∷ args) same h f (s0, s1, s2) =
    let e : (x y z : ℕ) → x + (y + z) ≡ x + y + z = λ x y z. omega arith in
    (
      read64-moved (base + a) (base' + a) m1 m2 (λ n l.
            ap m2 (sym (e base' a n)) ∙ same (a + n) (omega (arith, l, h, f)) ∙ ap m1 (e base a n))
          ∙ s0,
      λ j l.
          ap m2 (sym (e base' b j))
          ∙ same (b + j) (omega (arith, l, f))
          ∙ ap m1 (e base b j)
          ∙ s1 j l,
      subst (λ (x : ℕ). Stored m m2 x (v + size) (base' + b + size) args) (e base' a 8)
          (subst (λ (x : ℕ). Stored m m2 (base' + (a + 8)) (v + size) x args) (e base' b size)
            (Stored-moved m m1 m2 base base' space (a + 8) (b + size) (v + size) args same
              (omega (arith, h)) (omega (arith, f))
              (subst (λ (x : ℕ). Stored m m1 x (v + size) (base + (b + size)) args)
                (sym (e base a 8))
                (subst (λ (x : ℕ). Stored m m1 (base + a + 8) (v + size) x args)
                  (sym (e base b size)) s2)))),
    )

pub copy_loop-Stored :
    (args : List Argument) (stack space base off ptr : ℕ) (m : Bytes)
    → stack + space ≤ 2 ^ 63
    → base + space < word_mod
    → off + total args + 16 ≤ space
    → base ≤ ptr
    → ptr + 8 * length args ≤ base + off
    → Beside base space args
    → ((b : ℕ) → m b < 256)
    → ((copy_loop (stack + space - 16) args ptr (stack + off) (base + off) m).0
        ≡ some (stack + (off + total args), base + (off + total args)))
      × Stored m
          (copy_loop (stack + space - 16) args ptr (stack + off) (base + off) m).1
          ptr
          (stack + off)
          (base + off)
          args
copy_loop-Stored [] stack space base off ptr m b bw f g h s small =
    unfold copy_loop in (let e : off + 0 ≡ off = omega arith in (rw e refl, tt))
copy_loop-Stored ((size, arg) ∷ args) stack space base off ptr m b bw f g h s small =
    let m1 = store64 ptr (stack + off) (memcpy (base + off) arg size m) in
    let step =
      copy_loop-step (stack + space - 16) size arg args ptr (stack + off) (stack + (off + size))
        (base + off) (base + (off + size)) m (omega (arith, b, f)) (omega (arith, f, bw))
        (omega (arith, h, f, bw)) (ground (arith, f)) in
    let (e, t) =
      copy_loop-Stored args stack space base (off + size) (ptr + 8) m1 b bw (omega (arith, f))
        (omega (arith, g)) (omega (arith, h)) s.1
        (store64-small ptr (stack + off) _ (memcpy-small (base + off) arg size m small)) in
    (
      ap (λ (r : Option (ℕ × ℕ) × Bytes). r.0) step
          ∙ e
          ∙ ap (λ (x : ℕ). some (stack + x, base + x)) (omega arith),
      subst
          (λ (r : Option (ℕ × ℕ) × Bytes).
            Stored m r.1 ptr (stack + off) (base + off) ((size, arg) ∷ args))
          (sym step)
          (first-Stored args size arg ptr (stack + off) (stack + (off + size)) (base + off)
            (base + (off + size)) base space m _ (omega (arith, b, f)) (omega arith) (omega arith) g
            h (omega (arith, f)) s small
            (λ a o.
              copy_loop-frame (stack + space - 16) args (ptr + 8) (stack + (off + size))
                (base + (off + size)) m1 a
                (
                  omega (arith, b, f),
                  omega (arith, b, f),
                  omega (arith, bw, f),
                  omega (arith, bw, f),
                  sizes args (omega (arith, b, f)),
                )
                (omega (arith, h)) o)
            t),
    )
