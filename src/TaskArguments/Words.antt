-- ===== src/TaskArguments/Words.antt =====
-- Words of eight bytes.
use bubackos.Prelude.{
  ℕ, ◌+◌, ◌-◌, ◌*◌, ◌/◌, ◌%◌, ◌^◌, ◌≡◌, ◌<◌, ◌≤◌, ◌⊎◌, inl, inr, refl, sym, ap, ◌∙◌, true, ◌&&◌,
  leb, ltb, arith,
}
use bubackos.Multiboot.{Bytes, read32, read64}
use bubackos.TaskArguments.{store64}

pub store64-byte : (p v n : ℕ) (m : Bytes) → n < 8 → store64 p v m (p + n) ≡ (v / 2 ^ (8 * n)) % 256
store64-byte p v n m l =
    let inside : (leb p (p + n) && ltb (p + n) (p + 8)) ≡ true = ground (arith, l) in
    let off : p + n - p ≡ n = omega arith in rw (inside, off) refl

pub store64-outside : (p v a : ℕ) (m : Bytes) → (a < p) ⊎ (p + 8 ≤ a) → store64 p v m a ≡ m a
store64-outside p v a m (inl l) = ground (arith, l)
store64-outside p v a m (inr l) = ground (arith, l)

-- A word that stands in the eight bytes is read back.
pub read64-bytes :
    (p v : ℕ) (m : Bytes)
    → v < 2 ^ 64
    → ((n : ℕ) → n < 8 → m (p + n) ≡ (v / 2 ^ (8 * n)) % 256)
    → read64 m p ≡ v
unfolding read64 read32
read64-bytes p v m l b =
    let first : p ≡ p + 0 = omega arith in
    let after : (i : ℕ) → p + 4 + i ≡ p + (4 + i) = λ i. omega arith in
    rw
      (
        ap m first ∙ b 0 (omega arith),
        b 1 (omega arith),
        b 2 (omega arith),
        b 3 (omega arith),
        b 4 (omega arith),
        ap m (after 1) ∙ b 5 (omega arith),
        ap m (after 2) ∙ b 6 (omega arith),
        ap m (after 3) ∙ b 7 (omega arith),
      )
      (omega (arith, l))

pub read64-store64 : (p v : ℕ) (m : Bytes) → v < 2 ^ 64 → read64 (store64 p v m) p ≡ v
read64-store64 p v m l = read64-bytes p v (store64 p v m) l (λ n h. store64-byte p v n m h)

pub read64-moved :
    (p p' : ℕ) (m m' : Bytes)
    → ((n : ℕ) → n < 8 → m' (p' + n) ≡ m (p + n))
    → read64 m' p' ≡ read64 m p
unfolding read64 read32
read64-moved p p' m m' b =
    let first : p ≡ p + 0 = omega arith in
    let first' : p' ≡ p' + 0 = omega arith in
    let after : (q i : ℕ) → q + 4 + i ≡ q + (4 + i) = λ q i. omega arith in
    rw
      (
        ap m' first' ∙ b 0 (omega arith) ∙ ap m (sym first),
        b 1 (omega arith),
        b 2 (omega arith),
        b 3 (omega arith),
        b 4 (omega arith),
        ap m' (after p' 1) ∙ b 5 (omega arith) ∙ ap m (sym (after p 1)),
        ap m' (after p' 2) ∙ b 6 (omega arith) ∙ ap m (sym (after p 2)),
        ap m' (after p' 3) ∙ b 7 (omega arith) ∙ ap m (sym (after p 3)),
      )
      refl

pub read64-same :
    (p : ℕ) (m m' : Bytes) → ((n : ℕ) → n < 8 → m' (p + n) ≡ m (p + n)) → read64 m' p ≡ read64 m p
read64-same p m m' b = read64-moved p p m m' b
