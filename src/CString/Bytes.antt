-- ===== src/CString/Bytes.antt =====
-- What `memset` and `memcpy` leave in memory.
use bubackos.Prelude.{
  ◌≢◌, refl, Bool-cases, ==_eq, ap, ◌∙◌, ℕ, zero, suc, ◌+◌, ◌-◌, ◌%◌, ◌≤◌, ◌<◌, ◌≡◌, ◌⊎◌, inl, inr,
  ◌==◌, ◌&&◌, leb, ltb, if◌then◌else◌, arith,
}
use bubackos.CString.{Memory, store, memset, memcpy}

-- `memset` writes the low eight bits of the value to the `len` bytes from `dest` on, and no others.
pub memset-bytes :
    (dest val len : ℕ) (m : Memory) (a : ℕ)
    → memset dest val len m a ≡ (if leb dest a && ltb a (dest + len) then val % 256 else m a)
unfolding memset
memset-bytes dest val zero m a = ground arith
memset-bytes dest val (suc len) m a =
    ground (arith, memset-bytes (suc dest) val len (store dest val m) a)

pub memcpy-outside :
    (dest src len : ℕ) (m : Memory) (a : ℕ)
    → (a < dest) ⊎ (dest + len ≤ a)
    → memcpy dest src len m a ≡ m a
unfolding memcpy
memcpy-outside dest src zero m a o = refl
memcpy-outside dest src (suc len) m a (inl l) =
    memcpy-outside (suc dest) (suc src) len (store dest (m src) m) a (inl (omega (arith, l)))
    ∙ ground (arith, l)
memcpy-outside dest src (suc len) m a (inr l) =
    memcpy-outside (suc dest) (suc src) len (store dest (m src) m) a (inr (omega (arith, l)))
    ∙ ground (arith, l)

pub memcpy-small :
    (dest src len : ℕ) (m : Memory)
    → ((b : ℕ) → m b < 256)
    → (b : ℕ) → memcpy dest src len m b < 256
unfolding memcpy
memcpy-small dest src zero m small b = small b
memcpy-small dest src (suc len) m small b =
    memcpy-small (suc dest) (suc src) len (store dest (m src) m)
      (λ c. ground (arith, small c, small src)) b

-- One round of `memcpy`, for what the later rounds leave at an address.
copied :
    (dest src len : ℕ) (m : Memory) (a x : ℕ)
    → ((b : ℕ) → m b < 256)
    → (dest ≤ src) ⊎ (src + suc len ≤ dest)
    → x ≡ (
        if leb (suc dest) a && ltb a (suc dest + len)
        then store dest (m src) m (suc src + (a - suc dest))
        else store dest (m src) m a)
    → x ≡ (if leb dest a && ltb a (dest + suc len) then m (src + (a - dest)) else m a)
copied dest src len m a x small apart ih = elim (Bool-cases (dest == a)) [
  | inl here ↦
      ground (arith, ih, small src, ap m (first (==_eq dest a here)), ap m (==_eq dest a here))
  | inr other ↦ elim (Bool-cases (leb dest a && ltb a (dest + suc len))) [
    | inl e ↦ rw e (
        ih ∙ ground (arith, e, other, inside (ground (arith, e, other)) (ground (arith, e, other))))
    | inr e ↦ rw e (ih ∙ ground (arith, e, other))
  ]
]
  where
    first : dest ≡ a → src + (a - dest) ≡ src
    first e = omega (arith, e)

    kept : (x : ℕ) → dest ≢ x → store dest (m src) m x ≡ m x
    kept x ne = ground arith

    beyond :
        (dest ≤ src) ⊎ (src + suc len ≤ dest)
        → dest < a
        → a < dest + suc len
        → dest ≢ suc src + (a - suc dest)
    beyond (inl le) lo hi e = omega (arith, le, lo, hi, e)
    beyond (inr le) lo hi e = omega (arith, le, lo, hi, e)

    inside :
        dest < a
        → a < dest + suc len
        → store dest (m src) m (suc src + (a - suc dest)) ≡ m (src + (a - dest))
    inside lo hi = kept (suc src + (a - suc dest)) (beyond apart lo hi) ∙ ap m (omega (arith, lo))

-- `memcpy` copies the `len` bytes from `src` on to those from `dest` on, and writes no others: for
-- bytes below 256, if the two ranges do not overlap, or if `dest` is not behind `src`.
pub memcpy-bytes :
    (dest src len : ℕ) (m : Memory) (a : ℕ)
    → ((b : ℕ) → m b < 256)
    → (dest ≤ src) ⊎ (src + len ≤ dest)
    → memcpy dest src len m a
      ≡ (if leb dest a && ltb a (dest + len) then m (src + (a - dest)) else m a)
unfolding memcpy
memcpy-bytes dest src zero m a small apart = ground arith
memcpy-bytes dest src (suc len) m a small apart = copied dest src len m a _ small apart (
    memcpy-bytes (suc dest) (suc src) len (store dest (m src) m) a
      (λ b. ground (arith, small b, small src)) (later apart))
  where
    later :
        (dest ≤ src) ⊎ (src + suc len ≤ dest) → (suc dest ≤ suc src) ⊎ (suc src + len ≤ suc dest)
    later (inl le) = inl (omega (arith, le))
    later (inr le) = inr (omega (arith, le))
