-- ===== src/Formatting/Digits.antt =====
-- `convert` writes the numeral of the number, and its buffer is large enough.
use bubackos.Prelude.{
  ℕ, zero, suc, ◌+◌, ◌*◌, ◌-◌, ◌/◌, ◌%◌, ◌^◌, ◌≡◌, ◌<◌, ◌≤◌, ◌⊎◌, refl, sym, ap, ◌∙◌, Option, none,
  some, some_eq, List, [], ◌∷◌, ◌++◌, arith, inl, inr, Bool-cases, ==_eq, ◌==◌, ltb, length,
  length-append, if◌then◌else◌, word_mod,
}
use mathlib.Core.List.{reverse, reverse-cons}
use bubackos.CString.Compare.{take}
use bubackos.Formatting.{representation, digits_loop, convert}

-- The digit that a character stands for
unfoldable pub digit_of : ℕ → ℕ
digit_of c = if ltb c 58 then c - 48 else c - 55

-- The number that a numeral stands for, read from its first character on
unfoldable pub value_from : (base acc : ℕ) → List ℕ → ℕ
value_from base acc [] = acc
value_from base acc (c ∷ cs) = value_from base (acc * base + digit_of c) cs

-- The number of a sequence of digits, the lowest first
low_value : (base : ℕ) → List ℕ → ℕ
low_value base [] = 0
low_value base (c ∷ cs) = digit_of c + base * low_value base cs

digit_of-representation : (d : ℕ) → d < 16 → digit_of (representation d) ≡ d
unfolding digit_of
digit_of-representation d l = ground arith

-- A base that the formats use
abbrev pub IsBase : ℕ → Type 0
IsBase base = (base ≡ 8) ⊎ ((base ≡ 10) ⊎ (base ≡ 16))

-- What the loop leaves in the buffer for a number that fits in `n` digits.
record Digits (n num base : ℕ) (ds : List ℕ) : Type 0 where
  valued : low_value base ds ≡ num
  short : length ds ≤ n
  some_digit : 0 < length ds

divided :
    (base num b : ℕ)
    → IsBase base
    → num < 2 * b
    → (num % base < 16) × (num / base < b) × (num % base + base * (num / base) ≡ num)
divided base num b (inl e) l = rw e (omega arith, omega arith, omega arith)
divided base num b (inr (inl e)) l = rw e (omega arith, omega arith, omega arith)
divided base num b (inr (inr e)) l = rw e (omega arith, omega arith, omega arith)

power : (n : ℕ) → 2 ^ suc n ≡ 2 * 2 ^ n
power n = omega arith

-- One digit, and one more
Digits-one :
    (n num base : ℕ)
    → (num % base < 16) × (num % base + base * (num / base) ≡ num)
    → num / base ≡ 0
    → Digits (suc n) num base (representation (num % base) ∷ [])
unfolding low_value
Digits-one n num base (small, same) e = record {
  valued =
      rw (digit_of-representation (num % base) small)
        (ap (λ q. num % base + base * q) (sym e) ∙ same);
  short = omega arith;
  some_digit = omega arith;
}

Digits-more :
    (n num base : ℕ) (ds : List ℕ)
    → (num % base < 16) × (num % base + base * (num / base) ≡ num)
    → Digits n (num / base) base ds
    → Digits (suc n) num base (representation (num % base) ∷ ds)
unfolding low_value
Digits-more n num base ds (small, same) d = record {
  valued = rw (digit_of-representation (num % base) small, d.valued) same;
  short = omega (arith, d.short);
  some_digit = omega arith;
}

digits_loop-Digits :
    (n num base : ℕ)
    → IsBase base
    → num < 2 ^ suc n
    → (ds : List ℕ) × (digits_loop (suc n) num base ≡ some ds) × Digits (suc n) num base ds
unfolding digits_loop
digits_loop-Digits zero num base i l =
    let (small, less, same) = divided base num 1 i l in
    (
      representation (num % base) ∷ [],
      rw (below_one (num / base) less) refl,
      Digits-one 0 num base (small, same) (omega (arith, less)),
    )
  where
    below_one : (a : ℕ) → a < 1 → a ≡ 0
    below_one a h = omega arith
digits_loop-Digits (suc n) num base i l =
    let (small, less, same) = divided base num (2 ^ suc n) i (omega (arith, l, power (suc n))) in
    let (ds, e, d) = digits_loop-Digits n (num / base) base i less in
    elim (Bool-cases (num / base == 0)) [
      | inl z ↦ (
        representation (num % base) ∷ [],
        rw (digits_loop, z) refl,
        Digits-one (suc n) num base (small, same) (==_eq (num / base) 0 z),
      )
      | inr nz ↦ (
        representation (num % base) ∷ ds,
        rw (digits_loop, nz, e) refl,
        Digits-more (suc n) num base ds (small, same) d,
      )
    ]

-- The numeral of a number, the highest digit first, of `n` digits at most
unfoldable pub numeral : (n base num : ℕ) → List ℕ
numeral zero base num = []
numeral (suc n) base num =
    let rest = numeral n base (num / base) in
    let d = representation (num % base) in if num / base == 0 then d ∷ [] else rest ++ (d ∷ [])

one_more :
    (d : ℕ) (ds num : List ℕ) (o : Option (List ℕ))
    → ((ds' : List ℕ) → o ≡ some ds' → reverse ds' ≡ num)
    → elim o as (λ x. Option (List ℕ)) [ none ↦ none | some ds' ↦ some (d ∷ ds') ] ≡ some ds
    → reverse ds ≡ num ++ (d ∷ [])
one_more d ds num none q h = cc
one_more d ds num (some ds') q h =
    ap reverse (sym (some_eq h)) ∙ reverse-cons d ds' ∙ ap (λ l. l ++ (d ∷ [])) (q ds' refl)

digits_loop-numeral :
    (n num base : ℕ) (ds : List ℕ)
    → digits_loop n num base ≡ some ds
    → reverse ds ≡ numeral n base num
unfolding digits_loop numeral
digits_loop-numeral zero num base ds e = cc
digits_loop-numeral (suc n) num base ds e = elim (Bool-cases (num / base == 0)) [
  | inl z ↦
      (let s : digits_loop (suc n) num base ≡ some (representation (num % base) ∷ []) =
          rw (digits_loop, z) refl in
        rw z (ap reverse (some_eq (sym e ∙ s))))
  | inr nz ↦
      (let s : digits_loop (suc n) num base
            ≡ elim (digits_loop n (num / base) base) as (λ x. Option (List ℕ)) [
              | none ↦ none
              | some ds' ↦ some (representation (num % base) ∷ ds')
            ] =
          rw (digits_loop, nz) refl in
        rw nz (
          one_more (representation (num % base)) ds (numeral n base (num / base))
            (digits_loop n (num / base) base)
            (λ ds' q. digits_loop-numeral n (num / base) base ds' q) (sym s ∙ e)))
]

value_from-append :
    (base acc c : ℕ) (cs : List ℕ)
    → value_from base acc (cs ++ (c ∷ [])) ≡ value_from base acc cs * base + digit_of c
unfolding value_from
value_from-append base acc c [] = refl
value_from-append base acc c (d ∷ cs) = value_from-append base (acc * base + digit_of d) c cs

value_from-reverse : (base : ℕ) (ds : List ℕ) → value_from base 0 (reverse ds) ≡ low_value base ds
unfolding value_from low_value
value_from-reverse base [] = refl
value_from-reverse base (c ∷ ds) =
    ap (value_from base 0) (reverse-cons c ds)
    ∙ value_from-append base 0 c (reverse ds)
    ∙ ap (λ v. v * base + digit_of c) (value_from-reverse base ds)
    ∙ turn (low_value base ds) (digit_of c)
  where
    turn : (v d : ℕ) → v * base + d ≡ d + base * v
    turn v d = omega arith

length-reverse : (ds : List ℕ) → length (reverse ds) ≡ length ds
length-reverse [] = refl
length-reverse (d ∷ ds) =
    ap length (reverse-cons d ds)
    ∙ length-append (reverse ds) (d ∷ [])
    ∙ omega (arith, length-reverse ds)

-- For a number of 64 bits and the bases 8, 10 and 16, `convert` does not write behind its buffer
-- of 64 characters: it writes the first `size` characters of a numeral that has from 1 to 64
-- characters and stands for the number.
pub convert-numeral :
    (num base size : ℕ)
    → IsBase base
    → num < word_mod
    → (convert num base size ≡ some (take size (numeral 64 base num)))
      × (value_from base 0 (numeral 64 base num) ≡ num)
      × (0 < length (numeral 64 base num))
      × (length (numeral 64 base num) ≤ 64)
unfolding convert
convert-numeral num base size i l =
    let (ds, e, d) = digits_loop-Digits 63 num base i l in
    let same = digits_loop-numeral 64 num base ds e in
    (
      written ds e same,
      ap (value_from base 0) (sym same) ∙ value_from-reverse base ds ∙ d.valued,
      omega (arith, ap length same, length-reverse ds, d.some_digit),
      omega (arith, ap length same, length-reverse ds, d.short),
    )
  where
    written :
        (ds : List ℕ)
        → digits_loop 64 num base ≡ some ds
        → reverse ds ≡ numeral 64 base num
        → convert num base size ≡ some (take size (numeral 64 base num))
    written ds e same = elim (Bool-cases (size == 0)) [
      | inl z ↦ rw (convert, z, ==_eq size 0 z) refl
      | inr nz ↦ rw (convert, nz, e) (ap (λ l'. some (take size l')) same)
    ]
