-- ===== src/Formatting/Conversions.antt =====
-- What is written for an argument is its text, where the buffer has room for it.
use bubackos.Prelude.{
  ℕ, zero, suc, ◌+◌, ◌-◌, ◌%◌, ◌^◌, ◌≡◌, ◌<◌, ◌≤◌, refl, sym, ap, ◌∙◌, Bool, true, false, Option,
  none, some, some_eq, List, [], ◌∷◌, ◌++◌, arith, inl, inr, ◌==◌, ltb, leb, length, length-append,
  if◌then◌else◌, sub64, word_mod,
}
use mathlib.Core.Path.{subst}
use mathlib.Core.List.{append_assoc}
use bubackos.CString.Compare.{take}
use bubackos.Formatting.{Arg, word, string, null_ptr, write_sequence, write_number, conversion}
use bubackos.Formatting.Digits.{IsBase, numeral, convert-numeral}
use bubackos.Formatting.Rendering.{piece}

take-all : (n : ℕ) (cs : List ℕ) → length cs ≤ n → take n cs ≡ cs
take-all zero [] l = refl
take-all zero (c ∷ cs) l = absurd (omega arith)
take-all (suc n) [] l = refl
take-all (suc n) (c ∷ cs) l = ap (λ t. c ∷ t) (take-all n cs (omega arith))

room-minus : (size n : ℕ) → n ≤ size → size < word_mod → sub64 size n ≡ size - n
room-minus size n l w = omega arith

write_number-all :
    (size : ℕ) (out : List ℕ) (n base : ℕ)
    → IsBase base
    → n < word_mod
    → size < word_mod
    → length out + length (numeral 64 base n) < size
    → write_number size out n base ≡ some (out ++ numeral 64 base n)
unfolding write_number
write_number-all size out n base i l w r =
    let (e, v, p, b) = convert-numeral n base (sub64 size (length out)) i l in
    rw
      (
        write_number,
        e,
        take-all (sub64 size (length out)) (numeral 64 base n) (
            subst (λ (m : ℕ). length (numeral 64 base n) ≤ m)
              (sym (room-minus size (length out) (omega (arith, r)) w)) (omega (arith, r))),
      )
      refl

write_sequence-all :
    (size : ℕ) (out s : List ℕ)
    → size < word_mod
    → length out + length s < size
    → write_sequence size out s ≡ out ++ s
unfolding write_sequence
write_sequence-all size out s w r =
    rw (room-minus size (length out) (omega (arith, r)) w, fits) refl
  where
    fits : ltb (length s) (size - length out) ≡ true
    fits = ground (arith, r)

-- A number after other characters
prefixed :
    (size : ℕ) (out s : List ℕ) (n base : ℕ)
    → IsBase base
    → n < word_mod
    → size < word_mod
    → length out + length (s ++ numeral 64 base n) < size
    → write_number size (out ++ s) n base ≡ some (out ++ (s ++ numeral 64 base n))
prefixed size out s n base i l w r =
    write_number-all size (out ++ s) n base i l w
      (omega (arith, r, length-append out s, length-append s (numeral 64 base n)))
    ∙ ap some (append_assoc out s (numeral 64 base n))

-- `written` is `out` and the text after it, where there is room for the text.
abbrev pub Writes : (size : ℕ) (out : List ℕ) → (written text : Option (List ℕ)) → Type 0
Writes size out written text =
    (s : List ℕ) → text ≡ some s → length out + length s < size → written ≡ some (out ++ s)

Writes-some :
    (size : ℕ) (out : List ℕ) (written : Option (List ℕ)) (t : List ℕ)
    → (length out + length t < size → written ≡ some (out ++ t))
    → Writes size out written (some t)
Writes-some size out written t h s e r =
    h (subst (λ (u : List ℕ). length out + length u < size) (sym (some_eq e)) r)
    ∙ ap (λ u. some (out ++ u)) (some_eq e)

Writes-none : (size : ℕ) (out : List ℕ) (written : Option (List ℕ)) → Writes size out written none
Writes-none size out written s e r = cc

-- The same test on both sides
Writes-if :
    (size : ℕ) (out : List ℕ) (b : Bool) (w v t u : Option (List ℕ))
    → Writes size out w t
    → Writes size out v u
    → Writes size out (if b then w else v) (if b then t else u)
Writes-if size out true w v t u h h' = h
Writes-if size out false w v t u h h' = h'

pub conversion-piece :
    (size : ℕ) (out : List ℕ) (c : ℕ) (a : Arg)
    → size < word_mod
    → Writes size out (conversion size out c a) (piece c a)
unfolding conversion piece
conversion-piece size out c (string t) w =
    Writes-if size out (c == 115) _ _ _ _ (text t) (Writes-none size out _)
  where
    text : (t : List ℕ) → Writes size out (some (write_sequence size out t)) (some t)
    text t = Writes-some size out _ t (λ r. ap some (write_sequence-all size out t w r))
conversion-piece size out c (word n) w =
    Writes-if size out (c == 99) _ _ _ _ (Writes-some size out _ (n % 256 ∷ []) (λ r. refl)) (
      Writes-if size out (c == 100) _ _ _ _
        (Writes-if size out (leb (2 ^ 31) (n % 2 ^ 32)) _ _ _ _
          (Writes-some size out _ (45 ∷ numeral 64 10 (2 ^ 32 - n % 2 ^ 32))
            (prefixed size out (45 ∷ []) (2 ^ 32 - n % 2 ^ 32) 10 (inr (inl refl)) (omega arith) w))
          (number 10 (n % 2 ^ 32) (inr (inl refl)) (omega arith)))
        (Writes-if size out (c == 111) _ _ _ _ (number 8 (n % 2 ^ 32) (inl refl) (omega arith)) (
          Writes-if size out (c == 115) _ _ _ _
            (Writes-if size out (n == 0) _ _ _ _ (text null_ptr) (Writes-none size out _))
            (Writes-if size out (c == 112) _ _ _ _
              (Writes-if size out (n % 2 ^ 64 == 0) _ _ _ _ (text null_ptr)
                (Writes-some size out _ (48 ∷ 120 ∷ numeral 64 16 (n % 2 ^ 64)) pointer))
              (number 16 (n % 2 ^ 32) (inr (inr refl)) (omega arith))))))
  where
    text : (t : List ℕ) → Writes size out (some (write_sequence size out t)) (some t)
    text t = Writes-some size out _ t (λ r. ap some (write_sequence-all size out t w r))

    number :
        (base m : ℕ)
        → IsBase base
        → m < word_mod
        → Writes size out (write_number size out m base) (some (numeral 64 base m))
    number base m i l =
        Writes-some size out _ (numeral 64 base m) (λ r. write_number-all size out m base i l w r)

    pointer :
        length out + length (48 ∷ 120 ∷ numeral 64 16 (n % 2 ^ 64)) < size
        → write_number size (write_sequence size out (48 ∷ 120 ∷ [])) (n % 2 ^ 64) 16
          ≡ some (out ++ (48 ∷ 120 ∷ numeral 64 16 (n % 2 ^ 64)))
    pointer r =
        ap (λ o. write_number size o (n % 2 ^ 64) 16)
          (write_sequence-all size out (48 ∷ 120 ∷ []) w (omega (arith, r)))
        ∙ prefixed size out (48 ∷ 120 ∷ []) (n % 2 ^ 64) 16 (inr (inr refl)) (omega arith) w r
