-- ===== src/Formatting/Overflow.antt =====
-- A format that makes `vsnprintf` write behind its buffer.
use bubackos.Prelude.{
  ℕ, suc, ◌+◌, ◌≡◌, ◌≢◌, ◌<◌, ◌≤◌, refl, sym, ap, ◌∙◌, true, false, some, List, [], ◌∷◌, ◌++◌,
  arith, All, ==_ne, ltb, length, length-append, ◌%◌, ◌^◌,
}
use mathlib.Core.List.{append_assoc, append-nil}
use bubackos.Formatting.{Arg, specifier, literals, format_loop, vsnprintf}

literals-full :
    (size : ℕ) (out cs fs : List ℕ)
    → All (λ c. c ≢ 37) cs
    → length out + length cs ≤ size
    → literals size out (cs ++ (37 ∷ fs)) ≡ (out ++ cs, 37 ∷ fs)
unfolding literals
literals-full size out [] fs p l = ap (λ o. (o, 37 ∷ fs)) (sym (append-nil out))
literals-full size out (c ∷ cs) fs p l =
    let more : ltb (length out) size ≡ true = ground (arith, l) in
    rw (==_ne c 37 p.0, more)
      (literals-full size (out ++ (c ∷ [])) cs fs p.1 (omega (arith, l, length-append out (c ∷ [])))
        ∙ ap (λ o. (o, 37 ∷ fs)) (append_assoc out (c ∷ []) cs))

percent :
    (n size : ℕ) (out fs out' : List ℕ) (args : List Arg)
    → ltb (length out) size ≡ true
    → literals size out fs ≡ (out', 37 ∷ 37 ∷ [])
    → format_loop (suc n) size out fs args ≡ format_loop n size (out' ++ (37 ∷ [])) [] args
unfolding format_loop specifier
percent n size out fs out' args l e =
    rw (format_loop, l, e, ap (λ (p : List ℕ × List ℕ). p.0) e) refl

full :
    (n size : ℕ) (out : List ℕ) (args : List Arg)
    → size < length out
    → format_loop (suc n) size out [] args ≡ some out
unfolding format_loop
full n size out args l = rw (format_loop, past) refl
  where
    past : ltb (length out) size ≡ false
    past = ground (arith, l)

-- For a text of one character or more without a '%' that is as long as the buffer, the format of
-- that text and "%%" makes `vsnprintf` write a character behind the buffer, and the NUL after it.
pub vsnprintf-behind :
    (size : ℕ) (cs : List ℕ) (args : List Arg)
    → All (λ c. c ≢ 37) cs
    → length cs ≡ size
    → 0 < size
    → vsnprintf size (cs ++ (37 ∷ 37 ∷ [])) args
      ≡ some (record {
        written = cs ++ (37 ∷ []);
        terminator = size + 1;
        answer = (size + 1) % 2 ^ 32;
      })
unfolding vsnprintf
vsnprintf-behind size cs args p e l =
    let long = length-append cs (37 ∷ 37 ∷ []) in
    let longer : length (cs ++ (37 ∷ [])) ≡ size + 1 =
      length-append cs (37 ∷ []) ∙ ap (λ n. n + 1) e in
    let more : ltb (length {A = ℕ} []) size ≡ true = ground (arith, l) in
    let run : format_loop (suc (length (cs ++ (37 ∷ 37 ∷ [])))) size [] (cs ++ (37 ∷ 37 ∷ [])) args
        ≡ some (cs ++ (37 ∷ [])) =
      percent (length (cs ++ (37 ∷ 37 ∷ []))) size [] (cs ++ (37 ∷ 37 ∷ [])) cs args more
        (literals-full size [] cs (37 ∷ []) p (omega (arith, e)))
      ∙ ap (λ n. format_loop n size (cs ++ (37 ∷ [])) [] args) (at_least long)
      ∙ full (suc (length cs)) size (cs ++ (37 ∷ [])) args (omega (arith, longer)) in
    rw
      (
        vsnprintf,
        run,
        ==_ne (length (cs ++ (37 ∷ []))) size (λ z. omega (arith, longer, z)),
        longer,
      )
      refl
  where
    at_least :
        length (cs ++ (37 ∷ 37 ∷ [])) ≡ length cs + 2
        → length (cs ++ (37 ∷ 37 ∷ [])) ≡ suc (suc (length cs))
    at_least q = omega (arith, q)
