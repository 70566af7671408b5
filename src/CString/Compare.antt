-- ===== src/CString/Compare.antt =====
-- What `strncmp` answers.
use mathlib.Core.Bool.{false≢true}
use bubackos.Prelude.{
  ℕ, zero, suc, ◌≡◌, ◌≢◌, refl, true, false, List, [], ◌∷◌, ◌==◌, Bool-cases, inl, inr, ==_eq,
  arith, ap, sym, ◌∙◌,
}
use bubackos.CString.{strncmp_loop, strncmp, is_same, IsString}

abbrev pub take : ℕ → List ℕ → List ℕ
take zero l = []
take (suc n) [] = []
take (suc n) (c ∷ cs) = c ∷ take n cs

strncmp_loop-take :
    (l r : List ℕ) (n : ℕ)
    → IsString l
    → IsString r
    → (is_same (strncmp_loop l r n) ≡ true → take (suc n) l ≡ take (suc n) r)
      × (take (suc n) l ≡ take (suc n) r → is_same (strncmp_loop l r n) ≡ true)
unfolding strncmp_loop
strncmp_loop-take [] [] n hl hr = (λ _. refl, λ _. refl)
strncmp_loop-take [] (b ∷ r) n hl hr = (λ e. absurd (hr.0 (sym (==_eq 0 b e))), λ e. cc)
strncmp_loop-take (a ∷ l) [] n hl hr = (λ e. absurd (hl.0 (==_eq a 0 e)), λ e. cc)
strncmp_loop-take (a ∷ l) (b ∷ r) zero hl hr =
    (λ e. ap (λ c. c ∷ []) (==_eq a b e), λ e. same (heads e))
  where
    heads : a ∷ [] ≡ b ∷ [] → a ≡ b
    heads e = cc

    same : a ≡ b → (a == b) ≡ true
    same e = ground arith
strncmp_loop-take (a ∷ l) (b ∷ r) (suc n) hl hr = elim (Bool-cases (a == b)) [
  | inl e ↦ rw e (
    λ z. joined (==_eq a b e) ((strncmp_loop-take l r n hl.1 hr.1).0 z),
    λ z. (strncmp_loop-take l r n hl.1 hr.1).1 (tails z),
  )
  | inr e ↦ rw e (λ z. absurd (false≢true (sym e ∙ z)), λ z. absurd (differ e (heads z)))
]
  where
    heads : a ∷ take (suc n) l ≡ b ∷ take (suc n) r → a ≡ b
    heads e = cc

    tails : a ∷ take (suc n) l ≡ b ∷ take (suc n) r → take (suc n) l ≡ take (suc n) r
    tails e = cc

    joined : a ≡ b → take (suc n) l ≡ take (suc n) r → a ∷ take (suc n) l ≡ b ∷ take (suc n) r
    joined e z = cc

    differ : (a == b) ≡ false → a ≢ b
    differ e z = ground arith

-- `strncmp` of two strings without NUL inside and `n` answers 0 exactly when their first `n`
-- bytes are the same, where a shorter string has only as many as its length.
pub strncmp-take :
    (l r : List ℕ) (n : ℕ)
    → IsString l
    → IsString r
    → (is_same (strncmp l r n) ≡ true → take n l ≡ take n r)
      × (take n l ≡ take n r → is_same (strncmp l r n) ≡ true)
unfolding strncmp
strncmp-take l r zero hl hr = (λ _. refl, λ _. refl)
strncmp-take l r (suc n) hl hr = strncmp_loop-take l r n hl hr
