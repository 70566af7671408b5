-- ===== src/Formatting/Specifiers.antt =====
-- What the switch does for the text that the format means from a '%' on.
use bubackos.Prelude.{
  ℕ, ◌+◌, ◌≡◌, ◌<◌, refl, sym, ap, ◌∙◌, true, false, Option, none, some, some_eq, List, [], ◌∷◌,
  ◌++◌, arith, inl, inr, Bool-cases, ◌==◌, length, length-append, if◌then◌else◌, word_mod,
}
use mathlib.Core.List.{append-nil}
use bubackos.Formatting.{Arg, fetches, specifier}
use bubackos.Formatting.Rendering.{piece, joined, render}
use bubackos.Formatting.Conversions.{conversion-piece}

pub joined-some :
    (o p : Option (List ℕ)) (t : List ℕ)
    → joined o p ≡ some t
    → (s : List ℕ) × (u : List ℕ) × (o ≡ some s) × (p ≡ some u) × (t ≡ s ++ u)
unfolding joined
joined-some none p t e = cc
joined-some (some s) none t e = cc
joined-some (some s) (some u) t e = (s, u, refl, refl, sym (some_eq e))

-- What `specifier` does for the text that the format means from a '%' on
pub record Specified (size : ℕ) (out : List ℕ) (d : ℕ) (cs : List ℕ) (args : List Arg) (t : List ℕ)
    : Type 0 where
  pub piece_text : List ℕ
  pub left : List Arg
  pub rest_text : List ℕ
  pub written : specifier size out d args ≡ some (out ++ piece_text, left)
  pub rendered : render cs left ≡ some rest_text
  pub parts : t ≡ piece_text ++ rest_text

render-none : (d : ℕ) (cs : List ℕ) → fetches d ≡ true → render (37 ∷ d ∷ cs) [] ≡ none
unfolding render
render-none d cs f = rw f refl

render-piece :
    (d : ℕ) (cs : List ℕ) (a : Arg) (rest : List Arg)
    → fetches d ≡ true
    → render (37 ∷ d ∷ cs) (a ∷ rest) ≡ joined (piece d a) (render cs rest)
unfolding render
render-piece d cs a rest f = rw f refl

-- What a character that fetches nothing means
abbrev plain : ℕ → List ℕ
plain d = if d == 37 then 37 ∷ [] else []

render-plain :
    (d : ℕ) (cs : List ℕ) (args : List Arg)
    → fetches d ≡ false
    → render (37 ∷ d ∷ cs) args ≡ joined (some (plain d)) (render cs args)
unfolding render
render-plain d cs args f = rw f refl

specifier-fetched :
    (size : ℕ) (out : List ℕ) (d : ℕ) (cs : List ℕ) (args : List Arg) (t : List ℕ)
    → size < word_mod
    → fetches d ≡ true
    → render (37 ∷ d ∷ cs) args ≡ some t
    → length out + length t < size
    → Specified size out d cs args t
unfolding specifier
specifier-fetched size out d cs [] t w f e r = absurd (nothing (sym (render-none d cs f) ∙ e))
  where
    nothing : none ≡ some t → ⊥
    nothing q = cc
specifier-fetched size out d cs (a ∷ rest) t w f e r =
    let (s, u, p, q, parts) =
      joined-some (piece d a) (render cs rest) t (sym (render-piece d cs a rest f) ∙ e) in
    let short : length out + length s < size =
      omega (arith, r, ap length parts, length-append s u) in
    record {
      piece_text = s;
      left = rest;
      rest_text = u;
      written = rw (f, conversion-piece size out d a w s p short) refl;
      rendered = q;
      parts = parts;
    }

specifier-plain :
    (size : ℕ) (out : List ℕ) (d : ℕ) (cs : List ℕ) (args : List Arg) (t : List ℕ)
    → fetches d ≡ false
    → render (37 ∷ d ∷ cs) args ≡ some t
    → Specified size out d cs args t
unfolding specifier
specifier-plain size out d cs args t f e =
    let (s, u, p, q, parts) =
      joined-some (some (plain d)) (render cs args) t (sym (render-plain d cs args f) ∙ e) in
    record {
      piece_text = plain d;
      left = args;
      rest_text = u;
      written = rw f (ap (λ o. some (o, args)) same);
      rendered = q;
      parts = parts ∙ ap (λ x. x ++ u) (sym (some_eq p));
    }
  where
    same : (if d == 37 then out ++ (37 ∷ []) else out) ≡ out ++ plain d
    same = elim (Bool-cases (d == 37)) [ inl y ↦ rw y refl | inr n ↦ rw n (sym (append-nil out)) ]

pub specifier-Specified :
    (size : ℕ) (out : List ℕ) (d : ℕ) (cs : List ℕ) (args : List Arg) (t : List ℕ)
    → size < word_mod
    → render (37 ∷ d ∷ cs) args ≡ some t
    → length out + length t < size
    → Specified size out d cs args t
specifier-Specified size out d cs args t w e r = elim (Bool-cases (fetches d)) [
  | inl f ↦ specifier-fetched size out d cs args t w f e r
  | inr f ↦ specifier-plain size out d cs args t f e
]
