-- ===== src/Formatting/Printing.antt =====
-- `vsnprintf` writes the text that the format means, where the buffer has room for it.
use bubackos.Prelude.{
  ℕ, zero, suc, ◌+◌, ◌≡◌, ◌⊎◌, ◌<◌, ◌≤◌, refl, sym, ap, ◌∙◌, true, false, some, some_eq, List, [],
  ◌∷◌, ◌++◌, arith, inl, inr, Bool-cases, ==_ne, ==_eq, ◌==◌, ltb, length, length-append, word_mod,
  ◌^◌,
}
use mathlib.Core.Path.{subst}
use mathlib.Core.List.{append_assoc, append-nil}
use bubackos.Formatting.{Arg, specifier, literals, format_loop, vsnprintf}
use bubackos.Formatting.Rendering.{joined, render}
use bubackos.Formatting.Specifiers.{joined-some, specifier-Specified}

-- What the inner loop does for the text that the format means
record Literal (size : ℕ) (out fs : List ℕ) (args : List Arg) (t : List ℕ) : Type 0 where
  literal_text : List ℕ
  left : List ℕ
  rest_text : List ℕ
  written : literals size out fs ≡ (out ++ literal_text, left)
  rendered : render left args ≡ some rest_text
  parts : t ≡ literal_text ++ rest_text
  stops : (left ≡ []) ⊎ ((ds : List ℕ) × (left ≡ 37 ∷ ds))
  shorter : length left ≤ length fs

Literal-stop :
    (size : ℕ) (out fs : List ℕ) (args : List Arg) (t : List ℕ)
    → literals size out fs ≡ (out, fs)
    → render fs args ≡ some t
    → (fs ≡ []) ⊎ ((ds : List ℕ) × (fs ≡ 37 ∷ ds))
    → Literal size out fs args t
Literal-stop size out fs args t e q s = record {
  literal_text = [];
  left = fs;
  rest_text = t;
  written = e ∙ ap (λ o. (o, fs)) (sym (append-nil out));
  rendered = q;
  parts = refl;
  stops = s;
  shorter = omega arith;
}

Literal-more :
    (size : ℕ) (out : List ℕ) (c : ℕ) (fs : List ℕ) (args : List Arg) (t : List ℕ)
    → literals size out (c ∷ fs) ≡ literals size (out ++ (c ∷ [])) fs
    → Literal size (out ++ (c ∷ [])) fs args t
    → Literal size out (c ∷ fs) args (c ∷ t)
Literal-more size out c fs args t e l = record {
  literal_text = c ∷ l.literal_text;
  left = l.left;
  rest_text = l.rest_text;
  written = e ∙ l.written ∙ ap (λ o. (o, l.left)) (append_assoc out (c ∷ []) l.literal_text);
  rendered = l.rendered;
  parts = ap (λ x. c ∷ x) l.parts;
  stops = l.stops;
  shorter = omega (arith, l.shorter);
}

-- A character that is not a '%' stands for itself.
render-literal :
    (c : ℕ) (cs : List ℕ) (args : List Arg) (t : List ℕ)
    → (c == 37) ≡ false
    → render (c ∷ cs) args ≡ some t
    → (u : List ℕ) × (render cs args ≡ some u) × (t ≡ c ∷ u)
unfolding render
render-literal c [] args t n e =
    let s : render (c ∷ []) args ≡ some (c ∷ []) = rw (render, n) refl in
    ([], refl, some_eq (sym e ∙ s))
render-literal c (d ∷ cs) args t n e =
    let s : render (c ∷ d ∷ cs) args ≡ joined (some (c ∷ [])) (render (d ∷ cs) args) =
      rw (render, n) refl in
    let (o, u, p, q, parts) = joined-some (some (c ∷ [])) (render (d ∷ cs) args) t (sym s ∙ e) in
    (u, q, parts ∙ ap (λ x. x ++ u) (sym (some_eq p)))

literals-Literal :
    (size : ℕ) (out fs : List ℕ) (args : List Arg) (t : List ℕ)
    → render fs args ≡ some t
    → length out + length t < size
    → Literal size out fs args t
unfolding literals
literals-Literal size out [] args t e r = Literal-stop size out [] args t refl e (inl refl)
literals-Literal size out (c ∷ cs) args t e r = elim (Bool-cases (c == 37)) [
  | inl y ↦
      Literal-stop size out (c ∷ cs) args t (rw y refl) e
        (inr (cs, ap (λ x. x ∷ cs) (==_eq c 37 y)))
  | inr n ↦
      (let (u, q, parts) = render-literal c cs args t n e in
        let more : ltb (length out) size ≡ true = ground (arith, r) in
        let short : length (out ++ (c ∷ [])) + length u < size =
          omega (arith, r, ap length parts, length-append out (c ∷ [])) in
        subst (λ (x : List ℕ). Literal size out (c ∷ cs) args x) (sym parts)
          (Literal-more size out c cs args u (rw (n, more) refl)
            (literals-Literal size (out ++ (c ∷ [])) cs args u q short)))
]

-- The loop goes on behind a '%' as `specifier` says.
loop-specifier :
    (n size : ℕ) (out fs : List ℕ) (args : List Arg) (out' : List ℕ) (c d : ℕ) (cs : List ℕ)
    (out'' : List ℕ) (rest : List Arg)
    → ltb (length out) size ≡ true
    → literals size out fs ≡ (out', c ∷ d ∷ cs)
    → specifier size out' d args ≡ some (out'', rest)
    → format_loop (suc n) size out fs args ≡ format_loop n size out'' cs rest
unfolding format_loop
loop-specifier n size out fs args out' c d cs out'' rest l e s =
    rw (format_loop, l, e, ap (λ (p : List ℕ × List ℕ). p.0) e, s) refl

loop-end :
    (n size : ℕ) (out fs : List ℕ) (args : List Arg) (out' : List ℕ)
    → ltb (length out) size ≡ true
    → literals size out fs ≡ (out', [])
    → format_loop (suc n) size out fs args ≡ some out'
unfolding format_loop
loop-end n size out fs args out' l e =
    rw (format_loop, l, e, ap (λ (p : List ℕ × List ℕ). p.0) e) refl

whole :
    (size : ℕ) (out fs : List ℕ) (args : List Arg) (t : List ℕ) (i : Literal size out fs args t)
    → i.left ≡ []
    → out ++ i.literal_text ≡ out ++ t
unfolding render
whole size out fs args t i e =
    let s : render i.left args ≡ some [] = ap (λ l. render l args) e in
    ap (λ l. out ++ l)
      (sym (
        i.parts
        ∙ ap (λ u. i.literal_text ++ u) (some_eq (sym i.rendered ∙ s))
        ∙ append-nil i.literal_text))

render-end : (args : List Arg) (t : List ℕ) → render (37 ∷ []) args ≡ some t → ⊥
unfolding render
render-end args t e = cc

-- Behind a '%', once the rest of the format is settled.
behind :
    (n size : ℕ) (out fs : List ℕ) (args : List Arg) (t ds : List ℕ)
    → length fs < suc n
    → size < word_mod
    → length out + length t < size
    → (i : Literal size out fs args t) → i.left ≡ 37 ∷ ds
    → ((out' fs' : List ℕ) (args' : List Arg) (t' : List ℕ)
        → length fs' < n
        → render fs' args' ≡ some t'
        → length out' + length t' < size
        → format_loop n size out' fs' args' ≡ some (out' ++ t'))
    → format_loop (suc n) size out fs args ≡ some (out ++ t)
behind n size out fs args t [] l w r i q rest =
    absurd (render-end args i.rest_text (sym (ap (λ x. render x args) q) ∙ i.rendered))
behind n size out fs args t (d ∷ cs) l w r i q rest =
    let more : ltb (length out) size ≡ true = ground (arith, r) in
    let long = ap length i.parts ∙ length-append i.literal_text i.rest_text in
    let out' = out ++ i.literal_text in
    let wide = length-append out i.literal_text in
    let j =
      specifier-Specified size out' d cs args i.rest_text w
        (sym (ap (λ x. render x args) q) ∙ i.rendered) (omega (arith, r, long, wide)) in
    let long' = ap length j.parts ∙ length-append j.piece_text j.rest_text in
    let wide' = length-append out' j.piece_text in
    loop-specifier n size out fs args out' 37 d cs (out' ++ j.piece_text) j.left more
      (i.written ∙ ap (λ x. (out', x)) q) j.written
    ∙ rest (out' ++ j.piece_text) cs j.left j.rest_text (omega (arith, l, i.shorter, ap length q))
        j.rendered (omega (arith, r, long, wide, long', wide'))
    ∙ ap some (
        append_assoc out' j.piece_text j.rest_text
        ∙ ap (λ x. out' ++ x) (sym j.parts)
        ∙ append_assoc out i.literal_text i.rest_text
        ∙ ap (λ x. out ++ x) (sym i.parts))

format_loop-render :
    (n size : ℕ) (out fs : List ℕ) (args : List Arg) (t : List ℕ)
    → length fs < n
    → size < word_mod
    → render fs args ≡ some t
    → length out + length t < size
    → format_loop n size out fs args ≡ some (out ++ t)
format_loop-render zero size out fs args t l w e r = absurd (omega arith)
format_loop-render (suc n) size out fs args t l w e r =
    let more : ltb (length out) size ≡ true = ground (arith, r) in
    let i = literals-Literal size out fs args t e r in
    elim i.stops [
      | inl nil ↦
          loop-end n size out fs args (out ++ i.literal_text) more
            (i.written ∙ ap (λ x. (out ++ i.literal_text, x)) nil)
          ∙ ap some (whole size out fs args t i nil)
      | inr (ds, q) ↦
          behind n size out fs args t ds l w r i q
            (λ out' fs' args' t' l' e' r'. format_loop-render n size out' fs' args' t' l' w e' r')
    ]

-- Where the format and the arguments have a text, and the buffer of at most 2^31 bytes has room for
-- it and a NUL, `vsnprintf` ends, writes that text from the start of the buffer on with the NUL
-- behind it, and answers its length, which is not negative as an `int`.
pub vsnprintf-render :
    (size : ℕ) (format : List ℕ) (args : List Arg) (t : List ℕ)
    → render format args ≡ some t
    → length t < size
    → size ≤ 2 ^ 31
    → vsnprintf size format args
      ≡ some (record { written = t; terminator = length t; answer = length t })
unfolding vsnprintf
vsnprintf-render size format args t e r w =
    rw
      (
        vsnprintf,
        format_loop-render (suc (length format)) size [] format args t (omega arith)
            (omega (arith, w)) e (omega (arith, r)),
        ==_ne (length t) size (λ z. omega (arith, r, z)),
      )
      (ap (λ a. some (record { written = t; terminator = length t; answer = a }))
        (omega (arith, r, w)))
