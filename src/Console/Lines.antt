-- ===== src/Console/Lines.antt =====
-- Text whose lines fit the rows: console_write against the terminal of single characters.
use bubackos.Prelude.{
  ℕ, suc, ◌+◌, ◌*◌, ◌/◌, ◌%◌, ◌^◌, ◌≡◌, ◌<◌, ◌≤◌, refl, sym, ap, ◌∙◌, Bool, true, false, ◌&&◌, List,
  [], ◌∷◌, some, arith, inl, inr, Bool-cases, ◌==◌, leb, ltb, if◌then◌else◌, word_mod, sub64,
}
use bubackos.Console.{
  Console, newline, need_scroll, raw_loop, is_control, write_part, write_parts,
  terminal_writesequence, console_raw_write, to_size, min, to_int,
}
use bubackos.Console.Bounds.{part, part_lem, newline-Wrote}
use bubackos.Console.Reference.{wrap, wrap_room, filled, filled_zero}

-- One round
pub write_part_lem :
    (b l w : ℕ) (s : Console)
    → s.terminal_row < 24
    → s.terminal_column ≤ 80
    → l < 2 ^ 31
    → w ≤ l
    → write_part b l w s
      ≡ (w + part s.terminal_column l, wrap (filled (part s.terminal_column l) (b + w) s))
unfolding write_part console_raw_write wrap
write_part_lem b l w s r c h m =
    let n = part s.terminal_column l in
    let f : s.terminal_column + n ≤ 80 = ground (arith, c) in
    let index : (s.terminal_row * 80 + s.terminal_column) % word_mod
        ≡ s.terminal_row * 80 + s.terminal_column =
      omega (arith, r, c) in
    let column : (s.terminal_column + n) % word_mod ≡ s.terminal_column + n = omega (arith, f) in
    let count : (w + n) % word_mod ≡ w + n = omega (arith, f, m, h) in
    rw (part_lem s.terminal_column l c h, index, column, count) refl

-- A round for text that fits the row
write_part-filled :
    (b l : ℕ) (s : Console)
    → s.terminal_row < 24
    → s.terminal_column + l ≤ 80
    → write_part b l 0 s ≡ (l, wrap (filled l b s))
write_part-filled b l s r f =
    let all : part s.terminal_column l ≡ l = ground (arith, f) in
    let at : b + 0 ≡ b = omega arith in
    let count : 0 + l ≡ l = omega arith in
    write_part_lem b l 0 s r (omega (arith, f)) (omega (arith, f)) (omega arith)
    ∙ rw (all, at, count) refl

-- One round with the cursor behind the row
write_part-newline :
    (b l : ℕ) (s : Console)
    → s.terminal_row < 24
    → s.terminal_column ≡ 80
    → l < 2 ^ 31
    → write_part b l 0 s ≡ (0, newline s)
unfolding write_part console_raw_write newline raw_loop
write_part-newline b l s r c h =
    let size : to_size (min (to_int (sub64 80 80)) (to_int l)) ≡ 0 =
      part_lem 80 l (omega arith) h ∙ ground arith in
    rw (c, size) refl

parts-filled :
    (n b l : ℕ) (s : Console)
    → s.terminal_row < 24
    → s.terminal_column + l ≤ 80
    → write_parts (suc n) b l 0 s ≡ some (wrap (filled l b s))
unfolding write_parts
parts-filled n b l s r f =
    let done : ltb l l ≡ false = ground arith in
    rw (write_parts, write_part-filled b l s r f, done) refl

pub newline-column : (s : Console) → (newline s).terminal_column ≡ 0
unfolding newline need_scroll
newline-column s = ground arith

parts-newline :
    (n b l : ℕ) (s : Console)
    → s.terminal_row < 24
    → s.terminal_column ≡ 80
    → l ≤ 80
    → write_parts (suc (suc n)) b l 0 s ≡ some (wrap (filled l b (newline s)))
unfolding write_parts
parts-newline n b l s r c h =
    let x = newline-Wrote s r in
    elim (Bool-cases (ltb 0 l)) [
      | inl more ↦
          rw (write_parts, write_part-newline b l s r c (omega (arith, h)), more)
            (parts-filled n b l (newline s) x.row (omega (arith, h, newline-column s)))
      | inr done ↦
          (let empty : l ≡ 0 = ground (arith, done) in
            rw (write_parts, write_part-newline b l s r c (omega (arith, h)), done)
              (ap some (filled_zero b (newline s) x.column)
                ∙ ap (λ (k : ℕ). some (wrap (filled k b (newline s)))) (sym empty)))
    ]

-- A segment between two control characters
pub segment :
    (b l : ℕ) (s : Console)
    → s.terminal_row < 24
    → s.terminal_column ≤ 80
    → (wrap s).terminal_column + l ≤ 80
    → terminal_writesequence b l s ≡ some (wrap (filled l b (wrap s)))
unfolding terminal_writesequence
segment b l s r c f =
    let rounds : l + 2 ≡ suc (suc l) = omega arith in
    elim (Bool-cases (leb 80 s.terminal_column)) [
      | inl full ↦
          (let e : wrap s ≡ newline s = unfold wrap in rw full refl in
            let short : l ≤ 80 =
              omega (arith, f, ap (λ (x : Console). x.terminal_column) e, newline-column s) in
            rw (rounds, e) (parts-newline l b l s r (ground (arith, full, c)) short))
      | inr room ↦
          (let e : wrap s ≡ s = wrap_room s (ground (arith, room)) in
            rw (rounds, e)
              (parts-filled (suc l) b l s r
                (omega (arith, f, ap (λ (x : Console). x.terminal_column) e))))
    ]

-- The cursor behind a control character
abbrev pub stop : (c column : ℕ) → ℕ
stop c column = if c == b'\t' then ((column / 4 + 1) * 4) % 80 else 0

-- Whether every stretch of text between two control characters fits the rest of its row; `length`
-- characters of the first one are behind.
abbrev pub fits : (column length : ℕ) → List ℕ → Bool
fits column length [] = leb (column + length) 80
fits column length (c ∷ cs) = elim (is_control c) [
  | true ↦ leb (column + length) 80 && fits (stop c ((column + length) % 80)) 0 cs
  | false ↦ fits column (suc length) cs
]
