-- ===== src/Console/Overrun.antt =====
-- Text that does not fit the rest of its row.
use bubackos.Prelude.{
  ℕ, suc, ◌+◌, ◌-◌, ◌%◌, ◌≡◌, ◌<◌, ◌≤◌, refl, ap, ◌∙◌, true, false, some, arith, leb, ltb,
}
use bubackos.Console.{Console, newline, write_part, write_parts, terminal_writesequence}
use bubackos.Console.Bounds.{part, newline-Wrote}
use bubackos.Console.Reference.{wrap, filled}
use bubackos.Console.Lines.{write_part_lem, newline-column}
use bubackos.Console.Writing.{wrap-column}

-- Two rounds, of which the first one fills its row
two_parts :
    (n b l w w2 : ℕ) (s s2 s3 : Console)
    → write_part b l 0 s ≡ (w, s2)
    → ltb w l ≡ true
    → write_part b l w s2 ≡ (w2, s3)
    → ltb w2 l ≡ false
    → write_parts (suc (suc n)) b l 0 s ≡ some s3
unfolding write_parts
two_parts n b l w w2 s s2 s3 e more e2 done = rw (write_parts, e, more, e2, done) refl

wrap_full : (s : Console) → s.terminal_column ≡ 80 → wrap s ≡ newline s
unfolding wrap
wrap_full s c = let full : leb 80 s.terminal_column ≡ true = ground (arith, c) in rw full refl

-- The row that the first round leaves
first_part :
    (b l : ℕ) (s : Console)
    → s.terminal_row < 24
    → s.terminal_column < 80
    → 80 < s.terminal_column + l
    → l ≤ 80
    → write_part b l 0 s ≡ (80 - s.terminal_column, newline (filled (80 - s.terminal_column) b s))
first_part b l s r c o h =
    let rest : part s.terminal_column l ≡ 80 - s.terminal_column = ground (arith, c, o) in
    let at : b + 0 ≡ b = omega arith in
    let count : 0 + (80 - s.terminal_column) ≡ 80 - s.terminal_column = omega arith in
    write_part_lem b l 0 s r (omega (arith, c)) (omega (arith, h)) (omega arith)
    ∙ rw (rest, at, count)
        (ap (λ (x : Console). (80 - s.terminal_column, x))
          (wrap_full (filled (80 - s.terminal_column) b s) (omega (arith, c))))

-- For text of at most 80 bytes that does not fit the rest of the cursor's row,
-- `terminal_writesequence` fills the row, goes to the next one, and there writes as many bytes as the
-- whole text has, from the first one on that is left: it reads behind the text, as many bytes as it
-- wrote to the first row. The cursor ends in the column of the length of the text, or in column 0
-- for 80.
pub writesequence-overrun :
    (b l : ℕ) (s : Console)
    → s.terminal_row < 24
    → s.terminal_column < 80
    → 80 < s.terminal_column + l
    → l ≤ 80
    → (s' : Console) × (terminal_writesequence b l s ≡ some s')
      × (s'
          ≡ wrap (
              filled l
                (b + (80 - s.terminal_column))
                (newline (filled (80 - s.terminal_column) b s))))
      × (s'.terminal_column ≡ l % 80)
unfolding terminal_writesequence
writesequence-overrun b l s r c o h =
    let s2 = newline (filled (80 - s.terminal_column) b s) in
    let x = newline-Wrote (filled (80 - s.terminal_column) b s) r in
    let zero_column = newline-column (filled (80 - s.terminal_column) b s) in
    let all : part s2.terminal_column l ≡ l = rw zero_column (ground (arith, h)) in
    let rounds : l + 2 ≡ suc (suc l) = omega arith in
    let second : write_part b l (80 - s.terminal_column) s2
        ≡ (80 - s.terminal_column + l, wrap (filled l (b + (80 - s.terminal_column)) s2)) =
      write_part_lem b l (80 - s.terminal_column) s2 x.row (omega (arith, x.column))
        (omega (arith, h)) (omega (arith, o))
      ∙ ap
          (λ (n : ℕ).
            (80 - s.terminal_column + n, wrap (filled n (b + (80 - s.terminal_column)) s2)))
          all in
    (
      wrap (filled l (b + (80 - s.terminal_column)) s2),
      rw rounds (
          two_parts l b l (80 - s.terminal_column) (80 - s.terminal_column + l) s s2 _
            (first_part b l s r c o h) (ground (arith, o)) second (ground (arith, c))),
      refl,
      wrap-column (filled l (b + (80 - s.terminal_column)) s2) (omega (arith, zero_column, h))
          ∙ ap (λ (n : ℕ). n % 80) (omega (arith, zero_column)),
    )
