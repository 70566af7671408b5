-- ===== src/Console/Total.antt =====
-- Every call of console_write ends, with the cursor in the screen.
use bubackos.Prelude.{
  ℕ, zero, suc, ◌+◌, ◌-◌, ◌/◌, ◌^◌, ◌≡◌, ◌<◌, ◌≤◌, refl, ◌∙◌, true, ◌||◌, some, arith, inl, inr,
  Bool-cases, ◌==◌, ltb,
}
use bubackos.Console.{
  Console, write_part, write_parts, terminal_writesequence, control, is_control, write_loop,
  console_write,
}
use bubackos.Console.Bounds.{
  Outside, Keeps, Keeps-trans, Keeps-refl, Wrote, Wrote-trans, part, newline-Wrote,
  write_part-Wrote,
}

-- One more part is fewer rounds away from the end.
shorter :
    (n column length written : ℕ)
    → column ≤ 80
    → written < length
    → length - written + column / 80 < suc n
    → written + part column length < length
    → length - (written + part column length) + 0 < n
shorter n column length written c w m h = ground (arith, c, w, m, h)

-- The next round
next_part :
    (n b l w w' : ℕ) (s s' : Console)
    → (write_part b l w s).0 ≡ w'
    → ltb w' l ≡ true
    → write_parts n b l w' (write_part b l w s).1 ≡ some s'
    → write_parts (suc n) b l w s ≡ some s'
unfolding write_parts
next_part n b l w w' s s' e more rest = rw (write_parts, e, more) rest

write_parts-Wrote :
    (n buffer_start length written : ℕ) (s : Console)
    → s.terminal_row < 24
    → s.terminal_column ≤ 80
    → length < 2 ^ 31
    → written ≤ length
    → length - written + s.terminal_column / 80 < n
    → (s' : Console) × (write_parts n buffer_start length written s ≡ some s') × Wrote s s'
unfolding write_parts
write_parts-Wrote zero b l w s r c h k m = absurd (omega (arith, m))
write_parts-Wrote (suc n) b l w s r c h k m =
    let (e, x) = write_part-Wrote b l w s r c h k in
    let s1 = (write_part b l w s).1 in
    elim (Bool-cases (ltb (w + part s.terminal_column l) l)) [
      | inl more ↦
          (let lt : w + part s.terminal_column l < l = ground (arith, more) in
            let (s', e', y) =
              write_parts-Wrote n b l (w + part s.terminal_column l) s1 x.row
                (omega (arith, x.column)) h (omega (arith, lt))
                (omega
                  (arith, x.column, shorter n s.terminal_column l w c (omega (arith, lt)) m lt)) in
            (s', next_part n b l w (w + part s.terminal_column l) s s' e more e', Wrote-trans x y))
      | inr done ↦ (s1, rw (write_parts, e, done) refl, x)
    ]

pub terminal_writesequence-Wrote :
    (b l : ℕ) (s : Console)
    → s.terminal_row < 24
    → s.terminal_column ≤ 80
    → l < 2 ^ 31
    → (s' : Console) × (terminal_writesequence b l s ≡ some s') × Wrote s s'
unfolding terminal_writesequence
terminal_writesequence-Wrote b l s r c h =
    write_parts-Wrote (l + 2) b l 0 s r c h (omega arith) (omega (arith, c))

-- A control character leaves the cursor in its row, or behind it.
pub record Moved (s s' : Console) : Type 0 where
  pub row : s'.terminal_row < 24
  pub column : s'.terminal_column ≤ 80
  pub color : s'.terminal_color ≡ s.terminal_color
  pub keeps : Keeps s.memory s'.memory

pub control-Moved :
    (c : ℕ) (s : Console) → s.terminal_row < 24 → s.terminal_column < 80 → Moved s (control c s)
unfolding control
control-Moved c s r l = elim (Bool-cases (c == b'\n')) [
  | inl line ↦ rw line (
      let x = newline-Wrote s r in
      record { row = x.row; column = omega (arith, x.column); color = x.color; keeps = x.keeps })
  | inr other ↦ elim (Bool-cases (c == b'\r')) [
    | inl return ↦
        rw (other, return)
          record { row = r; column = omega arith; color = refl; keeps = Keeps-refl s.memory }
    | inr tab ↦
        rw (other, tab)
          record { row = r; column = omega (arith, l); color = refl; keeps = Keeps-refl s.memory }
  ]
]

write_loop-Wrote :
    (n b p : ℕ) (s : Console)
    → s.terminal_row < 24
    → s.terminal_column ≤ 80
    → b ≤ p
    → p - b + n < 2 ^ 31
    → (s' : Console) × (write_loop n b p s ≡ some s') × Wrote s s'
unfolding write_loop
write_loop-Wrote zero b p s r c o h =
    terminal_writesequence-Wrote b (p - b) s r c (omega (arith, h))
write_loop-Wrote (suc n) b p s r c o h = elim (Bool-cases (is_control (s.memory p))) [
  | inl stop ↦
      (let (s1, e1, x) = terminal_writesequence-Wrote b (p - b) s r c (omega (arith, h)) in
        let y = control-Moved (s.memory p) s1 x.row x.column in
        let (s', e', z) =
          write_loop-Wrote n (suc p) (suc p) (control (s.memory p) s1) y.row y.column (omega arith)
            (omega (arith, h)) in
        (
          s',
          rw (write_loop, stop, e1) e',
          record {
            row = z.row;
            column = z.column;
            color = z.color ∙ y.color ∙ x.color;
            keeps = Keeps-trans x.keeps (Keeps-trans y.keeps z.keeps);
          },
        ))
  | inr go ↦
      (let (s', e', x) =
          write_loop-Wrote n b (suc p) s r c (omega (arith, o)) (omega (arith, h, o)) in
        (s', rw (write_loop, go) e', x))
]

-- With the cursor in the screen and less than 2^31 bytes of data, whatever they are, `console_write`
-- ends; the cursor is in the screen again, the color is the same, and no byte of memory but those of
-- the 24 rows was written.
pub console_write-Wrote :
    (address length : ℕ) (s : Console)
    → s.terminal_row < 24
    → s.terminal_column < 80
    → length < 2 ^ 31
    → (s' : Console) × (console_write address length s ≡ some s')
      × (s'.terminal_row < 24)
      × (s'.terminal_column < 80)
      × (s'.terminal_color ≡ s.terminal_color)
      × ((a : ℕ) → Outside a → s'.memory a ≡ s.memory a)
unfolding console_write
console_write-Wrote address length s r c l = elim (Bool-cases (address == 0 || length == 0)) [
  | inl nothing ↦ (s, rw nothing refl, r, c, refl, λ a o. refl)
  | inr text ↦
      (let (s', e, x) =
          write_loop-Wrote length address address s r (omega (arith, c)) (omega arith)
            (omega (arith, l)) in
        (s', rw text e, x.row, x.column, x.color, x.keeps.same))
]
