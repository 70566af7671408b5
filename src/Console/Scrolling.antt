-- ===== src/Console/Scrolling.antt =====
-- What a line feed does to the screen.
use bubackos.Prelude.{
  ℕ, zero, suc, ◌+◌, ◌-◌, ◌*◌, ◌%◌, ◌≡◌, ◌<◌, ◌≤◌, refl, ◌∙◌, true, false, ◌&&◌, arith, inl, inr,
  Bool-cases, ◌==◌, leb, ltb, if◌then◌else◌, word_mod,
}
use bubackos.CString.{Memory, memcpy}
use bubackos.CString.Bytes.{memcpy-bytes}
use bubackos.Console.{
  console_buffer, Console, write_cell, vga_entry, clear_columns, clear_rows, clear,
  console_scroll_up, need_scroll, newline,
}

clear_cell :
    (index : ℕ) (m : Memory) (a : ℕ)
    → write_cell index (vga_entry 0 0) m a ≡ (
        if leb (console_buffer + 2 * index) a && ltb a (console_buffer + 2 * index + 2)
        then 0
        else m a)
clear_cell index m a = ground arith

-- The cells from a column on are NUL, and the others stay.
clear_columns-bytes :
    (n y x : ℕ) (m : Memory) (a : ℕ)
    → y < 24
    → x + n ≤ 80
    → clear_columns n y x m a ≡ (
        if leb (console_buffer + 2 * (y * 80 + x)) a
          && ltb a (console_buffer + 2 * (y * 80 + x + n))
        then 0
        else m a)
unfolding clear_columns
clear_columns-bytes zero y x m a hy hx = ground arith
clear_columns-bytes (suc n) y x m a hy hx =
    let index : (y * 80 + x) % word_mod ≡ y * 80 + x = omega (arith, hy, hx) in
    rw index (
      clear_columns-bytes n y (suc x) (write_cell (y * 80 + x) (vga_entry 0 0) m) a hy
        (omega (arith, hx))
      ∙ ground (arith, clear_cell (y * 80 + x) m a))

scroll_up-bytes :
    (m : Memory) (i : ℕ)
    → ((b : ℕ) → m b < 256)
    → i < 3840
    → console_scroll_up 1 m (console_buffer + i)
      ≡ (if ltb i 3680 then m (console_buffer + 160 + i) else 0)
unfolding console_scroll_up clear clear_rows
scroll_up-bytes m i small h =
    clear_columns-bytes 80 23 0 (memcpy console_buffer (console_buffer + 160) 3680 m)
      (console_buffer + i) (omega arith) (omega arith)
    ∙ elim (Bool-cases (ltb i 3680)) [
      | inl e ↦ rw e (ground (arith, e, copied))
      | inr e ↦ rw e (ground (arith, e, h))
    ]
  where
    copied : memcpy console_buffer (console_buffer + 160) 3680 m (console_buffer + i) ≡ (
        if leb console_buffer (console_buffer + i)
          && ltb (console_buffer + i) (console_buffer + 3680)
        then m (console_buffer + 160 + (console_buffer + i - console_buffer))
        else m (console_buffer + i))
    copied =
        memcpy-bytes console_buffer (console_buffer + 160) 3680 m (console_buffer + i) small
          (inl (omega arith))

-- On a memory of bytes and with the cursor in the screen, `newline` moves the cursor to the start of
-- the next row; from the last row, every row of the screen becomes the one below it, the last one
-- is blank, and the cursor stays in the last row.
pub newline_lem :
    (s : Console) (i : ℕ)
    → ((b : ℕ) → s.memory b < 256)
    → s.terminal_row < 24
    → i < 3840
    → ((newline s).terminal_row ≡ (if s.terminal_row == 23 then 23 else s.terminal_row + 1))
      × ((newline s).terminal_column ≡ 0)
      × ((newline s).memory (console_buffer + i) ≡ (
          if s.terminal_row == 23
          then if ltb i 3680 then s.memory (console_buffer + 160 + i) else 0
          else s.memory (console_buffer + i)))
unfolding newline need_scroll
newline_lem s i small r h = elim (Bool-cases (s.terminal_row == 23)) [
  | inl last ↦
      (let full : leb 24 ((s.terminal_row + 1) % word_mod) ≡ true = ground (arith, last) in
        rw (last, full) (refl, refl, scroll_up-bytes s.memory i small h))
  | inr other ↦
      (let room : leb 24 ((s.terminal_row + 1) % word_mod) ≡ false = ground (arith, other, r) in
        rw (other, room) (omega (arith, r), refl, refl))
]
