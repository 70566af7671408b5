-- ===== src/Console/Bounds.antt =====
-- What the terminal writes to, and where its cursor stands.
use bubackos.Prelude.{
  ℕ, zero, suc, ◌+◌, ◌-◌, ◌*◌, ◌/◌, ◌%◌, ◌^◌, ◌≡◌, ◌≢◌, ◌<◌, ◌≤◌, ◌⊎◌, refl, ◌∙◌, true, false,
  arith, inl, inr, Bool-cases, ==_ne, leb, ltb, if◌then◌else◌, word_mod, add64, sub64,
}
use bubackos.CString.{Memory, store, memcpy}
use bubackos.Console.{
  console_buffer, Console, vga_entry, write_cell, to_int, int_lt, to_size, min, clear_columns,
  clear_rows, clear, raw_loop, console_raw_write, console_scroll_up, need_scroll, newline,
  write_part,
}

-- The addresses that are not of the 24 rows of the screen
abbrev pub Outside : ℕ → Type 0
Outside a = (a < console_buffer) ⊎ (console_buffer + 3840 ≤ a)

-- A memory of bytes stays one, and stays the same outside of the screen.
pub record Keeps (m m' : Memory) : Type 0 where
  pub same : (a : ℕ) → Outside a → m' a ≡ m a
  pub small : ((b : ℕ) → m b < 256) → (b : ℕ) → m' b < 256

pub Keeps-refl : (m : Memory) → Keeps m m
Keeps-refl m = record { same = λ a o. refl; small = λ s. s }

pub Keeps-trans : {m1 m2 m3 : Memory} → Keeps m1 m2 → Keeps m2 m3 → Keeps m1 m3
Keeps-trans p q = record { same = λ a o. q.same a o ∙ p.same a o; small = λ s. q.small (p.small s) }

store-Keeps :
    (m : Memory) (ptr val : ℕ)
    → console_buffer ≤ ptr
    → ptr < console_buffer + 3840
    → Keeps m (store ptr val m)
store-Keeps m ptr val l h = record {
  same = λ a o. rw (==_ne ptr a (apart a o)) refl;
  small = λ s b. ground (arith, s b);
}
  where
    apart : (a : ℕ) → Outside a → ptr ≢ a
    apart a (inl o) e = omega (arith, l, o, e)
    apart a (inr o) e = omega (arith, h, o, e)

pub write_cell-Keeps :
    (m : Memory) (index value : ℕ) → index < 1920 → Keeps m (write_cell index value m)
write_cell-Keeps m index value h =
    Keeps-trans (store-Keeps m (console_buffer + 2 * index) value (omega arith) (omega (arith, h)))
      (store-Keeps _ (console_buffer + 2 * index + 1) (value / 256) (omega arith)
        (omega (arith, h)))

clear_columns-Keeps :
    (n y x : ℕ) (m : Memory) → y < 24 → x + n ≤ 80 → Keeps m (clear_columns n y x m)
unfolding clear_columns
clear_columns-Keeps zero y x m hy hx = Keeps-refl m
clear_columns-Keeps (suc n) y x m hy hx =
    Keeps-trans
      (write_cell-Keeps m ((y * 80 + x) % word_mod) (vga_entry 0 0) (omega (arith, hy, hx)))
      (clear_columns-Keeps n y (suc x) _ hy (omega (arith, hx)))

pub clear_rows-Keeps : (n y : ℕ) (m : Memory) → y + n ≤ 24 → Keeps m (clear_rows n y 0 80 m)
unfolding clear_rows
clear_rows-Keeps zero y m h = Keeps-refl m
clear_rows-Keeps (suc n) y m h =
    Keeps-trans (clear_columns-Keeps 80 y 0 m (omega (arith, h)) (omega arith))
      (clear_rows-Keeps n (suc y) _ (omega (arith, h)))

raw_loop-Keeps :
    (n sequence color index : ℕ) (m : Memory)
    → index + n ≤ 1920
    → Keeps m (raw_loop n sequence color index m)
unfolding raw_loop
raw_loop-Keeps zero sequence color index m h = Keeps-refl m
raw_loop-Keeps (suc n) sequence color index m h =
    Keeps-trans (write_cell-Keeps m index _ (omega (arith, h)))
      (raw_loop-Keeps n (suc sequence) color (suc index) _ (omega (arith, h)))

memcpy-Keeps :
    (dest src len : ℕ) (m : Memory)
    → console_buffer ≤ dest
    → dest + len ≤ console_buffer + 3840
    → Keeps m (memcpy dest src len m)
unfolding memcpy
memcpy-Keeps dest src zero m l h = Keeps-refl m
memcpy-Keeps dest src (suc len) m l h =
    Keeps-trans (store-Keeps m dest (m src) l (omega (arith, h)))
      (memcpy-Keeps (suc dest) (suc src) len _ (omega (arith, l)) (omega (arith, h)))

scroll_up-Keeps : (m : Memory) → Keeps m (console_scroll_up 1 m)
unfolding console_scroll_up clear
scroll_up-Keeps m =
    Keeps-trans
      (memcpy-Keeps console_buffer (console_buffer + 160) 3680 m (omega arith) (omega arith))
      (clear_rows-Keeps 1 23 _ (omega arith))

-- The cursor stands in the screen, and nothing was written but the screen.
pub record Wrote (s s' : Console) : Type 0 where
  pub row : s'.terminal_row < 24
  pub column : s'.terminal_column < 80
  pub color : s'.terminal_color ≡ s.terminal_color
  pub keeps : Keeps s.memory s'.memory

pub Wrote-trans : {s1 s2 s3 : Console} → Wrote s1 s2 → Wrote s2 s3 → Wrote s1 s3
Wrote-trans p q = record {
  row = q.row;
  column = q.column;
  color = q.color ∙ p.color;
  keeps = Keeps-trans p.keeps q.keeps;
}

pub newline-Wrote : (s : Console) → s.terminal_row < 24 → Wrote s (newline s)
unfolding newline need_scroll
newline-Wrote s h = elim (Bool-cases (leb 24 (add64 s.terminal_row 1))) [
  | inl full ↦
      rw (newline, need_scroll, full)
        record {
          row = omega arith;
          column = omega arith;
          color = refl;
          keeps = scroll_up-Keeps s.memory;
        }
  | inr room ↦
      rw (newline, need_scroll, room)
        record {
          row = ground (arith, room);
          column = omega arith;
          color = refl;
          keeps = Keeps-refl s.memory;
        }
]

-- The characters that fit the row, as `min` of the two `int` gives them
abbrev pub part : (column length : ℕ) → ℕ
part column length = if ltb (80 - column) length then 80 - column else length

pub part_lem :
    (column length : ℕ)
    → column ≤ 80
    → length < 2 ^ 31
    → to_size (min (to_int (sub64 80 column)) (to_int length)) ≡ part column length
part_lem column length c l =
    rw (room, width)
      (elim (Bool-cases (ltb (80 - column) length)) [
        | inl e ↦ rw (e, less e) (ground (arith, c))
        | inr e ↦ rw (e, more e) (ground (arith, l))
      ])
  where
    room : to_int (sub64 80 column) ≡ 80 - column
    room = omega (arith, c)

    width : to_int length ≡ length
    width = omega (arith, l)

    less : ltb (80 - column) length ≡ true → int_lt (80 - column) length ≡ true
    less e = ground (arith, e, l)

    more : ltb (80 - column) length ≡ false → int_lt (80 - column) length ≡ false
    more e = ground (arith, e, l)

-- A round where nothing fits the row any more, and one where something does
pub write_part-Wrote :
    (buffer_start length written : ℕ) (s : Console)
    → s.terminal_row < 24
    → s.terminal_column ≤ 80
    → length < 2 ^ 31
    → written ≤ length
    → ((write_part buffer_start length written s).0 ≡ written + part s.terminal_column length)
      × Wrote s (write_part buffer_start length written s).1
unfolding write_part console_raw_write
write_part-Wrote buffer_start length written s r c l w =
    let n = part s.terminal_column length in
    let fits : n + s.terminal_column ≤ 80 = ground (arith, c) in
    let index : (s.terminal_row * 80 + s.terminal_column) % word_mod
        ≡ s.terminal_row * 80 + s.terminal_column =
      omega (arith, r, c) in
    let k : Keeps s.memory (
        raw_loop n (buffer_start + written) s.terminal_color
          (s.terminal_row * 80 + s.terminal_column) s.memory) =
      raw_loop-Keeps n (buffer_start + written) s.terminal_color
        (s.terminal_row * 80 + s.terminal_column) s.memory (omega (arith, r, fits)) in
    rw (write_part, console_raw_write, part_lem s.terminal_column length c l, index)
      (
        ground (arith, w, l, c, fits),
        elim (Bool-cases (leb 80 (add64 s.terminal_column n))) [
          | inl full ↦ rw full (
              let x =
                newline-Wrote
                  (record s {
                    memory =
                        raw_loop n (buffer_start + written) s.terminal_color
                          (s.terminal_row * 80 + s.terminal_column) s.memory;
                    terminal_column = add64 s.terminal_column n;
                  })
                  r in
              record {
                row = x.row;
                column = x.column;
                color = x.color;
                keeps = Keeps-trans k x.keeps;
              })
          | inr room ↦
              rw room record { row = r; column = ground (arith, room); color = refl; keeps = k }
        ],
      )
