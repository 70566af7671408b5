-- ===== src/Console.antt =====
-- The terminal of the console module, modules/console/console.c and console.h of src: the video
-- memory, the cursor, and the text that is written through it. `memcpy` is that of
-- kernel/libc/src/string.c. Pointers are natural numbers; what is computed in size_t, int and the
-- 8 and 16 bits of a cell wraps as it does there.
pub mod Bounds
pub mod Total
pub mod Scrolling
pub mod Reference
pub mod Lines
pub mod Writing
pub mod Overrun
mod Tests
use bubackos.Prelude.{
  ℕ, zero, suc, ◌+◌, ◌-◌, ◌*◌, ◌/◌, ◌%◌, ◌^◌, Bool, true, false, ◌||◌, Option, none, some, ◌==◌,
  leb, ltb, if◌then◌else◌, word_mod, add64, sub64,
}
use Prim.Native.Nat.{bit_or}
use bubackos.CString.{Memory, store, memcpy}

-- `console_buffer`, `console__width`, `console__height` and TAB_SIZE
abbrev pub console_buffer : ℕ
console_buffer = 0xB8000

abbrev pub console_width : ℕ
console_width = 80

abbrev pub console_height : ℕ
console_height = 24

abbrev pub tab_size : ℕ
tab_size = 4

-- The static variables, and the memory of the task.
pub record Console : Type 0 where
  pub terminal_row : ℕ
  pub terminal_column : ℕ
  pub terminal_color : ℕ
  pub memory : Memory

-- `vga_entry_color`
abbrev pub vga_entry_color : (fg bg : ℕ) → ℕ
vga_entry_color fg bg = bit_or fg (bg * 16) % 256

-- `vga_entry`
abbrev pub vga_entry : (uc color : ℕ) → ℕ
vga_entry uc color = bit_or uc (color * 256) % 2 ^ 16

-- A `char` as the `uint16_t` that `vga_entry` takes: a char of 128 or more is negative.
abbrev pub char_to_uint16 : ℕ → ℕ
char_to_uint16 c = if ltb c 128 then c else c + 0xFF00

-- `console_buffer[index] = value`, the low byte first
abbrev pub write_cell : (index value : ℕ) → Memory → Memory
write_cell index value m =
    store (console_buffer + 2 * index + 1) (value / 256)
      (store (console_buffer + 2 * index) value m)

-- A `size_t` as an `int`, by its 32 bits; the order of two such; and an `int` as a `size_t`
abbrev pub to_int : ℕ → ℕ
to_int a = a % 2 ^ 32

abbrev pub int_lt : ℕ → ℕ → Bool
int_lt a b = ltb ((a + 2 ^ 31) % 2 ^ 32) ((b + 2 ^ 31) % 2 ^ 32)

abbrev pub to_size : ℕ → ℕ
to_size a = if ltb a (2 ^ 31) then a else a + (word_mod - 2 ^ 32)

-- `min`
abbrev pub min : (a b : ℕ) → ℕ
min a b = if int_lt a b then a else b

-- The inner loop of `__console_clear`, with the columns that are left
unfoldable pub clear_columns : (columns y x : ℕ) → Memory → Memory
clear_columns zero y x m = m
clear_columns (suc n) y x m =
    clear_columns n y (suc x) (write_cell ((y * console_width + x) % word_mod) (vga_entry 0 0) m)

-- The outer loop of `__console_clear`, with the rows that are left
unfoldable pub clear_rows : (rows y col_start columns : ℕ) → Memory → Memory
clear_rows zero y col_start columns m = m
clear_rows (suc n) y col_start columns m =
    clear_rows n (suc y) col_start columns (clear_columns columns y col_start m)

-- `__console_clear`
unfoldable pub clear : (row_start col_start row_end col_end : ℕ) → Memory → Memory
clear row_start col_start row_end col_end m =
    clear_rows (row_end - row_start) row_start col_start (col_end - col_start) m

-- The loop of `console_raw_write`, from `sequence` and `index` on
unfoldable pub raw_loop : (length sequence color index : ℕ) → Memory → Memory
raw_loop zero sequence color index m = m
raw_loop (suc n) sequence color index m =
    raw_loop n (suc sequence) color (suc index)
      (write_cell index (vga_entry (char_to_uint16 (m sequence)) color) m)

-- `console_raw_write`
unfoldable pub console_raw_write : (sequence length color row col : ℕ) → Memory → Memory
console_raw_write sequence length color row col m =
    raw_loop length sequence color ((row * console_width + col) % word_mod) m

-- `console_initialize`
unfoldable pub console_initialize : Console → Console
console_initialize s = record {
  terminal_row = 0;
  terminal_column = 0;
  terminal_color = vga_entry_color 15 0;
  memory = clear 0 0 console_height console_width s.memory;
}

-- `console_scroll_up`
unfoldable pub console_scroll_up : (rows : ℕ) → Memory → Memory
console_scroll_up rows m =
    let number_of_lines = to_int (sub64 console_height rows) in
    clear (sub64 console_height rows) 0 console_height console_width (
      memcpy console_buffer (console_buffer + 2 * ((rows * console_width) % word_mod))
        ((to_size number_of_lines * console_width * 2) % word_mod) m)

-- `need_scroll`
unfoldable pub need_scroll : Console → Console
need_scroll s =
    if leb console_height s.terminal_row
    then record s { memory = console_scroll_up 1 s.memory; terminal_row = sub64 console_height 1 }
    else s

-- `newline`
unfoldable pub newline : Console → Console
newline s = need_scroll (record s { terminal_column = 0; terminal_row = add64 s.terminal_row 1 })

-- One round of the loop in `terminal_writesequence`, and the characters that it wrote
unfoldable pub write_part : (buffer_start length written : ℕ) → Console → ℕ × Console
write_part buffer_start length written s =
    let chars_to_write =
      to_size (min (to_int (sub64 console_width s.terminal_column)) (to_int length)) in
    let s' = record s {
      memory =
          console_raw_write (buffer_start + written) chars_to_write s.terminal_color s.terminal_row
            s.terminal_column s.memory;
      terminal_column = add64 s.terminal_column chars_to_write;
    } in
    (add64 written chars_to_write, if leb console_width s'.terminal_column then newline s' else s')

-- `terminal_writesequence`, with the rounds that are left; none where they do not suffice.
unfoldable pub write_parts : (rounds buffer_start length written : ℕ) → Console → Option Console
write_parts zero buffer_start length written s = none
write_parts (suc n) buffer_start length written s =
    let (written', s') = write_part buffer_start length written s in
    let rest = write_parts n buffer_start length written' s' in
    if ltb written' length then rest else some s'

unfoldable pub terminal_writesequence : (buffer_start length : ℕ) → Console → Option Console
terminal_writesequence buffer_start length s = write_parts (length + 2) buffer_start length 0 s

-- What the three control characters do behind the text before them
unfoldable pub control : ℕ → Console → Console
control c s =
    if c == b'\n'
    then newline s
    else if c == b'\r'
    then record s { terminal_column = 0 }
    else record s { terminal_column = ((s.terminal_column / tab_size + 1) * tab_size) % word_mod }

abbrev pub is_control : ℕ → Bool
is_control c = c == b'\n' || (c == b'\r' || c == b'\t')

-- The loop of `console_write`, with the characters that are left; `position` is `data + i`.
unfoldable pub write_loop : (rounds buffer_start position : ℕ) → Console → Option Console
write_loop zero buffer_start position s =
    terminal_writesequence buffer_start (position - buffer_start) s
write_loop (suc n) buffer_start position s = elim (is_control (s.memory position)) [
  | true ↦ elim (terminal_writesequence buffer_start (position - buffer_start) s) [
    | none ↦ none
    | some s' ↦ write_loop n (suc position) (suc position) (control (s.memory position) s')
  ]
  | false ↦ write_loop n buffer_start (suc position) s
]

-- `console_write`
unfoldable pub console_write : (address data_length : ℕ) → Console → Option Console
console_write address data_length s =
    if address == 0 || data_length == 0 then some s else write_loop data_length address address s
