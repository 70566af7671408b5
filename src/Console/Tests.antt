-- ===== src/Console/Tests.antt =====
-- A terminal that is written to.
use bubackos.Prelude.{
  ℕ, ◌+◌, ◌-◌, ◌*◌, ◌%◌, ◌≡◌, ◌<◌, refl, Option, some, none, List, [], ◌∷◌, inl, ◌==◌,
  if◌then◌else◌, arith,
}
use bubackos.CString.{Memory}
use bubackos.Console.{
  Console, console_buffer, console_write, write_loop, terminal_writesequence, write_parts,
  write_part, console_raw_write, raw_loop, newline, need_scroll, control, vga_entry_color,
}
use bubackos.Console.Bounds.{Outside}
use bubackos.Console.Total.{console_write-Wrote}
use bubackos.Console.Reference.{wrap, filled, puts, bytes}
use bubackos.Console.Writing.{console_write-puts}
use bubackos.Console.Overrun.{writesequence-overrun}

-- "ab\ncd", and zeroes
abbrev memory : Memory
memory a =
    if a == 100
    then 97
    else if a == 101
    then 98
    else if a == 102
    then 10
    else if a == 103
    then 99
    else if a == 104
    then 100
    else 0

abbrev console : Console
console = record { terminal_row = 23; terminal_column = 75; terminal_color = 15; memory = memory }

memory-small : (b : ℕ) → memory b < 256
memory-small b = ground arith

console_write-Wrote_example :
    (s' : Console) × (console_write 100 5 console ≡ some s')
    × (s'.terminal_row < 24)
    × (s'.terminal_column < 80)
    × (s'.terminal_color ≡ console.terminal_color)
    × ((a : ℕ) → Outside a → s'.memory a ≡ console.memory a)
console_write-Wrote_example =
    console_write-Wrote 100 5 console (omega arith) (omega arith) (omega arith)

console_write-puts_example :
    console_write 100 5 console ≡ some (puts (bytes console.memory 100 5) console)
console_write-puts_example =
    console_write-puts 100 5 console (omega arith) (omega arith) (omega arith) (omega arith)
      (inl (omega arith)) refl

writesequence-overrun_example :
    (s' : Console) × (terminal_writesequence 100 7 console ≡ some s')
    × (s' ≡ wrap (filled 7 (100 + (80 - 75)) (newline (filled (80 - 75) 100 console))))
    × (s'.terminal_column ≡ 7 % 80)
writesequence-overrun_example =
    writesequence-overrun 100 7 console (omega arith) (omega arith) (omega arith) (omega arith)

-- White on black
white : vga_entry_color 15 0 ≡ 15
white = refl

abbrev at_top : Console
at_top = record console { terminal_row = 0 }

-- The cell of "b", and that of "d" at the start of the next row
abbrev cells : Console → List ℕ
cells s =
    s.memory (console_buffer + 2 * 76)
    ∷ s.memory (console_buffer + 2 * 76 + 1)
    ∷ s.memory (console_buffer + 2 * 81)
    ∷ []

abbrev cells_of : Option Console → List ℕ
cells_of none = []
cells_of (some s) = cells s

two_lines : cells_of (console_write 100 5 at_top) ≡ 98 ∷ 15 ∷ 100 ∷ []
unfolding console_write write_loop terminal_writesequence write_parts write_part console_raw_write
    raw_loop newline need_scroll control
two_lines = refl
