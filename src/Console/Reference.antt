-- ===== src/Console/Reference.antt =====
-- A terminal that takes one character at a time.
use bubackos.Prelude.{
  ℕ, zero, suc, ◌+◌, ◌*◌, ◌≡◌, ◌<◌, ◌≤◌, refl, sym, ap, ◌∙◌, false, List, [], ◌∷◌, arith, leb,
  if◌then◌else◌,
}
use mathlib.Core.Path.{subst}
use bubackos.CString.{Memory}
use bubackos.Console.{
  Console, write_cell, vga_entry, char_to_uint16, newline, raw_loop, control, is_control,
}
use bubackos.Console.Bounds.{Outside, write_cell-Keeps}

-- The cursor behind the last column goes to the next row.
unfoldable pub wrap : Console → Console
wrap s = if leb 80 s.terminal_column then newline s else s

-- One character at the cursor
unfoldable pub put : ℕ → Console → Console
unfolding wrap
put c s =
    if is_control c
    then wrap (control c s)
    else wrap (record s {
      memory =
          write_cell (s.terminal_row * 80 + s.terminal_column)
            (vga_entry (char_to_uint16 c) s.terminal_color) s.memory;
      terminal_column = s.terminal_column + 1;
    })

unfoldable pub puts : List ℕ → Console → Console
puts [] s = s
puts (c ∷ cs) s = puts cs (put c s)

-- The bytes from an address on
abbrev pub bytes : Memory → (address length : ℕ) → List ℕ
bytes m a zero = []
bytes m a (suc n) = m a ∷ bytes m (suc a) n

pub puts-bytes :
    (m : Memory) (n a : ℕ) (s : Console)
    → puts (bytes m a (suc n)) s ≡ put (m (a + n)) (puts (bytes m a n) s)
unfolding puts
puts-bytes m zero a s = ap (λ (x : ℕ). put (m x) s) (omega arith)
puts-bytes m (suc n) a s =
    puts-bytes m n (suc a) (put (m a) s)
    ∙ ap (λ (x : ℕ). put (m x) (puts (bytes m (suc a) n) (put (m a) s))) (omega arith)

-- The state before the wrap, when `n` characters from `b` on are written to the row
abbrev pub filled : (n b : ℕ) → Console → Console
filled n b s = record s {
  memory = raw_loop n b s.terminal_color (s.terminal_row * 80 + s.terminal_column) s.memory;
  terminal_column = s.terminal_column + n;
}

abbrev typed : (b : ℕ) → Console → Console
typed b s = record s {
  memory =
      write_cell (s.terminal_row * 80 + s.terminal_column)
        (vga_entry (char_to_uint16 (s.memory b)) s.terminal_color) s.memory;
  terminal_column = s.terminal_column + 1;
}

pub filled_zero : (b : ℕ) (s : Console) → s.terminal_column < 80 → s ≡ wrap (filled 0 b s)
unfolding wrap raw_loop
filled_zero b s c =
    let full : leb 80 (s.terminal_column + 0) ≡ false = ground (arith, c) in
    rw full (ap (λ (x : ℕ). record s { terminal_column = x }) (omega arith))

filled_suc : (n b : ℕ) (s : Console) → filled n (suc b) (typed b s) ≡ filled (suc n) b s
unfolding raw_loop
filled_suc n b s =
    let i : s.terminal_row * 80 + (s.terminal_column + 1)
        ≡ suc (s.terminal_row * 80 + s.terminal_column) =
      omega arith in
    let c : s.terminal_column + 1 + n ≡ s.terminal_column + suc n = omega arith in rw (i, c) refl

put-typed :
    (b : ℕ) (s : Console) (m : Memory)
    → is_control (m b) ≡ false
    → s.memory b ≡ m b
    → put (m b) s ≡ wrap (typed b s)
unfolding put
put-typed b s m plain same = rw (plain, same) refl

first :
    (b : ℕ) (s : Console) (m : Memory)
    → is_control (m (b + 0)) ≡ false
    → s.memory (b + 0) ≡ m (b + 0)
    → put (m b) s ≡ wrap (typed b s)
first b s m p k =
    let at : b + 0 ≡ b = omega arith in
    put-typed b s m (ap (λ (x : ℕ). is_control (m x)) (sym at) ∙ p)
      (ap s.memory (sym at) ∙ k ∙ ap m at)

pub wrap_room : (s : Console) → s.terminal_column < 80 → wrap s ≡ s
unfolding wrap
wrap_room s c = let room : leb 80 s.terminal_column ≡ false = ground (arith, c) in rw room refl

-- Text that fits the row
pub puts-filled :
    (n b : ℕ) (s : Console) (m : Memory)
    → s.terminal_row < 24
    → s.terminal_column < 80
    → s.terminal_column + n ≤ 80
    → ((j : ℕ) → j < n → is_control (m (b + j)) ≡ false)
    → ((j : ℕ) → j < n → Outside (b + j))
    → ((a : ℕ) → Outside a → s.memory a ≡ m a)
    → puts (bytes m b n) s ≡ wrap (filled n b s)
unfolding puts
puts-filled zero b s m r c f p o k = filled_zero b s c
puts-filled (suc zero) b s m r c f p o k =
    unfold raw_loop in (first b s m (p 0 (omega arith)) (k (b + 0) (o 0 (omega arith))))
puts-filled (suc (suc n)) b s m r c f p o k =
    let next : (j : ℕ) → suc b + j ≡ b + suc j = λ j. omega arith in
    ap (puts (bytes m (suc b) (suc n))) (
      first b s m (p 0 (omega arith)) (k (b + 0) (o 0 (omega arith)))
      ∙ wrap_room (typed b s) (omega (arith, f)))
    ∙ puts-filled (suc n) (suc b) (typed b s) m r (omega (arith, f)) (omega (arith, f))
        (λ j l. ap (λ (x : ℕ). is_control (m x)) (next j) ∙ p (suc j) (omega (arith, l)))
        (λ j l. subst Outside (sym (next j)) (o (suc j) (omega (arith, l))))
        (λ a u.
          (write_cell-Keeps s.memory (s.terminal_row * 80 + s.terminal_column) _
              (omega (arith, r, c))).same
            a u
          ∙ k a u)
    ∙ ap wrap (filled_suc (suc n) b s)
