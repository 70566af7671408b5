-- ===== src/Console/Writing.antt =====
-- console_write of text whose lines fit.
use bubackos.Prelude.{
  ℕ, zero, suc, ◌+◌, ◌-◌, ◌%◌, ◌^◌, ◌≡◌, ◌≢◌, ◌<◌, ◌≤◌, ◌⊎◌, refl, sym, ap, ◌∙◌, true, false, ◌&&◌,
  ◌||◌, List, [], ◌∷◌, Option, some, arith, inl, inr, Bool-cases, ==_eq, ◌==◌, leb, some_eq,
}
use mathlib.Core.Path.{subst}
use bubackos.CString.{Memory}
use bubackos.Console.{
  console_buffer, Console, control, is_control, terminal_writesequence, write_loop, console_write,
}
use bubackos.Console.Bounds.{Outside, Keeps-refl, Wrote, newline-Wrote}
use bubackos.Console.Total.{terminal_writesequence-Wrote, control-Moved}
use bubackos.Console.Reference.{wrap, wrap_room, put, puts, bytes, puts-bytes, filled, puts-filled}
use bubackos.Console.Lines.{segment, stop, fits, newline-column}

wrap-Wrote : (s : Console) → s.terminal_row < 24 → s.terminal_column ≤ 80 → Wrote s (wrap s)
unfolding wrap
wrap-Wrote s r c = elim (Bool-cases (leb 80 s.terminal_column)) [
  | inl full ↦ rw full (newline-Wrote s r)
  | inr room ↦
      rw room
        record { row = r; column = ground (arith, room); color = refl; keeps = Keeps-refl s.memory }
]

pub wrap-column :
    (s : Console) → s.terminal_column ≤ 80 → (wrap s).terminal_column ≡ s.terminal_column % 80
unfolding wrap
wrap-column s c = elim (Bool-cases (leb 80 s.terminal_column)) [
  | inl full ↦ rw full (newline-column s ∙ ground (arith, full, c))
  | inr room ↦ rw room (ground (arith, room))
]

-- The text before a control character, or before the end
record Segment (b k : ℕ) (s s' : Console) : Type 0 where
  written : terminal_writesequence b k s ≡ some s'
  sound : Wrote s s'
  column : s'.terminal_column ≡ ((wrap s).terminal_column + k) % 80

puts-Segment :
    (b k : ℕ) (s : Console) (m : Memory)
    → s.terminal_row < 24
    → s.terminal_column ≤ 80
    → (wrap s).terminal_column + k ≤ 80
    → ((j : ℕ) → j < k → is_control (m (b + j)) ≡ false)
    → ((j : ℕ) → j < k → Outside (b + j))
    → ((a : ℕ) → Outside a → s.memory a ≡ m a)
    → Segment b k s (puts (bytes m b k) (wrap s))
puts-Segment b k s m r c f p o e =
    let x = wrap-Wrote s r c in
    let same = puts-filled k b (wrap s) m x.row x.column f p o (λ a u. x.keeps.same a u ∙ e a u) in
    let (s', e', y) = terminal_writesequence-Wrote b k s r c (omega (arith, f)) in
    let done : terminal_writesequence b k s ≡ some (puts (bytes m b k) (wrap s)) =
      segment b k s r c f ∙ ap some (sym same) in
    record {
      written = done;
      sound = subst (Wrote s) (some_eq (sym e' ∙ done)) y;
      column = ap (λ (x : Console). x.terminal_column) same ∙ wrap-column (filled k b (wrap s)) f;
    }

control-column :
    (c : ℕ) (s : Console)
    → is_control c ≡ true
    → s.terminal_column < 80
    → (control c s).terminal_column % 80 ≡ stop c s.terminal_column
unfolding control
control-column c s i l = elim (Bool-cases (c == b'\n')) [
  | inl line ↦
      (let other : (c == b'\t') ≡ false = ground (arith, line) in
        rw (line, other) (omega (arith, newline-column s)))
  | inr other ↦ elim (Bool-cases (c == b'\r')) [
    | inl return ↦
        (let plain : (c == b'\t') ≡ false = ground (arith, return) in
          rw (other, return, plain) (omega arith))
    | inr tab ↦
        (let it : (c == b'\t') ≡ true = ground (arith, other, tab, i) in
          rw (other, tab, it) (omega (arith, l)))
  ]
]

control-stop :
    (c : ℕ) (s : Console)
    → is_control c ≡ true
    → s.terminal_row < 24
    → s.terminal_column < 80
    → (wrap (control c s)).terminal_column ≡ stop c s.terminal_column
control-stop c s i r l =
    wrap-column (control c s) (control-Moved c s r l).column ∙ control-column c s i l

next_control :
    (n b p c : ℕ) (s s1 : Console) (r : Option Console)
    → s.memory p ≡ c
    → is_control c ≡ true
    → terminal_writesequence b (p - b) s ≡ some s1
    → write_loop n (suc p) (suc p) (control c s1) ≡ r
    → write_loop (suc n) b p s ≡ r
unfolding write_loop
next_control n b p c s s1 r at stops e rest = rw (write_loop, at, stops, e, at) rest

next_plain :
    (n b p c : ℕ) (s : Console) (r : Option Console)
    → s.memory p ≡ c
    → is_control c ≡ false
    → write_loop n b (suc p) s ≡ r
    → write_loop (suc n) b p s ≡ r
unfolding write_loop
next_plain n b p c s r at go rest = rw (write_loop, at, go) rest

put-control : (c : ℕ) (s : Console) → is_control c ≡ true → put c s ≡ wrap (control c s)
unfolding put
put-control c s e = rw e refl

fits-control :
    (c column k : ℕ) (cs : List ℕ)
    → is_control c ≡ true
    → fits column k (c ∷ cs) ≡ true
    → (column + k ≤ 80) × (fits (stop c ((column + k) % 80)) 0 cs ≡ true)
fits-control c column k cs i f =
    let both : (leb (column + k) 80 && fits (stop c ((column + k) % 80)) 0 cs) ≡ true =
      sym (rw (i, fits) refl) ∙ f in
    (ground (arith, both), ground (arith, both))

fits-plain :
    (c column k : ℕ) (cs : List ℕ)
    → is_control c ≡ false
    → fits column k (c ∷ cs) ≡ true
    → fits column (suc k) cs ≡ true
fits-plain c column k cs i f = sym (rw (i, fits) refl) ∙ f

fits-room : (cs : List ℕ) (column k : ℕ) → fits column k cs ≡ true → column + k ≤ 80
fits-room [] column k f = ground (arith, f)
fits-room (c ∷ cs) column k f = elim (Bool-cases (is_control c)) [
  | inl stops ↦ (fits-control c column k cs stops f).0
  | inr plain ↦ omega (arith, fits-room cs column (suc k) (fits-plain c column k cs plain f))
]

-- One more character that is not a control character
extended :
    (b k p : ℕ) (m : Memory)
    → p ≡ b + k
    → ((j : ℕ) → j < k → is_control (m (b + j)) ≡ false)
    → is_control (m p) ≡ false
    → (j : ℕ) → j < suc k
    → is_control (m (b + j)) ≡ false
extended b k p m q plain go j l = elim (Bool-cases (j == k)) [
  | inl last ↦ ap (λ (x : ℕ). is_control (m x)) (omega (arith, q, ==_eq j k last)) ∙ go
  | inr other ↦ plain j (ground (arith, other, l))
]

loop-puts :
    (n b k p : ℕ) (s : Console) (m : Memory)
    → s.terminal_row < 24
    → s.terminal_column ≤ 80
    → p ≡ b + k
    → ((j : ℕ) → j < k → is_control (m (b + j)) ≡ false)
    → ((j : ℕ) → j < k + n → Outside (b + j))
    → ((a : ℕ) → Outside a → s.memory a ≡ m a)
    → fits (wrap s).terminal_column k (bytes m p n) ≡ true
    → write_loop n b p s ≡ some (puts (bytes m p n) (puts (bytes m b k) (wrap s)))
unfolding puts
loop-puts zero b k p s m r c q plain o e f =
    let x = puts-Segment b k s m r c (ground (arith, f)) plain (λ j l. o j (omega (arith, l))) e in
    unfold write_loop in
    (ap (λ (l : ℕ). terminal_writesequence b l s) (omega (arith, q)) ∙ x.written)
loop-puts (suc n) b k p s m r c q plain o e f =
    let here : Outside p = subst Outside (sym q) (o k (omega arith)) in
    let room = fits-room (bytes m p (suc n)) (wrap s).terminal_column k f in
    elim (Bool-cases (is_control (m p))) [
      | inl stops ↦
          (let x = puts-Segment b k s m r c room plain (λ j l. o j (omega (arith, l))) e in
            let s1 = puts (bytes m b k) (wrap s) in
            let y = control-Moved (m p) s1 x.sound.row x.sound.column in
            let (_, f') =
              fits-control (m p) (wrap s).terminal_column k (bytes m (suc p) n) stops f in
            let column : (wrap (control (m p) s1)).terminal_column
                ≡ stop (m p) (((wrap s).terminal_column + k) % 80) =
              control-stop (m p) s1 stops x.sound.row x.sound.column ∙ ap (stop (m p)) x.column in
            next_control n b p (m p) s s1 _ (e p here) stops
              (ap (λ (l : ℕ). terminal_writesequence b l s) (omega (arith, q)) ∙ x.written)
              (loop-puts n (suc p) 0 (suc p) (control (m p) s1) m y.row y.column (omega arith)
                (λ j l. absurd (omega (arith, l)))
                (λ j l. subst Outside (omega (arith, q)) (o (k + suc j) (omega (arith, l))))
                (λ a u. y.keeps.same a u ∙ x.sound.keeps.same a u ∙ e a u)
                (ap (λ (x : ℕ). fits x 0 (bytes m (suc p) n)) column ∙ f'))
            ∙ ap (λ (z : Console). some (puts (bytes m (suc p) n) z))
                (sym (put-control (m p) s1 stops)))
      | inr go ↦
          next_plain n b p (m p) s _ (e p here) go (
            loop-puts n b (suc k) (suc p) s m r c (omega (arith, q)) (extended b k p m q plain go)
              (λ j l. o j (omega (arith, l))) e
              (fits-plain (m p) (wrap s).terminal_column k (bytes m (suc p) n) go f))
          ∙ ap (λ (z : Console). some (puts (bytes m (suc p) n) z))
              (puts-bytes m k b (wrap s)
                ∙ ap (λ (z : ℕ). put (m z) (puts (bytes m b k) (wrap s))) (sym q))
    ]

-- For text in which every stretch between two control characters fits the rest of its row, from the
-- column of the cursor on, that lies outside of the screen at an address that is not NULL and has
-- less than 2^31 bytes: `console_write` ends, and does what a terminal does that takes the bytes one
-- by one, writes each at the cursor, and goes to the next row behind column 79.
pub console_write-puts :
    (address length : ℕ) (s : Console)
    → s.terminal_row < 24
    → s.terminal_column < 80
    → address ≢ 0
    → length < 2 ^ 31
    → (address + length ≤ console_buffer) ⊎ (console_buffer + 3840 ≤ address)
    → fits s.terminal_column 0 (bytes s.memory address length) ≡ true
    → console_write address length s ≡ some (puts (bytes s.memory address length) s)
unfolding console_write
console_write-puts address zero s r c n l o f =
    unfold puts in (let nothing : (address == 0 || true) ≡ true = ground arith in rw nothing refl)
console_write-puts address (suc n) s r c some_address l o f =
    let all : (address == 0 || suc n == 0) ≡ false = ground (arith, some_address) in
    let room = wrap_room s c in
    rw all (
      loop-puts (suc n) address 0 address s s.memory r (omega (arith, c)) (omega arith)
        (λ j l. absurd (omega (arith, l))) (λ j l. beside o (omega (arith, l))) (λ a u. refl)
        (ap (λ (x : Console). fits x.terminal_column 0 (bytes s.memory address (suc n))) room ∙ f)
      ∙ unfold puts in ap (λ (x : Console). some (puts (bytes s.memory address (suc n)) x)) room)
  where
    beside :
        {j : ℕ}
        → (address + suc n ≤ console_buffer) ⊎ (console_buffer + 3840 ≤ address)
        → j < suc n
        → Outside (address + j)
    beside (inl o) l = inl (omega (arith, o, l))
    beside (inr o) l = inr (omega (arith, o, l))
