-- ===== src/Formatting.antt =====
-- The formatting of messages, libc/src/formatting.c of src/kernel.
pub mod Digits
pub mod Rendering
pub mod Conversions
pub mod Specifiers
pub mod Printing
pub mod Overflow
mod Tests
use bubackos.Prelude.{
  ℕ, zero, suc, ◌+◌, ◌-◌, ◌/◌, ◌%◌, ◌^◌, Bool, true, false, not, ◌&&◌, ◌||◌, Option, none, some,
  List, [], ◌∷◌, ◌++◌, ◌==◌, ltb, leb, if◌then◌else◌, length, sub64,
}
use mathlib.Core.List.{reverse}
use bubackos.CString.Compare.{take}

-- `representation[d]`: a decimal digit or an upper case letter
abbrev pub representation : ℕ → ℕ
representation d = if ltb d 10 then 48 + d else 55 + d

-- The digits that the first loop of `convert` writes to `buf`, the lowest first, with the room
-- that is left in `buf`; `none` is a write behind it.
unfoldable pub digits_loop : (room num base : ℕ) → Option (List ℕ)
digits_loop zero num base = none
digits_loop (suc n) num base =
    let rest = digits_loop n (num / base) base in
    let d = representation (num % base) in
    if num / base == 0 then some (d ∷ []) else elim rest [ none ↦ none | some ds ↦ some (d ∷ ds) ]

-- `sizeof(num)*8`
abbrev pub buf_size : ℕ
buf_size = 64

-- `convert`: the characters that it writes to `dst`
unfoldable pub convert : (num base size : ℕ) → Option (List ℕ)
convert num base size = if size == 0 then some [] else elim (digits_loop buf_size num base) [
  | none ↦ none
  | some ds ↦ some (take size (reverse ds))
]

-- An argument of the call: a number or NULL, or a pointer to a text
pub data Arg : Type 0 where
  word : ℕ → Arg
  string : List ℕ → Arg

-- NULL_PTR, "(null)"
abbrev pub null_ptr : List ℕ
null_ptr = 40 ∷ 110 ∷ 117 ∷ 108 ∷ 108 ∷ 41 ∷ []

-- What is written so far; its length is the position `p`. The writes go on behind `buffer_size`
-- where the source does not test it.
abbrev pub write_char : (out : List ℕ) (c : ℕ) → List ℕ
write_char out c = out ++ (c ∷ [])

unfoldable pub write_sequence : (buffer_size : ℕ) (out s : List ℕ) → List ℕ
write_sequence size out s =
    let room = sub64 size (length out) in out ++ (if ltb (length s) room then s else take room s)

unfoldable pub write_number : (buffer_size : ℕ) (out : List ℕ) (n base : ℕ) → Option (List ℕ)
write_number size out n base = elim (convert n base (sub64 size (length out))) [
  | none ↦ none
  | some cs ↦ some (out ++ cs)
]

-- The inner loop: the characters before the next '%', and what follows them
unfoldable pub literals : (buffer_size : ℕ) (out traverse : List ℕ) → List ℕ × List ℕ
literals size out [] = (out, [])
literals size out (c ∷ cs) =
    if not (c == 37) && ltb (length out) size
    then literals size (write_char out c) cs
    else (out, c ∷ cs)

-- The cases of the switch that fetch an argument: what is written. `none` is an argument of
-- another type, and a write behind `buf`.
unfoldable pub conversion : (buffer_size : ℕ) (out : List ℕ) (c : ℕ) → Arg → Option (List ℕ)
conversion size out c (word n) =
    if c == 99
    then some (write_char out (n % 256))
    else if c == 100
    then (if leb (2 ^ 31) (n % 2 ^ 32)
        then write_number size (write_char out 45) (2 ^ 32 - n % 2 ^ 32) 10
        else write_number size out (n % 2 ^ 32) 10)
    else if c == 111
    then write_number size out (n % 2 ^ 32) 8
    else if c == 115
    then (if n == 0 then some (write_sequence size out null_ptr) else none)
    else if c == 112
    then (if n % 2 ^ 64 == 0
        then some (write_sequence size out null_ptr)
        else write_number size (write_sequence size out (48 ∷ 120 ∷ [])) (n % 2 ^ 64) 16)
    else write_number size out (n % 2 ^ 32) 16
conversion size out c (string s) = if c == 115 then some (write_sequence size out s) else none

-- 'c', 'd', 'o', 's', 'p' and 'x'
abbrev pub fetches : ℕ → Bool
fetches c = (c == 99) || ((c == 100) || ((c == 111) || ((c == 115) || ((c == 112) || (c == 120)))))

-- The switch over the character after '%': what is written, and the arguments that are left.
-- `none` as in `conversion`, and where there is no argument left.
unfoldable pub specifier :
    (buffer_size : ℕ) (out : List ℕ) (c : ℕ) → List Arg → Option (List ℕ × List Arg)
specifier size out c args =
    if fetches c
    then elim args [
      | [] ↦ none
      | a ∷ rest ↦ elim (conversion size out c a) [ none ↦ none | some out' ↦ some (out', rest) ]
    ]
    else some (if c == 37 then write_char out 37 else out, args)

-- The loop over the format, with the rounds left. `none` as in `specifier`, and for a '%' at the
-- end, behind which the loop reads on.
unfoldable pub format_loop :
    (rounds buffer_size : ℕ) (out traverse : List ℕ) → List Arg → Option (List ℕ)
format_loop zero size out fs args = none
format_loop (suc n) size out fs args =
    if ltb (length out) size
    then elim (literals size out fs).1 [
      | [] ↦ some (literals size out fs).0
      | _ ∷ ds ↦ elim ds [
        | [] ↦ none
        | d ∷ cs ↦ elim (specifier size (literals size out fs).0 d args) [
          | none ↦ none
          | some (out', args') ↦ format_loop n size out' cs args'
        ]
      ]
    ]
    else some out

-- The buffer: what is written from its start on, and where the NUL is put. The answer
-- is that number as an `int`, of which these are the 32 bits.
pub record Printed : Type 0 where
  pub written : List ℕ
  pub terminator : ℕ
  pub answer : ℕ

unfoldable pub vsnprintf : (buffer_size : ℕ) (format : List ℕ) → List Arg → Option Printed
vsnprintf size format args = elim (format_loop (suc (length format)) size [] format args) [
  | none ↦ none
  | some out ↦
      let p = if length out == size then sub64 size 1 else length out in
      some (record { written = out; terminator = p; answer = p % 2 ^ 32 })
]
