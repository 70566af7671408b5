-- ===== src/Formatting/Rendering.antt =====
-- The text that a format means, without a buffer: the reference for `vsnprintf`.
use bubackos.Prelude.{
  ℕ, ◌-◌, ◌%◌, ◌^◌, Option, none, some, List, [], ◌∷◌, ◌++◌, ◌==◌, leb, if◌then◌else◌,
}
use bubackos.Formatting.{Arg, word, string, null_ptr, fetches}
use bubackos.Formatting.Digits.{numeral}

-- The text of an argument, by the character after '%'
unfoldable pub piece : (c : ℕ) → Arg → Option (List ℕ)
piece c (word n) =
    if c == 99
    then some (n % 256 ∷ [])
    else if c == 100
    then (if leb (2 ^ 31) (n % 2 ^ 32)
        then some (45 ∷ numeral 64 10 (2 ^ 32 - n % 2 ^ 32))
        else some (numeral 64 10 (n % 2 ^ 32)))
    else if c == 111
    then some (numeral 64 8 (n % 2 ^ 32))
    else if c == 115
    then (if n == 0 then some null_ptr else none)
    else if c == 112
    then (if n % 2 ^ 64 == 0 then some null_ptr else some (48 ∷ 120 ∷ numeral 64 16 (n % 2 ^ 64)))
    else some (numeral 64 16 (n % 2 ^ 32))
piece c (string s) = if c == 115 then some s else none

unfoldable pub joined : Option (List ℕ) → Option (List ℕ) → Option (List ℕ)
joined none t = none
joined (some s) none = none
joined (some s) (some t) = some (s ++ t)

-- `none` where an argument is missing or of another type, and where a '%' ends the format.
unfoldable pub render : List ℕ → List Arg → Option (List ℕ)
render [] args = some []
render (c ∷ []) args = if c == 37 then none else some (c ∷ [])
render (c ∷ d ∷ cs) args =
    if c == 37
    then (if fetches d
        then elim args [ [] ↦ none | a ∷ rest ↦ joined (piece d a) (render cs rest) ]
        else joined (some (if d == 37 then 37 ∷ [] else [])) (render cs args))
    else joined (some (c ∷ [])) (render (d ∷ cs) args)
