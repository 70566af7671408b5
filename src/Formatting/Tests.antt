-- ===== src/Formatting/Tests.antt =====
-- Runs of the formatting: "%d-%s", a number in base 16, and a buffer of two bytes.
use bubackos.Prelude.{ℕ, ◌≡◌, ◌<◌, ◌≤◌, refl, some, List, [], ◌∷◌, arith, inr, length}
use bubackos.CString.Compare.{take}
use bubackos.Formatting.{word, string, vsnprintf, convert}
use bubackos.Formatting.Digits.{numeral, value_from, convert-numeral}
use bubackos.Formatting.Rendering.{render, piece, joined}
use bubackos.Formatting.Printing.{vsnprintf-render}
use bubackos.Formatting.Overflow.{vsnprintf-behind}

convert-numeral_example :
    (convert 48879 16 3 ≡ some (take 3 (numeral 64 16 48879)))
    × (value_from 16 0 (numeral 64 16 48879) ≡ 48879)
    × (0 < length (numeral 64 16 48879))
    × (length (numeral 64 16 48879) ≤ 64)
convert-numeral_example = convert-numeral 48879 16 3 (inr (inr refl)) (omega arith)

abbrev text : List ℕ
text = 45 ∷ 53 ∷ 45 ∷ 97 ∷ 98 ∷ []

text-render :
    render (37 ∷ 100 ∷ 45 ∷ 37 ∷ 115 ∷ []) (word 4294967291 ∷ string (97 ∷ 98 ∷ []) ∷ [])
    ≡ some text
unfolding render joined piece numeral
text-render = refl

vsnprintf-render_example :
    vsnprintf 16 (37 ∷ 100 ∷ 45 ∷ 37 ∷ 115 ∷ []) (word 4294967291 ∷ string (97 ∷ 98 ∷ []) ∷ [])
    ≡ some (record { written = text; terminator = 5; answer = 5 })
vsnprintf-render_example =
    vsnprintf-render 16 (37 ∷ 100 ∷ 45 ∷ 37 ∷ 115 ∷ [])
      (word 4294967291 ∷ string (97 ∷ 98 ∷ []) ∷ []) text text-render (omega arith) (omega arith)

vsnprintf-behind_example :
    vsnprintf 2 (97 ∷ 98 ∷ 37 ∷ 37 ∷ []) []
    ≡ some (record { written = 97 ∷ 98 ∷ 37 ∷ []; terminator = 3; answer = 3 })
vsnprintf-behind_example =
    vsnprintf-behind 2 (97 ∷ 98 ∷ []) [] ((λ e. cc), ((λ e. cc), tt)) refl (omega arith)
