-- ===== src/CString/Tests.antt =====
-- Overlapping ranges, and strings of which one is longer.
use bubackos.Prelude.{
  ℕ, ◌+◌, ◌%◌, ◌≡◌, ◌<◌, refl, true, List, [], ◌∷◌, ◌&&◌, leb, ltb, if◌then◌else◌, arith,
}
use bubackos.CString.{Memory, memset, memcpy, strncmp, is_same}
use bubackos.CString.Bytes.{memset-bytes}
use bubackos.CString.Compare.{take, strncmp-take}

abbrev memory : Memory
memory a = if ltb a 200 then a else 0

memory-small : (b : ℕ) → memory b < 256
memory-small b = ground arith

moved : memcpy 10 12 5 memory 13 ≡ 15
unfolding memcpy
moved = refl

abbrev shorter : List ℕ
shorter = 79 ∷ 75 ∷ []

abbrev longer : List ℕ
longer = 79 ∷ 75 ∷ 33 ∷ []

strncmp-take_example :
    (is_same (strncmp shorter longer 3) ≡ true → take 3 shorter ≡ take 3 longer)
    × (take 3 shorter ≡ take 3 longer → is_same (strncmp shorter longer 3) ≡ true)
strncmp-take_example =
    strncmp-take shorter longer 3 (λ e. omega (arith, e), (λ e. omega (arith, e), tt))
      (λ e. omega (arith, e), (λ e. omega (arith, e), (λ e. omega (arith, e), tt)))

memset-bytes_example :
    memset 10 257 5 memory 13 ≡ (if leb 10 13 && ltb 13 (10 + 5) then 257 % 256 else memory 13)
memset-bytes_example = memset-bytes 10 257 5 memory 13
