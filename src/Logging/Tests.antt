-- ===== src/Logging/Tests.antt =====
-- A log that has held back as many repetitions as it may, and one that holds back a prefix.
use bubackos.Prelude.{ℕ, ◌≡◌, refl, true, false, List, [], ◌∷◌, arith}
use bubackos.CString
use bubackos.CString.Compare.{take}
use bubackos.Logging.{Logger, should_write}
use bubackos.Logging.Repeats.{answers, any_true, answers-written, should_write-prefix}

abbrev text : List ℕ
text = 79 ∷ 75 ∷ []

abbrev last : List ℕ
last = 79 ∷ 75 ∷ 33 ∷ []

abbrev logger : ℕ → Logger
logger n = record { level = 0; quiet = false; last_message = last; repetitions = n }

answers-written_example : any_true (answers (logger 29) ((text, 2) ∷ (last, 3) ∷ [])) ≡ true
answers-written_example =
    answers-written (logger 29) ((text, 2) ∷ (last, 3) ∷ []) (omega arith) (omega arith)

held : (should_write (logger 1) text 2).0 ≡ false
unfolding should_write CString.strncmp CString.strncmp_loop
held = refl

should_write-prefix_example : take 2 text ≡ take 2 last
should_write-prefix_example =
    should_write-prefix (logger 1) text 2 (λ e. omega (arith, e), (λ e. omega (arith, e), tt))
      (λ e. omega (arith, e), (λ e. omega (arith, e), (λ e. omega (arith, e), tt))) held
