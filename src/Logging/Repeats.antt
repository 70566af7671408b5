-- ===== src/Logging/Repeats.antt =====
-- How many messages the filter of the log can hold back.
use bubackos.Prelude.{
  ℕ, ◌+◌, ◌≤◌, ◌<◌, ◌≡◌, inl, inr, refl, Bool, true, false, List, [], ◌∷◌, ltb, ◌&&◌, length,
  Bool-cases, arith,
}
use bubackos.CString.{strncmp, is_same, IsString}
use bubackos.CString.Compare.{take, strncmp-take}
use bubackos.Logging.{aggregate_messages, Logger, should_write}

-- The answers of `should_write` to a sequence of messages, with their sizes.
abbrev pub answers : Logger → List (List ℕ × ℕ) → List Bool
answers L [] = []
answers L ((text, size) ∷ rest) = let r = should_write L text size in r.0 ∷ answers r.2 rest

abbrev pub any_true : List Bool → Bool
any_true [] = false
any_true (true ∷ bs) = true
any_true (false ∷ bs) = any_true bs

refused_lem :
    (L : Logger) (text : List ℕ) (size : ℕ)
    → (should_write L text size).0 ≡ false
    → (L.repetitions < aggregate_messages)
      × ((should_write L text size).2.repetitions ≡ L.repetitions + 1)
unfolding should_write
refused_lem L text size e =
    elim (Bool-cases
      (is_same (strncmp text L.last_message size) && ltb L.repetitions aggregate_messages)) [
        | inl held ↦ (ground (arith, held), rw held refl)
        | inr written ↦ absurd (ground (arith, e, written))
      ]

-- While the count of repetitions is at most LOGGING_AGGREGATE_MESSAGES: of more messages in a row
-- than it lacks to that number, `should_write` lets at least one through, whatever they say.
pub answers-written :
    (L : Logger) (ms : List (List ℕ × ℕ))
    → L.repetitions ≤ aggregate_messages
    → aggregate_messages < L.repetitions + length ms
    → any_true (answers L ms) ≡ true
answers-written L [] bound n = absurd (omega (arith, bound, n))
answers-written L ((text, size) ∷ rest) bound n = elim (Bool-cases (should_write L text size).0) [
  | inl written ↦ rw written refl
  | inr held ↦
      let (lt, count) = refused_lem L text size held in
      rw held (
        answers-written (should_write L text size).2 rest (omega (arith, lt, count))
          (omega (arith, n, count)))
]

-- `should_write` keeps the count of repetitions in its bound.
pub should_write-bound :
    (L : Logger) (text : List ℕ) (size : ℕ)
    → L.repetitions ≤ aggregate_messages
    → (should_write L text size).2.repetitions ≤ aggregate_messages
unfolding should_write
should_write-bound L text size bound = ground arith

-- Where neither text has a NUL inside, a message that `should_write` holds back agrees in its
-- first `size` bytes with the last message that was written.
pub should_write-prefix :
    (L : Logger) (text : List ℕ) (size : ℕ)
    → IsString text
    → IsString L.last_message
    → (should_write L text size).0 ≡ false
    → take size text ≡ take size L.last_message
unfolding should_write
should_write-prefix L text size ht hl e =
    elim (Bool-cases (is_same (strncmp text L.last_message size))) [
      | inl same ↦ (strncmp-take text L.last_message size ht hl).0 same
      | inr other ↦ absurd (ground (arith, e, other))
    ]
