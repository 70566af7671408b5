-- ===== src/Logging.antt =====
-- The filter of the log, libutils/src/logging.c of src/kernel. The message is the formatted text;
-- what logging_write gets is a result.
pub mod Repeats
mod Tests
use bubackos.Prelude.{
  ℕ, ◌+◌, ◌-◌, Bool, true, false, List, [], ◌∷◌, ◌++◌, ltb, ◌&&◌, if◌then◌else◌, length,
}
use bubackos.CString.{strncmp, is_same}
use bubackos.CString.Compare.{take}

-- LOGGING_MAX_LINE and LOGGING_AGGREGATE_MESSAGES
abbrev pub max_line : ℕ
max_line = 255

abbrev pub aggregate_messages : ℕ
aggregate_messages = 30

-- `logging_config_t`, and the static variables of `should_write`.
pub record Logger : Type 0 where
  pub level : ℕ
  pub quiet : Bool
  pub last_message : List ℕ
  pub repetitions : ℕ

-- A line that goes to logging_write: a message with its level, or the count of the repetitions.
pub data Line : Type 0 where
  message : (level : ℕ) (text : List ℕ) → Line
  repeated : (times : ℕ) → Line

-- `should_write`: the answer, what it writes itself, and the state. strncpy copies the text up to
-- its end or to LOGGING_MAX_LINE bytes.
unfoldable pub should_write : Logger → (text : List ℕ) (text_size : ℕ) → Bool × List Line × Logger
should_write L text text_size =
    if is_same (strncmp text L.last_message text_size) && ltb L.repetitions aggregate_messages
    then (false, [], record L { repetitions = L.repetitions + 1 })
    else (
      true,
      (if ltb 1 L.repetitions then repeated (L.repetitions - 1) ∷ [] else []),
      record L { last_message = take max_line text; repetitions = 1 },
    )

-- `logging`, of the text that logging_format makes: its size is the length of the text.
unfoldable pub logging : Logger → (level : ℕ) (text : List ℕ) → List Line × Logger
logging L level text =
    if ltb level L.level
    then ([], L)
    else if L.quiet
    then ([], L)
    else (let (write, notice, L') = should_write L text (length text) in
        if write then (notice ++ (message level text ∷ []), L') else (notice, L'))
