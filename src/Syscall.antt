-- ===== src/Syscall.antt =====
-- The table of system calls, core/src/syscall/services.c and syscalls.c of src/kernel. A handler is
-- its address, 0 is NULL.
pub mod Table
mod Tests
use bubackos.Prelude.{
  ℕ, Bool, true, false, Option, none, some, List, [], ◌∷◌, ◌==◌, if◌then◌else◌, leb, ◌||◌,
  get_elem?, set, replicate,
}

-- SYSCALL_MAX_NUMBER of platform.h
abbrev pub syscall_max_number : ℕ
syscall_max_number = 255

-- `syscall_vector`, in the zeroed memory of a static variable.
abbrev pub syscall_vector : List ℕ
syscall_vector = replicate syscall_max_number 0

-- The entry of the vector; past its end nothing is known of what the program reads.
abbrev pub handler_at : List ℕ → ℕ → Option ℕ
handler_at v n = get_elem? v n

abbrev pub out_of_range : ℕ → Bool
out_of_range n = (n == 0) || leb syscall_max_number n

-- `register_syscall`; `none` is an access past the vector.
unfoldable pub register_syscall : List ℕ → (syscall_number handler : ℕ) → Option (Bool × List ℕ)
register_syscall v n handler = if out_of_range n then some (false, v) else elim (handler_at v n) [
  | none ↦ none
  | some h ↦ some (if h == 0 then (true, set v n handler) else (false, v))
]

-- What `handle_syscall` does: it answers -1, or calls a handler with the arguments.
pub data Dispatch : Type 0 where
  refused : Dispatch
  calls : (handler : ℕ) → (arguments : List ℕ) → Dispatch

-- `handle_syscall`
unfoldable pub handle_syscall :
    List ℕ → (syscall_number : ℕ) → (arguments : List ℕ) → Option Dispatch
handle_syscall v n arguments = if out_of_range n then some refused else elim (handler_at v n) [
  | none ↦ none
  | some h ↦ some (if h == 0 then refused else calls h arguments)
]

-- SYSCALL_REGISTER, of `success && register_syscall(...)`: the second is not called after a failure.
abbrev pub and_register :
    Option (Bool × List ℕ) → (syscall_number handler : ℕ) → Option (Bool × List ℕ)
and_register none n handler = none
and_register (some (true, v)) n handler = register_syscall v n handler
and_register (some (false, v)) n handler = some (false, v)

-- `syscall_registering`, by the addresses of the two handlers; SYSCALL_EXIT is 1 and
-- SYSCALL_LOGGING is 2.
unfoldable pub syscall_registering : List ℕ → (task_exit logging : ℕ) → Option (Bool × List ℕ)
syscall_registering v task_exit logging =
    and_register (and_register (some (true, v)) 1 task_exit) 2 logging
