-- ===== src/Syscall/Tests.antt =====
-- The table with the handlers at the addresses 4096 and 8192.
use bubackos.Prelude.{
  ℕ, ◌<◌, ◌≡◌, Bool, true, some, List, [], ◌==◌, ◌&&◌, if◌then◌else◌, get_elem?, length, arith,
}
use bubackos.Syscall.{syscall_vector, register_syscall, Dispatch, calls, handle_syscall}
use bubackos.Syscall.Table.{length-syscall_vector, handle_syscall-defined, register_syscall-handle}

handle_syscall-defined_example : (d : Dispatch) × (handle_syscall syscall_vector 254 [] ≡ some d)
handle_syscall-defined_example = handle_syscall-defined syscall_vector 254 [] length-syscall_vector

register_syscall-handle_example :
    (r : Bool × List ℕ) × (register_syscall syscall_vector 7 4096 ≡ some r)
    × (length r.1 ≡ 255)
    × ((r.0 ≡ true → (0 < 7) × (7 < 255) × (get_elem? syscall_vector 7 ≡ some 0))
        × ((0 < 7) × (7 < 255) × (get_elem? syscall_vector 7 ≡ some 0) → r.0 ≡ true))
    × ((j : ℕ) (arguments : List ℕ)
        → handle_syscall r.1 j arguments ≡ (
            if r.0 && (7 == j)
            then some (calls 4096 arguments)
            else handle_syscall syscall_vector j arguments))
register_syscall-handle_example =
    register_syscall-handle syscall_vector 7 4096 length-syscall_vector (λ e. omega (arith, e))
