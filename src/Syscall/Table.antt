-- ===== src/Syscall/Table.antt =====
-- What the table of system calls answers after registrations.
use bubackos.Prelude.{
  ℕ, zero, suc, ◌<◌, ◌≡◌, ◌≢◌, refl, Bool, true, false, some, List, [], ◌∷◌, ◌==◌, ◌&&◌,
  if◌then◌else◌, get_elem?, set, length, replicate, length-set, get_elem?-set_self,
  get_elem?-set_ne, length-replicate, Bool-cases, inl, inr, ==_eq, ==_ne, arith, sym, ap, ◌∙◌,
  some_eq,
}
use bubackos.Syscall.{
  syscall_max_number, syscall_vector, out_of_range, register_syscall, Dispatch, refused, calls,
  handle_syscall, syscall_registering,
}

get_elem?-bounded : (v : List ℕ) (n : ℕ) → n < length v → (h : ℕ) × (get_elem? v n ≡ some h)
get_elem?-bounded [] n lt = absurd (omega (arith, lt))
get_elem?-bounded (x ∷ xs) zero lt = (x, refl)
get_elem?-bounded (x ∷ xs) (suc n) lt = get_elem?-bounded xs n (omega (arith, lt))

in_range : (n : ℕ) → out_of_range n ≡ false → n < syscall_max_number
in_range n e = ground arith

handle_syscall-read :
    (v : List ℕ) (n h : ℕ) (arguments : List ℕ)
    → out_of_range n ≡ false
    → get_elem? v n ≡ some h
    → handle_syscall v n arguments ≡ some (if h == 0 then refused else calls h arguments)
unfolding handle_syscall
handle_syscall-read v n h arguments e g = rw (e, g) refl

handle_syscall-out :
    (v : List ℕ) (n : ℕ) (arguments : List ℕ)
    → out_of_range n ≡ true
    → handle_syscall v n arguments ≡ some refused
unfolding handle_syscall
handle_syscall-out v n arguments e = rw e refl

register_syscall-read :
    (v : List ℕ) (n h handler : ℕ)
    → out_of_range n ≡ false
    → get_elem? v n ≡ some h
    → register_syscall v n handler ≡ some (if h == 0 then (true, set v n handler) else (false, v))
unfolding register_syscall
register_syscall-read v n h handler e g = rw (e, g) refl

register_syscall-out :
    (v : List ℕ) (n handler : ℕ)
    → out_of_range n ≡ true
    → register_syscall v n handler ≡ some (false, v)
unfolding register_syscall
register_syscall-out v n handler e = rw e refl

-- On the whole vector `handle_syscall` of any number is defined: it reads nothing past the end.
pub handle_syscall-defined :
    (v : List ℕ) (n : ℕ) (arguments : List ℕ)
    → length v ≡ syscall_max_number
    → (d : Dispatch) × (handle_syscall v n arguments ≡ some d)
handle_syscall-defined v n arguments l = elim (Bool-cases (out_of_range n)) [
  | inl out ↦ (refused, handle_syscall-out v n arguments out)
  | inr inside ↦
      let (h, g) = get_elem?-bounded v n (omega (arith, l, in_range n inside)) in
      (_, handle_syscall-read v n h arguments inside g)
]

-- `handle_syscall` after a write to the vector, in range.
handle_syscall-set :
    (v : List ℕ) (n handler j : ℕ) (arguments : List ℕ)
    → length v ≡ syscall_max_number
    → handler ≢ 0
    → out_of_range n ≡ false
    → handle_syscall (set v n handler) j arguments
      ≡ (if n == j then some (calls handler arguments) else handle_syscall v j arguments)
handle_syscall-set v n handler j arguments l nz inside = elim (Bool-cases (n == j)) [
  | inl same ↦
      rw
        (
          same,
          sym (==_eq n j same),
          handle_syscall-read (set v n handler) n handler arguments inside
              (get_elem?-set_self v n handler (omega (arith, l, in_range n inside))),
          ==_ne handler 0 nz,
        )
        refl
  | inr other ↦ rw other (elim (Bool-cases (out_of_range j)) [
    | inl out ↦
        handle_syscall-out (set v n handler) j arguments out
        ∙ sym (handle_syscall-out v j arguments out)
    | inr in_j ↦
        let (h, g) = get_elem?-bounded v j (omega (arith, l, in_range j in_j)) in
        handle_syscall-read (set v n handler) j h arguments in_j
          (get_elem?-set_ne v n j handler (λ e. ground arith) ∙ g)
        ∙ sym (handle_syscall-read v j h arguments in_j g)
  ])
]

-- On the vector of 255 entries, for a handler that is not NULL: `register_syscall` is defined and
-- keeps the length; it answers true exactly for a number from 1 to 254 whose entry is free;
-- `handle_syscall` then calls the handler for this number, and for every other number, or after the
-- answer false, it does what it did before.
pub register_syscall-handle :
    (v : List ℕ) (n handler : ℕ)
    → length v ≡ 255
    → handler ≢ 0
    → (r : Bool × List ℕ) × (register_syscall v n handler ≡ some r)
      × (length r.1 ≡ 255)
      × ((r.0 ≡ true → (0 < n) × (n < 255) × (get_elem? v n ≡ some 0))
          × ((0 < n) × (n < 255) × (get_elem? v n ≡ some 0) → r.0 ≡ true))
      × ((j : ℕ) (arguments : List ℕ)
          → handle_syscall r.1 j arguments ≡ (
              if r.0 && (n == j)
              then some (calls handler arguments)
              else handle_syscall v j arguments))
register_syscall-handle v n handler l nz = elim (Bool-cases (out_of_range n)) [
  | inl out ↦ (
    (false, v),
    register_syscall-out v n handler out,
    l,
    (λ e. cc, λ p. absurd (outside out p.0 p.1)),
    λ j arguments. refl,
  )
  | inr inside ↦
      let (h, g) = get_elem?-bounded v n (omega (arith, l, in_range n inside)) in
      elim (Bool-cases (h == 0)) [
        | inl unused ↦ (
          (true, set v n handler),
          register_syscall-read v n h handler inside g ∙ rw unused refl,
          length-set v n handler ∙ l,
          (
            λ _. (ground (arith, inside), ground (arith, inside), g ∙ ap some (==_eq h 0 unused)),
            λ _. refl,
          ),
          λ j arguments. handle_syscall-set v n handler j arguments l nz inside,
        )
        | inr taken ↦ (
          (false, v),
          register_syscall-read v n h handler inside g ∙ rw taken refl,
          l,
          (λ e. cc, λ p. absurd (clash taken (some_eq (sym g ∙ p.2)))),
          λ j arguments. refl,
        )
      ]
]
  where
    outside : out_of_range n ≡ true → 0 < n → n < 255 → ⊥
    outside out a b = ground (arith, out, a, b)

    clash : {h : ℕ} → (h == 0) ≡ false → h ≡ 0 → ⊥
    clash taken z = ground arith

pub length-syscall_vector : length syscall_vector ≡ syscall_max_number
length-syscall_vector = length-replicate {A = ℕ} 255 0

-- A vector without handlers refuses every number.
handle_syscall-empty :
    (j : ℕ) (arguments : List ℕ) → handle_syscall syscall_vector j arguments ≡ some refused
handle_syscall-empty j arguments = elim (Bool-cases (out_of_range j)) [
  | inl out ↦ handle_syscall-out syscall_vector j arguments out
  | inr inside ↦
      handle_syscall-read syscall_vector j 0 arguments inside
        (get_elem?-replicate syscall_max_number j (in_range j inside))
]
  where
    get_elem?-replicate : (n j : ℕ) → j < n → get_elem? {A = ℕ} (replicate n 0) j ≡ some 0
    get_elem?-replicate zero j lt = absurd (omega (arith, lt))
    get_elem?-replicate (suc n) zero lt = refl
    get_elem?-replicate (suc n) (suc j) lt = get_elem?-replicate n j (omega (arith, lt))

-- For handlers that are not NULL, `syscall_registering` on the vector of a fresh kernel succeeds;
-- number 1 then calls the exit of the task, number 2 the logging, and every other is refused.
pub syscall_registering-handle :
    (task_exit logging : ℕ)
    → task_exit ≢ 0
    → logging ≢ 0
    → (v : List ℕ) × (syscall_registering syscall_vector task_exit logging ≡ some (true, v))
      × ((j : ℕ) (arguments : List ℕ)
          → handle_syscall v j arguments
            ≡ some (
                if j == 1
                then calls task_exit arguments
                else (if j == 2 then calls logging arguments else refused)))
syscall_registering-handle task_exit logging ne nl = (
  set (set syscall_vector 1 task_exit) 2 logging,
  unfold syscall_registering in rw (first, second) refl,
  λ j arguments.
      handle_syscall-set (set syscall_vector 1 task_exit) 2 logging j arguments
        (length-set syscall_vector 1 task_exit ∙ length-syscall_vector) nl refl
      ∙ ap (λ x. if 2 == j then some (calls logging arguments) else x)
          (handle_syscall-set syscall_vector 1 task_exit j arguments length-syscall_vector ne refl
            ∙ ap (λ x. if 1 == j then some (calls task_exit arguments) else x)
                (handle_syscall-empty j arguments))
      ∙ ground arith,
)
  where
    first :
        register_syscall syscall_vector 1 task_exit ≡ some (true, set syscall_vector 1 task_exit)
    first = register_syscall-read syscall_vector 1 0 task_exit refl refl

    second :
        register_syscall (set syscall_vector 1 task_exit) 2 logging
        ≡ some (true, set (set syscall_vector 1 task_exit) 2 logging)
    second = register_syscall-read (set syscall_vector 1 task_exit) 2 0 logging refl refl
