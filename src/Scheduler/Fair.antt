-- ===== src/Scheduler/Fair.antt =====
-- The order of the turns: which task `scheduler_switch_task` runs, and after how many calls.
use bubackos.Prelude.{
  ℕ, zero, suc, ◌≡◌, refl, Bool, true, false, none, some, List, [], ◌∷◌, ◌==◌, if◌then◌else◌,
  Bool-cases, inl, inr, ◌⊎◌, arith, sym, ap, ◌∙◌, length, get_elem?,
}
use bubackos.Task.{Kernel}
use bubackos.Scheduler.{append, clear_current_task, Processor, runs, sleeps, switch_task}
use bubackos.Scheduler.Invariant.{IsRunnable, IsValid}
use bubackos.Scheduler.Turn.{
  switch_task-cons, switch_task-nil, switch_task-IsValid, IsValid-tail, next_state,
  clear_current_task-fields,
}

-- The processor runs this task next: it is runnable, becomes the current task, and its page table
-- is in use.
abbrev pub Runs : Kernel → Processor × Kernel → ℕ → Type 0
Runs k r t =
    (r.0 ≡ runs t)
    × (r.1.current_task ≡ t)
    × (r.1.page_table ≡ (k.tasks t).memory_handler)
    × IsRunnable (k.tasks t)

-- On a valid state `scheduler_switch_task` sleeps without a current task if the queue is empty, and
-- else runs the first task of the queue with its page table. The task that ran before goes to the
-- end of the queue if linkedlist_append gets its node; without one the queue has lost its first
-- task only.
pub switch_task-Runs :
    (node_ok : Bool) (k : Kernel)
    → IsValid k
    → ((k.scheduled_tasks ≡ [])
        × ((switch_task node_ok k).0 ≡ sleeps)
        × ((switch_task node_ok k).1.current_task ≡ 0))
      ⊎ ((t : ℕ) × (ts : List ℕ) × (k.scheduled_tasks ≡ t ∷ ts)
          × Runs k (switch_task node_ok k) t
          × ((switch_task node_ok k).1.scheduled_tasks
              ≡ (if k.current_task == 0 then ts else append node_ok ts k.current_task)))
switch_task-Runs node_ok k v = split k.scheduled_tasks refl
  where
    queue :
        (ts : List ℕ)
        → (clear_current_task node_ok (record k { scheduled_tasks = ts })).scheduled_tasks
          ≡ (if k.current_task == 0 then ts else append node_ok ts k.current_task)
    queue ts =
        unfold clear_current_task in
        elim (Bool-cases (k.current_task == 0)) [
          | inl idle ↦ rw idle refl
          | inr busy ↦ rw (busy, (v.running (λ e. ground arith)).0.0) refl
        ]

    split :
        (ts : List ℕ)
        → k.scheduled_tasks ≡ ts
        → ((k.scheduled_tasks ≡ [])
            × ((switch_task node_ok k).0 ≡ sleeps)
            × ((switch_task node_ok k).1.current_task ≡ 0))
          ⊎ ((t : ℕ) × (ts : List ℕ) × (k.scheduled_tasks ≡ t ∷ ts)
              × Runs k (switch_task node_ok k) t
              × ((switch_task node_ok k).1.scheduled_tasks
                  ≡ (if k.current_task == 0 then ts else append node_ok ts k.current_task)))
    split [] e = inl (
      e,
      rw (switch_task-nil node_ok k e) refl,
      rw (switch_task-nil node_ok k e)
          (clear_current_task-fields (λ _. Unit) node_ok (record k { scheduled_tasks = [] }) tt
            (λ _. tt)).1,
    )
    split (t ∷ ts) e =
        let w = IsValid-tail v e in
        inr (
          t,
          ts,
          e,
          rw (switch_task-cons node_ok k t ts e w.1 w.4)
              (unfold next_state in (refl, refl, refl, w.2)),
          rw (switch_task-cons node_ok k t ts e w.1 w.4) (unfold next_state in queue ts),
        )

-- Calls of `scheduler_switch_task`, each with the outcome of its append.
abbrev pub switches : List Bool → Kernel → Kernel
switches [] k = k
switches (node_ok ∷ oks) k = switches oks (switch_task node_ok k).1

some-none : {t : ℕ} → none ≡ some t → ⊥
some-none e = cc

get_elem?-append :
    (node_ok : Bool) (ts : List ℕ) (c i t : ℕ)
    → get_elem? ts i ≡ some t
    → get_elem? (append node_ok ts c) i ≡ some t
get_elem?-append false ts c i t e = e
get_elem?-append true [] c i t e = absurd (some-none e)
get_elem?-append true (x ∷ xs) c zero t e = e
get_elem?-append true (x ∷ xs) c (suc i) t e = get_elem?-append true xs c i t e

-- One call brings each task of the queue one place forward, the first one to the processor.
switch_task-forward :
    (node_ok : Bool) (k : Kernel) (i t : ℕ)
    → IsValid k
    → get_elem? k.scheduled_tasks i ≡ some t
    → ((i ≡ 0) × ((switch_task node_ok k).1.current_task ≡ t))
      ⊎ ((j : ℕ) × (i ≡ suc j) × (get_elem? (switch_task node_ok k).1.scheduled_tasks j ≡ some t))
switch_task-forward node_ok k i t v e = elim (switch_task-Runs node_ok k v) [
  | inl (empty, _, _) ↦ absurd (some-none (ap (λ l. get_elem? l i) (sym empty) ∙ e))
  | inr (h, ts, es, r, q) ↦ turn i h ts q r.1 (ap (λ l. get_elem? l i) (sym es) ∙ e)
]
  where
    unwrap : {a b : ℕ} → some a ≡ some b → a ≡ b
    unwrap e = cc

    turn :
        (i h : ℕ) (ts : List ℕ)
        → (switch_task node_ok k).1.scheduled_tasks
          ≡ (if k.current_task == 0 then ts else append node_ok ts k.current_task)
        → (switch_task node_ok k).1.current_task ≡ h
        → get_elem? (h ∷ ts) i ≡ some t
        → ((i ≡ 0) × ((switch_task node_ok k).1.current_task ≡ t))
          ⊎ ((j : ℕ) × (i ≡ suc j)
              × (get_elem? (switch_task node_ok k).1.scheduled_tasks j ≡ some t))
    turn zero h ts q c e = inl (refl, c ∙ unwrap e)
    turn (suc i) h ts q c e = inr (
      i,
      refl,
      ap (λ l. get_elem? l i) q ∙ elim (Bool-cases (k.current_task == 0)) [
        | inl idle ↦ rw idle e
        | inr busy ↦ rw busy (get_elem?-append node_ok ts k.current_task i t e)
      ],
    )

-- From a valid state, the task at position i of the queue is the current task after i + 1 calls of
-- `scheduler_switch_task`, whatever the appends do.
pub switches-current :
    (oks : List Bool) (i : ℕ) (k : Kernel) (t : ℕ)
    → IsValid k
    → get_elem? k.scheduled_tasks i ≡ some t
    → length oks ≡ suc i
    → (switches oks k).current_task ≡ t
switches-current [] i k t v e n = absurd (omega (arith, n))
switches-current (node_ok ∷ []) i k t v e n = elim (switch_task-forward node_ok k i t v e) [
  | inl (_, c) ↦ c
  | inr (j, later, _) ↦ absurd (omega (arith, n, later))
]
switches-current (node_ok ∷ o ∷ oks) i k t v e n = elim (switch_task-forward node_ok k i t v e) [
  | inl (first, _) ↦ absurd (omega (arith, n, first))
  | inr (j, later, f) ↦
      switches-current (o ∷ oks) j (switch_task node_ok k).1 t (switch_task-IsValid node_ok k v) f
        (omega (arith, n, later))
]
