-- ===== src/Scheduler/Turn.antt =====
-- Whose turn it is: what `scheduler_switch_task` runs, and after how many calls a task runs.
use mathlib.Core.Path.{subst}
use bubackos.Prelude.{
  ℕ, ◌≡◌, ◌≢◌, refl, Bool, List, [], ◌∷◌, ◌==◌, All, Bool-cases, inl, inr, ==_eq, ==_ne, arith, sym,
  ap, ◌∙◌,
}
use bubackos.Task.{Task, Kernel}
use bubackos.Scheduler.{is_ready, clear_current_task, get_next_task, runs, sleeps, switch_task}
use bubackos.Scheduler.Queue.{Nodup, All-grow}
use bubackos.Scheduler.Invariant.{IsRunnable, IsValid, clear_current_task-IsValid}

-- Clearing touches the queue and the current task only.
pub clear_current_task-fields :
    (P : ℕ → Type 0) (node_ok : Bool) (k : Kernel)
    → All P k.scheduled_tasks
    → (k.current_task ≢ 0 → P k.current_task)
    → ((clear_current_task node_ok k).tasks ≡ k.tasks)
      × ((clear_current_task node_ok k).current_task ≡ 0)
      × All P (clear_current_task node_ok k).scheduled_tasks
unfolding clear_current_task
clear_current_task-fields P node_ok k a p = elim (Bool-cases (k.current_task == 0)) [
  | inl idle ↦ rw idle (refl, ==_eq k.current_task 0 idle, a)
  | inr busy ↦ rw busy (elim (Bool-cases (is_ready (k.tasks k.current_task).status)) [
    | inl e ↦
        rw e (
          refl,
          refl,
          All-grow P node_ok k.scheduled_tasks k.current_task a (p (λ e. ground arith)),
        )
    | inr e ↦ rw e (refl, refl, a)
  ])
]

-- What the switch does when the queue has a first task, which is not the current one.
unfoldable pub next_state : Bool → Kernel → ℕ → List ℕ → Kernel
next_state node_ok k t ts =
    record (clear_current_task node_ok (record k { scheduled_tasks = ts })) {
      page_table = (k.tasks t).memory_handler;
      current_task = t;
    }

pub switch_task-cons :
    (node_ok : Bool) (k : Kernel) (t : ℕ) (ts : List ℕ)
    → k.scheduled_tasks ≡ t ∷ ts
    → t ≢ 0
    → t ≢ k.current_task
    → switch_task node_ok k ≡ (runs t, next_state node_ok k t ts)
unfolding switch_task next_state get_next_task
switch_task-cons node_ok k t ts e nz nc = rw (e, ==_ne t 0 nz, ==_ne t k.current_task nc) refl

pub switch_task-nil :
    (node_ok : Bool) (k : Kernel)
    → k.scheduled_tasks ≡ []
    → switch_task node_ok k
      ≡ (sleeps, clear_current_task node_ok (record k { scheduled_tasks = [] }))
unfolding switch_task get_next_task
switch_task-nil node_ok k e = rw e refl

pub IsValid-tail :
    {k : Kernel} {t : ℕ} {ts : List ℕ}
    → IsValid k
    → k.scheduled_tasks ≡ t ∷ ts
    → IsValid (record k { scheduled_tasks = ts })
      × (t ≢ 0)
      × IsRunnable (k.tasks t)
      × All (λ u. u ≢ t) ts
      × (t ≢ k.current_task)
IsValid-tail {k} {t} {ts} v e = (
  record {
    queued = q.1;
    distinct = d.1;
    running = λ ne. ((v.running ne).0, (others ne).1, (v.running ne).2);
  },
  q.0.0,
  q.0.1,
  d.0,
  λ eq. (others (λ z. q.0.0 (eq ∙ z))).0 eq,
)
  where
    q : All (λ u. (u ≢ 0) × IsRunnable (k.tasks u)) (t ∷ ts)
    q = subst (λ l. All (λ u. (u ≢ 0) × IsRunnable (k.tasks u)) l) e v.queued

    d : Nodup (t ∷ ts)
    d = subst Nodup e v.distinct

    others : k.current_task ≢ 0 → All (λ u. u ≢ k.current_task) (t ∷ ts)
    others ne = subst (λ l. All (λ u. u ≢ k.current_task) l) e (v.running ne).1

IsValid-empty : {k : Kernel} → IsValid k → IsValid (record k { scheduled_tasks = [] })
IsValid-empty v = record {
  queued = tt;
  distinct = tt;
  running = λ ne. ((v.running ne).0, tt, (v.running ne).2);
}

-- `scheduler_switch_task` keeps a valid state valid.
pub switch_task-IsValid :
    (node_ok : Bool) (k : Kernel) → IsValid k → IsValid (switch_task node_ok k).1
switch_task-IsValid node_ok k v = split k.scheduled_tasks refl
  where
    split : (ts : List ℕ) → k.scheduled_tasks ≡ ts → IsValid (switch_task node_ok k).1
    split [] e =
        rw (switch_task-nil node_ok k e) (clear_current_task-IsValid node_ok _ (IsValid-empty v))
    split (t ∷ ts) e =
        let w = IsValid-tail v e in
        let c = clear_current_task-IsValid node_ok (record k { scheduled_tasks = ts }) w.0 in
        let f =
          clear_current_task-fields (λ u. u ≢ t) node_ok (record k { scheduled_tasks = ts }) w.3
            (λ _ eq. w.4 (sym eq)) in
        rw (switch_task-cons node_ok k t ts e w.1 w.4) (
          unfold next_state in
          record {
            queued = c.queued;
            distinct = c.distinct;
            running = λ _. (
              subst (λ (g : ℕ → Task). IsRunnable (g t)) (sym f.0) w.2,
              f.2,
              sym (ap (λ (g : ℕ → Task). (g t).memory_handler) f.0),
            );
          })
