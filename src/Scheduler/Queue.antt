-- ===== src/Scheduler/Queue.antt =====
-- Lists of tasks without repetition, and the task structs after a write.
use bubackos.Prelude.{
  ℕ, ◌≡◌, ◌≢◌, refl, Bool, true, false, List, [], ◌∷◌, ◌==◌, All, All-append, Bool-cases, inl, inr,
  ==_eq, ==_ne, ==_self, arith, sym,
}
use bubackos.LinkedList.View.{without_first}
use bubackos.Task.{Task, put}
use bubackos.Scheduler.{append}

abbrev pub Nodup : List ℕ → Type 0
Nodup [] = Unit {0}
Nodup (t ∷ ts) = All (λ u. u ≢ t) ts × Nodup ts

pub All-zip {ℓ a b c} :
    {A : Type ℓ} {P : A → Type a} {Q : A → Type b} {R : A → Type c}
    → ((x : A) → P x → Q x → R x)
    → (xs : List A) → All P xs
    → All Q xs
    → All R xs
All-zip f [] p q = tt
All-zip f (x ∷ xs) p q = (f x p.0 q.0, All-zip f xs p.1 q.1)

pub All-without_first {ℓ} :
    (P : ℕ → Type ℓ) (t : ℕ) (ts : List ℕ) → All P ts → All P (without_first t ts)
unfolding without_first
All-without_first P t [] p = tt
All-without_first P t (x ∷ xs) p = elim (Bool-cases (x == t)) [
  | inl hit ↦ rw hit p.1
  | inr miss ↦ rw miss (p.0, All-without_first P t xs p.1)
]

pub Nodup-without_first : (t : ℕ) (ts : List ℕ) → Nodup ts → Nodup (without_first t ts)
unfolding without_first
Nodup-without_first t [] d = tt
Nodup-without_first t (x ∷ xs) d = elim (Bool-cases (x == t)) [
  | inl hit ↦ rw hit d.1
  | inr miss ↦ rw miss (All-without_first _ t xs d.0, Nodup-without_first t xs d.1)
]

-- Removing the first occurrence from a list without repetition removes the task.
pub without_first-absent : (t : ℕ) (ts : List ℕ) → Nodup ts → All (λ u. u ≢ t) (without_first t ts)
unfolding without_first
without_first-absent t [] d = tt
without_first-absent t (x ∷ xs) d = elim (Bool-cases (x == t)) [
  | inl hit ↦ rw (hit, sym (==_eq x t hit)) d.0
  | inr miss ↦ rw miss (ground arith, without_first-absent t xs d.1)
]

pub Nodup-append :
    (node_ok : Bool) (ts : List ℕ) (t : ℕ)
    → Nodup ts
    → All (λ u. u ≢ t) ts
    → Nodup (append node_ok ts t)
Nodup-append false ts t d a = d
Nodup-append true [] t d a = (tt, tt)
Nodup-append true (x ∷ xs) t d a =
    (All-append _ xs (t ∷ []) d.0 (λ e. a.0 (sym e), tt), Nodup-append true xs t d.1 a.1)

pub All-grow {ℓ} :
    (P : ℕ → Type ℓ) (node_ok : Bool) (ts : List ℕ) (t : ℕ)
    → All P ts
    → P t
    → All P (append node_ok ts t)
All-grow P false ts t h p = h
All-grow P true ts t h p = All-append P ts (t ∷ []) h (p, tt)

pub put_self : (t : ℕ) (v : Task) (tasks : ℕ → Task) → put t v tasks t ≡ v
put_self t v tasks = rw (==_self t) refl

pub put_other : (t u : ℕ) (v : Task) (tasks : ℕ → Task) → u ≢ t → put t v tasks u ≡ tasks u
put_other t u v tasks ne = rw (==_ne t u (λ e. ne (sym e))) refl
