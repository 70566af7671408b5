-- ===== src/Pmem/Pages.antt =====
-- What `pmem_set_page` does to the array of page types.
use bubackos.Prelude.{
  ℕ, ◌<◌, ◌≤◌, ◌≡◌, refl, true, false, Option, some, none, arith, ◌==◌, leb, inl, inr,
  if◌then◌else◌, get_elem?, set, length, List, [], ◌∷◌, suc, zero, length-set, get_elem?-set_ne,
  Bool-cases, ==_eq, ltb,
}
use mathlib.Core.Path.{subst}
use bubackos.Pmem.{Pmem, PageType, system, free, user, set_page, IsValid, holds}

-- What an entry holds after a write of `t`: SYSTEM pages are immutable.
abbrev pub written : Option PageType → PageType → Option PageType
written none t = none
written (some system) t = some system
written (some free) t = some t
written (some user) t = some t

pub get_elem?-none {ℓ} : {A : Type ℓ} (xs : List A) (i : ℕ) → length xs ≤ i → get_elem? xs i ≡ none
get_elem?-none [] i h = refl
get_elem?-none (x ∷ xs) zero h = absurd (omega arith)
get_elem?-none (x ∷ xs) (suc i) h = get_elem?-none xs i (omega arith)

pub get_elem?-some {ℓ} :
    {A : Type ℓ} (xs : List A) (i : ℕ) {a : A} → get_elem? xs i ≡ some a → i < length xs
get_elem?-some [] i h = cc
get_elem?-some (x ∷ xs) zero h = omega arith
get_elem?-some (x ∷ xs) (suc i) h = omega (arith, get_elem?-some xs i h)

pub set_page-IsValid : {s : Pmem} (p : ℕ) (t : PageType) → IsValid s → IsValid (set_page s p t).1
unfolding set_page
set_page-IsValid {s} p t v = ground (arith, length-set s.pages p t)

pub total-set_page :
    (s : Pmem) (p : ℕ) (t : PageType) → (set_page s p t).1.total_of_pages ≡ s.total_of_pages
unfolding set_page
total-set_page s p t = ground arith

-- `written` at the page that is set, entry by entry of the list.
written-set :
    (xs : List PageType) (p : ℕ) (t : PageType)
    → holds (get_elem? xs p) system ≡ false
    → get_elem? (set xs p t) p ≡ written (get_elem? xs p) t
written-set [] p t h = refl
written-set (free ∷ xs) zero t h = refl
written-set (system ∷ xs) zero t h = cc
written-set (user ∷ xs) zero t h = refl
written-set (x ∷ xs) (suc p) t h = written-set xs p t h

written-system : (o : Option PageType) (t : PageType) → holds o system ≡ true → o ≡ written o t
written-system none t h = refl
written-system (some free) t h = cc
written-system (some system) t h = refl
written-system (some user) t h = cc

-- The array after `pmem_set_page`, entry by entry.
pub pages-set_page :
    {s : Pmem} (p q : ℕ) (t : PageType)
    → IsValid s
    → get_elem? (set_page s p t).1.pages q
      ≡ (if p == q then written (get_elem? s.pages q) t else get_elem? s.pages q)
unfolding set_page
pages-set_page {s} p q t v = elim (Bool-cases (leb s.total_of_pages p)) [
  | inl out ↦ elim (Bool-cases (p == q)) [
    | inl e ↦ rw (out, e) (rw (get_elem?-none s.pages q (ground arith)))
    | inr e ↦ rw (out, e)
  ]
  | inr more ↦ elim (Bool-cases (holds (get_elem? s.pages p) system)) [
    | inl sys ↦ elim (Bool-cases (p == q)) [
      | inl e ↦ rw (more, sys, e) (written-system _ t (rw (==_eq p q e) at sys))
      | inr e ↦ rw (more, sys, e)
    ]
    | inr ok ↦ elim (Bool-cases (p == q)) [
      | inl e ↦
          rw (more, ok, e)
            (subst (λ k. get_elem? (set s.pages p t) k ≡ written (get_elem? s.pages k) t)
              (==_eq p q e) (written-set s.pages p t ok))
      | inr e ↦ rw (more, ok, e) (get_elem?-set_ne s.pages p q t (ground arith))
    ]
  ]
]

-- `pmem_set_page` answers false exactly when the page lies outside the memory.
pub set_page-done : (s : Pmem) (p : ℕ) (t : PageType) → (set_page s p t).0 ≡ ltb p s.total_of_pages
unfolding set_page
set_page-done s p t = ground arith

-- No write ever changes a SYSTEM page.
pub set_page-system :
    (s : Pmem) (p q : ℕ) (t : PageType)
    → get_elem? s.pages q ≡ some system
    → get_elem? (set_page s p t).1.pages q ≡ some system
unfolding set_page
set_page-system s p q t h = ground (arith, get_elem?-set_ne s.pages p q t)
