-- ===== src/VirtualMemory/Store.antt =====
-- What the steps of vmem/services.c do to the structures while `kalloc` has memory.
use bubackos.Prelude.{
  ℕ, ◌+◌, ◌≡◌, ◌≢◌, refl, sym, true, false, List, [], ◌∷◌, ◌++◌, ◌==◌, All, inl, inr, Bool-cases,
  ==_self, ==_ne, ==_eq,
}
use bubackos.VirtualMemory.{
  Memory, VmemMap, kalloc, put, put_vmem, iterated, found, vmem_notify_change,
}

-- `kalloc` never answers NULL.
abbrev pub Ample : Memory → Type 0
Ample k = (i : ℕ) → k.answers i ≢ 0

pub put_self {ℓ} : {A : Type ℓ} (a : ℕ) (x : A) (store : ℕ → A) → put a x store a ≡ x
put_self a x store = rw (==_self a) refl

pub put_other {ℓ} :
    {A : Type ℓ} (a b : ℕ) (x : A) (store : ℕ → A) → b ≢ a → put a x store b ≡ store b
put_other a b x store ne = rw (==_ne a b (λ e. ne (sym e))) refl

-- A list without NULL is iterated as a whole.
pub iterated_whole : (xs : List ℕ) → All (λ x. x ≢ 0) xs → iterated xs ≡ xs
unfolding iterated
iterated_whole [] h = refl
iterated_whole (x ∷ xs) h = rw (==_ne x 0 h.0, iterated_whole xs h.1) refl

pub found-absent : (v : ℕ) (xs : List ℕ) → All (λ u. u ≢ v) xs → found v xs ≡ false
unfolding found
found-absent v [] h = refl
found-absent v (x ∷ xs) h = rw (==_ne x v h.0) (found-absent v xs h.1)

-- The map that a page has
abbrev pub map_of : (region paddr vaddr : ℕ) → VmemMap
map_of region paddr vaddr = record { virtual_addr = vaddr; physical_addr = paddr; region = region }

-- What `vmem_notify_change` leaves: the map at the end of those of `vmem`, and all else as it was.
pub record Notified (vmem region paddr vaddr : ℕ) (k k' : Memory) : Type 0 where
  pub ample : Ample k'
  pub regions_kept : k'.regions ≡ k.regions
  pub pmem_kept : k'.pmem ≡ k.pmem
  pub mapped : (k'.vmems vmem).map ≡ (k.vmems vmem).map ++ (map_of region paddr vaddr ∷ [])
  pub others : (u : ℕ) → u ≢ vmem → (k'.vmems u).map ≡ (k.vmems u).map
  pub attached_kept : (u : ℕ) → (k'.vmems u).regions ≡ (k.vmems u).regions

notify_true :
    (k : Memory) (vmem region paddr vaddr : ℕ)
    → Ample k
    → (vmem_notify_change k vmem region paddr vaddr).0 ≡ true
unfolding vmem_notify_change kalloc
notify_true k vmem region paddr vaddr h =
    rw (==_ne (k.answers 0) 0 (h 0), ==_ne (k.answers 1) 0 (h 1)) refl

pub notify-Notified :
    (k : Memory) (vmem region paddr vaddr : ℕ)
    → Ample k
    → ((vmem_notify_change k vmem region paddr vaddr).0 ≡ true)
      × Notified vmem region paddr vaddr k (vmem_notify_change k vmem region paddr vaddr).1
unfolding vmem_notify_change kalloc put_vmem
notify-Notified k vmem region paddr vaddr h = (
  notify_true k vmem region paddr vaddr h,
  rw (==_ne (k.answers 0) 0 (h 0), ==_ne (k.answers 1) 0 (h 1))
      record {
        ample = λ i. h (i + 1 + 1);
        regions_kept = refl;
        pmem_kept = refl;
        mapped = rw (==_self vmem) refl;
        others = λ u ne. rw (==_ne vmem u (λ e. ne (sym e))) refl;
        attached_kept = λ u. elim (Bool-cases (vmem == u)) [
          | inl e ↦ rw (e, ==_eq vmem u e) refl
          | inr e ↦ rw e refl
        ];
      },
)
