-- ===== src/Translation/Steps.antt =====
-- The map of a virtual memory and the calls of native_vmem_set stay in step.
use bubackos.Prelude.{ℕ, ◌≡◌, refl, sym, ==_eq, List, [], ◌∷◌, ◌++◌, inl, inr, Bool-cases, ◌==◌}
use mathlib.Core.Path.{subst}
use bubackos.VirtualMemory.{Memory, VmemMap, PageMapEntry, vmem_notify_change, kalloc, put_vmem}

-- Each map has its entry, for one page.
abbrev pub InStep : List VmemMap → List PageMapEntry → Type 0
InStep [] [] = Unit
InStep [] (e ∷ es) = ⊥
InStep (m ∷ ms) [] = ⊥
InStep (m ∷ ms) (e ∷ es) =
    (e.virtual_addr ≡ m.virtual_addr)
    × (e.physical_addr ≡ m.physical_addr)
    × (e.size ≡ 4096)
    × InStep ms es

InStep-append :
    (ms : List VmemMap) (es : List PageMapEntry) (m : VmemMap) (e : PageMapEntry)
    → InStep ms es
    → e.virtual_addr ≡ m.virtual_addr
    → e.physical_addr ≡ m.physical_addr
    → e.size ≡ 4096
    → InStep (ms ++ (m ∷ [])) (es ++ (e ∷ []))
InStep-append [] [] m e s a b c = (a, b, c, tt)
InStep-append [] (x ∷ es) m e s a b c = absurd s
InStep-append (x ∷ ms) [] m e s a b c = absurd s
InStep-append (x ∷ ms) (y ∷ es) m e s a b c = (s.0, s.1, s.2, InStep-append ms es m e s.3 a b c)

-- Whatever memory `kalloc` answers, `vmem_notify_change` keeps the map and the calls of
-- `native_vmem_set` of every virtual memory in step: each map has its call, in the same order, with
-- the same addresses and the size of one page.
pub notify_change-InStep :
    (k : Memory) (vmem region paddr vaddr u : ℕ)
    → InStep (k.vmems u).map (k.vmems u).native_vmem
    → InStep
        ((vmem_notify_change k vmem region paddr vaddr).1.vmems u).map
        ((vmem_notify_change k vmem region paddr vaddr).1.vmems u).native_vmem
unfolding vmem_notify_change kalloc put_vmem
notify_change-InStep k vmem region paddr vaddr u s = elim (Bool-cases (k.answers 0 == 0)) [
  | inl none ↦ rw none s
  | inr one ↦ elim (Bool-cases (k.answers 1 == 0)) [
    | inl none ↦ rw (one, none) s
    | inr two ↦ elim (Bool-cases (vmem == u)) [
      | inl this ↦
          rw (one, two, this)
            (InStep-append (k.vmems vmem).map (k.vmems vmem).native_vmem _ _
              (subst (λ (w : ℕ). InStep (k.vmems w).map (k.vmems w).native_vmem)
                (sym (==_eq vmem u this)) s)
              refl refl refl)
      | inr other ↦ rw (one, two, other) s
    ]
  ]
]
