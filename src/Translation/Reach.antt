-- ===== src/Translation/Reach.antt =====
-- The states that the operations of the virtual memories lead to.
use bubackos.Prelude.{none, some, ℕ, ◌+◌, ◌≡◌, Bool, true, ◌==◌, not, List, [], ◌∷◌}
use bubackos.VirtualMemory.{
  Memory, kalloc, put_vmem, new_vmem, vmem_attach, attach_all, attach_kernel, attach_kernel_fails,
  detach, add_vmem, vmem_create, iterated,
}
use bubackos.VirtualMemory.Regions.{
  vmem_region_map_physical_address, vmem_region_resize, vmem_region_create,
}
use bubackos.Translation.Operations.{
  AllInStep, After, After-none, After-some, After-AllInStep, if_cases, put_vmem-AllInStep,
  detach-AllInStep, vmem_attach-AllInStep, attach_all-AllInStep, map_physical-After, resize-After,
  region_create-After,
}

attach_kernel-AllInStep : (k : Memory) (v : ℕ) → AllInStep k → AllInStep (attach_kernel k v).1
unfolding attach_kernel
attach_kernel-AllInStep k v s =
    if_cases (λ (z : Bool × Memory). AllInStep z.1) (k.kernel_vmem == 0) (true, k)
      (attach_all k v (iterated (k.vmems k.kernel_vmem).regions)) s
      (attach_all-AllInStep (iterated (k.vmems k.kernel_vmem).regions) k v s)

add_vmem-AllInStep : (k : Memory) (v : ℕ) → AllInStep k → AllInStep (add_vmem k v).1
unfolding add_vmem kalloc
add_vmem-AllInStep k v s =
    let s3 = put_vmem-AllInStep _ v _ (record { each = s.each }) (s.each v) in
    if_cases (λ (z : ℕ × Memory). AllInStep z.1) _ (0, _) (v, _) s3 s3

first_fails :
    (rs : List ℕ) (k : Memory) (v : ℕ)
    → AllInStep k
    → After {A = ℕ} (elim rs [ [] ↦ none | r ∷ rs' ↦ some (0, detach k v r) ])
first_fails [] k v s = After-none ℕ
first_fails (r ∷ rs) k v s = After-some 0 _ (detach-AllInStep k v r s)

attach_kernel_fails-After : (k : Memory) (v : ℕ) → AllInStep k → After (attach_kernel_fails k v)
unfolding attach_kernel_fails
attach_kernel_fails-After k v s =
    if_cases After _ _ _ (After-none ℕ)
      (first_fails (iterated (k.vmems k.kernel_vmem).regions) k v s)

vmem_create-After : (k : Memory) (native_ok : Bool) → AllInStep k → After (vmem_create k native_ok)
unfolding vmem_create kalloc
vmem_create-After k native_ok s =
    let v = k.answers 0 in
    let k4 = put_vmem v new_vmem (record k { answers = λ i. k.answers (i + 1 + 1 + 1) }) in
    let s4 = put_vmem-AllInStep _ v new_vmem (record { each = s.each }) tt in
    let s5 = attach_kernel-AllInStep k4 v s4 in
    if_cases After (v == 0) _ _ (After-some 0 _ (record { each = s.each })) (
      if_cases After (not native_ok) _ _ (After-some 0 k4 s4) (
        if_cases After (k.answers 1 == 0) _ _ (attach_kernel_fails-After k4 v s4) (
          if_cases After _ _ _ (After-none ℕ) (
            if_cases After (attach_kernel k4 v).0 (some (add_vmem (attach_kernel k4 v).1 v)) _
              (After-some _ _ (add_vmem-AllInStep (attach_kernel k4 v).1 v s5))
              (After-some 0 _ s5)))))

-- A call of one of the operations, with its answer
pub data Step : Memory → Memory → Type 0 where
  attached : (k : Memory) (vmem region : ℕ) → Step k (vmem_attach k vmem region).1
  created :
      {k k' : Memory} {answer : ℕ} (native_ok : Bool)
      → vmem_create k native_ok ≡ some (answer, k')
      → Step k k'
  region_created :
      {k k' : Memory} {answer : ℕ} (vmem name start size : ℕ) (user writable executable : Bool)
      → vmem_region_create k vmem name start size user writable executable ≡ some (answer, k')
      → Step k k'
  region_mapped :
      {k k' : Memory} {answer : ℕ} (region physical_start_addr size : ℕ)
      → vmem_region_map_physical_address k region physical_start_addr size ≡ some (answer, k')
      → Step k k'
  region_resized :
      {k k' : Memory} {answer : Bool} (region new_size : ℕ)
      → vmem_region_resize k region new_size ≡ some (answer, k')
      → Step k k'

pub data Reach (k : Memory) : Memory → Type 0 where
  here : Reach k k
  next : {k1 k2 : Memory} → Reach k k1 → Step k1 k2 → Reach k k2

Step-AllInStep : {k k' : Memory} → Step k k' → AllInStep k → AllInStep k'
Step-AllInStep (attached k v r) s = vmem_attach-AllInStep k v r s
Step-AllInStep {k} (created native_ok e) s =
    After-AllInStep _ _ _ (vmem_create-After k native_ok s) e
Step-AllInStep {k} (region_created v name start size u w x e) s =
    After-AllInStep _ _ _ (region_create-After k v name start size u w x s) e
Step-AllInStep {k} (region_mapped r first size e) s =
    After-AllInStep _ _ _ (map_physical-After k r first size s) e
Step-AllInStep {k} (region_resized r size e) s = After-AllInStep _ _ _ (resize-After k r size s) e

-- From a state in which the map of every virtual memory is in step with its calls of
-- `native_vmem_set`, every state that calls of vmem_attach, vmem_create, vmem_region_create,
-- vmem_region_map_physical_address and vmem_region_resize lead to, one after another, is one as well,
-- whether they succeed or fail. The calls are those that the model follows to their answer: they end
-- within their rounds, make no structure that goes on with a list that is NULL, and their calls of
-- kalloc grow no region.
pub Reach-AllInStep : {k k' : Memory} → Reach k k' → AllInStep k → AllInStep k'
Reach-AllInStep here s = s
Reach-AllInStep (next r t) s = Step-AllInStep t (Reach-AllInStep r s)
