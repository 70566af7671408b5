-- ===== src/Translation/Operations.antt =====
-- Every operation of the virtual memories keeps the maps and the calls of native_vmem_set in step.
use bubackos.Prelude.{
  ℕ, zero, suc, ◌+◌, ◌/◌, ◌||◌, ◌≡◌, Bool, true, false, Option, some, none, List, [], ◌∷◌, inl, inr,
  Bool-cases, ◌==◌, if◌then◌else◌, system_page_size,
}
use mathlib.Core.Path.{subst}
use bubackos.Pmem.{allocate}
use bubackos.VirtualMemory.{
  Memory, Vmem, VmemRegion, vmem_notify_change, kalloc, put_vmem, put_region, attach_pages,
  append_region, append_attached, detach, vmem_attach, attach_all, iterated, found,
}
use bubackos.VirtualMemory.Regions.{
  notify_all, keep_page, vmem_region_assoc_physical_address, map_loop,
  vmem_region_map_physical_address, find_next_memory_address, resize_loop, set_size,
  vmem_region_resize, add_region, complete, make_region, attach_fails, vmem_region_create,
}
use bubackos.Translation.Steps.{InStep, notify_change-InStep}

pub record AllInStep (k : Memory) : Type 0 where
  pub each : (u : ℕ) → InStep (k.vmems u).map (k.vmems u).native_vmem

-- Where an operation ends
pub After {ℓ} : {A : Type ℓ} → Option (A × Memory) → Type 0
After none = Unit
After (some (a, k)) = AllInStep k

pub After-none {ℓ} : (A : Type ℓ) → After {A = A} none
unfolding After
After-none A = tt

pub After-some {ℓ} : {A : Type ℓ} (a : A) (k : Memory) → AllInStep k → After (some (a, k))
unfolding After
After-some a k s = s

pub After-AllInStep {ℓ} :
    {A : Type ℓ} (o : Option (A × Memory)) (a : A) (k : Memory)
    → After o
    → o ≡ some (a, k)
    → AllInStep k
unfolding After
After-AllInStep o a k s e = subst After e s

pub if_cases {ℓ κ} :
    {A : Type ℓ} (P : A → Type κ) (b : Bool) (x y : A) → P x → P y → P (if b then x else y)
if_cases P true x y p q = p
if_cases P false x y p q = q

pub put_vmem-AllInStep :
    (k : Memory) (v : ℕ) (x : Vmem)
    → AllInStep k
    → InStep x.map x.native_vmem
    → AllInStep (put_vmem v x k)
unfolding put_vmem
put_vmem-AllInStep k v x s i = record {
  each =
      λ u. if_cases (λ (z : Vmem). InStep z.map z.native_vmem) (v == u) x (k.vmems u) i (s.each u);
}

put_region-AllInStep :
    (k : Memory) (r : ℕ) (x : VmemRegion) → AllInStep k → AllInStep (put_region r x k)
unfolding put_region
put_region-AllInStep k r x s = record { each = s.each }

kalloc-AllInStep : (k : Memory) → AllInStep k → AllInStep (kalloc k).1
unfolding kalloc
kalloc-AllInStep k s = record { each = s.each }

notify-AllInStep :
    (k : Memory) (v r p a : ℕ) → AllInStep k → AllInStep (vmem_notify_change k v r p a).1
notify-AllInStep k v r p a s = record { each = λ u. notify_change-InStep k v r p a u (s.each u) }

attach_pages-AllInStep :
    (pages : List ℕ) (k : Memory) (v r a : ℕ)
    → AllInStep k
    → AllInStep (attach_pages k v r pages a).1
unfolding attach_pages
attach_pages-AllInStep [] k v r a s = s
attach_pages-AllInStep (p ∷ pages) k v r a s =
    if_cases (λ (z : Bool × Memory). AllInStep z.1) (vmem_notify_change k v r p a).0 _ _
      (attach_pages-AllInStep pages (vmem_notify_change k v r p a).1 v r _
        (notify-AllInStep k v r p a s))
      (notify-AllInStep k v r p a s)

append_region-AllInStep : (k : Memory) (v r : ℕ) → AllInStep k → AllInStep (append_region k v r).1
unfolding append_region
append_region-AllInStep k v r s =
    let s1 = kalloc-AllInStep k s in
    if_cases (λ (z : Bool × Memory). AllInStep z.1) ((kalloc k).0 == 0) _ _ s1
      (put_vmem-AllInStep (kalloc k).1 v _ s1 (s1.each v))

append_attached-AllInStep :
    (k : Memory) (r v : ℕ) → AllInStep k → AllInStep (append_attached k r v).1
unfolding append_attached
append_attached-AllInStep k r v s =
    let s1 = kalloc-AllInStep k s in
    if_cases (λ (z : Bool × Memory). AllInStep z.1) ((kalloc k).0 == 0) _ _ s1
      (put_region-AllInStep (kalloc k).1 r _ s1)

pub detach-AllInStep : (k : Memory) (v r : ℕ) → AllInStep k → AllInStep (detach k v r)
unfolding detach
detach-AllInStep k v r s = put_region-AllInStep _ r _ (put_vmem-AllInStep k v _ s (s.each v))

pub vmem_attach-AllInStep : (k : Memory) (v r : ℕ) → AllInStep k → AllInStep (vmem_attach k v r).1
unfolding vmem_attach
vmem_attach-AllInStep k v r s =
    let s1 = append_region-AllInStep k v r s in
    let k1 = (append_region k v r).1 in
    let s2 = append_attached-AllInStep k1 r v s1 in
    let k2 = (append_attached k1 r v).1 in
    let x = k2.regions r in
    let s3 = attach_pages-AllInStep (iterated x.pages) k2 v r x.start s2 in
    elim (Bool-cases ((v == 0) || (r == 0))) [
      | inl a ↦ rw a s
      | inr a ↦ elim (Bool-cases (found r (iterated (k.vmems v).regions))) [
        | inl b ↦ rw (a, b) s
        | inr b ↦ elim (Bool-cases (append_region k v r).0) [
          | inr c ↦ rw (a, b, c) (detach-AllInStep k1 v r s1)
          | inl c ↦ elim (Bool-cases (append_attached k1 r v).0) [
            | inr d ↦ rw (a, b, c, d) (detach-AllInStep k2 v r s2)
            | inl d ↦ elim (Bool-cases (attach_pages k2 v r (iterated x.pages) x.start).0) [
              | inl e ↦ rw (a, b, c, d, e) s3
              | inr e ↦ rw (a, b, c, d, e) (detach-AllInStep _ v r s3)
            ]
          ]
        ]
      ]
    ]

pub attach_all-AllInStep :
    (rs : List ℕ) (k : Memory) (v : ℕ) → AllInStep k → AllInStep (attach_all k v rs).1
unfolding attach_all
attach_all-AllInStep [] k v s = s
attach_all-AllInStep (r ∷ rs) k v s =
    let s1 = vmem_attach-AllInStep k v r s in
    if_cases (λ (z : Bool × Memory). AllInStep z.1) (vmem_attach k v r).0 _ _
      (attach_all-AllInStep rs (vmem_attach k v r).1 v s1) s1

notify_all-AllInStep :
    (vs : List ℕ) (k : Memory) (r p a : ℕ) → AllInStep k → AllInStep (notify_all k vs r p a).1
unfolding notify_all
notify_all-AllInStep [] k r p a s = s
notify_all-AllInStep (v ∷ vs) k r p a s =
    let s1 = notify-AllInStep k v r p a s in
    if_cases (λ (z : Bool × Memory). AllInStep z.1) (vmem_notify_change k v r p a).0 _ _
      (notify_all-AllInStep vs (vmem_notify_change k v r p a).1 r p a s1) s1

keep_page-AllInStep : (k : Memory) (r p : ℕ) → AllInStep k → AllInStep (keep_page k r p)
unfolding keep_page
keep_page-AllInStep k r p s =
    let s1 = kalloc-AllInStep k s in
    if_cases AllInStep ((kalloc k).0 == 0) _ _ s1 (put_region-AllInStep (kalloc k).1 r _ s1)

assoc-AllInStep :
    (k : Memory) (r p : ℕ) → AllInStep k → AllInStep (vmem_region_assoc_physical_address k r p).1
unfolding vmem_region_assoc_physical_address
assoc-AllInStep k r p s =
    notify_all-AllInStep _ _ r p _ (keep_page-AllInStep _ r p (put_region-AllInStep k r _ s))

map_loop-After :
    (n : ℕ) (k : Memory) (r first p remaining answer : ℕ)
    → AllInStep k
    → After (map_loop n k r first p remaining answer)
unfolding map_loop
map_loop-After zero k r first p remaining answer s = After-none ℕ
map_loop-After (suc n) k r first p remaining answer s =
    let s1 = assoc-AllInStep k r p s in
    if_cases After (remaining == 0) _ _ (After-some answer k s) (
      if_cases After ((vmem_region_assoc_physical_address k r p).0 == 0) _ _ (After-some 0 _ s1)
        (map_loop-After n _ r first _ _ _ (put_region-AllInStep _ r _ s1)))

pub map_physical-After :
    (k : Memory) (r first size : ℕ)
    → AllInStep k
    → After (vmem_region_map_physical_address k r first size)
unfolding vmem_region_map_physical_address
map_physical-After k r first size s = if_cases After _ _ _ (After-some 0 k s) (
    if_cases After _ _ _ (After-some 0 k s)
      (map_loop-After (size / system_page_size + 1) k r first first size 0 s))

resize_loop-After :
    (n : ℕ) (k : Memory) (r space : ℕ) → AllInStep k → After (resize_loop n k r space)
unfolding resize_loop
resize_loop-After zero k r space s = After-none Bool
resize_loop-After (suc n) k r space s =
    let k1 = record k { pmem = (allocate k.pmem).1 } in
    let s1 : AllInStep k1 = record { each = s.each } in
    if_cases After (space == 0) _ _ (After-some true k s) (
      if_cases After ((allocate k.pmem).0 == 0) _ _ (After-some false k1 s1)
        (resize_loop-After n _ r _ (assoc-AllInStep k1 r (allocate k.pmem).0 s1)))

set_size-AllInStep : (k : Memory) (r n : ℕ) → AllInStep k → AllInStep (set_size k r n)
unfolding set_size
set_size-AllInStep k r n s = if_cases AllInStep _ _ _ (put_region-AllInStep k r _ s) s

-- An operation that goes on where another one ended
goes_on_lem {ℓ κ} :
    {A : Type ℓ} {B : Type κ} (o : Option (A × Memory)) (f : A × Memory → Option (B × Memory))
    → After o
    → ((a : A) (k : Memory) → AllInStep k → After (f (a, k)))
    → After (elim o [ none ↦ none | some r ↦ f r ])
unfolding After
goes_on_lem none f s h = tt
goes_on_lem (some (a, k)) f s h = h a k s

pub resize-After : (k : Memory) (r n : ℕ) → AllInStep k → After (vmem_region_resize k r n)
unfolding vmem_region_resize
resize-After k r n s = if_cases After (r == 0) _ _ (After-some false k s) (
    if_cases After _ _ _
      (After-some true _ (set_size-AllInStep _ r n (put_region-AllInStep k r _ s)))
      (goes_on_lem _ (λ z. some (z.0, set_size z.1 r n)) (resize_loop-After _ k r _ s)
        (λ a k' s'. After-some a _ (set_size-AllInStep k' r n s'))))

add_region-AllInStep : (k : Memory) (r : ℕ) → AllInStep k → AllInStep (add_region k r).1
unfolding add_region kalloc
add_region-AllInStep k r s =
    if_cases (λ (z : ℕ × Memory). AllInStep z.1) _ (0, _) (r, _)
      (put_region-AllInStep _ r _ (record { each = s.each }))
      (put_region-AllInStep _ r _ (record { each = s.each }))

complete-After : (k : Memory) (r size : ℕ) → AllInStep k → After (complete k r size)
unfolding complete
complete-After k r size s =
    goes_on_lem (vmem_region_resize k r size)
      (λ z. some (if z.0 then add_region z.1 r else (0, z.1))) (resize-After k r size s)
      (λ a k' s'. After-some _ _ (
        if_cases (λ (z : ℕ × Memory). AllInStep z.1) a (add_region k' r) (0, k')
          (add_region-AllInStep k' r s') s'))

attach_fails-After : (k : Memory) (v r : ℕ) → AllInStep k → After (attach_fails k v r)
unfolding attach_fails
attach_fails-After k v r s = if_cases After _ _ _ (After-none ℕ) (
    After-some 0 _ (detach-AllInStep (append_region k v r).1 v r (append_region-AllInStep k v r s)))

make_region-After :
    (k : Memory) (v name start size : ℕ) (user writable executable : Bool)
    → AllInStep k
    → After (make_region k v name start size user writable executable)
unfolding make_region kalloc
make_region-After k v name start size user writable executable s =
    let s4 =
      put_region-AllInStep (record k { answers = λ i. k.answers (i + 1 + 1 + 1) }) (k.answers 0)
        (record {
          vmem_region_id = 0;
          attached = [];
          name = name;
          start = start;
          size = 0;
          allocated_size = 0;
          user = user;
          writable = writable;
          executable = executable;
          pages = [];
        })
        (record { each = s.each }) in
    let s5 = vmem_attach-AllInStep _ v (k.answers 0) s4 in
    if_cases After (k.answers 0 == 0) _ _ (After-some 0 _ (record { each = s.each })) (
      if_cases After (k.answers 2 == 0) _ _ (attach_fails-After _ v (k.answers 0) s4) (
        if_cases After _ _ _ (After-none ℕ)
          (if_cases After _ _ _ (complete-After _ (k.answers 0) size s5) (After-some 0 _ s5))))

find_next-AllInStep :
    (k : Memory) (v : ℕ) → AllInStep k → AllInStep (find_next_memory_address k v).1
unfolding find_next_memory_address
find_next-AllInStep k v s = put_vmem-AllInStep k v _ s (s.each v)

pub region_create-After :
    (k : Memory) (v name start size : ℕ) (user writable executable : Bool)
    → AllInStep k
    → After (vmem_region_create k v name start size user writable executable)
unfolding vmem_region_create
region_create-After k v name start size user writable executable s =
    let z = if start == 0 then find_next_memory_address k v else (start, k) in
    let s' =
      if_cases (λ (x : ℕ × Memory). AllInStep x.1) (start == 0) (find_next_memory_address k v)
        (start, k) (find_next-AllInStep k v s) s in
    if_cases After ((v == 0) || (name == 0)) _ _ (After-some 0 k s) (
      if_cases After _ _ _ (After-some 0 z.1 s')
        (make_region-After z.1 v name z.0 size user writable executable s'))
