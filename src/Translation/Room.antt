-- ===== src/Translation/Room.antt =====
-- The entries of page tables with physical addresses below 2^48 fit into the 64-bit addresses.
use bubackos.Prelude.{
  ℕ, zero, suc, ◌+◌, ◌-◌, ◌*◌, ◌%◌, ◌^◌, ◌≡◌, ◌<◌, refl, sym, Bool, true, false, ◌||◌, ◌==◌,
  if◌then◌else◌, List, [], ◌∷◌, All, All-append, add64, word_mod, arith,
}
use mathlib.Core.Path.{subst}
use bubackos.PageTable.Writing.{Tables, entry_ptr}
use bubackos.Translation.Ranges.{Leaf}
use bubackos.Translation.Gather.{LeafFits}
use bubackos.Translation.Leaves.{leaves, leaves_loop}
use bubackos.Translation.Spans.{span, IsPlaced, next_base, entry_fits, below_IsPlaced}

abbrev pub HasPhysical : Tables → Type 0
HasPhysical tables = (t i : ℕ) → (tables t i).addr_12_shifted < 2 ^ 36

head-Fits :
    (b c : Bool) (l : Leaf) (ls : List Leaf)
    → LeafFits l
    → All LeafFits ls
    → All LeafFits (if b then (if c then l ∷ [] else ls) else [])
head-Fits true true l ls f g = (f, tt)
head-Fits true false l ls f g = g
head-Fits false c l ls f g = tt

loop-Fits :
    (n first rounds index base : ℕ) (tables : Tables) (t : ℕ) (below : ℕ → ℕ → List Leaf)
    → HasPhysical tables
    → ((t base index : ℕ) → IsPlaced n first base index → index < 512 → All LeafFits (below t base))
    → IsPlaced n first base index
    → index + rounds ≡ 512
    → All LeafFits (leaves_loop (suc n) below tables t rounds index base)
unfolding leaves_loop
loop-Fits n first zero index base tables t below s h p e = tt
loop-Fits n first (suc r) index base tables t below s h p e =
    let l : index < 512 = omega (arith, e) in
    let down : n ≡ suc n - 1 = omega arith in
    let (next, p', last) = next_base n first base index p l in
    let x = tables t index in
    All-append LeafFits _ _
      (head-Fits x.present ((suc n == 1) || x.entry_or_pat)
        (record { level = suc n; entry = x; vaddr = (base * 4096) % word_mod })
        (below (entry_ptr x) base) (entry_fits n first base index x.addr_12_shifted p l (s t index))
        (h (entry_ptr x) base index p l))
      (subst
        (λ m. All LeafFits (leaves_loop (suc n) below tables t r (suc index) (add64 base (span m))))
        down
        (subst (λ b. All LeafFits (leaves_loop (suc n) below tables t r (suc index) b)) (sym next)
          (loop-Fits n first r (suc index) (base + span n) tables t below s h p'
            (omega (arith, e)))))

pub leaves-Fits :
    (n first : ℕ) (tables : Tables) (t : ℕ)
    → HasPhysical tables
    → IsPlaced n first first 0
    → All LeafFits (leaves (suc n) tables t first)
unfolding leaves
leaves-Fits zero first tables t s p =
    loop-Fits zero first 512 0 first tables t (leaves 0 tables) s (λ t' b i p' l. tt) p refl
leaves-Fits (suc n) first tables t s p =
    loop-Fits (suc n) first 512 0 first tables t (leaves (suc n) tables) s
      (λ t' b i p' l. leaves-Fits n b tables t' s (below_IsPlaced n first b i p' l).0) p refl
