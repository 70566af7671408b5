-- ===== src/Multiboot/Entries.antt =====
-- The loop over the memory map goes over the entries and ends.
use bubackos.Prelude.{
  ℕ, zero, suc, ◌+◌, ◌*◌, ◌≡◌, ◌<◌, refl, ap, ◌∙◌, true, false, some, List, [], ◌∷◌, ◌++◌, arith,
  inl, inr, Bool-cases, ◌==◌, length, ltb,
}
use mathlib.Core.List.{append_assoc, append-nil}
use bubackos.Multiboot.{Bytes, Platform, read32, read64, handle_entry, mmap_loop, memory_available}
use bubackos.Multiboot.Layout.{MmapEntry, EntriesAt, segments_of}

abbrev pub reserve : List MmapEntry → Platform → Platform
reserve es p = record p { reserved_segments = p.reserved_segments ++ segments_of es }

entry-reserve :
    (m : Bytes) (a : ℕ) (e : MmapEntry) (es : List MmapEntry) (p : Platform)
    → (read64 m a ≡ e.addr) × (read64 m (a + 8) ≡ e.len) × (read32 m (a + 16) ≡ e.type)
    → reserve es (handle_entry m a p) ≡ reserve (e ∷ es) p
unfolding handle_entry segments_of
entry-reserve m a e es p (addr, len, type) = elim (Bool-cases (e.type == memory_available)) [
  | inl free ↦ rw (type, free) refl
  | inr kept ↦
      rw (type, addr, len, kept)
        (ap (λ s. record p { reserved_segments = s })
          (append_assoc p.reserved_segments (_ ∷ []) (segments_of es)))
]

pub mmap_loop-reserve :
    (n : ℕ) (m : Bytes) (a entry_size : ℕ) (es : List MmapEntry) (p : Platform)
    → length es < n
    → 0 < entry_size
    → EntriesAt m a entry_size es
    → mmap_loop n m a (a + entry_size * length es) entry_size p ≡ some (reserve es p)
unfolding mmap_loop segments_of
mmap_loop-reserve zero m a entry_size es p l z at = absurd (omega arith)
mmap_loop-reserve (suc n) m a entry_size [] p l z at =
    rw (done, append-nil p.reserved_segments) refl
  where
    done : ltb a (a + entry_size * 0) ≡ false
    done = ground arith
mmap_loop-reserve (suc n) m a entry_size (e ∷ es) p l z at = rw more (
    ap (λ b. mmap_loop n m (a + entry_size) b entry_size (handle_entry m a p)) next
    ∙ mmap_loop-reserve n m (a + entry_size) entry_size es (handle_entry m a p) (omega arith) z at.1
    ∙ ap some (entry-reserve m a e es p at.0))
  where
    more : ltb a (a + entry_size * suc (length es)) ≡ true
    more = ground (arith, z)

    next : a + entry_size * suc (length es) ≡ a + entry_size + entry_size * length es
    next = omega arith
