-- ===== src/Heap/Free.antt =====
-- heap_free: it undoes heap_malloc_blocks, and keeps the table well formed.
use enki_os.Base.{
  ℕ, zero, suc, ◌+◌, ◌-◌, ◌≤◌, ◌<◌, ◌≡◌, ◌∙◌, sym, ap, refl, inl, inr, arith, length,
  length-replicate, replicate, leb, Bool-cases,
}
use enki_os.Base.Int.{pos}
use enki_os.Base.Memory.{Memory, Holds, in_range}
use enki_os.Heap.{
  Heap, heap_get_entry_type, heap_block_to_address, heap_address_to_block, heap_malloc_blocks,
  heap_free,
}
use enki_os.Heap.Find.{AllFree, FirstFit}
use enki_os.Heap.Mark.{Written, used_bytes, length-used_bytes, heap_mark_blocks_free-Written}
use enki_os.Heap.Alloc.{Placed, malloc_blocks_fit}
use enki_os.Heap.Table.{Blocks, Blocks-same, Blocks-append, Blocks-clear, Blocks-zero}

-- The address of a block of the heap leads back to the block.
pub address_to_block-block_to_address :
    (heap : Heap) (s : ℕ)
    → Placed heap
    → s < heap.table.length
    → heap_address_to_block heap (heap_block_to_address heap s) ≡ pos s
unfolding heap_address_to_block heap_block_to_address
address_to_block-block_to_address heap s pl lt = ground (arith, pl.ends, pl.few)

pub length-zeros : (n : ℕ) → length (replicate {A = ℕ} n 0) ≡ n
length-zeros n = length-replicate {A = ℕ} n 0

pub Holds-zero : (m : Memory) (n p a : ℕ) → Holds m p (replicate n 0) → p ≤ a → a < p + n → m a ≡ 0
Holds-zero m zero p a h lo hi = absurd (omega arith)
Holds-zero m (suc n) p a h lo hi = elim (Bool-cases (leb a p)) [
  | inl first ↦ let e : a ≡ p = ground arith in rw e h.0
  | inr later ↦ Holds-zero m n (p + 1) a h.1 (ground arith) (omega arith)
]

module _ (heap : Heap) (pl : Placed heap) where
  -- `heap_free` of the address of an allocation clears its entries, and changes no other byte.
  pub free-Written :
      (s n : ℕ) (m : Memory)
      → 0 < n
      → s + n ≤ heap.table.length
      → Holds m (heap.table.entries + s) (used_bytes n)
      → Written
          (heap.table.entries + s)
          (replicate n 0)
          m
          (heap_free heap (heap_block_to_address heap s) m)
  unfolding heap_free
  free-Written s n m positive le h =
      rw (address_to_block-block_to_address heap s pl (omega arith))
        (heap_mark_blocks_free-Written heap s n m positive le h)

  -- `heap_free` of the address of an allocation of a well-formed table leaves a well-formed table, in
  -- which the allocation's blocks are free.
  pub free-Blocks :
      (s n rest : ℕ) (m : Memory)
      → 0 < n
      → s + n + rest ≡ heap.table.length
      → Blocks m heap.table.entries s
      → Holds m (heap.table.entries + s) (used_bytes n)
      → Blocks m (heap.table.entries + s + n) rest
      → Blocks
          (heap_free heap (heap_block_to_address heap s) m)
          heap.table.entries
          heap.table.length
        × AllFree heap.table (heap_free heap (heap_block_to_address heap s) m) s n
  unfolding heap_get_entry_type
  free-Blocks s n rest m positive e before h behind =
      let w = free-Written s n m positive (omega arith) h in
      (
        Blocks-append {k = n + rest}
            (Blocks-same before (λ a lo hi. w.same a (ground (arith, length-zeros n)))) refl
            (omega arith)
            (Blocks-append (Blocks-clear _ (heap.table.entries + s) n w.holds) refl refl
              (Blocks-same behind (λ a lo hi. w.same a (ground (arith, length-zeros n))))),
        λ j lo hi. ap heap_get_entry_type (
            Holds-zero _ n (heap.table.entries + s) (heap.table.entries + j) w.holds (omega arith)
              (omega arith)),
      )

  -- In a heap with a well-formed table, to take `total` blocks, at least one, where there is a run of
  -- free ones, and to free them again, restores every byte
  -- of the memory.
  pub heap_free-heap_malloc_blocks :
      (total s : ℕ) (m : Memory) (a : ℕ)
      → 0 < total
      → s + total ≤ heap.table.length
      → AllFree heap.table m s total
      → Blocks m heap.table.entries heap.table.length
      → heap_free heap (heap_malloc_blocks heap total m).0 (heap_malloc_blocks heap total m).1 a
        ≡ m a
  heap_free-heap_malloc_blocks total s m a positive le vacant b =
      let (s', fit, took) = malloc_blocks_fit heap total s m positive le vacant in
      let w = free-Written s' total _ positive fit.fits took.entries.holds in
      rw took.addr (elim (Bool-cases (in_range (heap.table.entries + s') total a)) [
        | inl within ↦
            Holds-zero _ total (heap.table.entries + s') a w.holds (ground arith) (ground arith)
            ∙ sym (was_zero s' fit (ground arith) (ground arith))
        | inr outside ↦
            w.same a (rw (length-zeros total) outside)
            ∙ took.entries.same a (rw (length-used_bytes total) outside)
      ])
    where
      was_zero :
          (s' : ℕ)
          → FirstFit heap.table m total heap.table.length s'
          → heap.table.entries + s' ≤ a
          → a < heap.table.entries + s' + total
          → m a ≡ 0
      was_zero s' fit lo hi =
          let e : heap.table.entries + (a - heap.table.entries) ≡ a = omega arith in
          rw (e) at (
            Blocks-zero (a - heap.table.entries) (omega (arith, FirstFit.fits fit)) b
              (FirstFit.free fit (a - heap.table.entries) (omega arith) (omega arith)))
