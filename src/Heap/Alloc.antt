-- ===== src/Heap/Alloc.antt =====
-- heap_malloc_blocks, heap_malloc and heap_free: what they answer and what they write.
use enki_os.Base.{ℕ, ◌+◌, ◌-◌, ◌*◌, ◌/◌, ◌^◌, ◌≤◌, ◌<◌, ◌≡◌, ap, ◌⊎◌, refl, inl, inr, arith}
use enki_os.Base.Int.{pos}
use enki_os.Base.Memory.{Memory, Holds}
use enki_os.Heap.{
  Heap, heap_align_val, heap_block_to_address, heap_get_start_block, heap_mark_blocks_taken,
  heap_malloc_blocks, heap_malloc,
}
use enki_os.Heap.Find.{AllFree, NoFit, FirstFit, TooShort, IsFree, heap_get_start_block-Found}
use enki_os.Heap.Mark.{
  Written, used_bytes, IsTail, used_bytes-IsTail, heap_mark_blocks_taken-Written,
}

-- The heap's blocks end below 2^32, and there are at most 2^19 of them.
pub record Placed (heap : Heap) : Type 0 where
  pub ends : heap.start_addr + heap.table.length * 4096 ≤ 2 ^ 32
  pub few : heap.table.length ≤ 2 ^ 19

module _ (heap : Heap) where
  -- A search that finds a block is followed by the marking of the blocks from there on.
  pub malloc_blocks-eq :
      (total s : ℕ) (m : Memory)
      → heap_get_start_block heap total m ≡ pos s
      → heap_malloc_blocks heap total m
        ≡ (heap_block_to_address heap s, heap_mark_blocks_taken heap s total m)
  unfolding heap_malloc_blocks
  malloc_blocks-eq total s m e = rw e (ground arith)

  -- What `heap_malloc_blocks` has done with the run of blocks from `s` on.
  pub record Took (total s : ℕ) (m : Memory) (out : ℕ × Memory) : Type 0 where
    pub addr : out.0 ≡ heap_block_to_address heap s
    pub entries : Written (heap.table.entries + s) (used_bytes total) m out.1

  Took-eq :
      (total s : ℕ) (m : Memory)
      → heap_get_start_block heap total m ≡ pos s
      → Took total s m (heap_malloc_blocks heap total m)
  Took-eq total s m e =
      rw (malloc_blocks-eq total s m e)
        (record { addr = refl; entries = heap_mark_blocks_taken-Written heap s total m })

  -- Where the table has a run of `total` free blocks, `heap_malloc_blocks` takes the first such run:
  -- it answers the address of its first block, writes the entries of an allocation of `total` blocks
  -- over it, and changes no other byte.
  pub malloc_blocks_fit :
      (total s : ℕ) (m : Memory)
      → 0 < total
      → s + total ≤ heap.table.length
      → AllFree heap.table m s total
      → (s' : ℕ) × FirstFit heap.table m total heap.table.length s'
        × Took total s' m (heap_malloc_blocks heap total m)
  malloc_blocks_fit total s m positive le free =
      elim (heap_get_start_block-Found heap total m positive) [
        | inl (s', e, fit) ↦ (s', fit, Took-eq total s' m e)
        | inr (inl (e, none, last)) ↦ absurd (none s le free)
        | inr (inr (s', e, short)) ↦ absurd (TooShort.none short s le free)
      ]

  -- Where no run is long enough and the last block is taken, or there is none, `heap_malloc_blocks`
  -- answers 0 and changes nothing.
  pub malloc_blocks_refused :
      (total : ℕ) (m : Memory)
      → 0 < total
      → NoFit heap.table m total heap.table.length
      → ((heap.table.length ≡ 0) ⊎ ¬ IsFree heap.table m (heap.table.length - 1))
      → heap_malloc_blocks heap total m ≡ (0, m)
  unfolding heap_malloc_blocks
  malloc_blocks_refused total m positive none last =
      elim (heap_get_start_block-Found heap total m positive) [
        | inl (s, e, fit) ↦ absurd (none s fit.fits fit.free)
        | inr (inl (e, _, _)) ↦ rw e
        | inr (inr (s, e, short)) ↦ absurd (elim last [
          | inl z ↦ omega (arith, TooShort.below short)
          | inr taken ↦ taken (
              TooShort.free short _ (omega (arith, TooShort.below short))
                (omega (arith, TooShort.below short)))
        ])
      ]

  -- Where no run is long enough and the last block is free, `heap_malloc_blocks` does not refuse: it
  -- answers the address of the short run at the end, and writes the entries of all `total` blocks,
  -- so that the byte behind the end of the table becomes a taken entry.
  pub malloc_blocks_overrun :
      (total : ℕ) (m : Memory)
      → 0 < total
      → 0 < heap.table.length
      → NoFit heap.table m total heap.table.length
      → IsFree heap.table m (heap.table.length - 1)
      → (s : ℕ) × TooShort heap.table m total heap.table.length s
        × Took total s m (heap_malloc_blocks heap total m)
        × IsTail ((heap_malloc_blocks heap total m).1 (heap.table.entries + heap.table.length))
  malloc_blocks_overrun total m positive some none last =
      elim (heap_get_start_block-Found heap total m positive) [
        | inl (s, e, fit) ↦ absurd (none s fit.fits fit.free)
        | inr (inl (e, _, z)) ↦
            absurd (elim z [ inl zero_blocks ↦ omega arith | inr taken ↦ taken last ])
        | inr (inr (s, e, short)) ↦ (
          s,
          short,
          Took-eq total s m e,
          behind s short (Written.holds (Took.entries (Took-eq total s m e))),
        )
      ]
    where
      behind :
          (s : ℕ)
          → TooShort heap.table m total heap.table.length s
          → Holds (heap_malloc_blocks heap total m).1 (heap.table.entries + s) (used_bytes total)
          → IsTail ((heap_malloc_blocks heap total m).1 (heap.table.entries + heap.table.length))
      behind s short h =
          let e : heap.table.entries + s + (heap.table.length - s)
              ≡ heap.table.entries + heap.table.length =
            omega (arith, TooShort.below short) in
          rw (← e) (
            used_bytes-IsTail total (heap.table.length - s) _ _
              (omega (arith, TooShort.below short))
              (omega (arith, TooShort.below short, TooShort.short short)) h)

-- Up to 2^32 - 4096 bytes, `heap_malloc` takes as many blocks as the size needs, rounded up.
pub malloc-blocks :
    (heap : Heap) (size : ℕ) (m : Memory)
    → size ≤ 2 ^ 32 - 4096
    → heap_malloc heap size m ≡ heap_malloc_blocks heap ((size + 4095) / 4096) m
unfolding heap_malloc
malloc-blocks heap size m le = ap (λ k. heap_malloc_blocks heap k m) (blocks_of size le)
  where
    blocks_of :
        (size : ℕ) → size ≤ 2 ^ 32 - 4096 → heap_align_val size / 4096 ≡ (size + 4095) / 4096
    blocks_of size le = ground arith
