-- ===== src/Heap/Wrap.antt =====
-- heap_malloc of a size that the rounding wraps to 0 blocks.
use native.Mathlib.Nat.{add-zero, zero-add}
use enki_os.Base.{
  ℕ, zero, suc, ◌+◌, ◌-◌, ◌≤◌, ◌<◌, ◌^◌, ◌≡◌, ◌∙◌, ◌⊎◌, refl, ap, inl, inr, arith, false, ◌==◌,
  Bool-cases, if◌then◌else◌,
}
use enki_os.Base.Int.{ℤ, pos, negsuc, ◌==ℤ◌}
use enki_os.Base.Memory.{Memory}
use enki_os.Heap.{
  Heap, HeapTable, entry_free, heap_get_entry_type, heap_align_val, heap_block_to_address,
  find_loop, heap_get_start_block, heap_mark_blocks_taken, heap_malloc_blocks, heap_malloc,
}
use enki_os.Heap.Find.{IsFree}
use enki_os.Heap.Alloc.{malloc_blocks-eq}

module _ (table : HeapTable) (m : Memory) where
  -- No run starts behind block `i`.
  abbrev Starts : ℤ → ℕ → Type 0
  Starts start i = (start ≡ negsuc 0) ⊎ ((s : ℕ) × (start ≡ pos s) × (s ≤ i))

  Starts-first :
      (start : ℤ) (i : ℕ)
      → Starts start i
      → (s : ℕ) × ((if start ==ℤ negsuc 0 then pos i else start) ≡ pos s) × (s ≤ i)
  Starts-first start i (inl none) = (i, ground arith, omega arith)
  Starts-first start i (inr (s, e, le)) = (s, ground arith, le)

  -- The search for 0 blocks is never content: it runs to the end of the table.
  find_loop_zero :
      (k i c : ℕ) (start : ℤ)
      → Starts start i
      → IsFree table m (i + k)
      → (s : ℕ) × (find_loop 0 table (suc k) i c start m ≡ pos s) × (s ≤ i + k)
  unfolding find_loop
  find_loop_zero zero i c start st here =
      let (s, e, le) = Starts-first start i st in
      let free : heap_get_entry_type (m (table.entries + i)) ≡ entry_free =
        rw (add-zero i) at here in
      (s, ground arith, omega arith)
  find_loop_zero (suc k) i c start st here =
      elim (Bool-cases (heap_get_entry_type (m (table.entries + i)) == entry_free)) [
        | inr taken ↦
            let (s, e, le) = find_loop_zero k (i + 1) 0 (negsuc 0) (inl refl) (rw shift here) in
            (s, rw taken e, omega arith)
        | inl free ↦
            let (s0, f, le0) = Starts-first start i st in
            let (s, e, le) =
              find_loop_zero k (i + 1) (c + 1) (if start ==ℤ negsuc 0 then pos i else start)
                (inr (s0, f, omega arith)) (rw shift here) in
            (s, rw (free, not_zero) e, omega arith)
      ]
    where
      shift : i + 1 + k ≡ i + suc k
      shift = omega arith

      not_zero : (c + 1 == 0) ≡ false
      not_zero = ground arith

get_start_block_zero :
    (heap : Heap) (k : ℕ) (m : Memory)
    → heap.table.length ≡ suc k
    → IsFree heap.table m k
    → (s : ℕ) × (heap_get_start_block heap 0 m ≡ pos s) × (s ≤ k)
unfolding heap_get_start_block
get_start_block_zero heap k m e last =
    let (s, found, le) =
      find_loop_zero heap.table m k 0 0 (negsuc 0) (inl refl) (rw zero-add last) in
    (s, rw (e, found) (ground arith), omega arith)

malloc_blocks_zero :
    (heap : Heap) (s : ℕ) (m : Memory)
    → heap_get_start_block heap 0 m ≡ pos s
    → heap_malloc_blocks heap 0 m ≡ (heap_block_to_address heap s, m)
unfolding heap_mark_blocks_taken
malloc_blocks_zero heap s m e = malloc_blocks-eq heap 0 s m e

align_val_wraps : (size : ℕ) → 2 ^ 32 - 4096 < size → size < 2 ^ 32 → heap_align_val size ≡ 0
unfolding heap_align_val
align_val_wraps size lo hi = ground arith

malloc-eq_zero :
    (heap : Heap) (size : ℕ) (m : Memory)
    → heap_align_val size ≡ 0
    → heap_malloc heap size m ≡ heap_malloc_blocks heap 0 m
unfolding heap_malloc
malloc-eq_zero heap size m e = rw e

-- Above 2^32 - 4096 bytes the rounding wraps to no block at all. Where the last block is free,
-- `heap_malloc` still answers the address of a block of the heap, and takes nothing: no byte changes.
pub malloc_wraps :
    (heap : Heap) (size : ℕ) (m : Memory)
    → 2 ^ 32 - 4096 < size
    → size < 2 ^ 32
    → 0 < heap.table.length
    → IsFree heap.table m (heap.table.length - 1)
    → (s : ℕ) × (s < heap.table.length)
      × ((heap_malloc heap size m).0 ≡ heap_block_to_address heap s)
      × ((a : ℕ) → (heap_malloc heap size m).1 a ≡ m a)
malloc_wraps heap size m lo hi some last =
    let (s, found, le) = get_start_block_zero heap (heap.table.length - 1) m (omega arith) last in
    let none : heap_malloc heap size m ≡ (heap_block_to_address heap s, m) =
      malloc-eq_zero heap size m (align_val_wraps size lo hi) ∙ malloc_blocks_zero heap s m found in
    (s, omega arith, ap (λ r. r.0) none, λ a. ap (λ r. r.1 a) none)
