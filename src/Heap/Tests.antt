-- ===== src/Heap/Tests.antt =====
-- Runs of the heap of four blocks, and the theorems at it.
use enki_os.Base.{ℕ, ◌+◌, ◌≡◌, ◌≤◌, ◌<◌, refl, inl, inr, arith, ◌==◌, leb, if◌then◌else◌}
use enki_os.Base.Int.{pos, negsuc}
use enki_os.Base.Memory.{Memory, SameOutside}
use enki_os.Status.{enomem, einvarg}
use enki_os.Heap.{
  Heap, HeapTable, heap_get_entry_type, heap_create, heap_get_start_block, heap_block_to_address,
  heap_mark_blocks_free, heap_malloc_blocks, heap_malloc, heap_free,
}
use enki_os.Heap.Find.{AllFree, FirstFit, TooShort, Found, heap_get_start_block-Found}
use enki_os.Heap.Mark.{IsTail}
use enki_os.Heap.Alloc.{
  Placed, Took, malloc_blocks_fit, malloc_blocks_refused, malloc_blocks_overrun, malloc-blocks,
}
use enki_os.Heap.Table.{Blocks, done, free, used, heap_malloc_blocks-Blocks}
use enki_os.Heap.Free.{free-Blocks, heap_free-heap_malloc_blocks}
use enki_os.Heap.Wrap.{malloc_wraps}
use enki_os.Heap.Create.{heap_create-Blocks, heap_create_refused}

abbrev table : HeapTable
table = record { entries = 100; length = 4 }

abbrev heap : Heap
heap = record { table = table; start_addr = 0x10000 }

abbrev empty : Memory
empty a = 0

-- The first two blocks are one allocation, the others are free.
abbrev half : Memory
half a = if a == 100 then 0xC1 else if a == 101 then 0x01 else 0

-- All four blocks are taken, one by one.
abbrev full : Memory
full a = if leb 100 a then 0x41 else 0

placed : Placed heap
placed = omega arith

half-Blocks : Blocks half 100 4
half-Blocks = used 2 2 (omega arith) refl (refl, (refl, tt)) (free refl (free refl done))

two_free : AllFree table half 2 2
unfolding heap_get_entry_type
two_free j lo hi = ground arith

no_three_in_half : (s : ℕ) → s + 3 ≤ 4 → AllFree table half s 3 → ⊥
unfolding heap_get_entry_type
no_three_in_half s le all = ground (arith, all 1)

no_one_in_full : (s : ℕ) → s + 1 ≤ 4 → AllFree table full s 1 → ⊥
unfolding heap_get_entry_type
no_one_in_full s le all = ground (arith, all s)

last_of_half : heap_get_entry_type (half 103) ≡ 0
unfolding heap_get_entry_type
last_of_half = refl

malloc_runs : (heap_malloc heap 5000 half).0 ≡ 0x12000
unfolding heap_malloc heap_get_start_block heap_block_to_address heap_get_entry_type
malloc_runs = refl

-- `kfree(0)` writes in front of the table.
free_null_writes_outside :
    heap_mark_blocks_free heap (negsuc 15) (λ a. if a == 84 then 0x41 else 0) 84 ≡ 0
unfolding heap_mark_blocks_free
free_null_writes_outside = refl

get_start_block_example : Found table half 2 4 enomem (heap_get_start_block heap 2 half)
get_start_block_example = heap_get_start_block-Found heap 2 half (omega arith)

malloc_blocks_fit_example :
    (s : ℕ) × FirstFit table half 2 4 s × Took heap 2 s half (heap_malloc_blocks heap 2 half)
malloc_blocks_fit_example = malloc_blocks_fit heap 2 2 half (omega arith) (omega arith) two_free

malloc_blocks_refused_example : heap_malloc_blocks heap 1 full ≡ (0, full)
unfolding heap_get_entry_type
malloc_blocks_refused_example =
    malloc_blocks_refused heap 1 full (omega arith) no_one_in_full (inr (λ f. ground arith))

malloc_blocks_overrun_example :
    (s : ℕ) × TooShort table half 3 4 s
    × Took heap 3 s half (heap_malloc_blocks heap 3 half)
    × IsTail ((heap_malloc_blocks heap 3 half).1 104)
malloc_blocks_overrun_example =
    malloc_blocks_overrun heap 3 half (omega arith) (omega arith) no_three_in_half last_of_half

malloc-blocks_example : heap_malloc heap 5000 half ≡ heap_malloc_blocks heap 2 half
malloc-blocks_example = malloc-blocks heap 5000 half (omega arith)

heap_malloc_blocks-Blocks_example : Blocks (heap_malloc_blocks heap 2 half).1 100 4
heap_malloc_blocks-Blocks_example =
    heap_malloc_blocks-Blocks heap 2 2 half (omega arith) (omega arith) two_free half-Blocks

free-Blocks_example :
    Blocks (heap_free heap (heap_block_to_address heap 0) half) 100 4
    × AllFree table (heap_free heap (heap_block_to_address heap 0) half) 0 2
free-Blocks_example =
    free-Blocks heap placed 0 2 2 half (omega arith) refl done (refl, (refl, tt))
      (free refl (free refl done))

heap_free-heap_malloc_blocks_example :
    heap_free heap (heap_malloc_blocks heap 2 half).0 (heap_malloc_blocks heap 2 half).1 102 ≡ 0
heap_free-heap_malloc_blocks_example =
    heap_free-heap_malloc_blocks heap placed 2 2 half 102 (omega arith) (omega arith) two_free
      half-Blocks

malloc_wraps_example :
    (s : ℕ) × (s < 4)
    × ((heap_malloc heap 0xFFFFFFFF half).0 ≡ heap_block_to_address heap s)
    × ((a : ℕ) → (heap_malloc heap 0xFFFFFFFF half).1 a ≡ half a)
malloc_wraps_example =
    malloc_wraps heap 0xFFFFFFFF half (omega arith) (omega arith) (omega arith) last_of_half

heap_create-Blocks_example :
    let (status, heap', m') = heap_create heap 0x10000 0x14000 table full in
    (status ≡ pos 0) × (heap' ≡ heap) × Blocks m' 100 4 × SameOutside 100 4 full m'
heap_create-Blocks_example = heap_create-Blocks heap 0x10000 0x14000 table full (omega arith)

heap_create_refused_example :
    ((heap_create heap 0x10001 0x14000 table full).0 ≡ einvarg)
    × ((heap_create heap 0x10001 0x14000 table full).2 ≡ full)
heap_create_refused_example =
    heap_create_refused heap 0x10001 0x14000 table full (inl (ground arith))
