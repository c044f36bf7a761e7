-- ===== src/Heap.antt =====
-- kernel/memory/heap.c, with the types of kernel/include/memory/heap.h. The block table lies in the
-- byte memory, so a write behind its end is a write to whatever stands there.
pub mod Find
pub mod Mark
pub mod Alloc
pub mod Table
pub mod Free
pub mod Wrap
pub mod Create
mod Tests
use Prim.Native.Nat.{bit_and, bit_or}
use enki_os.Base.{
  ℕ, zero, suc, ◌+◌, ◌-◌, ◌*◌, ◌/◌, ◌%◌, ◌^◌, Bool, ◌||◌, not, ltb, ◌==◌, if◌then◌else◌,
}
use enki_os.Base.Int.{ℤ, pos, negsuc, ◌-ℤ◌, ◌==ℤ◌, is_neg, pos_part, suc_ℤ}
use enki_os.Base.Memory.{Memory, store}
use enki_os.Base.Word.{u32}
use enki_os.Libc.Bytes.{memset}
use enki_os.Status.{einvarg, enomem, heap_block_size}

abbrev pub entry_free : ℕ
entry_free = 0x00

abbrev pub entry_taken : ℕ
entry_taken = 0x01

abbrev pub has_next : ℕ
has_next = 0b10000000

abbrev pub is_first : ℕ
is_first = 0b01000000

-- `struct heap_table`: the address of the entries, a byte each, and their number.
pub record HeapTable : Type 0 where
  pub entries : ℕ
  pub length : ℕ

-- `struct heap`
pub record Heap : Type 0 where
  pub table : HeapTable
  pub start_addr : ℕ

unfoldable pub heap_validate_table : ℕ → ℕ → HeapTable → ℤ
heap_validate_table start_addr end_addr table =
    let table_size = u32 (end_addr + 2 ^ 32 - start_addr) in
    let total_blocks = table_size / heap_block_size in
    if table.length == total_blocks then pos 0 else einvarg

unfoldable pub heap_validate_align : ℕ → Bool
heap_validate_align ptr = ptr % heap_block_size == 0

-- The status, the heap and the memory; a heap that the alignment test refuses is left alone.
unfoldable pub heap_create : Heap → ℕ → ℕ → HeapTable → Memory → ℤ × Heap × Memory
unfolding heap_validate_align heap_validate_table
heap_create heap start_addr end_addr table m =
    if not (heap_validate_align start_addr) || not (heap_validate_align end_addr)
    then (einvarg, heap, m)
    else let made : Heap = record { table = table; start_addr = start_addr } in
      let result = heap_validate_table start_addr end_addr table in
      if is_neg result
      then (result, made, m)
      else (result, made, memset table.entries entry_free table.length m)

unfoldable pub heap_align_val : ℕ → ℕ
heap_align_val val =
    if val % heap_block_size == 0 then val else u32 (val - val % heap_block_size + heap_block_size)

unfoldable pub heap_get_entry_type : ℕ → ℕ
heap_get_entry_type entry = bit_and entry 0x0F

-- The search from block `i` on, with `n` blocks to go; the start is -1 while no block is free.
unfoldable pub find_loop : ℕ → HeapTable → ℕ → ℕ → ℕ → ℤ → Memory → ℤ
find_loop total_blocks table zero i current start m = start
find_loop total_blocks table (suc n) i current start m =
    let taken = find_loop total_blocks table n (i + 1) 0 (negsuc 0) m in
    let first = if start ==ℤ negsuc 0 then pos i else start in
    let more = find_loop total_blocks table n (i + 1) (current + 1) first m in
    if not (heap_get_entry_type (m (table.entries + i)) == entry_free)
    then taken
    else if current + 1 == total_blocks
    then first
    else more

unfoldable pub heap_get_start_block : Heap → ℕ → Memory → ℤ
unfolding find_loop
heap_get_start_block heap total_blocks m =
    let start = find_loop total_blocks heap.table heap.table.length 0 0 (negsuc 0) m in
    if start ==ℤ negsuc 0 then enomem else start

unfoldable pub heap_block_to_address : Heap → ℕ → ℕ
heap_block_to_address heap block = u32 (heap.start_addr + block * heap_block_size)

-- The difference of the addresses as an `int`, divided towards 0.
unfoldable pub heap_address_to_block : Heap → ℕ → ℤ
heap_address_to_block heap addr =
    let d = u32 (addr + 2 ^ 32 - heap.start_addr) in
    if ltb d (2 ^ 31)
    then pos (d / heap_block_size)
    else pos 0 -ℤ pos ((2 ^ 32 - d) / heap_block_size)

-- One round for each block from `i` to `end_block`.
unfoldable pub take_loop : ℕ → HeapTable → ℕ → ℕ → ℕ → Memory → Memory
take_loop zero table end_block i entry m = m
take_loop (suc n) table end_block i entry m =
    let next = if i + 1 == end_block then entry_taken else bit_or entry_taken has_next in
    take_loop n table end_block (i + 1) next (store m (table.entries + i) entry)

unfoldable pub heap_mark_blocks_taken : Heap → ℕ → ℕ → Memory → Memory
unfolding take_loop
heap_mark_blocks_taken heap start_block total_blocks m =
    let end_block = start_block + total_blocks - 1 in
    let entry = bit_or entry_taken is_first in
    let entry = if ltb 1 total_blocks then bit_or entry has_next else entry in
    take_loop total_blocks heap.table end_block start_block entry m

-- `&entries[i]`, for a negative index too.
abbrev pub entry_address : HeapTable → ℤ → ℕ
entry_address table (pos n) = table.entries + n
entry_address table (negsuc n) = u32 (table.entries + 2 ^ 32 - (n + 1))

unfoldable pub free_loop : ℕ → HeapTable → ℤ → Memory → Memory
free_loop zero table i m = m
free_loop (suc n) table i m =
    let entry = m (entry_address table i) in
    let freed = store m (entry_address table i) entry_free in
    let rest = free_loop n table (suc_ℤ i) freed in
    if bit_and entry has_next == 0 then freed else rest

unfoldable pub heap_mark_blocks_free : Heap → ℤ → Memory → Memory
unfolding free_loop
heap_mark_blocks_free heap start_block m =
    free_loop (pos_part (pos heap.table.length -ℤ start_block)) heap.table start_block m

-- The address, 0 if there is none, and the memory.
unfoldable pub heap_malloc_blocks : Heap → ℕ → Memory → ℕ × Memory
heap_malloc_blocks heap total_blocks m =
    let start_block = heap_get_start_block heap total_blocks m in
    if is_neg start_block then (0, m) else (
      heap_block_to_address heap (pos_part start_block),
      heap_mark_blocks_taken heap (pos_part start_block) total_blocks m,
    )

unfoldable pub heap_malloc : Heap → ℕ → Memory → ℕ × Memory
unfolding heap_align_val heap_malloc_blocks
heap_malloc heap size m =
    let aligned = heap_align_val size in heap_malloc_blocks heap (aligned / heap_block_size) m

unfoldable pub heap_free : Heap → ℕ → Memory → Memory
unfolding heap_address_to_block heap_mark_blocks_free
heap_free heap addr m = heap_mark_blocks_free heap (heap_address_to_block heap addr) m
