-- ===== src/Process/Null.antt =====
-- process.c: a process's table of allocations, and process_free of the null pointer.
use Prim.Native.Nat.{bit_and}
use mathlib.Core.Option.{some_inj}
use enki_os.Base.{
  ℕ, zero, suc, ◌+◌, ◌≡◌, ◌∙◌, refl, ap, inl, inr, false, some, List, [], ◌∷◌, arith, ◌==◌,
  eq_of_==, Bool-cases, get_elem?,
}
use enki_os.Base.Int.{ℤ, pos, negsuc, suc_ℤ, ◌-ℤ◌, is_neg, pos_part}
use enki_os.Base.Memory.{Memory, store}
use enki_os.Base.Word.{u32}
use enki_os.Heap.{
  entry_address, entry_free, has_next, Heap, HeapTable, free_loop, heap_mark_blocks_free, heap_free,
  heap_address_to_block,
}
use enki_os.Kheap.{kernel_heap_table, kfree}
use enki_os.Kheap.Zeroed.{kernel_heap}
use enki_os.Paging.{map_loop, paging_map_range, paging_map_to, paging_align_address}
use enki_os.Process.Owned.{Clean, find_free-elem}
use enki_os.Process.Allocations.{
  Allocation, no_allocation, process_find_free_alloc, process_allocation_drop,
  process_get_allocation, free_allocation, process_free,
}

-- Freeing only clears entries.
free_loop-zero :
    (n : ℕ) (table : HeapTable) (i : ℤ) (m : Memory) (a : ℕ) → m a ≡ 0 → free_loop n table i m a ≡ 0
unfolding free_loop
free_loop-zero zero table i m a z = z
free_loop-zero (suc n) table i m a z =
    let freed = store m (entry_address table i) entry_free in
    let cleared : freed a ≡ 0 = ground arith in
    let rest = free_loop-zero n table (suc_ℤ i) freed a cleared in
    elim (Bool-cases (bit_and (m (entry_address table i)) has_next == 0)) [
      | inl e ↦ rw e cleared
      | inr e ↦ rw e rest
    ]

free_loop-first :
    (n : ℕ) (table : HeapTable) (i : ℤ) (m : Memory) (a : ℕ)
    → a ≡ entry_address table i
    → free_loop (suc n) table i m a ≡ 0
unfolding free_loop
free_loop-first n table i m a here =
    let freed = store m (entry_address table i) entry_free in
    let cleared : freed a ≡ 0 = ground arith in
    let rest = free_loop-zero n table (suc_ℤ i) freed a cleared in
    elim (Bool-cases (bit_and (m (entry_address table i)) has_next == 0)) [
      | inl e ↦ rw e cleared
      | inr e ↦ rw e rest
    ]

kfree-eq :
    (heap : Heap) (addr n : ℕ) (i : ℤ) (m : Memory)
    → heap_address_to_block heap addr ≡ i
    → pos_part (pos heap.table.length -ℤ i) ≡ n
    → kfree heap addr m ≡ free_loop n heap.table i m
unfolding kfree heap_free heap_mark_blocks_free
kfree-eq heap addr n i m e f = rw (e, f) refl

-- The block of the null pointer is the one with the index -4096.
null_block : heap_address_to_block kernel_heap 0 ≡ negsuc 4095
unfolding heap_address_to_block
null_block = refl

kfree-null : (m : Memory) → kfree kernel_heap 0 m 0x6E00 ≡ 0
kfree-null m =
    rw (kfree-eq kernel_heap 0 29696 (negsuc 4095) m null_block refl)
      (free_loop-first 29695 kernel_heap_table (negsuc 4095) m 0x6E00 refl)

get-null :
    (table : List Allocation) (j : ℕ) (a : Allocation)
    → Clean table
    → get_elem? table j ≡ some a
    → a.ptr ≡ 0
    → process_get_allocation 0 table ≡ some no_allocation
unfolding process_get_allocation
get-null [] j a clean h free = cc
get-null (b ∷ table) zero a (empty, clean) h free =
    let here = empty (ap (λ c. c.ptr) (some_inj.0 h) ∙ free) in rw here refl
get-null (b ∷ table) (suc j) a (empty, clean) h free =
    let rest = get-null table j a clean h free in
    elim (Bool-cases (b.ptr == 0)) [
      | inl e ↦ rw (e, empty (eq_of_== b.ptr 0 e)) refl
      | inr e ↦ rw e rest
    ]

process_get-null :
    (table : List Allocation)
    → Clean table
    → is_neg (process_find_free_alloc table) ≡ false
    → process_get_allocation 0 table ≡ some no_allocation
process_get-null table clean ok =
    let (a, at, free) = find_free-elem table ok in
    get-null table (pos_part (process_find_free_alloc table)) a clean at free

drop-null : (table : List Allocation) → Clean table → process_allocation_drop 0 table ≡ table
unfolding process_allocation_drop
drop-null [] clean = refl
drop-null (b ∷ table) (empty, clean) = elim (Bool-cases (b.ptr == 0)) [
  | inl e ↦ let none' = empty (eq_of_== b.ptr 0 e) in rw (e, drop-null table clean, none') refl
  | inr e ↦ rw (e, drop-null table clean) refl
]

aligned_zero : paging_align_address (u32 (0 + 0)) ≡ 0
unfolding paging_align_address
aligned_zero = refl

map_to-nothing : (dir flags : ℕ) (m : Memory) → paging_map_to dir 0 0 0 flags m ≡ (pos 0, m)
unfolding paging_map_to paging_map_range map_loop
map_to-nothing dir flags m = refl

-- A process with room in its table that frees the null pointer keeps its table, but a byte in front
-- of the kernel heap's table is cleared.
pub process_free_null :
    (dir : ℕ) (table : List Allocation) (m : Memory)
    → Clean table
    → is_neg (process_find_free_alloc table) ≡ false
    → ((process_free kernel_heap dir 0 table m).0 ≡ table)
      × ((process_free kernel_heap dir 0 table m).1 0x6E00 ≡ 0)
unfolding process_free free_allocation
process_free_null dir table m clean ok =
    rw (process_get-null table clean ok, aligned_zero, map_to-nothing dir 0 m)
      (drop-null table clean, kfree-null m)
