-- ===== src/Process/Owned.antt =====
-- process.c: a process's table of allocations, through process_malloc and process_free.

use mathlib.Core.Option.{some_inj}
use enki_os.Base.{
  ℕ, zero, suc, ◌+◌, ◌-◌, ◌/◌, ◌<◌, ◌≡◌, ◌∙◌, refl, sym, ap, inl, inr, false, some, List, [], ◌∷◌,
  arith, ◌==◌, eq_of_==, ==_self, Bool-cases, Option-cases, get_elem?, set,
}
use enki_os.Base.Int.{ℤ, pos, is_neg, pos_part}
use enki_os.Base.Memory.{Memory}
use enki_os.Base.Word.{u32}
use enki_os.Heap.{Heap}
use enki_os.Kheap.{kzalloc, kfree}
use enki_os.Paging.{
  page_size, paging_set, paging_map, map_loop, paging_map_range, paging_map_to,
  paging_align_address,
}
use enki_os.Process.{write_flags}
use enki_os.Process.Allocations.{
  Allocation, no_allocation, index_of_ptr, process_find_free_alloc, process_owns_ptr,
  process_allocation_drop, process_get_allocation, process_malloc, free_allocation, process_free,
}

-- Free entries are empty.
abbrev pub Clean : List Allocation → Type 0
Clean [] = Unit
Clean (a ∷ table) = (a.ptr ≡ 0 → a ≡ no_allocation) × Clean table

-- Whether pages can be mapped is a matter of the addresses.
map-status :
    (dir virt phys flags flags' : ℕ) (m m' : Memory)
    → (paging_map dir virt phys flags m).0 ≡ (paging_map dir virt phys flags' m').0
unfolding paging_map paging_set
map-status dir virt phys flags flags' m m' = ground arith

map_loop-status :
    (n : ℕ) (r : ℤ) (dir virt phys flags flags' : ℕ) (m m' : Memory)
    → (map_loop n r dir virt phys flags m).0 ≡ (map_loop n r dir virt phys flags' m').0
unfolding map_loop
map_loop-status zero r dir virt phys flags flags' m m' = refl
map_loop-status (suc n) r dir virt phys flags flags' m m' =
    let r' = (paging_map dir virt phys flags' m').0 in
    let rest =
      map_loop-status n r' dir (u32 (virt + page_size)) (u32 (phys + page_size)) flags flags'
        (paging_map dir virt phys flags m).1 (paging_map dir virt phys flags' m').1 in
    rw (map-status dir virt phys flags flags' m m')
      (elim (Bool-cases (is_neg r')) [ inl e ↦ rw e refl | inr e ↦ rw e rest ])

pub map_to-status :
    (dir virt phys end flags flags' : ℕ) (m m' : Memory)
    → (paging_map_to dir virt phys end flags m).0 ≡ (paging_map_to dir virt phys end flags' m').0
unfolding paging_map_to paging_map_range
map_to-status dir virt phys end flags flags' m m' =
    let loop = map_loop-status ((end - phys) / 4096) (pos 0) dir virt phys flags flags' m m' in
    ground (arith, loop)

-- What the search for an address finds.
index_of_ptr-elem :
    (ptr i : ℕ) (table : List Allocation) (k : ℕ)
    → index_of_ptr ptr i table ≡ some k
    → (j : ℕ) × (k ≡ i + j) × ((a : Allocation) × (get_elem? table j ≡ some a) × (a.ptr ≡ ptr))
unfolding index_of_ptr
index_of_ptr-elem ptr i [] k h = cc
index_of_ptr-elem ptr i (a ∷ table) k h = elim (Bool-cases (a.ptr == ptr)) [
  | inl e ↦
      let same : i ≡ k = some_inj.0 (rw e at h) in (0, omega arith, (a, refl, eq_of_== a.ptr ptr e))
  | inr e ↦
      let (j, at, found) = index_of_ptr-elem ptr (i + 1) table k (rw e at h) in
      (suc j, omega arith, found)
]

owns-cons :
    (ptr : ℕ) (b : Allocation) (table : List Allocation)
    → process_owns_ptr ptr (b ∷ table) ≡ false
    → ((b.ptr == ptr) ≡ false) × (process_owns_ptr ptr table ≡ false)
unfolding process_owns_ptr
owns-cons ptr b table fresh = elim (Bool-cases (b.ptr == ptr)) [
  | inl e ↦ cc (e, fresh)
  | inr e ↦ (e, rw e at fresh)
]

drop-absent :
    (ptr : ℕ) (table : List Allocation)
    → process_owns_ptr ptr table ≡ false
    → process_allocation_drop ptr table ≡ table
unfolding process_allocation_drop
drop-absent ptr [] fresh = refl
drop-absent ptr (b ∷ table) fresh =
    let (other, fresh') = owns-cons ptr b table fresh in
    rw (other, drop-absent ptr table fresh') refl

-- The entry that is set for a new allocation is found by its address, and dropping the address gives
-- the table back.
drop-set :
    (ptr size : ℕ) (table : List Allocation) (j : ℕ) (a : Allocation)
    → 0 < ptr
    → Clean table
    → process_owns_ptr ptr table ≡ false
    → get_elem? table j ≡ some a
    → a.ptr ≡ 0
    → (process_allocation_drop ptr (set table j (record { ptr = ptr; size = size })) ≡ table)
      × (process_get_allocation ptr (set table j (record { ptr = ptr; size = size }))
          ≡ some (record { ptr = ptr; size = size }))
unfolding process_allocation_drop process_get_allocation
drop-set ptr size [] j a positive clean fresh h free = cc
drop-set ptr size (b ∷ table) zero a positive clean fresh h free =
    let empty : b ≡ no_allocation = clean.0 (ap (λ c. c.ptr) (some_inj.0 h) ∙ free) in
    let (other, fresh') = owns-cons ptr b table fresh in
    rw (==_self ptr, drop-absent ptr table fresh', empty) (refl, refl)
drop-set ptr size (b ∷ table) (suc j) a positive clean fresh h free =
    let (other, fresh') = owns-cons ptr b table fresh in
    let (dropped, found) = drop-set ptr size table j a positive clean.1 fresh' h free in
    rw (other, dropped) (refl, found)

pub find_free-elem :
    (table : List Allocation)
    → is_neg (process_find_free_alloc table) ≡ false
    → (a : Allocation) × (get_elem? table (pos_part (process_find_free_alloc table)) ≡ some a)
      × (a.ptr ≡ 0)
unfolding process_find_free_alloc
find_free-elem table ok = elim (Option-cases (index_of_ptr 0 0 table)) [
  | inl e ↦ cc (rw e at ok)
  | inr (k, e) ↦
      let (j, at, found) = index_of_ptr-elem 0 0 table k e in
      let same : k ≡ j = omega arith in rw (e, same) found
]

-- What a call of `process_malloc` that answers `ptr` has done to the table.
process_malloc-set :
    (heap : Heap) (dir size : ℕ) (table : List Allocation) (m : Memory)
    → 0 < (process_malloc heap dir size table m).0
    → ((process_malloc heap dir size table m).0 ≡ (kzalloc heap size m).0)
      × ((process_malloc heap dir size table m).1
          ≡ set table
              (pos_part (process_find_free_alloc table))
              (record { ptr = (kzalloc heap size m).0; size = size }))
      × (is_neg (process_find_free_alloc table) ≡ false)
      × (is_neg
            (paging_map_to dir
              (kzalloc heap size m).0
              (kzalloc heap size m).0
              (paging_align_address (u32 ((kzalloc heap size m).0 + size)))
              write_flags
              (kzalloc heap size m).1).0
          ≡ false)
unfolding process_malloc
process_malloc-set heap dir size table m positive =
    let ptr = (kzalloc heap size m).0 in
    let mapped =
      paging_map_to dir ptr ptr (paging_align_address (u32 (ptr + size))) write_flags
        (kzalloc heap size m).1 in
    elim (Bool-cases (ptr == 0)) [
      | inl e ↦ absurd (omega (arith, rw e at positive))
      | inr e ↦ elim (Bool-cases (is_neg (process_find_free_alloc table))) [
        | inl f ↦ absurd (omega (arith, rw (e, f) at positive))
        | inr f ↦ elim (Bool-cases (is_neg mapped.0)) [
          | inl g ↦ absurd (omega (arith, rw (e, f, g) at positive))
          | inr g ↦ rw (e, f, g) (refl, refl, refl, refl)
        ]
      ]
    ]

free_allocation-mapped :
    (heap : Heap) (dir to_free : ℕ) (alloc : Allocation) (table : List Allocation) (m : Memory)
    → is_neg
        (paging_map_to dir alloc.ptr alloc.ptr
          (paging_align_address (u32 (alloc.ptr + alloc.size)))
          0
          m).0
      ≡ false
    → free_allocation heap dir to_free (some alloc) table m ≡ (
      process_allocation_drop to_free table,
      kfree heap to_free
          (paging_map_to dir alloc.ptr alloc.ptr
            (paging_align_address (u32 (alloc.ptr + alloc.size)))
            0
            m).1,
    )
unfolding free_allocation
free_allocation-mapped heap dir to_free alloc table m ok = rw ok refl

-- An allocation that a process is given is its own, with its size, and once it is freed, in any
-- memory, the process's table is what it was.
pub process_free-process_malloc :
    (heap : Heap) (dir size ptr : ℕ) (table : List Allocation) (m m' : Memory)
    → Clean table
    → (process_malloc heap dir size table m).0 ≡ ptr
    → 0 < ptr
    → process_owns_ptr ptr table ≡ false
    → (process_get_allocation ptr (process_malloc heap dir size table m).1
        ≡ some (record { ptr = ptr; size = size }))
      × ((process_free heap dir ptr (process_malloc heap dir size table m).1 m').0 ≡ table)
unfolding process_free
process_free-process_malloc heap dir size ptr table m m' clean e positive fresh =
    let (same, made, slot, mapped) = process_malloc-set heap dir size table m (omega (arith, e)) in
    let k : (kzalloc heap size m).0 ≡ ptr = sym same ∙ e in
    let (a, at, free) = find_free-elem table slot in
    let (dropped, found) =
      drop-set ptr size table (pos_part (process_find_free_alloc table)) a positive clean fresh at
        free in
    let made' : (process_malloc heap dir size table m).1
        ≡ set table (pos_part (process_find_free_alloc table)) (record { ptr = ptr; size = size }) =
      rw k at made in
    let pages : is_neg (paging_map_to dir ptr ptr (paging_align_address (u32 (ptr + size))) 0 m').0
        ≡ false =
      ap is_neg (
        map_to-status dir ptr ptr (paging_align_address (u32 (ptr + size))) 0 write_flags m'
          (kzalloc heap size m).1)
      ∙ rw k at mapped in
    rw (made', found)
      (
        refl,
        ap (λ r. r.0)
              (free_allocation-mapped heap dir ptr (record { ptr = ptr; size = size })
                (set table (pos_part (process_find_free_alloc table))
                  (record { ptr = ptr; size = size }))
                m' pages)
            ∙ dropped,
      )
