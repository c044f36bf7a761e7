-- ===== src/Process/Allocations.antt =====
-- kernel/task/process.c: the memory that a process allocates. Its table of allocations is a list of
-- 1024 entries, of which those with the address 0 are free; `dir` is its task's page directory.
use enki_os.Base.{
  ℕ, zero, suc, ◌+◌, ◌*◌, true, false, Bool, none, some, Option, List, [], ◌∷◌, ◌==◌, if◌then◌else◌,
  get_or, set,
}
use enki_os.Base.Int.{ℤ, pos, is_neg, pos_part}
use enki_os.Base.Memory.{Memory}
use enki_os.Base.Word.{u32, store32}
use enki_os.Status.{eio, enomem}
use enki_os.Libc.Text.{strncpy}
use enki_os.Heap.{Heap}
use enki_os.Kheap.{kzalloc, kfree}
use enki_os.Paging.{paging_map_to, paging_align_address}
use enki_os.Process.{write_flags}

pub record Allocation : Type 0 where
  pub ptr : ℕ
  pub size : ℕ

abbrev pub max_pgm_allocations : ℕ
max_pgm_allocations = 1024

abbrev pub no_allocation : Allocation
no_allocation = record { ptr = 0; size = 0 }

-- The index of the first entry with an address, from `i` on.
unfoldable pub index_of_ptr : ℕ → ℕ → List Allocation → Option ℕ
index_of_ptr ptr i [] = none
index_of_ptr ptr i (a ∷ table) =
    let rest = index_of_ptr ptr (i + 1) table in if a.ptr == ptr then some i else rest

abbrev pub index_or_enomem : Option ℕ → ℤ
index_or_enomem none = enomem
index_or_enomem (some i) = pos i

unfoldable pub process_find_free_alloc : List Allocation → ℤ
process_find_free_alloc table = index_or_enomem (index_of_ptr 0 0 table)

unfoldable pub process_owns_ptr : ℕ → List Allocation → Bool
process_owns_ptr ptr [] = false
process_owns_ptr ptr (a ∷ table) = if a.ptr == ptr then true else process_owns_ptr ptr table

unfoldable pub process_allocation_drop : ℕ → List Allocation → List Allocation
process_allocation_drop ptr [] = []
process_allocation_drop ptr (a ∷ table) =
    let rest = process_allocation_drop ptr table in
    (if a.ptr == ptr then no_allocation else a) ∷ rest

unfoldable pub process_get_allocation : ℕ → List Allocation → Option Allocation
process_get_allocation addr [] = none
process_get_allocation addr (a ∷ table) =
    let rest = process_get_allocation addr table in if a.ptr == addr then some a else rest

-- The address, 0 if there is none, the table and the memory.
unfoldable pub process_malloc :
    Heap → ℕ → ℕ → List Allocation → Memory → ℕ × List Allocation × Memory
process_malloc heap dir size table m =
    let (ptr, m') = kzalloc heap size m in
    let idx = process_find_free_alloc table in
    let phys_end = paging_align_address (u32 (ptr + size)) in
    let mapped = paging_map_to dir ptr ptr phys_end write_flags m' in
    if ptr == 0
    then (0, table, m')
    else if is_neg idx
    then (0, table, kfree heap ptr m')
    else if is_neg mapped.0
    then (0, table, kfree heap ptr mapped.1)
    else (ptr, set table (pos_part idx) (record { ptr = ptr; size = size }), mapped.1)

-- The pages of an allocation that is found are unmapped, it is dropped, and its memory is freed.
unfoldable pub free_allocation :
    Heap → ℕ → ℕ → Option Allocation → List Allocation → Memory → List Allocation × Memory
free_allocation heap dir to_free none table m = (table, m)
free_allocation heap dir to_free (some alloc) table m =
    let phys_end = paging_align_address (u32 (alloc.ptr + alloc.size)) in
    let mapped = paging_map_to dir alloc.ptr alloc.ptr phys_end 0x00 m in
    if is_neg mapped.0
    then (table, mapped.1)
    else (process_allocation_drop to_free table, kfree heap to_free mapped.1)

unfoldable pub process_free : Heap → ℕ → ℕ → List Allocation → Memory → List Allocation × Memory
process_free heap dir to_free table m =
    free_allocation heap dir to_free (process_get_allocation to_free table) table m

-- An entry of the table; the code does not read behind it.
abbrev pub ptr_at : List Allocation → ℕ → ℕ
ptr_at table i = (get_or table i no_allocation).ptr

-- for (; n rounds; i++)
unfoldable pub free_allocations :
    ℕ → ℕ → Heap → ℕ → List Allocation → Memory → List Allocation × Memory
free_allocations zero i heap dir table m = (table, m)
free_allocations (suc n) i heap dir table m =
    let (table, m) = process_free heap dir (ptr_at table i) table m in
    free_allocations n (i + 1) heap dir table m

unfoldable pub process_free_allocations :
    Heap → ℕ → List Allocation → Memory → List Allocation × Memory
process_free_allocations heap dir table m = free_allocations max_pgm_allocations 0 heap dir table m

-- The arguments of a command: where their texts stand.
unfoldable pub process_count_cmd_args : List ℕ → ℕ
process_count_cmd_args [] = 0
process_count_cmd_args (arg ∷ args) = process_count_cmd_args args + 1

-- sizeof(struct cmd_arg.arg)
abbrev pub arg_size : ℕ
arg_size = 512

-- The loop over the arguments, with -ENOMEM where there is no memory for one.
unfoldable pub inject_loop :
    Heap → ℕ → ℕ → ℕ → List ℕ → List Allocation → Memory → ℤ × List Allocation × Memory
inject_loop heap dir argv i [] table m = (pos 0, table, m)
inject_loop heap dir argv i (arg ∷ args) table m =
    let (s_arg, table', m') = process_malloc heap dir arg_size table m in
    let copied = store32 (strncpy s_arg arg arg_size m') (argv + 4 * i) s_arg in
    let rest = inject_loop heap dir argv (i + 1) args table' copied in
    if s_arg == 0 then (enomem, table', m') else rest

-- argc and argv, where they are set.
unfoldable pub process_inject_args :
    Heap → ℕ → List ℕ → List Allocation → Memory → ℤ × Option (ℕ × ℕ) × List Allocation × Memory
process_inject_args heap dir args table m =
    let argc = process_count_cmd_args args in
    let (argv, table', m') = process_malloc heap dir (argc * 4) table m in
    let (result, table'', m'') = inject_loop heap dir argv 0 args table' m' in
    if argc == 0
    then (eio, none, table, m)
    else if argv == 0
    then (enomem, none, table', m')
    else if is_neg result
    then (result, none, table'', m'')
    else (pos 0, some (argc, argv), table'', m'')
