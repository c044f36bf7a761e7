-- ===== src/Paging.antt =====
-- kernel/memory/paging.c. A directory and its tables are 32-bit words in the memory; a `struct
-- paging_page_dir` is the word that holds the address of the directory's entries.
pub mod Address
pub mod Entry
pub mod Map
pub mod Fresh
pub mod Tables
pub mod Identity
pub mod Tests
use Prim.Native.Nat.{bit_and, bit_or}
use enki_os.Base.{
  ℕ, zero, suc, ◌+◌, ◌-◌, ◌*◌, ◌/◌, ◌%◌, ◌^◌, Bool, ◌||◌, not, ltb, ◌==◌, if◌then◌else◌,
}
use enki_os.Base.Int.{ℤ, pos, is_neg}
use enki_os.Base.Memory.{Memory}
use enki_os.Base.Word.{u32, load32, store32}
use enki_os.Heap.{Heap}
use enki_os.Kheap.{kzalloc, kfree}
use enki_os.Status.{einvarg}

abbrev pub is_writeable : ℕ
is_writeable = 0b00000010

abbrev pub total_entries_per_table : ℕ
total_entries_per_table = 1024

abbrev pub page_size : ℕ
page_size = 4096

-- for (; n rounds; j++) entry[j] = (offset + (j * PAGING_PAGE_SIZE)) | flags
unfoldable pub fill_table : ℕ → ℕ → ℕ → ℕ → ℕ → Memory → Memory
fill_table zero j entry offset flags m = m
fill_table (suc n) j entry offset flags m =
    fill_table n (j + 1) entry offset flags
      (store32 m (entry + 4 * j) (bit_or (u32 (offset + j * page_size)) flags))

-- for (; n rounds; i++): a page table of its own for each entry of the directory
unfoldable pub new_tables : Heap → ℕ → ℕ → ℕ → ℕ → ℕ → Memory → Memory
unfolding fill_table
new_tables heap zero i entries offset flags m = m
new_tables heap (suc n) i entries offset flags m =
    let (entry, m) = kzalloc heap (4 * total_entries_per_table) m in
    let m = fill_table total_entries_per_table 0 entry offset flags m in
    let m = store32 m (entries + 4 * i) (bit_or (bit_or entry flags) is_writeable) in
    new_tables heap n (i + 1) entries (u32 (offset + total_entries_per_table * page_size)) flags m

-- The address of the `struct paging_page_dir`.
unfoldable pub paging_new : Heap → ℕ → Memory → ℕ × Memory
unfolding new_tables
paging_new heap flags m =
    let (entries, m) = kzalloc heap (4 * total_entries_per_table) m in
    let m = new_tables heap total_entries_per_table 0 entries 0 flags m in
    let (page_dir, m) = kzalloc heap 4 m in (page_dir, store32 m page_dir entries)

unfoldable pub free_tables : Heap → ℕ → ℕ → ℕ → Memory → Memory
free_tables heap zero i dir m = m
free_tables heap (suc n) i dir m =
    let entry = load32 m (load32 m dir + 4 * i) in
    free_tables heap n (i + 1) dir (kfree heap (bit_and entry 0xFFFFF000) m)

unfoldable pub paging_free : Heap → ℕ → Memory → Memory
unfolding free_tables
paging_free heap dir m =
    let m = free_tables heap 1024 0 dir m in let m = kfree heap (load32 m dir) m in kfree heap dir m

unfoldable pub paging_get_directory : ℕ → Memory → ℕ
paging_get_directory dir m = load32 m dir

unfoldable pub paging_is_aligned : ℕ → Bool
paging_is_aligned addr = addr % page_size == 0

-- The status, the directory's index and the table's index; an error leaves the two as they were.
unfoldable pub paging_get_indices : ℕ → ℕ → ℕ → ℤ × ℕ × ℕ
unfolding paging_is_aligned
paging_get_indices virt_addr dir_idx table_idx =
    if not (paging_is_aligned virt_addr) then (einvarg, dir_idx, table_idx) else (
      pos 0,
      virt_addr / (total_entries_per_table * page_size),
      virt_addr % (total_entries_per_table * page_size) / page_size,
    )

unfoldable pub paging_align_address : ℕ → ℕ
paging_align_address addr =
    if not (addr % page_size == 0) then u32 (addr + page_size - addr % page_size) else addr

unfoldable pub paging_align_to_lower : ℕ → ℕ
paging_align_to_lower addr = addr - addr % page_size

unfoldable pub paging_set : ℕ → ℕ → ℕ → Memory → ℤ × Memory
unfolding paging_is_aligned paging_get_indices
paging_set dir virt_addr val m =
    if not (paging_is_aligned virt_addr)
    then (einvarg, m)
    else let (result, dir_idx, tab_idx) = paging_get_indices virt_addr 0 0 in
      if is_neg result
      then (result, m)
      else let entry = load32 m (dir + 4 * dir_idx) in
        let table = bit_and entry 0xFFFFF000 in (pos 0, store32 m (table + 4 * tab_idx) val)

unfoldable pub paging_get : ℕ → ℕ → Memory → ℕ
unfolding paging_get_indices
paging_get dir virt_addr m =
    let (_, dir_idx, tab_idx) = paging_get_indices virt_addr 0 0 in
    let entry = load32 m (dir + 4 * dir_idx) in
    let table = bit_and entry 0xFFFFF000 in load32 m (table + 4 * tab_idx)

unfoldable pub paging_get_phys_addr : ℕ → ℕ → Memory → ℕ
paging_get_phys_addr dir virt_addr m =
    let virt_aligned = paging_align_to_lower virt_addr in
    let offset = virt_addr - virt_aligned in
    u32 (bit_and (paging_get dir virt_aligned m) 0xFFFFF000 + offset)

unfoldable pub paging_map : ℕ → ℕ → ℕ → ℕ → Memory → ℤ × Memory
paging_map dir virt_addr phys_addr flags m =
    if not (virt_addr % page_size == 0) || not (phys_addr % page_size == 0)
    then (einvarg, m)
    else paging_set (load32 m dir) virt_addr (bit_or phys_addr flags) m

-- for (; n rounds; i++), with the result of the last round
unfoldable pub map_loop : ℕ → ℤ → ℕ → ℕ → ℕ → ℕ → Memory → ℤ × Memory
map_loop zero result dir virt_addr phys_addr flags m = (result, m)
map_loop (suc n) result dir virt_addr phys_addr flags m =
    let (result, m) = paging_map dir virt_addr phys_addr flags m in
    let rest =
      map_loop n result dir (u32 (virt_addr + page_size)) (u32 (phys_addr + page_size)) flags m in
    if is_neg result then (result, m) else rest

unfoldable pub paging_map_range : ℕ → ℕ → ℕ → ℕ → ℕ → Memory → ℤ × Memory
unfolding map_loop
paging_map_range dir virt_addr phys_addr page_count flags m =
    map_loop page_count (pos 0) dir virt_addr phys_addr flags m

-- The pages in the difference of two pointers, which is an int: below 0 from 2 GB on, where the loop of
-- paging_map_range has no round.
unfoldable pub pages_in : ℕ → ℕ
pages_in difference = if ltb difference (2 ^ 31) then difference / page_size else 0

unfoldable pub paging_map_to : ℕ → ℕ → ℕ → ℕ → ℕ → Memory → ℤ × Memory
unfolding paging_map_range pages_in
paging_map_to dir virt_addr phys_addr phys_end flags m =
    if not (virt_addr % page_size == 0) || not (phys_addr % page_size == 0)
    then (einvarg, m)
    else if not (phys_end % page_size == 0) || ltb phys_end phys_addr
    then (einvarg, m)
    else paging_map_range dir virt_addr phys_addr (pages_in (phys_end - phys_addr)) flags m
