-- ===== src/Process.antt =====
-- kernel/task/process.c: the mapping of a process's memory into its page directory. The program's segments
-- are those of its file; the address and the size of the memory are those that loading has set.
pub mod Allocations
pub mod Owned
pub mod Life
pub mod Loaded
mod Null
mod Mapping
mod Slots
pub mod Tests
use Prim.Native.Nat.{bit_and}
use enki_os.Base.{
  ℕ, zero, suc, ◌+◌, ◌-◌, ◌*◌, true, false, Bool, not, none, some, Option, List, [], ◌∷◌, ◌++◌, leb,
  ◌==◌, if◌then◌else◌,
}
use enki_os.Base.Int.{ℤ, pos, is_neg}
use enki_os.Base.Memory.{Memory}
use enki_os.Base.Word.{u32}
use enki_os.Paging.{paging_map_to, paging_align_address, paging_align_to_lower}

abbrev pub pgm_virt_addr : ℕ
pgm_virt_addr = 0x400000

abbrev pub user_pgm_stack_size : ℕ
user_pgm_stack_size = 1024 * 16

abbrev pub pgm_virt_stack_addr_end : ℕ
pgm_virt_stack_addr_end = 0x3FF000 - user_pgm_stack_size

-- PAGING_IS_PRESENT | PAGING_ACCESS_FROM_ALL
abbrev pub read_flags : ℕ
read_flags = 0b00000101

-- The same with PAGING_IS_WRITEABLE.
abbrev pub write_flags : ℕ
write_flags = 0b00000111

-- The fields of a program header that are mapped.
pub record Segment : Type 0 where
  pub p_offset : ℕ
  pub p_vaddr : ℕ
  pub p_memsz : ℕ
  pub p_flags : ℕ

pub data ProcessMemory : Type 0 where
  bin : ℕ → ℕ → ProcessMemory
  elf : ℕ → List Segment → ProcessMemory

unfoldable pub process_map_bin : ℕ → ℕ → ℕ → Memory → ℤ × Memory
process_map_bin dir addr size m = (
  pos 0,
  (paging_map_to dir pgm_virt_addr addr (paging_align_address (u32 (addr + size))) write_flags m).1,
)

-- for (; i < header->e_phnum; i++), with the result of the last round
unfoldable pub process_map_elf : ℤ → ℕ → ℕ → List Segment → Memory → ℤ × Memory
process_map_elf result dir elf_memory [] m = (result, m)
process_map_elf result dir elf_memory (phdr ∷ phdrs) m =
    let flags = if not (bit_and phdr.p_flags 2 == 0) then write_flags else read_flags in
    let phdr_phys_addr = u32 (elf_memory + phdr.p_offset) in
    let virt_base = paging_align_to_lower phdr.p_vaddr in
    let phys_base = paging_align_to_lower phdr_phys_addr in
    let phys_end = paging_align_address (u32 (phdr_phys_addr + phdr.p_memsz)) in
    let (result, m) = paging_map_to dir virt_base phys_base phys_end flags m in
    let rest = process_map_elf result dir elf_memory phdrs m in
    if is_neg result then (result, m) else rest

unfoldable pub map_image : ℕ → ProcessMemory → Memory → ℤ × Memory
map_image dir (bin addr size) m = process_map_bin dir addr size m
map_image dir (elf elf_memory phdrs) m = process_map_elf (pos 0) dir elf_memory phdrs m

unfoldable pub process_map_memory : ℕ → ℕ → ProcessMemory → Memory → ℤ × Memory
process_map_memory dir stack image m =
    let (result, m) = map_image dir image m in
    let phys_end = paging_align_address (u32 (stack + user_pgm_stack_size)) in
    let mapped = paging_map_to dir pgm_virt_stack_addr_end stack phys_end write_flags m in
    if is_neg result then (result, m) else (result, mapped.1)

abbrev pub max_processes : ℕ
max_processes = 12

module _ {ℓ} {P : Type ℓ} where
  -- An id below 0 is refused as 12 is.
  unfoldable pub process_get : ℕ → (ℕ → Option P) → Option P
  process_get id processes = if leb max_processes id then none else processes id

  abbrev pub is_taken : Option P → Bool
  is_taken none = false
  is_taken (some p) = true

  -- for (; n rounds; i++), none where the code returns -EISTKN
  unfoldable pub get_free_slot : ℕ → ℕ → (ℕ → Option P) → Option ℕ
  get_free_slot zero i processes = none
  get_free_slot (suc n) i processes =
      let rest = get_free_slot n (i + 1) processes in
      if is_taken (processes i) then rest else some i

  unfoldable pub process_get_free_slot : (ℕ → Option P) → Option ℕ
  process_get_free_slot processes = get_free_slot max_processes 0 processes
