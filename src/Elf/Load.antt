-- ===== src/Elf/Load.antt =====
-- kernel/elf/elf_loader.c: a file that is loaded by the calls on files. `struct elf_file` is a value
-- beside its address; the headers are read from the file's memory.
use enki_os.Base.{
  ℕ, zero, suc, ◌+◌, ◌*◌, ◌%◌, ◌^◌, ◌||◌, not, none, some, Option, List, [], ◌∷◌, ◌==◌,
  if◌then◌else◌, ◌>>=◌,
}
use enki_os.Base.Int.{ℤ, pos, pos_part, is_neg, ◌==ℤ◌}
use enki_os.Base.Memory.{Memory}
use enki_os.Base.Word.{u32, load32}
use enki_os.Status.{eio}
use enki_os.Heap.{Heap}
use enki_os.Kheap.{kzalloc, kfree}
use enki_os.File.Calls.{FileSystem, FileStat, Disk, Files, fopen, fread, fclose, fstat}
use enki_os.Elf.{ElfHeader, Elf32Phdr, ElfFile, elf_process_loaded}

abbrev pub half : Memory → ℕ → ℕ
half m p = m p % 256 + m (p + 1) % 256 * 2 ^ 8

abbrev pub ident : ℕ → ℕ → Memory → List ℕ
ident zero p m = []
ident (suc n) p m = m p ∷ ident n (p + 1) m

-- The header of the file at an address.
unfoldable pub elf_header : Memory → ℕ → ElfHeader
elf_header m p = record {
  e_ident = ident 16 p m;
  e_type = half m (p + 16);
  e_entry = load32 m (p + 24);
  e_phoff = load32 m (p + 28);
}

abbrev pub e_shoff : Memory → ℕ → ℕ
e_shoff m p = load32 m (p + 32)

abbrev pub e_phnum : Memory → ℕ → ℕ
e_phnum m p = half m (p + 44)

abbrev pub e_shstrndx : Memory → ℕ → ℕ
e_shstrndx m p = half m (p + 50)

-- The addresses of the tables and of their entries.
unfoldable pub elf_sheader : Memory → ℕ → ℕ
elf_sheader m header = u32 (header + e_shoff m header)

unfoldable pub elf_pheader : Memory → ℕ → ℕ
elf_pheader m header =
    if load32 m (header + 28) == 0 then 0 else u32 (header + load32 m (header + 28))

unfoldable pub elf_program_header : Memory → ℕ → ℕ → ℕ
elf_program_header m header idx = u32 (elf_pheader m header + 32 * idx)

unfoldable pub elf_section_header : Memory → ℕ → ℕ → ℕ
elf_section_header m header idx = u32 (elf_sheader m header + 40 * idx)

unfoldable pub elf_str_table : Memory → ℕ → ℕ
elf_str_table m header =
    u32 (header + load32 m (elf_section_header m header (e_shstrndx m header) + 16))

unfoldable pub elf_phdr_phys_addr : ElfFile → Elf32Phdr → ℕ
elf_phdr_phys_addr file phdr = u32 (file.elf_memory + phdr.p_offset)

abbrev pub phdr_at : Memory → ℕ → Elf32Phdr
phdr_at m p = record {
  p_type = load32 m p;
  p_offset = load32 m (p + 4);
  p_vaddr = load32 m (p + 8);
  p_filesz = load32 m (p + 16);
}

-- for (; n rounds; i++)
unfoldable pub program_headers : ℕ → ℕ → Memory → ℕ → List Elf32Phdr
program_headers zero i m header = []
program_headers (suc n) i m header =
    phdr_at m (elf_program_header m header i) ∷ program_headers n (i + 1) m header

abbrev pub elf_file_size : ℕ
elf_file_size = 132

-- What kzalloc leaves, with the memory of the file.
abbrev pub loaded_at : ℕ → ElfFile
loaded_at p = record {
  elf_memory = p;
  virt_base_addr = 0;
  virt_end_addr = 0;
  phys_base_addr = 0;
  phys_end_addr = 0;
}

abbrev pub size_of : Option FileStat → ℕ
size_of none = 0
size_of (some stat) = stat.file_size

-- The state behind the file system holds the byte memory.
module _ {ℓ} {S : Type ℓ} (fs : FileSystem S) (disk : Disk S) (heap : Heap) (memory : S → Memory)
    (with_memory : S → Memory → S) where
  abbrev pub alloc : ℕ → Files S → ℕ × Files S
  alloc size files =
      let (p, m) = kzalloc heap size (memory files.world) in
      (p, record files { world = with_memory files.world m })

  -- From the open descriptor on: the status, the file where it is loaded, and the state.
  unfoldable pub elf_read : ℕ → Files S → ℤ × Option ElfFile × Files S
  elf_read fd files =
      let stat = fstat fs fd files in
      let (p, files1) = alloc (size_of stat.1) files in
      let (result, files2) = fread fs p (size_of stat.1) 1 fd files1 in
      let m = memory files2.world in
      let (status, file) =
        elf_process_loaded (loaded_at p) (elf_header m p) (program_headers (e_phnum m p) 0 m p) in
      if is_neg stat.0
      then (stat.0, none, (fclose heap memory with_memory fs fd files).1)
      else if is_neg result
      then (result, none, (fclose heap memory with_memory fs fd files2).1)
      else if is_neg status
      then (status, none, (fclose heap memory with_memory fs fd files2).1)
      else (status, some file, files2)

  -- `fd` is still 0 where the file cannot be opened.
  unfoldable pub elf_opened : ℤ × Files S → ℤ × Option ElfFile × Files S
  elf_opened (result, files) =
      let read = elf_read (pos_part result) files in
      if is_neg result || result ==ℤ pos 0
      then (eio, none, (fclose heap memory with_memory fs 0 files).1)
      else read

  -- The address of the structure, and what became of the file.
  unfoldable pub elf_load : ℕ → List ℕ → Files S → Option (ℕ × ℤ × Option ElfFile × Files S)
  elf_load fuel file_name files =
      let (p, files1) = alloc elf_file_size files in
      fopen heap memory with_memory disk fuel file_name (b'r' ∷ []) files1 >>= λ opened.
      let read = elf_opened opened in some (p, read.0, read.1, read.2)

unfoldable pub elf_close : Heap → ℕ → ElfFile → Memory → Memory
elf_close heap file_addr file m =
    let closed = kfree heap file_addr (kfree heap file.elf_memory m) in
    if not (file_addr == 0) then closed else m
