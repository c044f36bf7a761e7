-- ===== src/Elf/Tests.antt =====
-- The theorem of elf_loader.c at a file of two segments, and a header that is not an executable's.
use enki_os.Base.{◌≡◌, refl, false, List, [], ◌∷◌, arith}
use enki_os.Base.{ap, ◌∙◌, some, Option}
use enki_os.Base.Int.{ℤ, pos}
use enki_os.Base.Memory.{Memory}
use enki_os.Base.Word.{load32}
use enki_os.Libc.Bytes.{memset}
use enki_os.Heap.{
  heap_malloc, heap_get_start_block, heap_get_entry_type, heap_block_to_address,
  heap_mark_blocks_taken,
}
use enki_os.Kheap.{kzalloc}
use enki_os.Kheap.Zeroed.{kernel_heap}
use enki_os.File.{file_get_mode_from_str, file_get_descriptor}
use enki_os.File.Calls.{Files, open_on, open_root, fopen, fread, fstat}
use enki_os.File.Tests.{one_file, disk, no_files, sh, sh_root, sh_parsed, r_mode, rows-Used}
use enki_os.File.Descriptors.{taken_at}
use enki_os.File.Routing.{open_file-eq}
use enki_os.Elf.Load.{
  loaded_at, elf_file_size, alloc, elf_read, elf_opened, elf_load, elf_header, program_headers,
}
use enki_os.Elf.Held.{elf_load-slots}
use enki_os.Elf.{
  ElfHeader, Elf32Phdr, ElfFile, elf_is_executable, elf_validate_loaded, elf_process_loaded,
  elf_valid_signature, elf_valid_class, elf_valid_encoding, elf_has_program_header,
  elf_process_pheaders,
}

abbrev header : ElfHeader
header = record {
  e_ident = 0x7F ∷ b'E' ∷ b'L' ∷ b'F' ∷ 1 ∷ 1 ∷ [];
  e_type = 3;
  e_entry = 0;
  e_phoff = 52;
}

abbrev phdrs : List Elf32Phdr
phdrs =
    record { p_type = 1; p_offset = 0x2000; p_vaddr = 0x402000; p_filesz = 0x123 }
    ∷ record { p_type = 1; p_offset = 0x1000; p_vaddr = 0x400000; p_filesz = 0x456 }
    ∷ []

abbrev loaded : ElfFile
loaded = record {
  elf_memory = 0x1000000;
  virt_base_addr = 0;
  virt_end_addr = 0;
  phys_base_addr = 0;
  phys_end_addr = 0;
}

-- The header is valid although it is not one of an executable.
not_executable : elf_is_executable header ≡ false
unfolding elf_is_executable
not_executable = refl

abbrev first_file : Files Memory
first_file = (alloc one_file disk kernel_heap (λ m. m) (λ m m'. m') elf_file_size no_files).1

pub second_block : (kzalloc kernel_heap 16 first_file.world).0 ≡ 0x1001000
unfolding kzalloc heap_malloc heap_get_start_block heap_get_entry_type heap_block_to_address
    heap_mark_blocks_taken memset
second_block = refl

abbrev opened_file : ℤ × Files Memory
opened_file = (
  pos 1,
  record {
    slots = taken_at 0 0x1001000 0x2000000 first_file.slots;
    world = (kzalloc kernel_heap 16 first_file.world).1;
  },
)

sh_opened :
    fopen kernel_heap (λ m. m) (λ m m'. m') disk 9 sh (b'r' ∷ []) first_file
    ≡ some (pos 1, opened_file.1)
unfolding fopen open_root open_on
sh_opened =
    rw (sh_parsed, r_mode)
      (open_file-eq kernel_heap (λ m. m) (λ m m'. m') one_file 0 sh_root.parts
          (file_get_mode_from_str (b'r' ∷ [])) first_file (rows-Used 0 512 refl) (omega arith)
          (rw second_block (omega arith))
        ∙ ap
            (λ b. some (
              pos 1,
              record {
                slots = taken_at 0 b 0x2000000 first_file.slots;
                world = opened_file.1.world;
              },
            ))
            second_block)

abbrev loaded_file : ℤ × Option ElfFile × Files Memory
loaded_file = elf_opened one_file disk kernel_heap (λ m. m) (λ m m'. m') opened_file

sh_loaded : loaded_file.1 ≡ some (loaded_at 0x1002000)
unfolding elf_opened elf_read fstat fread file_get_descriptor kzalloc heap_malloc
    heap_get_start_block heap_get_entry_type heap_block_to_address heap_mark_blocks_taken memset
    elf_process_loaded elf_validate_loaded elf_valid_signature elf_valid_class elf_valid_encoding
    elf_has_program_header elf_header program_headers elf_process_pheaders load32
sh_loaded = refl

first_block :
    (alloc one_file disk kernel_heap (λ m. m) (λ m m'. m') elf_file_size no_files).0 ≡ 0x1000000
unfolding kzalloc heap_malloc heap_get_start_block heap_get_entry_type heap_block_to_address
first_block = refl

whole :
    elf_load one_file disk kernel_heap (λ m. m) (λ m m'. m') 9 sh no_files
    ≡ some (0x1000000, loaded_file.0, some (loaded_at 0x1002000), loaded_file.2)
unfolding elf_load
whole = rw sh_opened (
    ap (λ o. some (o, loaded_file.0, loaded_file.1, loaded_file.2)) first_block
    ∙ ap (λ o. some (0x1000000, loaded_file.0, o, loaded_file.2)) sh_loaded)

elf_load-slots_example : loaded_file.2.slots ≡ opened_file.1.slots
elf_load-slots_example =
    elf_load-slots one_file disk kernel_heap (λ m. m) (λ m m'. m') 9 1 0x1000000 sh no_files
      opened_file.1 loaded_file.2 loaded_file.0 (loaded_at 0x1002000) sh_opened whole
