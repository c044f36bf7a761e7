-- ===== src/Elf.antt =====
-- kernel/elf/elf_loader.c: the checks of a loaded file and the range of memory that its segments take.
-- The header and the program headers are read into records; the file's memory is at `elf_memory`.
pub mod Load
mod Held
mod Range
mod Tests
use enki_os.Base.{ℕ, ◌+◌, Bool, ◌&&◌, ◌||◌, not, List, [], ◌∷◌, leb, ◌==◌, if◌then◌else◌, get_or}
use enki_os.Base.Int.{ℤ, pos, is_neg}
use enki_os.Base.Word.{u32}
use enki_os.Status.{einvfmt}

abbrev pub pt_load : ℕ
pt_load = 1

pub record ElfHeader : Type 0 where
  pub e_ident : List ℕ
  pub e_type : ℕ
  pub e_entry : ℕ
  pub e_phoff : ℕ

pub record Elf32Phdr : Type 0 where
  pub p_type : ℕ
  pub p_offset : ℕ
  pub p_vaddr : ℕ
  pub p_filesz : ℕ

pub record ElfFile : Type 0 where
  pub elf_memory : ℕ
  pub virt_base_addr : ℕ
  pub virt_end_addr : ℕ
  pub phys_base_addr : ℕ
  pub phys_end_addr : ℕ

unfoldable pub elf_valid_signature : ElfHeader → Bool
elf_valid_signature header =
    get_or header.e_ident 0 0 == 0x7F
    && (get_or header.e_ident 1 0 == b'E'
        && (get_or header.e_ident 2 0 == b'L' && get_or header.e_ident 3 0 == b'F'))

unfoldable pub elf_valid_class : ElfHeader → Bool
elf_valid_class header = get_or header.e_ident 4 0 == 0 || get_or header.e_ident 4 0 == 1

unfoldable pub elf_valid_encoding : ElfHeader → Bool
elf_valid_encoding header = get_or header.e_ident 5 0 == 0 || get_or header.e_ident 5 0 == 1

unfoldable pub elf_is_executable : ElfHeader → Bool
elf_is_executable header = header.e_type == 2 && leb 0x400000 header.e_entry

unfoldable pub elf_has_program_header : ElfHeader → Bool
elf_has_program_header header = not (header.e_phoff == 0)

unfoldable pub elf_validate_loaded : ElfHeader → ℤ
elf_validate_loaded header =
    if elf_valid_signature header
      && (elf_valid_class header && (elf_valid_encoding header && elf_has_program_header header))
    then pos 0
    else einvfmt

unfoldable pub elf_process_phdr_pt_load : ElfFile → Elf32Phdr → ElfFile
elf_process_phdr_pt_load file phdr =
    let file : ElfFile =
      if leb phdr.p_vaddr file.virt_base_addr || file.virt_base_addr == 0x00
      then record {
        elf_memory = file.elf_memory;
        virt_base_addr = phdr.p_vaddr;
        virt_end_addr = file.virt_end_addr;
        phys_base_addr = u32 (file.elf_memory + phdr.p_offset);
        phys_end_addr = file.phys_end_addr;
      }
      else file in
    let end_virt_addr = u32 (phdr.p_vaddr + phdr.p_filesz) in
    if leb file.virt_end_addr end_virt_addr || file.virt_end_addr == 0x00
    then record {
      elf_memory = file.elf_memory;
      virt_base_addr = file.virt_base_addr;
      virt_end_addr = end_virt_addr;
      phys_base_addr = file.phys_base_addr;
      phys_end_addr = u32 (file.elf_memory + phdr.p_offset + phdr.p_filesz);
    }
    else file

unfoldable pub elf_process_pheader : ElfFile → Elf32Phdr → ElfFile
elf_process_pheader file phdr =
    if phdr.p_type == pt_load then elf_process_phdr_pt_load file phdr else file

-- The program headers in their order; each returns 0.
unfoldable pub elf_process_pheaders : ElfFile → List Elf32Phdr → ElfFile
elf_process_pheaders file [] = file
elf_process_pheaders file (phdr ∷ phdrs) =
    elf_process_pheaders (elf_process_pheader file phdr) phdrs

unfoldable pub elf_process_loaded : ElfFile → ElfHeader → List Elf32Phdr → ℤ × ElfFile
elf_process_loaded file header phdrs =
    let result = elf_validate_loaded header in
    if is_neg result then (result, file) else (pos 0, elf_process_pheaders file phdrs)
