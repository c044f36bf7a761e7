-- ===== src/Elf/Range.antt =====
-- elf_loader.c: the range covers the segments.
use enki_os.Base.{◌+◌, ◌^◌, ◌≤◌, ◌<◌, ◌≡◌, ◌⊎◌, List, [], ◌∷◌}
use enki_os.Elf.{Elf32Phdr, ElfFile, pt_load}

-- The range is set, and covers what the other one covered.
pub record Wider (f g : ElfFile) : Type 0 where
  pub base :
      ((f.virt_base_addr ≡ 0) ⊎ ((0 < g.virt_base_addr) × (g.virt_base_addr ≤ f.virt_base_addr)))
  pub end : f.virt_end_addr ≤ g.virt_end_addr

-- A segment that lies in the range, where it is one to load.
abbrev pub Covers : ElfFile → Elf32Phdr → Type 0
Covers f phdr =
    phdr.p_type ≡ pt_load
    → (0 < f.virt_base_addr)
      × (f.virt_base_addr ≤ phdr.p_vaddr)
      × (phdr.p_vaddr + phdr.p_filesz ≤ f.virt_end_addr)

-- Segments that are not at 0 and do not wrap.
abbrev pub Placed : List Elf32Phdr → Type 0
Placed [] = Unit
Placed (phdr ∷ phdrs) = (0 < phdr.p_vaddr) × (phdr.p_vaddr + phdr.p_filesz < 2 ^ 32) × Placed phdrs

abbrev pub AllCovered : ElfFile → List Elf32Phdr → Type 0
AllCovered f [] = Unit
AllCovered f (phdr ∷ phdrs) = Covers f phdr × AllCovered f phdrs
