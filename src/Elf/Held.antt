-- ===== src/Elf/Held.antt =====
-- elf_loader.c: the descriptor of a file that has been loaded.
use mathlib.Core.Option.{none-ne-some, some_inj}
use enki_os.Base.{
  ℕ, ◌≡◌, ◌∙◌, refl, sym, ap, inl, inr, ◌||◌, none, some, Option, List, [], ◌∷◌, ltb, ◌==◌,
  Bool-cases,
}
use enki_os.Base.Int.{ℤ, pos, is_neg, ◌==ℤ◌}
use enki_os.Base.Memory.{Memory}
use enki_os.Status.{einvarg}
use enki_os.Heap.{Heap}
use enki_os.File.{FileDescriptor, file_get_descriptor}
use enki_os.File.Calls.{FileSystem, Disk, Files, fopen, fread, fstat, with_descriptor}
use enki_os.Elf.{ElfFile, elf_process_loaded}
use enki_os.Elf.Load.{
  elf_header, program_headers, e_phnum, loaded_at, size_of, alloc, elf_read, elf_opened, elf_load,
  elf_file_size,
}

module _ {ℓ} {S : Type ℓ} (fs : FileSystem S) (disk : Disk S) (heap : Heap) (memory : S → Memory)
    (with_memory : S → Memory → S) where
  with_descriptor-slots :
      (o : Option (FileDescriptor ℕ)) (r : ℤ) (files : Files S) (call : ℕ → ℤ × S)
      → (with_descriptor {R = ℤ × Files S} o
          (r, files)
          (λ private.
            let (result, s) = call private in (result, record files { world = s }))).1.slots
        ≡ files.slots
  with_descriptor-slots none r files call = refl
  with_descriptor-slots (some d) r files call = refl

  fread-slots :
      (buf size blocks fd : ℕ) (files : Files S)
      → (fread fs buf size blocks fd files).1.slots ≡ files.slots
  unfolding fread
  fread-slots buf size blocks fd files =
      elim (Bool-cases (size == 0 || (blocks == 0 || ltb fd 1))) [
        | inl e ↦ rw e refl
        | inr e ↦ rw e (
            with_descriptor-slots (file_get_descriptor fd files.slots) einvarg files
              (λ private. fs.read files.world private size blocks buf))
      ]

  -- A file that is loaded leaves its descriptor open: the table is the one that it was opened in.
  elf_read-slots :
      (fd : ℕ) (files files' : Files S) (status : ℤ) (file : ElfFile)
      → elf_read fs disk heap memory with_memory fd files ≡ (status, some file, files')
      → files'.slots ≡ files.slots
  unfolding elf_read
  elf_read-slots fd files files' status file e =
      let stat = (fstat fs fd files).0 in
      let made = alloc fs disk heap memory with_memory (size_of (fstat fs fd files).1) files in
      let read = fread fs made.0 (size_of (fstat fs fd files).1) 1 fd made.1 in
      let m = memory read.1.world in
      let processed =
        elf_process_loaded (loaded_at made.0) (elf_header m made.0)
          (program_headers (e_phnum m made.0) 0 m made.0) in
      elim (Bool-cases (is_neg stat)) [
        | inl a ↦ absurd (none-ne-some file (ap (λ o. o.1) (rw a at e)))
        | inr a ↦ elim (Bool-cases (is_neg read.0)) [
          | inl b ↦ absurd (none-ne-some file (ap (λ o. o.1) (rw (a, b) at e)))
          | inr b ↦ elim (Bool-cases (is_neg processed.0)) [
            | inl c ↦ absurd (none-ne-some file (ap (λ o. o.1) (rw (a, b, c) at e)))
            | inr c ↦
                sym (ap (λ o. o.2.slots) (rw (a, b, c) at e))
                ∙ fread-slots made.0 (size_of (fstat fs fd files).1) 1 fd made.1
          ]
        ]
      ]

  elf_opened-slots :
      (fd : ℕ) (files files' : Files S) (status : ℤ) (file : ElfFile)
      → elf_opened fs disk heap memory with_memory (pos fd, files) ≡ (status, some file, files')
      → files'.slots ≡ files.slots
  unfolding elf_opened
  elf_opened-slots fd files files' status file e =
      elim (Bool-cases (is_neg (pos fd) || pos fd ==ℤ pos 0)) [
        | inl a ↦ absurd (none-ne-some file (ap (λ o. o.1) (rw a at e)))
        | inr a ↦ elf_read-slots fd files files' status file (rw a at e)
      ]

  -- A file that is opened and loaded: the table of descriptors is the one that `fopen` has left.
  pub elf_load-slots :
      (fuel fd p : ℕ) (file_name : List ℕ) (files opened files' : Files S) (status : ℤ)
      (file : ElfFile)
      → fopen heap memory with_memory disk fuel file_name
          (b'r' ∷ [])
          (alloc fs disk heap memory with_memory elf_file_size files).1
        ≡ some (pos fd, opened)
      → elf_load fs disk heap memory with_memory fuel file_name files
        ≡ some (p, status, some file, files')
      → files'.slots ≡ opened.slots
  unfolding elf_load
  elf_load-slots fuel fd p file_name files opened files' status file e loaded =
      elf_opened-slots fd opened files' status file
        (ap (λ o. (o.1, o.2, o.3)) (some_inj.0 (rw e at loaded)))
