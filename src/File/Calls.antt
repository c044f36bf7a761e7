-- ===== src/File/Calls.antt =====
-- kernel/fs/file.c and disk.c: the table of file systems, and the calls on files, through the file
-- system of the disk. A file system is a record of functions on a state of its own; what it keeps for a
-- file is a pointer.
use enki_os.Base.{
  ℕ, true, false, Bool, ◌||◌, not, none, some, Option, List, [], ◌∷◌, ltb, ◌==◌, if◌then◌else◌,
  length, ◌>>=◌, replicate,
}
use enki_os.Base.Int.{ℤ, pos, is_neg, ◌==ℤ◌}
use enki_os.Base.Memory.{Memory}
use enki_os.Heap.{Heap}
use enki_os.Status.{eio, einvarg, sector_size}
use enki_os.Path.{PathRoot, path_parse}
use enki_os.File.{
  FileMode, mode_read, mode_write, mode_append, mode_invalid, FileDescriptor,
  file_get_mode_from_str, file_new_descriptor, file_get_descriptor, file_free_descriptor,
}

pub record FileStat : Type 0 where
  pub stat_flags : ℕ
  pub file_size : ℕ

-- `struct file_system`: `open_path` is its `open` and answers a pointer, and the others a status.
pub record FileSystem {ℓ} (S : Type ℓ) : Type ℓ where
  pub resolve : S → ℤ × S
  pub open_path : S → List (List ℕ) → FileMode → ℕ × S
  pub read : S → ℕ → ℕ → ℕ → ℕ → ℤ × S
  pub close : S → ℕ → ℤ × S
  pub seek : S → ℕ → ℤ → ℕ → ℤ × S
  pub stat : S → ℕ → ℤ × Option FileStat

abbrev pub max_file_systems : ℕ
max_file_systems = 12

pub record Disk {ℓ} (S : Type ℓ) : Type ℓ where
  pub type : ℕ
  pub disk_sector_size : ℕ
  pub id : ℕ
  pub fs : Option (FileSystem S)

-- The descriptors, and the state behind the file system.
pub record Files {ℓ} (S : Type ℓ) : Type ℓ where
  pub slots : List (Option (FileDescriptor ℕ))
  pub world : S

abbrev pub is_invalid : FileMode → Bool
is_invalid mode_read = false
is_invalid mode_write = false
is_invalid mode_append = false
is_invalid mode_invalid = true

-- A descriptor that is looked up: what the call does with it, or what it returns without it.
abbrev pub with_descriptor {κ} : {R : Type κ} → Option (FileDescriptor ℕ) → R → (ℕ → R) → R
with_descriptor none otherwise call = otherwise
with_descriptor (some desc) otherwise call = call desc.content

module _ {ℓ} {S : Type ℓ} where
  -- The first free slot of the table; none where the kernel panics.
  unfoldable pub fs_insert_file_system :
      FileSystem S → List (Option (FileSystem S)) → Option (List (Option (FileSystem S)))
  fs_insert_file_system fs [] = none
  fs_insert_file_system fs (none ∷ slots) = some (some fs ∷ slots)
  fs_insert_file_system fs (some other ∷ slots) =
      fs_insert_file_system fs slots >>= λ rest. some (some other ∷ rest)

  unfoldable pub fs_load : FileSystem S → Option (List (Option (FileSystem S)))
  fs_load fat16_fs = fs_insert_file_system fat16_fs (replicate max_file_systems none)

  -- The first file system of the table that takes the disk.
  unfoldable pub fs_resolve : List (Option (FileSystem S)) → S → Option (FileSystem S) × S
  fs_resolve [] s = (none, s)
  fs_resolve (none ∷ slots) s = fs_resolve slots s
  fs_resolve (some fs ∷ slots) s =
      let (status, s') = fs.resolve s in
      let rest = fs_resolve slots s' in if status ==ℤ pos 0 then (some fs, s') else rest

  unfoldable pub disk_search_and_init : List (Option (FileSystem S)) → S → Disk S × S
  disk_search_and_init file_systems s =
      let (fs, s') = fs_resolve file_systems s in
      (record { type = 0; disk_sector_size = sector_size; id = 0; fs = fs }, s')

-- The state behind the file system holds the byte memory, where the kernel's heap has the descriptors.
module _ {ℓ} {S : Type ℓ} (heap : Heap) (memory : S → Memory) (with_memory : S → Memory → S) where
  -- `desc_private < 0` compares a pointer, as an unsigned number. None where the descriptor's block
  -- cannot be allocated: the code writes to the null pointer then.
  unfoldable pub open_file :
      FileSystem S → List (List ℕ) → FileMode → Files S → Option (ℤ × Files S)
  open_file fs parts fmode files =
      let (desc_private, s) = fs.open_path files.world parts fmode in
      let made = file_new_descriptor heap desc_private files.slots (memory s) >>= λ new. some (
        if is_neg new.0
        then (pos 0, record files { world = s })
        else (pos new.1, record { slots = new.2; world = with_memory s new.3 })) in
      if ltb desc_private 0 then some (pos desc_private, record files { world = s }) else made

  -- The disk's file system, none where it has none.
  unfoldable pub open_on :
      Option (FileSystem S) → List (List ℕ) → FileMode → Files S → Option (ℤ × Files S)
  open_on none parts fmode files = some (eio, files)
  open_on (some fs) parts fmode files =
      if is_invalid fmode then some (einvarg, files) else open_file fs parts fmode files

  unfoldable pub open_root : Disk S → Option PathRoot → List ℕ → Files S → Option (ℤ × Files S)
  open_root disk none mode files = some (einvarg, files)
  open_root disk (some root) mode files =
      if length root.parts == 0
      then some (einvarg, files)
      else if not (root.drive_no ==ℤ pos 0)
      then some (eio, files)
      else open_on disk.fs root.parts (file_get_mode_from_str mode) files

  -- `fuel` bounds the parts of the path.
  unfoldable pub fopen : Disk S → ℕ → List ℕ → List ℕ → Files S → Option (ℤ × Files S)
  fopen disk fuel file_name mode files =
      path_parse fuel file_name >>= λ root. open_root disk root mode files

  -- What becomes of a descriptor that is looked up.
  unfoldable pub close_found : FileSystem S → Option (FileDescriptor ℕ) → Files S → ℤ × Files S
  close_found fs none files = (eio, files)
  close_found fs (some desc) files =
      let (status, s) = fs.close files.world desc.content in
      let (slots', m) = file_free_descriptor heap desc files.slots (memory s) in
      if status ==ℤ pos 0
      then (pos 0, record { slots = slots'; world = with_memory s m })
      else (pos 0, record files { world = s })

  unfoldable pub fclose : FileSystem S → ℕ → Files S → ℤ × Files S
  fclose fs fd files = close_found fs (file_get_descriptor fd files.slots) files

module _ {ℓ} {S : Type ℓ} where
  unfoldable pub fread : FileSystem S → ℕ → ℕ → ℕ → ℕ → Files S → ℤ × Files S
  fread fs buf size blocks fd files =
      let answer =
        with_descriptor (file_get_descriptor fd files.slots) (einvarg, files)
          (λ private.
            let (result, s) = fs.read files.world private size blocks buf in
            (result, record files { world = s })) in
      if size == 0 || (blocks == 0 || ltb fd 1) then (einvarg, files) else answer

  unfoldable pub fseek : FileSystem S → ℕ → ℤ → ℕ → Files S → ℤ × Files S
  fseek fs fd offset mode files =
      with_descriptor (file_get_descriptor fd files.slots) (eio, files)
        (λ private.
          let (result, s) = fs.seek files.world private offset mode in
          (result, record files { world = s }))

  unfoldable pub fstat : FileSystem S → ℕ → Files S → ℤ × Option FileStat
  fstat fs fd files =
      with_descriptor (file_get_descriptor fd files.slots) (eio, none)
        (λ private. fs.stat files.world private)
