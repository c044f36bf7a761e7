-- ===== src/File/Routing.antt =====
-- file.c: what reaches the file system, from fopen to fclose.
use enki_os.Base.{ℕ, ◌+◌, ◌<◌, ◌≡◌, refl, false, ◌||◌, some, Option, List, arith, ltb, ◌==◌, length}
use enki_os.Base.Int.{ℤ, pos}
use enki_os.Path.{PathRoot, path_parse}
use enki_os.File.{FileMode, FileDescriptor, file_get_mode_from_str}
use enki_os.Base.Memory.{Memory}
use enki_os.Heap.{Heap}
use enki_os.Kheap.{kzalloc, kfree}
use enki_os.File.Descriptors.{get-taken, taken_at, free-taken, Used, new-eq}
use enki_os.File.Calls.{
  FileSystem, Disk, Files, is_invalid, open_file, open_on, open_root, close_found, fclose, fopen,
  fread, fseek, fstat,
}

module _ {ℓ} {S : Type ℓ} (heap : Heap) (memory : S → Memory) (with_memory : S → Memory → S)
    (fs : FileSystem S) where
  -- The block of a new descriptor, and the state once it is allocated.
  abbrev pub new_block : S → ℕ
  new_block s = (kzalloc heap 16 (memory s)).0

  abbrev pub with_block : S → S
  with_block s = with_memory s (kzalloc heap 16 (memory s)).1

  -- Any pointer that the file system answers, an error too, is kept as the file's.
  pub open_file-eq :
      (used : ℕ) (parts : List (List ℕ)) (fmode : FileMode) (files : Files S)
      → Used used files.slots
      → used < 511
      → 0 < new_block (fs.open_path files.world parts fmode).1
      → let (private, s) = fs.open_path files.world parts fmode in
        open_file heap memory with_memory fs parts fmode files
        ≡ some (
          pos (used + 1),
          record { slots = taken_at used (new_block s) private files.slots; world = with_block s },
        )
  unfolding open_file
  open_file-eq used parts fmode files u lt room =
      let private = (fs.open_path files.world parts fmode).0 in
      let s = (fs.open_path files.world parts fmode).1 in
      let made = new-eq heap used private files.slots (memory s) u (omega arith) room in
      let never : ltb private 0 ≡ false = ground arith in rw (made, never) refl

  -- A path with a drive and parts, on the disk's file system, in a mode that is known, where fewer
  -- than 511 descriptors are in use, those of the first slots, and the block of the new one can be
  -- allocated: the calls on the number that is answered reach the pointer that the file system answered;
  -- closing it, where the file system agrees, gives back the table and frees the block.
  pub fopen-routed :
      (disk : Disk S) (fuel used : ℕ) (file_name mode : List ℕ) (root : PathRoot) (files : Files S)
      → disk.fs ≡ some fs
      → path_parse fuel file_name ≡ some (some root)
      → root.drive_no ≡ pos 0
      → 0 < length root.parts
      → is_invalid (file_get_mode_from_str mode) ≡ false
      → Used used files.slots
      → used < 511
      → 0 < new_block (fs.open_path files.world root.parts (file_get_mode_from_str mode)).1
      → let opened = fs.open_path files.world root.parts (file_get_mode_from_str mode) in
        (slots' : List (Option (FileDescriptor ℕ))) × (fopen heap memory with_memory disk fuel
            file_name mode files
          ≡ some (pos (used + 1), record { slots = slots'; world = with_block opened.1 }))
        × ((buf size blocks : ℕ) (s : S)
            → 0 < size
            → 0 < blocks
            → (fread fs buf size blocks (used + 1) (record { slots = slots'; world = s })).0
              ≡ (fs.read s opened.0 size blocks buf).0)
        × ((offset : ℤ) (seek_mode : ℕ) (s : S)
            → (fseek fs (used + 1) offset seek_mode (record { slots = slots'; world = s })).0
              ≡ (fs.seek s opened.0 offset seek_mode).0)
        × ((s : S)
            → fstat fs (used + 1) (record { slots = slots'; world = s }) ≡ fs.stat s opened.0)
        × ((s : S)
            → (fs.close s opened.0).0 ≡ pos 0
            → let s' = (fs.close s opened.0).1 in
              fclose heap memory with_memory fs (used + 1) (record { slots = slots'; world = s })
              ≡ (
                pos 0,
                record {
                  slots = files.slots;
                  world = with_memory s' (kfree heap (new_block opened.1) (memory s'));
                },
              ))
  unfolding fopen open_root open_on fread fseek fstat fclose close_found
  fopen-routed disk fuel used file_name mode root files e parsed drive some_parts valid u lt room =
      let private = (fs.open_path files.world root.parts (file_get_mode_from_str mode)).0 in
      let block = new_block (fs.open_path files.world root.parts (file_get_mode_from_str mode)).1 in
      let opened = open_file-eq used root.parts (file_get_mode_from_str mode) files u lt room in
      let found = get-taken used block private files.slots u.size lt in
      let parts : (length root.parts == 0) ≡ false = ground arith in
      (
        taken_at used block private files.slots,
        rw (parsed, parts, drive, e) (rw valid opened),
        λ buf size blocks s ps pb.
            let asked : (size == 0 || (blocks == 0 || ltb (used + 1) 1)) ≡ false = ground arith in
            rw (asked, found) refl,
        λ offset seek_mode s. rw found refl,
        λ s. rw found refl,
        λ s agrees.
            let m = memory (fs.close s private).1 in
            rw (found, agrees, free-taken heap used block private files.slots m u (omega arith))
              refl,
      )
