-- ===== src/Fat16/Directory.antt =====
-- kernel/fs/fat16.c: directories. Their structures, and those of the items that are found, are in the
-- byte memory, where the kernel heap allocates them; the streams of the private structure are there.
use Prim.Native.Nat.{bit_and}
use enki_os.Base.{
  ℕ, zero, suc, ◌+◌, ◌*◌, ◌/◌, ◌%◌, ◌^◌, not, none, some, Option, List, [], ◌∷◌, ltb, ◌==◌,
  if◌then◌else◌, ◌>>=◌,
}
use enki_os.Base.Int.{ℤ, pos, is_neg, ◌==ℤ◌}
use enki_os.Base.Memory.{Memory}
use enki_os.Base.Word.{u32, load32, store32}
use enki_os.Status.{eio, enomem, sector_size}
use enki_os.Libc.Bytes.{memcpy}
use enki_os.Heap.{Heap}
use enki_os.Kheap.{kzalloc, kfree}
use enki_os.Disk.{DiskStream, disk_stream_seek, disk_stream_read}
use enki_os.Fat16.{FatPrivate, unsigned, fat16_cluster_to_sector, fat16_read_internal}
use enki_os.Fat16.Items.{FatDirItem, fat16_get_first_cluster}

-- The part of `struct fat_private` that the directories use, with the address of `root`.
pub record FatDisk : Type 0 where
  pub private : FatPrivate
  pub dir_read : DiskStream
  pub number_of_fat : ℕ
  pub sectors_per_fat : ℕ
  pub root_entries : ℕ
  pub root : ℕ

abbrev pub fat_dir_item_size : ℕ
fat_dir_item_size = 32

-- FAT_FILE_SUBDIRECTORY
abbrev pub fat_file_subdirectory : ℕ
fat_file_subdirectory = 0x10

abbrev pub bytes_at : ℕ → ℕ → Memory → List ℕ
bytes_at zero p m = []
bytes_at (suc n) p m = m p ∷ bytes_at n (p + 1) m

abbrev pub load16 : Memory → ℕ → ℕ
load16 m p = m p % 256 + m (p + 1) % 256 * 2 ^ 8

-- The item that stands at an address.
abbrev pub dir_item : Memory → ℕ → FatDirItem
dir_item m p = record {
  name = bytes_at 8 p m;
  ext = bytes_at 3 (p + 8) m;
  attribute = m (p + 11);
  high_first_cluster = load16 m (p + 20);
  low_first_cluster = load16 m (p + 26);
  file_size = load32 m (p + 28);
}

-- `struct fat_dir` at an address.
abbrev pub set_dir_item : ℕ → ℕ → Memory → Memory
set_dir_item dir item m = store32 m dir item

abbrev pub set_dir_total : ℕ → ℤ → Memory → Memory
set_dir_total dir total m = store32 m (dir + 4) (unsigned total)

-- Is the directory's `total`, an int, above 0?
abbrev pub total_rounds : Memory → ℕ → ℕ
total_rounds m dir = if ltb (load32 m (dir + 4)) (2 ^ 31) then load32 m (dir + 4) else 0

unfoldable pub fat16_free_dir : Heap → ℕ → Memory → Memory
fat16_free_dir heap dir m =
    let m' = if load32 m dir == 0 then kfree heap (load32 m dir) m else m in
    if not (dir == 0) then kfree heap dir m' else m

-- None where the kernel panics.
unfoldable pub fat16_fat_item_free : Heap → ℕ → Memory → Option Memory
fat16_fat_item_free heap item m =
    if load32 m (item + 4) == 0
    then some (kfree heap item (fat16_free_dir heap (load32 m item) m))
    else if load32 m (item + 4) == 1
    then some (kfree heap item (kfree heap (load32 m item) m))
    else none

unfoldable pub fat16_clone_dir_item : Heap → ℕ → ℕ → Memory → ℕ × Memory
fat16_clone_dir_item heap item size m =
    let (copy, m') = kzalloc heap size m in
    if ltb size fat_dir_item_size
    then (0, m)
    else if copy == 0
    then (0, m')
    else (copy, memcpy copy item size m')

module _ (heap : Heap) (disk : ℕ) (disk_read_sector : ℕ → ℕ → (ℕ → ℕ) → ℤ × (ℕ → ℕ))
    (stack : ℕ → ℕ) where
  -- while (1), `fuel` bounds the rounds. The item is read into a local variable, at 0 of a memory of
  -- its own.
  unfoldable pub count_items : ℕ → ℕ → DiskStream → Option (ℤ × DiskStream)
  count_items zero i stream = none
  count_items (suc fuel) i stream =
      disk_stream_read disk disk_read_sector 33 stream 0 fat_dir_item_size stack (λ a. 0)
      >>= λ read.
          let rest = count_items fuel (if read.2 0 == 0xE5 then i else i + 1) read.1 in
          if not (read.0 ==ℤ pos 0)
          then some (eio, read.1)
          else if read.2 0 == 0x00
          then some (pos i, read.1)
          else rest

  -- `dir_start` is an int, which the stream keeps as its word.
  unfoldable pub fat16_get_dir_items : ℕ → ℕ → FatDisk → Option (ℤ × FatDisk)
  fat16_get_dir_items fuel dir_sector_start fat =
      let (result, stream) = disk_stream_seek fat.dir_read (u32 (dir_sector_start * sector_size)) in
      count_items fuel 0 stream >>= λ counted. some (
        if not (result ==ℤ pos 0)
        then (eio, record fat { dir_read = stream })
        else (counted.0, record fat { dir_read = counted.1 }))

  -- `dir_out` is the address of the directory that is filled in.
  unfoldable pub fat16_get_root : ℕ → ℕ → FatDisk → Memory → Option (ℤ × FatDisk × Memory)
  fat16_get_root fuel dir_out fat m =
      let root_pos = fat.number_of_fat * fat.sectors_per_fat + fat.private.reserved_sectors in
      let root_size = fat.root_entries * fat_dir_item_size in
      fat16_get_dir_items fuel root_pos fat >>= λ counted.
      let (dir, m') = kzalloc heap root_size m in
      let (_, stream) = disk_stream_seek counted.1.dir_read (u32 (root_pos * sector_size)) in
      disk_stream_read disk disk_read_sector (suc root_size) stream dir root_size stack m'
      >>= λ read.
          let fat' = record counted.1 { dir_read = read.1 } in
          let m1 = set_dir_item dir_out dir read.2 in
          let m2 = set_dir_total dir_out counted.0 m1 in
          let m3 = store32 m2 (dir_out + 8) root_pos in
          let sector_end = root_pos + root_size / sector_size in
          let private' = record fat'.private { sector_end = sector_end } in
          some (
            if dir == 0
            then (enomem, counted.1, m')
            else if not (read.0 ==ℤ pos 0)
            then (eio, fat', kfree heap dir read.2)
            else (pos 0, record fat' { private = private' }, store32 m3 (dir_out + 12) sector_end))

  -- The address of the directory, or 0. None also where an item count below 0 makes the size of the
  -- read negative.
  unfoldable pub fat16_load_fat_dir :
      ℕ → FatDirItem → FatDisk → Memory → Option (ℕ × FatDisk × Memory)
  fat16_load_fat_dir fuel item fat m =
      let (dir, m1) = kzalloc heap 16 m in
      let cluster = fat16_get_first_cluster item in
      let sector = fat16_cluster_to_sector fat.private cluster in
      let loaded = fat16_get_dir_items fuel sector fat >>= λ counted.
      let m2 = set_dir_total dir counted.0 m1 in
      let size = u32 (unsigned counted.0 * fat_dir_item_size) in
      let (items, m3) = kzalloc heap size m2 in
      let m4 = set_dir_item dir items m3 in
      let read_items =
        fat16_read_internal disk disk_read_sector stack fuel cluster 0x00 size (load32 m4 dir)
          counted.1.private m4
        >>= λ read.
            let fat' = record counted.1 { private = read.1 } in
            some (
              if not (read.0 ==ℤ pos 0)
              then (dir, fat', fat16_free_dir heap dir read.2)
              else (dir, fat', read.2)) in
      if not (load32 m4 dir == 0)
      then some (0, counted.1, fat16_free_dir heap dir m4)
      else if is_neg counted.0
      then none
      else read_items in
      if bit_and item.attribute fat_file_subdirectory == 0
      then some (0, fat, m)
      else if dir == 0
      then some (0, fat, m1)
      else loaded

  -- `item` is an address.
  unfoldable pub fat16_new_item_for_dir : ℕ → ℕ → FatDisk → Memory → Option (ℕ × FatDisk × Memory)
  fat16_new_item_for_dir fuel item fat m =
      let (f, m1) = kzalloc heap 8 m in
      let new_dir = fat16_load_fat_dir fuel (dir_item m1 item) fat m1 >>= λ loaded.
      some (f, loaded.1, store32 (store32 loaded.2 f loaded.0) (f + 4) 0) in
      let (copy, m2) = fat16_clone_dir_item heap item fat_dir_item_size (store32 m1 (f + 4) 1) in
      if f == 0
      then some (0, fat, m1)
      else if not (bit_and (m1 (item + 11)) fat_file_subdirectory == 0)
      then new_dir
      else some (f, fat, store32 m2 f copy)
