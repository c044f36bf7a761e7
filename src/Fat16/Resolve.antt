-- ===== src/Fat16/Resolve.antt =====
-- fat16.c, disk_stream.c: the set-up of a FAT16 disk. The private structure is in the byte memory; what its
-- streams hold is kept in records, and the memory has their allocations.
use enki_os.Base.{ℕ, suc, ◌+◌, none, some, Option, not, ◌==◌, if◌then◌else◌, ◌>>=◌}
use enki_os.Base.Int.{ℤ, pos, ◌==ℤ◌}
use enki_os.Base.Memory.{Memory}
use enki_os.Base.Word.{store32, load32}
use enki_os.Status.{eio, enomem, efsnotus}
use enki_os.Libc.Bytes.{memset}
use enki_os.Heap.{Heap}
use enki_os.Kheap.{kzalloc, kfree}
use enki_os.Disk.{DiskStream, disk_get, disk_stream_read}
use enki_os.Fat16.Directory.{FatDisk, load16, fat16_get_root}

-- sizeof(struct fat_h), sizeof(struct fat_private) and sizeof(struct disk_stream)
abbrev pub fat_h_size : ℕ
fat_h_size = 62

abbrev pub fat_private_size : ℕ
fat_private_size = 92

abbrev pub disk_stream_size : ℕ
disk_stream_size = 8

-- The fields of the private structure at an address, with what its streams hold.
abbrev pub fat_private : ℕ → DiskStream → DiskStream → DiskStream → Memory → FatDisk
fat_private p cluster_read fat_read dir_read m = record {
  private = record {
    sect_per_cluster = m (p + 13);
    reserved_sectors = load16 m (p + 14);
    sector_end = load32 m (p + 76);
    cluster_read = cluster_read;
    fat_read = fat_read;
  };
  dir_read = dir_read;
  number_of_fat = m (p + 16);
  root_entries = load16 m (p + 17);
  sectors_per_fat = load16 m (p + 22);
  root = p + 64;
}

module _ (heap : Heap) (disk : ℕ) (disk_read_sector : ℕ → ℕ → (ℕ → ℕ) → ℤ × (ℕ → ℕ))
    (stack : ℕ → ℕ) where
  -- The address, or 0, and what the stream holds. None where the allocation fails: the code writes to
  -- the null pointer then.
  unfoldable pub disk_stream_new : ℕ → Memory → Option (ℕ × DiskStream × Memory)
  disk_stream_new disk_id m =
      let found = disk_get disk disk_read_sector disk_id in
      let (stream, m') = kzalloc heap disk_stream_size m in
      if found == 0
      then some (0, record { pos = 0; disk = 0 }, m)
      else if stream == 0
      then none
      else some (stream, record { pos = 0; disk = found }, m')

  -- The streams of the structure at `private`.
  unfoldable pub fat16_init_private :
      ℕ → ℕ → Memory → Option (DiskStream × DiskStream × DiskStream × Memory)
  fat16_init_private disk_id private m =
      disk_stream_new disk_id (memset private 0 fat_private_size m) >>= λ cluster_read.
      disk_stream_new disk_id (store32 cluster_read.2 (private + 80) cluster_read.0) >>= λ fat_read.
      disk_stream_new disk_id (store32 fat_read.2 (private + 84) fat_read.0) >>= λ dir_read.
      some (cluster_read.1, fat_read.1, dir_read.1, store32 dir_read.2 (private + 88) dir_read.0)

  -- The result, what `fs_private` points to where it is not null, and the memory. None also where the
  -- private structure cannot be allocated: the code writes to the null pointer then. `fs` of the disk,
  -- which is set in every case and which fs_resolve sets again, is left out.
  unfoldable pub fat16_resolve : ℕ → ℕ → Memory → Option (ℤ × Option FatDisk × Memory)
  fat16_resolve fuel disk_id m =
      let (private, m1) = kzalloc heap fat_private_size m in
      let resolved = fat16_init_private disk_id private m1 >>= λ streams.
      disk_stream_new disk_id streams.3 >>= λ stream.
      let read_header =
        disk_stream_read disk disk_read_sector (suc fat_h_size) stream.1 private fat_h_size stack
          stream.2
        >>= λ read.
            let give_up = kfree heap private (kfree heap stream.0 read.2) in
            let fat = fat_private private streams.0 streams.1 streams.2 read.2 in
            let rest =
              fat16_get_root heap disk disk_read_sector stack fuel (private + 64) fat read.2
              >>= λ root. some (
                  if not (root.0 ==ℤ pos 0)
                  then (eio, none, kfree heap private (kfree heap stream.0 root.2))
                  else (pos 0, some root.1, root.2)) in
            if not (read.0 ==ℤ pos 0)
            then some (eio, none, give_up)
            else if not (read.2 (private + 38) == 0x29)
            then some (efsnotus, none, give_up)
            else rest in
      if stream.0 == 0 then some (enomem, none, kfree heap private stream.2) else read_header in
      if private == 0 then none else resolved
