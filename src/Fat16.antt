-- ===== src/Fat16.antt =====
-- kernel/fs/fat16.c: the chains of clusters, the reading of files, and the file descriptors. The streams
-- of the private structure are there (none is null); the allocations are left out.
mod Buffer
mod Chain
mod Contents
pub mod Directory
pub mod Lookup
mod Listing
mod Missing
pub mod Items
mod Names
mod Open
mod Reads
pub mod Resolve
mod Tests
use enki_os.Base.{
  ℕ, zero, suc, ◌+◌, ◌-◌, ◌*◌, ◌/◌, ◌%◌, ◌^◌, Bool, ◌||◌, ◌&&◌, not, none, some, Option, ◌++◌, ltb,
  ◌==◌, if◌then◌else◌, ◌>>=◌,
}
use enki_os.Base.Int.{ℤ, pos, negsuc, is_neg, pos_part, ◌==ℤ◌}
use enki_os.Base.Memory.{Memory}
use enki_os.Base.Word.{u32}
use enki_os.Status.{eio, sector_size}
use enki_os.Disk.{DiskStream, rounds_of, disk_stream_seek, disk_stream_read}

-- The fields of `struct fat_private` that the reading of files uses.
pub record FatPrivate : Type 0 where
  pub sect_per_cluster : ℕ
  pub reserved_sectors : ℕ
  pub sector_end : ℕ
  pub cluster_read : DiskStream
  pub fat_read : DiskStream

abbrev pub with_fat_read : FatPrivate → DiskStream → FatPrivate
with_fat_read p stream = record {
  sect_per_cluster = p.sect_per_cluster;
  reserved_sectors = p.reserved_sectors;
  sector_end = p.sector_end;
  cluster_read = p.cluster_read;
  fat_read = stream;
}

abbrev pub with_cluster_read : FatPrivate → DiskStream → FatPrivate
with_cluster_read p stream = record {
  sect_per_cluster = p.sect_per_cluster;
  reserved_sectors = p.reserved_sectors;
  sector_end = p.sector_end;
  cluster_read = stream;
  fat_read = p.fat_read;
}

-- An int as the unsigned number that the arithmetic with `fat_table_pos` makes of it.
unfoldable pub unsigned : ℤ → ℕ
unsigned (pos n) = u32 n
unsigned (negsuc n) = 2 ^ 32 - 1 - u32 n

-- The entries on which the walk along a chain stops.
unfoldable pub stops : ℤ → Bool
stops entry =
    entry ==ℤ pos 0x00
    || (entry ==ℤ pos 0xFF0
        || (entry ==ℤ pos 0xFF6
            || (entry ==ℤ pos 0xFF7 || (entry ==ℤ pos 0xFF8 || entry ==ℤ pos 0xFFF))))

-- An int, as its word: the sectors of the clusters 0 and 1, which no file has, may lie below 0.
unfoldable pub fat16_cluster_to_sector : FatPrivate → ℕ → ℕ
fat16_cluster_to_sector p cluster = u32 (
    p.sector_end
    + cluster * p.sect_per_cluster
    + 2 ^ 32 * p.sect_per_cluster
    - 2 * p.sect_per_cluster)

-- The remainder of an int, which has the int's sign; both are words.
unfoldable pub int_mod : ℕ → ℕ → ℕ
int_mod n size = if ltb n (2 ^ 31) then n % size else u32 (2 ^ 32 - (2 ^ 32 - n) % size)

-- The disk, and what the stack holds before a sector is read into it. Ints (offsets, counts, positions
-- and starting sectors) are kept as 32-bit words.
module _ (disk : ℕ) (disk_read_sector : ℕ → ℕ → (ℕ → ℕ) → ℤ × (ℕ → ℕ)) (stack : ℕ → ℕ) where
  -- The two bytes are read into a local variable, at 0 of a memory of its own.
  unfoldable pub fat16_get_fat_entry : ℤ → FatPrivate → Option (ℤ × FatPrivate)
  fat16_get_fat_entry cluster p =
      let fat_table_pos = p.reserved_sectors * sector_size in
      let (_, stream) = disk_stream_seek p.fat_read (u32 (fat_table_pos + unsigned cluster * 2)) in
      disk_stream_read disk disk_read_sector 3 stream 0 2 stack (λ a. 0) >>= λ read.
      let p = with_fat_read p read.1 in
      some
        (if is_neg read.0 then (read.0, p) else (pos (read.2 0 % 256 + read.2 1 % 256 * 2 ^ 8), p))

  -- for (; n rounds; i++)
  unfoldable pub cluster_loop : ℕ → ℤ → FatPrivate → Option (ℤ × FatPrivate)
  cluster_loop zero cluster_target p = some (cluster_target, p)
  cluster_loop (suc n) cluster_target p = fat16_get_fat_entry cluster_target p >>= λ read.
      let rest = cluster_loop n read.0 read.1 in if stops read.0 then some (eio, read.1) else rest

  unfoldable pub fat16_get_cluster_offset : ℕ → ℕ → FatPrivate → Option (ℤ × FatPrivate)
  fat16_get_cluster_offset cluster_start offset p =
      let cluster_size = p.sect_per_cluster * sector_size in
      cluster_loop (rounds_of offset / cluster_size) (pos cluster_start) p

  -- `fuel` bounds the calls; none out of it, and where disk_stream_read is none.
  unfoldable pub fat16_read_internal :
      ℕ → ℕ → ℕ → ℕ → ℕ → FatPrivate → Memory → Option (ℤ × FatPrivate × Memory)
  fat16_read_internal zero cluster offset total out p m = none
  fat16_read_internal (suc fuel) cluster offset total out p m =
      let cluster_size = p.sect_per_cluster * sector_size in
      fat16_get_cluster_offset cluster offset p >>= λ found.
      let p = found.1 in
      let cluster_offset = int_mod offset cluster_size in
      let start_sector = fat16_cluster_to_sector p (pos_part found.0) in
      let start_pos = u32 (start_sector * sector_size + cluster_offset) in
      let to_read = if ltb total (2 ^ 31) && ltb cluster_size total then cluster_size else total in
      let (_, stream) = disk_stream_seek p.cluster_read start_pos in
      let answer =
        disk_stream_read disk disk_read_sector (suc to_read) stream out to_read stack m >>= λ read.
        let p = with_cluster_read p read.1 in
        let rest =
          fat16_read_internal fuel cluster (u32 (offset + to_read)) (total - to_read)
            (out + to_read) p read.2 in
        if not (read.0 ==ℤ pos 0)
        then some (read.0, p, read.2)
        else if ltb 0 (total - to_read)
        then rest
        else some (read.0, p, read.2) in
      if is_neg found.0 then some (found.0, p, m) else answer
