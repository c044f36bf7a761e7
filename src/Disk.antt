-- ===== src/Disk.antt =====
-- kernel/disk/disk.c and kernel/disk/disk_stream.c. The transfer of sectors over the ports of the hard
-- disk, `disk_read_sector`, is a parameter, and so is the address of the primary disk.
pub mod Stream
mod Tests
use enki_os.Base.{
  ℕ, zero, suc, ◌+◌, ◌-◌, ◌/◌, ◌%◌, not, ◌&&◌, ◌||◌, Bool, ltb, ◌^◌, ◌*◌, none, some, Option, leb,
  ◌==◌, if◌then◌else◌,
}
use enki_os.Base.Int.{ℤ, pos, is_neg}
use enki_os.Base.Memory.{Memory, store}
use enki_os.Base.Word.{u32}
use enki_os.Status.{eio, sector_size}

-- `pos` is a C int, kept as its 32-bit word: below 0 from 2 ^ 31 on.
pub record DiskStream : Type 0 where
  pub pos : ℕ
  pub disk : ℕ

-- for (; n rounds; i++) *(char*)out++ = buf[offset + i], with the new `out`
unfoldable pub copy_out : ℕ → ℕ → ℕ → (ℕ → ℕ) → ℕ → Memory → Memory
copy_out zero i out buf offset m = m
copy_out (suc n) i out buf offset m =
    copy_out n (i + 1) (out + 1) buf offset (store m out (buf (offset + i)))

-- An int, as a word: its quotient by the size of a sector, which is rounded towards 0, as a word.
unfoldable pub sector_of : ℕ → ℕ
sector_of p = if ltb p (2 ^ 31) then p / sector_size else u32 (2 ^ 32 - (2 ^ 32 - p) / sector_size)

-- The place in the sector. It is below 0 for an int below 0 that is not a multiple, where the code
-- copies from in front of its buffer: see `undefined`.
unfoldable pub offset_of : ℕ → ℕ
offset_of p = if ltb p (2 ^ 31) then p % sector_size else 0

-- The rounds of a loop up to an int.
abbrev pub rounds_of : ℕ → ℕ
rounds_of n = if ltb n (2 ^ 31) then n else 0

-- Do `total` bytes, of which `read` come from this sector, take the code from position `p` in front of
-- its buffer, or one of its ints past its range? C leaves open what happens then.
unfoldable pub undefined : ℕ → ℕ → ℕ → Bool
undefined p read total =
    not (rounds_of total == 0) && (not (ltb p (2 ^ 31)) && not ((2 ^ 32 - p) % sector_size == 0))
    || leb (2 ^ 31) (offset_of p + rounds_of total)
    || ltb p (2 ^ 31) && ltb read (2 ^ 31) && leb (2 ^ 31) (p + read)
    || leb (2 ^ 31) p && leb (2 ^ 31) read && ltb (p + read) (2 ^ 32 + 2 ^ 31)

module _ (disk : ℕ) (disk_read_sector : ℕ → ℕ → (ℕ → ℕ) → ℤ × (ℕ → ℕ)) where
  -- The address of the disk, 0 where there is none.
  unfoldable pub disk_get : ℕ → ℕ
  disk_get idx = if not (idx == 0) then 0 else disk

  unfoldable pub disk_read_block : ℕ → ℕ → ℕ → (ℕ → ℕ) → ℤ × (ℕ → ℕ)
  disk_read_block idisk lba total buf =
      if not (idisk == disk) then (eio, buf) else disk_read_sector lba total buf

  -- `fuel` bounds the calls; none out of it, and where C leaves the result open. `buf` is what the
  -- stack holds before a sector is read into it. `total` is an int, as a word.
  unfoldable pub disk_stream_read :
      ℕ → DiskStream → ℕ → ℕ → (ℕ → ℕ) → Memory → Option (ℤ × DiskStream × Memory)
  unfolding copy_out disk_read_block
  disk_stream_read zero stream out total buf m = none
  disk_stream_read (suc fuel) stream out total buf m =
      let sector = sector_of stream.pos in
      let offset = offset_of stream.pos in
      let overflow = leb sector_size (offset + rounds_of total) in
      let read = if overflow then total - (offset + total - sector_size) else total in
      let (block, buf) = disk_read_block stream.disk sector 1 buf in
      let m' = copy_out (rounds_of read) 0 out buf offset m in
      let stream' : DiskStream = record { pos = u32 (stream.pos + read); disk = stream.disk } in
      let rest = disk_stream_read fuel stream' (out + read) (total - read) buf m' in
      if is_neg block
      then some (block, stream, m)
      else if undefined stream.pos read total
      then none
      else if overflow
      then rest
      else some (block, stream', m')

unfoldable pub disk_stream_seek : DiskStream → ℕ → ℤ × DiskStream
disk_stream_seek stream at = (pos 0, record { pos = at; disk = stream.disk })
