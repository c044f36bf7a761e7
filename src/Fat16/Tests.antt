-- ===== src/Fat16/Tests.antt =====
-- The theorems of fat16.c on a disk whose file starts in cluster 2 and goes on in cluster 3.
pub mod Search
use enki_os.Base.{
  ap, ℕ, ◌+◌, ◌*◌, ◌/◌, ◌%◌, ◌≤◌, ◌≡◌, refl, true, some, none, Option, [], ◌∷◌, arith, ltb, ◌==◌,
  if◌then◌else◌,
}
use enki_os.Base.Int.{ℤ, pos}
use enki_os.Base.Memory.{Memory}
use enki_os.Base.Word.{u32, store32}
use enki_os.Status.{eio, efsnotus}
use enki_os.Libc.Bytes.{memset}
use enki_os.Heap.{
  heap_malloc, heap_get_start_block, heap_get_entry_type, heap_block_to_address,
  heap_mark_blocks_taken, heap_mark_blocks_free, heap_address_to_block, heap_free,
}
use enki_os.Kheap.{kzalloc, kfree}
use enki_os.Kheap.Zeroed.{kernel_heap}
use enki_os.Disk.{
  undefined, offset_of, sector_of, DiskStream, disk_stream_read, disk_get, copy_out,
  disk_read_block,
}
use enki_os.Disk.Stream.{Serves}
use enki_os.Fat16.{
  unsigned, fat16_cluster_to_sector, FatPrivate, stops, cluster_loop, fat16_read_internal,
}
use enki_os.Fat16.Chain.{Linked, SameFs, cluster_loop-chain, cluster_loop-stops}
use enki_os.Fat16.Contents.{file_byte, Readable, Copied}
use enki_os.Fat16.Reads.{read_internal-Copied}
use enki_os.Fat16.Items.{
  FatDirItem, seek_cur, fat16_seek, fat16_get_first_cluster, fat16_file_name_resolve,
}
use enki_os.Fat16.Directory.{
  FatDisk, set_dir_item, set_dir_total, fat16_get_dir_items, fat16_load_fat_dir, fat16_get_root,
  count_items,
}
use enki_os.Fat16.Resolve.{disk_stream_new, fat16_init_private, fat16_resolve}
use enki_os.Fat16.Listing.{get_dir_items-live, load_fat_dir_fails}
use enki_os.Fat16.Names.{pad, resolve-pad}
use enki_os.Fat16.Open.{at, seek_cur_passes}

-- The table is in sector 1.
abbrev pub image : ℕ → ℕ → ℕ
image lba i = if lba == 1 then (if i == 4 then 3 else 0) else (lba + i) % 256

abbrev pub read_sector : ℕ → ℕ → (ℕ → ℕ) → ℤ × (ℕ → ℕ)
read_sector lba total buf =
    (pos 0, λ i. if ltb i (512 * total) then image (lba + i / 512) (i % 512) else buf i)

serves : Serves image read_sector
serves = record {
  status = λ lba total buf. refl;
  bytes = λ lba total buf i lt.
      let inside : ltb i (512 * total) ≡ true = ground arith in rw inside refl;
}

abbrev pub zeros : Memory
zeros a = 0

abbrev stream : DiskStream
stream = record { pos = 0; disk = 7 }

abbrev fs : FatPrivate
fs = record {
  sect_per_cluster = 1;
  reserved_sectors = 1;
  sector_end = 4;
  cluster_read = stream;
  fat_read = stream;
}

fs-Readable : Readable 7 fs
fs-Readable = record {
  some_sectors = omega arith;
  few_reserved = omega arith;
  reached = omega arith;
  low = λ c lt. omega arith;
  clusters = refl;
  fat = refl;
}

linked : Linked image 1 1 2
unfolding Linked stops
linked = (refl, tt)

abbrev hello : FatDirItem
hello = record {
  name = pad 8 (b'H' ∷ b'I' ∷ []);
  ext = pad 3 (b'T' ∷ []);
  attribute = 0;
  high_first_cluster = 0;
  low_first_cluster = 2;
  file_size = 700;
}

cluster_loop-chain_example :
    (p' : FatPrivate) × (cluster_loop 7 read_sector zeros 1 (pos 2) fs ≡ some (pos 3, p'))
    × SameFs fs p'
cluster_loop-chain_example =
    cluster_loop-chain 7 serves zeros 1 2 fs (omega arith) (omega arith) refl linked

cluster_loop-stops_example :
    (p' : FatPrivate) × (cluster_loop 7 read_sector zeros 2 (pos 2) fs ≡ some (eio, p'))
unfolding stops
cluster_loop-stops_example =
    cluster_loop-stops 7 serves zeros 1 2 2 fs (omega arith) (omega arith) refl linked refl
      (omega arith)

read_internal-Copied_example :
    (p' : FatPrivate) × (m' : Memory) × SameFs fs p'
    × Copied (λ i. file_byte image fs 2 (0 * 512 + i)) 10 700 zeros m'
    × (fat16_read_internal 7 read_sector zeros 2 2 0 700 10 fs zeros ≡ some (pos 0, p', m'))
read_internal-Copied_example =
    read_internal-Copied 7 serves zeros 1 2 0 2 700 10 fs zeros fs-Readable (omega arith) linked
      (omega arith) (omega arith) (omega arith)

seek_cur_passes_example :
    (q : ℕ) × (fat16_seek (fat16_seek (at hello 0) 699 seek_cur).1 699 seek_cur
      ≡ (pos 0, at hello q))
    × (700 ≤ q)
seek_cur_passes_example = seek_cur_passes hello (omega arith) (omega arith)

resolve-pad_example : fat16_file_name_resolve hello ≡ b'H' ∷ b'I' ∷ b'.' ∷ b'T' ∷ []
resolve-pad_example =
    resolve-pad (b'H' ∷ b'I' ∷ []) (b'T' ∷ []) 0 0 2 700 (omega arith) (omega arith) (omega arith)
      (omega arith)

-- Sector 192 starts with two directory entries, and a third that ends the directory.
abbrev pub fat : FatDisk
fat = record {
  private = fs;
  dir_read = stream;
  number_of_fat = 2;
  sectors_per_fat = 64;
  root_entries = 16;
  root = 0x3000000;
}

abbrev counted_fat : FatDisk
counted_fat = record fat { dir_read = record { pos = 192 * 512 + 32 * 3; disk = 7 } }

get_dir_items-live_example :
    fat16_get_dir_items kernel_heap 7 read_sector zeros 3 192 fat ≡ some (pos 2, counted_fat)
get_dir_items-live_example =
    get_dir_items-live kernel_heap 7 serves zeros 2 3 192 fat refl (omega arith) (omega arith)
      (omega arith, (omega arith, refl))

-- A subdirectory whose entries start in sector 192.
abbrev sub_item : FatDirItem
sub_item = record hello { attribute = 0x10; low_first_cluster = 190 }

sub_sector : fat16_cluster_to_sector fs (fat16_get_first_cluster sub_item) ≡ 192
unfolding fat16_get_first_cluster fat16_cluster_to_sector
sub_sector = refl

abbrev dir_memory : Memory
dir_memory = set_dir_total 0x1000000 (pos 2) (kzalloc kernel_heap 16 zeros).1

first_block : (kzalloc kernel_heap 16 zeros).0 ≡ 0x1000000
unfolding kzalloc heap_malloc heap_get_start_block heap_get_entry_type heap_block_to_address
first_block = refl

second_block : (kzalloc kernel_heap (u32 (u32 2 * 32)) dir_memory).0 ≡ 0x1001000
unfolding kzalloc heap_malloc heap_get_start_block heap_get_entry_type heap_block_to_address
    heap_mark_blocks_taken store32 memset unsigned
second_block = refl

load_fat_dir_fails_example :
    fat16_load_fat_dir kernel_heap 7 read_sector zeros 3 sub_item fat zeros
    ≡ some (
      0,
      counted_fat,
      kfree kernel_heap 0x1000000
          (set_dir_item 0x1000000 0x1001000 (kzalloc kernel_heap (u32 (u32 2 * 32)) dir_memory).1),
    )
load_fat_dir_fails_example =
    load_fat_dir_fails kernel_heap 7 read_sector zeros 3 2 sub_item fat counted_fat zeros 0x1000000
      0x1001000 (kzalloc kernel_heap 16 zeros).1
      (kzalloc kernel_heap (u32 (u32 2 * 32)) dir_memory).1 (omega arith)
      (ap (λ d. (d, (kzalloc kernel_heap 16 zeros).1)) first_block) (omega arith)
      (rw sub_sector (
        get_dir_items-live kernel_heap 7 serves zeros 2 3 192 fat refl (omega arith) (omega arith)
          (omega arith, (omega arith, refl))))
      (ap (λ d. (d, (kzalloc kernel_heap (u32 (u32 2 * 32)) dir_memory).1)) second_block)
      (omega arith) (omega arith)

abbrev resolve_status : Option (ℤ × Option FatDisk × Memory) → ℤ
resolve_status (some r) = r.0
resolve_status none = pos 1

-- A disk whose boot sector has not the signature of an extended FAT header.
resolve_unsigned :
    resolve_status (fat16_resolve kernel_heap 7 read_sector zeros 3 0 zeros) ≡ efsnotus
unfolding kzalloc kfree heap_malloc heap_free heap_get_start_block heap_get_entry_type
    heap_block_to_address heap_mark_blocks_taken heap_mark_blocks_free heap_address_to_block store32
    memset disk_stream_new disk_stream_read undefined offset_of sector_of disk_get disk_read_block
    copy_out fat16_init_private fat16_resolve fat16_get_root fat16_get_dir_items count_items
resolve_unsigned = refl
