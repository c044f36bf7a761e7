-- ===== src/Fat16/Listing.antt =====
-- fat16.c: the count of a directory's entries, and the loading of a subdirectory.
use Prim.Native.Nat.{bit_and}
use native.Mathlib.Nat.{zero-add}
use enki_os.Base.{
  ℕ, zero, suc, ◌+◌, ◌*◌, ◌^◌, ◌<◌, ◌≡◌, ◌≢◌, ◌∙◌, refl, ap, false, some, arith, ◌==◌,
  if◌then◌else◌,
}
use enki_os.Base.Int.{ℤ, pos}
use enki_os.Base.Memory.{Memory}
use enki_os.Base.Word.{u32, load32, store32, load32-store32_self}
use enki_os.Heap.{Heap}
use enki_os.Kheap.{kzalloc, kfree}
use enki_os.Disk.{disk_stream_seek}
use enki_os.Disk.Stream.{Serves, disk_byte, disk_stream_read-Read}
use enki_os.Fat16.{unsigned, fat16_cluster_to_sector}
use enki_os.Fat16.Items.{FatDirItem, fat16_get_first_cluster}
use enki_os.Fat16.Directory.{
  FatDisk, set_dir_item, set_dir_total, fat16_free_dir, count_items, fat16_get_dir_items,
  fat16_load_fat_dir,
}

-- The directory at byte `p` has `n` entries in front of the one that ends it.
abbrev pub Ends : (ℕ → ℕ → ℕ) → ℕ → ℕ → Type 0
Ends image p zero = disk_byte image p ≡ 0x00
Ends image p (suc n) = (disk_byte image p ≢ 0x00) × Ends image (p + 32) n

-- How many of the `n` entries are in use.
abbrev pub live : (ℕ → ℕ → ℕ) → ℕ → ℕ → ℕ
live image p zero = 0
live image p (suc n) = (if disk_byte image p == 0xE5 then 0 else 1) + live image (p + 32) n

module _ {image : ℕ → ℕ → ℕ} (heap : Heap) (disk : ℕ) {drs : ℕ → ℕ → (ℕ → ℕ) → ℤ × (ℕ → ℕ)}
    (serves : Serves image drs) (stack : ℕ → ℕ) where
  count_items-live :
      (n fuel i p : ℕ)
      → n < fuel
      → p + 32 * (n + 1) < 2 ^ 31
      → Ends image p n
      → count_items heap disk drs stack fuel i (record { pos = p; disk = disk })
        ≡ some (pos (i + live image p n), record { pos = p + 32 * (n + 1); disk = disk })
  unfolding count_items
  count_items-live n zero i p lt small ends = absurd (omega arith)
  count_items-live zero (suc fuel) i p lt small ends =
      let (m', e, read) =
        disk_stream_read-Read disk serves 33 p 0 32 stack (λ a. 0) (omega arith) (omega arith) in
      let last : m' 0 ≡ 0 = ground (arith, read 0) in rw (e, last) (ground arith)
  count_items-live (suc n) (suc fuel) i p lt small (more, ends) =
      let (m', e, read) =
        disk_stream_read-Read disk serves 33 p 0 32 stack (λ a. 0) (omega arith) (omega arith) in
      let first : m' 0 ≡ disk_byte image p = ground (arith, read 0) in
      let busy : (disk_byte image p == 0x00) ≡ false = ground arith in
      let next = if disk_byte image p == 0xE5 then i else i + 1 in
      let rest = count_items-live n fuel next (p + 32) (omega arith) (omega arith) ends in
      let count : next + live image (p + 32) n ≡ i + live image p (suc n) = ground arith in
      let end : p + 32 + 32 * (n + 1) ≡ p + 32 * (suc n + 1) = omega arith in
      rw (e, first, busy)
        (rest
          ∙ ap (λ k. some (pos k, record { pos = p + 32 + 32 * (n + 1); disk = disk })) count
          ∙ ap (λ k. some (pos (i + live image p (suc n)), record { pos = k; disk = disk })) end)

  -- On a disk that serves whole sectors, where the stream is on it, a directory whose end is reached,
  -- below byte 2 ^ 31 of the disk, is counted with any fuel above the entries in front of the end: the entries in front of the first that starts with 0,
  -- less those that are marked as free.
  pub get_dir_items-live :
      (n fuel sector : ℕ) (fat : FatDisk)
      → fat.dir_read.disk ≡ disk
      → sector * 512 + 32 * (n + 1) < 2 ^ 31
      → n < fuel
      → Ends image (sector * 512) n
      → fat16_get_dir_items heap disk drs stack fuel sector fat
        ≡ some (
          pos (live image (sector * 512) n),
          record fat { dir_read = record { pos = sector * 512 + 32 * (n + 1); disk = disk } },
        )
  unfolding fat16_get_dir_items disk_stream_seek
  get_dir_items-live n fuel sector fat same small lt ends =
      let start : u32 (sector * 512) ≡ sector * 512 = omega arith in
      let counted = count_items-live n fuel 0 (sector * 512) lt small ends in
      rw (same, start) (rw counted (rw (zero-add (live image (sector * 512) n)) refl))

-- A subdirectory is not loaded where its items can be allocated: the answer is 0, and the items are
-- not freed.
pub load_fat_dir_fails :
    (heap : Heap) (disk : ℕ) (drs : ℕ → ℕ → (ℕ → ℕ) → ℤ × (ℕ → ℕ)) (stack : ℕ → ℕ) (fuel n : ℕ)
    (item : FatDirItem) (fat fat' : FatDisk) (m : Memory) (dir items : ℕ) (m1 m3 : Memory)
    → bit_and item.attribute 0x10 ≢ 0
    → kzalloc heap 16 m ≡ (dir, m1)
    → 0 < dir
    → fat16_get_dir_items heap disk drs stack fuel
        (fat16_cluster_to_sector fat.private (fat16_get_first_cluster item))
        fat
      ≡ some (pos n, fat')
    → kzalloc heap (u32 (u32 n * 32)) (set_dir_total dir (pos n) m1) ≡ (items, m3)
    → 0 < items
    → items < 2 ^ 32
    → fat16_load_fat_dir heap disk drs stack fuel item fat m
      ≡ some (0, fat', kfree heap dir (set_dir_item dir items m3))
unfolding fat16_load_fat_dir unsigned fat16_free_dir
load_fat_dir_fails heap disk drs stack fuel n item fat fat' m dir items m1 m3 sub e pd counted e' pi
      li =
    let attr : (bit_and item.attribute 0x10 == 0) ≡ false = ground arith in
    let some_dir : (dir == 0) ≡ false = ground arith in
    let load : load32 (store32 m3 dir items) dir ≡ items =
      load32-store32_self m3 dir items ∙ omega arith in
    let some_items : (items == 0) ≡ false = ground arith in
    rw (e, attr, some_dir, counted) (rw (e', load, some_items) refl)
