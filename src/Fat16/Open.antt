-- ===== src/Fat16/Open.antt =====
-- fat16.c: reading and seeking by a descriptor.
use enki_os.Base.{ℕ, ◌+◌, ◌-◌, ◌*◌, ◌^◌, ◌≤◌, ◌<◌, ◌≡◌, ◌∙◌, refl, ap, false, arith, leb}
use enki_os.Base.Int.{pos}
use enki_os.Base.Memory.{Memory}
use enki_os.Base.Word.{u32}
use enki_os.Fat16.Items.{FatDirItem, fat_file, FatFileDescriptor, seek_cur, fat16_seek}

abbrev pub at : FatDirItem → ℕ → FatFileDescriptor
at item position = record { item = fat_file item; pos = position }

seek-eq :
    (item : FatDirItem) (q offset : ℕ)
    → offset < item.file_size
    → fat16_seek (at item q) offset seek_cur ≡ (pos 0, at item (u32 (q + offset)))
unfolding fat16_seek
seek-eq item q offset lt =
    let inside : leb item.file_size offset ≡ false = ground arith in rw inside refl

-- Twice a seek from the current position, each by an offset inside a file of at least two bytes, leaves
-- a position at or behind the file's end.
pub seek_cur_passes :
    (item : FatDirItem)
    → 2 ≤ item.file_size
    → item.file_size < 2 ^ 31
    → (q : ℕ) × (fat16_seek
          (fat16_seek (at item 0) (item.file_size - 1) seek_cur).1
          (item.file_size - 1)
          seek_cur
        ≡ (pos 0, at item q))
      × (item.file_size ≤ q)
seek_cur_passes item two small =
    let place : u32 (u32 (0 + (item.file_size - 1)) + (item.file_size - 1))
        ≡ 2 * item.file_size - 2 =
      omega arith in
    let first = seek-eq item 0 (item.file_size - 1) (omega arith) in
    (
      2 * item.file_size - 2,
      ap (λ r. fat16_seek r.1 (item.file_size - 1) seek_cur) first
          ∙ seek-eq item (u32 (0 + (item.file_size - 1))) (item.file_size - 1) (omega arith)
          ∙ ap (λ q. (pos 0, at item q)) place,
      omega arith,
    )
