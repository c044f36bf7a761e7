-- ===== src/Fat16/Lookup.antt =====
-- kernel/fs/fat16.c: how a path leads to an item, how a file is opened and closed, and how a disk is
-- taken for FAT16.
use enki_os.Base.{
  ℕ, zero, suc, ◌+◌, ◌*◌, not, some, Option, List, [], ◌∷◌, ◌==◌, if◌then◌else◌, ◌>>=◌,
}
use enki_os.Base.Int.{ℤ, pos, ◌==ℤ◌}
use enki_os.Base.Memory.{Memory, store}
use enki_os.Base.Word.{load32, store32}
use enki_os.Status.{eio, enomem, erdonly}
use enki_os.Libc.Bytes.{memset}
use enki_os.Libc.Text.{istrncmp}
use enki_os.Path.{max_path}
use enki_os.Heap.{Heap}
use enki_os.Kheap.{kzalloc, kfree}
use enki_os.Fat16.{unsigned}
use enki_os.Fat16.Items.{FatDirItem, fat16_file_name_resolve}
use enki_os.Fat16.Directory.{
  FatDisk, dir_item, total_rounds, fat16_fat_item_free, fat16_new_item_for_dir,
}

-- A file's mode, as a number.
abbrev pub file_mode_read : ℕ
file_mode_read = 0

-- The characters of a text, without a NUL behind them.
abbrev pub store_chars : ℕ → List ℕ → Memory → Memory
store_chars p [] m = m
store_chars p (c ∷ s) m = store_chars (p + 1) s (store m p c)

-- The resolved name in a buffer that has been cleared.
unfoldable pub resolve_into : FatDirItem → ℕ → Memory → Memory
resolve_into item out m =
    store_chars out (fat16_file_name_resolve item) (memset out 0x00 max_path m)

module _ (heap : Heap) (disk : ℕ) (disk_read_sector : ℕ → ℕ → (ℕ → ℕ) → ℤ × (ℕ → ℕ)) (stack : ℕ → ℕ)
    (tmp_name : ℕ) where
  -- What a round of the search does: a match takes the place of an earlier one.
  unfoldable pub match_item : ℕ → ℕ → ℕ → ℕ → FatDisk → Memory → Option (ℕ × FatDisk × Memory)
  match_item fuel entry name item fat m =
      let m' = resolve_into (dir_item m entry) tmp_name m in
      let matched = fat16_new_item_for_dir heap disk disk_read_sector stack fuel entry fat m' in
      if istrncmp tmp_name name max_path m' ==ℤ pos 0 then matched else some (item, fat, m')

  -- for (; n rounds; i++)
  unfoldable pub find_item_loop :
      ℕ → ℕ → ℕ → ℕ → ℕ → ℕ → FatDisk → Memory → Option (ℕ × FatDisk × Memory)
  find_item_loop fuel zero i dir name item fat m = some (item, fat, m)
  find_item_loop fuel (suc n) i dir name item fat m =
      match_item fuel (load32 m dir + i * 32) name item fat m >>= λ found.
      find_item_loop fuel n (i + 1) dir name found.0 found.1 found.2

  -- The address of the item, or 0. The bound of the loop is read once: a round writes to memory that it
  -- allocates and to its own buffer.
  unfoldable pub fat16_find_item_in_dir :
      ℕ → ℕ → ℕ → FatDisk → Memory → Option (ℕ × FatDisk × Memory)
  fat16_find_item_in_dir fuel dir name fat m =
      find_item_loop fuel (total_rounds m dir) 0 dir name 0 fat m

  -- while (next_path != 0), on the addresses of the parts that are left. A missing item is read at
  -- the address 0, as the code does.
  unfoldable pub entry_loop : ℕ → ℕ → List ℕ → FatDisk → Memory → Option (ℕ × FatDisk × Memory)
  entry_loop fuel current [] fat m = some (current, fat, m)
  entry_loop fuel current (part ∷ parts) fat m =
      let deeper = fat16_find_item_in_dir fuel (load32 m current) part fat m >>= λ found.
      fat16_fat_item_free heap current found.2 >>= λ m'. entry_loop fuel found.0 parts found.1 m' in
      if not (load32 m (current + 4) == 0) then some (0, fat, m) else deeper

  unfoldable pub fat16_get_dir_entry :
      ℕ → ℕ → List ℕ → FatDisk → Memory → Option (ℕ × FatDisk × Memory)
  fat16_get_dir_entry fuel part parts fat m =
      fat16_find_item_in_dir fuel fat.root part fat m >>= λ found.
      let rest = entry_loop fuel found.0 parts found.1 found.2 in
      if found.0 == 0 then some (0, found.1, found.2) else rest

  -- The address of the descriptor, or an error as a pointer.
  unfoldable pub fat16_open : ℕ → ℕ → List ℕ → ℕ → FatDisk → Memory → Option (ℕ × FatDisk × Memory)
  fat16_open fuel part parts mode fat m =
      let (descriptor, m1) = kzalloc heap 8 m in
      let opened = fat16_get_dir_entry fuel part parts fat m1 >>= λ found.
      let m2 = store32 found.2 descriptor found.0 in
      some (
        if found.0 == 0
        then (unsigned eio, found.1, kfree heap descriptor m2)
        else (descriptor, found.1, store32 m2 (descriptor + 4) 0)) in
      if not (mode == file_mode_read)
      then some (unsigned erdonly, fat, m)
      else if descriptor == 0
      then some (unsigned enomem, fat, m1)
      else opened

-- None where the kernel panics.
unfoldable pub fat16_close : Heap → ℕ → Memory → Option Memory
fat16_close heap desc m =
    fat16_fat_item_free heap (load32 m desc) m >>= λ m'. some (kfree heap desc m')
