-- ===== src/Fat16/Items.antt =====
-- kernel/fs/fat16.c: the directory items of files, and the operations on an open file.
use Prim.Native.Nat.{bit_and, bit_or}
use enki_os.Base.{
  ℕ, zero, suc, ◌+◌, ◌&&◌, ◌||◌, not, none, some, Option, List, [], ◌∷◌, ◌++◌, leb, ltb, ◌-◌, ◌^◌,
  ◌==◌, if◌then◌else◌, get_or, ◌>>=◌,
}
use enki_os.Base.Int.{ℤ, pos, negsuc, is_neg}
use enki_os.Base.Memory.{Memory}
use enki_os.Base.Word.{u32}
use enki_os.Status.{eio, einvarg, eunimp}
use enki_os.Fat16.{FatPrivate, fat16_read_internal}

abbrev pub fat_file_read_only : ℕ
fat_file_read_only = 0x01

abbrev pub file_stat_read_only : ℕ
file_stat_read_only = 0b00000001

pub record FatDirItem : Type 0 where
  pub name : List ℕ
  pub ext : List ℕ
  pub attribute : ℕ
  pub high_first_cluster : ℕ
  pub low_first_cluster : ℕ
  pub file_size : ℕ

-- A 32-bit word as an int.
abbrev as_int : ℕ → ℤ
as_int n = if ltb n (2 ^ 31) then pos n else negsuc (2 ^ 32 - 1 - n)

-- An open item: a directory, whose entries no operation on a descriptor reads, or a file.
pub data FatItem : Type 0 where
  fat_dir : FatItem
  fat_file : FatDirItem → FatItem

pub record FatFileDescriptor : Type 0 where
  pub item : FatItem
  pub pos : ℕ

pub data FileSeekMode : Type 0 where
  seek_set : FileSeekMode
  seek_cur : FileSeekMode
  seek_end : FileSeekMode
  seek_invalid : FileSeekMode

-- The characters that are copied, before the NUL. `size` bounds them.
unfoldable pub fat16_fmt_str : ℕ → List ℕ → List ℕ
fat16_fmt_str zero s = []
fat16_fmt_str (suc size) [] = []
fat16_fmt_str (suc size) (c ∷ s) =
    let rest = fat16_fmt_str size s in if c == 0x00 || c == 0x20 then [] else c ∷ rest

unfoldable pub fat16_file_name_resolve : FatDirItem → List ℕ
fat16_file_name_resolve item =
    let stem = fat16_fmt_str 8 item.name in
    let first = get_or item.ext 0 0 in
    if not (first == 0x00) && not (first == 0x20)
    then stem ++ b'.' ∷ fat16_fmt_str 3 item.ext
    else stem

unfoldable pub fat16_get_first_cluster : FatDirItem → ℕ
fat16_get_first_cluster item = bit_or item.high_first_cluster item.low_first_cluster

unfoldable pub fat16_seek : FatFileDescriptor → ℕ → FileSeekMode → ℤ × FatFileDescriptor
fat16_seek desc offset mode = elim desc.item [
  | fat_dir ↦ (einvarg, desc)
  | fat_file item ↦ if leb item.file_size offset then (eio, desc) else elim mode [
    | seek_set ↦ (pos 0, record { item = desc.item; pos = offset })
    | seek_cur ↦ (pos 0, record { item = desc.item; pos = u32 (desc.pos + offset) })
    | seek_end ↦ (eunimp, desc)
    | seek_invalid ↦ (einvarg, desc)
  ]
]

-- The status, and the flags and the size where it is 0.
unfoldable pub fat16_stat : FatFileDescriptor → ℤ × Option (ℕ × ℕ)
fat16_stat desc = elim desc.item [
  | fat_dir ↦ (einvarg, none)
  | fat_file item ↦
      let flags =
        if not (bit_and item.attribute fat_file_read_only == 0)
        then bit_or 0x00 file_stat_read_only
        else 0x00 in
      (pos 0, some (flags, item.file_size))
]

module _ (disk : ℕ) (disk_read_sector : ℕ → ℕ → (ℕ → ℕ) → ℤ × (ℕ → ℕ)) (stack : ℕ → ℕ) where
  -- for (; n rounds; i++); `fuel` bounds the calls of each read
  unfoldable pub read_blocks :
      ℕ → ℕ → ℕ → ℕ → ℕ → ℕ → FatPrivate → Memory → Option (Option ℤ × FatPrivate × Memory)
  read_blocks fuel zero cluster offset size out p m = some (none, p, m)
  read_blocks fuel (suc n) cluster offset size out p m =
      fat16_read_internal disk disk_read_sector stack fuel cluster offset size out p m >>= λ read.
      let rest = read_blocks fuel n cluster (u32 (offset + size)) size (out + size) read.1 read.2 in
      if is_neg read.0 then some (some read.0, read.1, read.2) else rest

  -- The descriptor's position is left where it was.
  unfoldable pub fat16_read :
      ℕ
      → FatFileDescriptor
      → FatDirItem
      → ℕ
      → ℕ
      → ℕ
      → FatPrivate
      → Memory
      → Option (ℤ × FatPrivate × Memory)
  fat16_read fuel desc item size blocks out p m =
      read_blocks fuel blocks (fat16_get_first_cluster item) desc.pos size out p m >>= λ read.
      some (elim read.0 [ none ↦ as_int blocks | some result ↦ result ], read.1, read.2)
