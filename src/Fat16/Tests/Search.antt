-- ===== src/Fat16/Tests/Search.antt =====
-- fat16.c: the search of a root directory that holds one file, `HI.T`, for another.

use enki_os.Base.{
  ap, ℕ, ◌+◌, ◌-◌, ◌<◌, ◌≡◌, ◌≢◌, ◌∙◌, refl, sym, some, [], ◌∷◌, arith, ltb, leb, ◌&&◌,
  if◌then◌else◌, get_or,
}
use enki_os.Base.Int.{pos, pos_part}
use enki_os.Base.Memory.{Memory}
use enki_os.Base.Word.{load32}
use enki_os.Status.{eio}
use enki_os.Libc.Bytes.{memset}
use enki_os.Libc.Chars.{schar, tolower}
use enki_os.Heap.{
  heap_malloc, heap_get_start_block, heap_get_entry_type, heap_block_to_address,
  heap_mark_blocks_taken,
}
use enki_os.Heap.Create.{Blocks-zeros}
use enki_os.Kheap.{kernel_heap_table, kzalloc}
use enki_os.Kheap.Zeroed.{kernel_heap}
use enki_os.Kheap.Page.{Room}
use enki_os.Fat16.{unsigned}
use enki_os.Fat16.Items.{fat16_fmt_str, fat16_file_name_resolve}
use enki_os.Fat16.Directory.{FatDisk, total_rounds, dir_item}
use enki_os.Fat16.Lookup.{fat16_open, file_mode_read}
use enki_os.Fat16.Missing.{Elsewhere, Differs, Missing, open-Missing}
use enki_os.Fat16.Tests.{read_sector, zeros, fat}

-- The directory is at 0x8000000, its entry at 0x8001000, and the name at 0x8002000.
abbrev disk_memory : Memory
disk_memory a =
    if leb 0x8000000 a && ltb a 0x8000008
    then get_or (0x00 ∷ 0x10 ∷ 0x00 ∷ 0x08 ∷ 1 ∷ []) (a - 0x8000000) 0
    else if leb 0x8001000 a && ltb a 0x8001020
    then get_or (b'H' ∷ b'I' ∷ 0x20 ∷ 0x20 ∷ 0x20 ∷ 0x20 ∷ 0x20 ∷ 0x20 ∷ b'T' ∷ 0x20 ∷ 0x20 ∷ [])
        (a - 0x8001000) 0
    else if leb 0x8002000 a && ltb a 0x8002002
    then get_or (b'n' ∷ b'o' ∷ []) (a - 0x8002000) 0
    else 0

abbrev root_fat : FatDisk
root_fat = record fat { root = 0x8000000 }

abbrev opened_memory : Memory
opened_memory = (kzalloc kernel_heap 8 disk_memory).1

low_zero : (a : ℕ) → a < 0x8000000 → disk_memory a ≡ 0
low_zero a lt = ground arith

room : Room disk_memory 0 1
unfolding heap_get_entry_type
room = record {
  ready =
      Blocks-zeros disk_memory kernel_heap_table.entries kernel_heap_table.length
        (λ a lo hi. low_zero a (omega arith));
  vacant =
      λ j lo hi. ap heap_get_entry_type (low_zero (kernel_heap_table.entries + j) (omega arith));
  within = omega arith;
}

root_items : load32 opened_memory 0x8000000 ≡ 0x8001000
unfolding kzalloc heap_malloc heap_get_start_block heap_get_entry_type heap_block_to_address
    heap_mark_blocks_taken memset load32
root_items = refl

root_rounds : total_rounds opened_memory 0x8000000 ≡ 1
unfolding kzalloc heap_malloc heap_get_start_block heap_get_entry_type heap_block_to_address
    heap_mark_blocks_taken memset load32
root_rounds = refl

entry_first :
    schar (tolower (get_or (fat16_file_name_resolve (dir_item opened_memory 0x8001000)) 0 0))
    ≡ pos b'h'
unfolding kzalloc heap_malloc heap_get_start_block heap_get_entry_type heap_block_to_address
    heap_mark_blocks_taken memset load32 tolower fat16_file_name_resolve fat16_fmt_str
entry_first = refl

name_first : schar (tolower (opened_memory (0x8002000 + 0))) ≡ pos b'n'
unfolding kzalloc heap_malloc heap_get_start_block heap_get_entry_type heap_block_to_address
    heap_mark_blocks_taken memset tolower
name_first = refl

letters_differ : (a b : ℕ) → a < b → pos a ≢ pos b
letters_differ a b lt e = let same : a ≡ b = ap pos_part e in omega arith

entry-Differs : Differs 0x8001000 0x8002000 opened_memory
entry-Differs =
    (0, omega arith, λ e. letters_differ b'h' b'n' (omega arith) (sym entry_first ∙ e ∙ name_first))

nothing : Missing 0x8003000 0x8000000 0x8002000 1 opened_memory
nothing = record {
  head = λ a lo hi. ground arith;
  entries = rw root_items (λ a lo hi. ground arith);
  text = λ a lo hi. ground arith;
  differs = λ i lt. let e : i ≡ 0 = omega arith in rw (e, root_items) entry-Differs;
}

open-Missing_example :
    (m' : Memory) × (fat16_open kernel_heap 7 read_sector zeros 0x8003000 3 0x8002000 []
        file_mode_read root_fat disk_memory
      ≡ some (unsigned eio, root_fat, m'))
    × ((a : ℕ) → Elsewhere 0x8003000 disk_memory a → m' a ≡ disk_memory a)
open-Missing_example =
    open-Missing 7 read_sector zeros 0x8003000 3 0x8002000 0 [] root_fat disk_memory room
      (λ a lo hi. ground arith) (rw root_rounds nothing)
