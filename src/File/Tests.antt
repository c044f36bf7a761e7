-- ===== src/File/Tests.antt =====
-- The theorems of the descriptor table at an empty one and at one with its last slot free.
use enki_os.Base.{
  ℕ, zero, suc, ◌+◌, ◌≤◌, ◌<◌, ◌≡◌, ◌∙◌, refl, ap, none, some, Option, List, [], ◌∷◌, arith, length,
  get_elem?, length-replicate, replicate,
}
use enki_os.Base.{◌-◌, ◌*◌, get_or, ◌==◌, if◌then◌else◌, false}
use enki_os.Base.Int.{ℤ, pos}
use enki_os.Base.Memory.{Memory, in_range}
use enki_os.Heap.{heap_malloc, heap_get_start_block, heap_get_entry_type, heap_block_to_address}
use enki_os.Kheap.{kzalloc, kfree}
use enki_os.Kheap.Zeroed.{kernel_heap}
use enki_os.Libc.Chars.{isdigit, todigit}
use enki_os.Path.{
  PathRoot, keep_part, path_parse_parts, path_parse, get_part_loop, skip_separator, path_get_part,
  path_get_drive,
}
use enki_os.File.{
  FileDescriptor, file_new_descriptor, file_get_descriptor, mode_write, mode_invalid,
  file_get_mode_from_str,
}
use enki_os.File.Calls.{FileSystem, Disk, Files, is_invalid, fclose, fopen, fread, fseek, fstat}
use enki_os.File.Routing.{fopen-routed}
use enki_os.File.Descriptors.{Used, last_refused}

write_mode : file_get_mode_from_str (b'w' ∷ b'+' ∷ []) ≡ mode_write
unfolding file_get_mode_from_str
write_mode = refl

no_mode : file_get_mode_from_str [] ≡ mode_invalid
unfolding file_get_mode_from_str
no_mode = refl

abbrev pub desc : ℕ → FileDescriptor ℕ
desc i = record { index = i + 1; block = 0; content = 0 }

-- `n` descriptors from number `i + 1` on, and then `k` free slots.
abbrev pub rows : ℕ → ℕ → ℕ → List (Option (FileDescriptor ℕ))
rows zero k i = replicate k none
rows (suc n) k i = some (desc i) ∷ rows n k (i + 1)

get-replicate :
    (k j : ℕ) → j < k → get_elem? {A = Option (FileDescriptor ℕ)} (replicate k none) j ≡ some none
get-replicate zero j lt = absurd (omega arith)
get-replicate (suc k) zero lt = refl
get-replicate (suc k) (suc j) lt = get-replicate k j (omega arith)

length-rows : (n k i : ℕ) → length (rows n k i) ≡ n + k
length-rows zero k i = length-replicate k none ∙ omega arith
length-rows (suc n) k i = omega (arith, length-rows n k (i + 1))

rows_taken : (n k i j : ℕ) → j < n → get_elem? (rows n k i) j ≡ some (some (desc (i + j)))
rows_taken zero k i j lt = absurd (omega arith)
rows_taken (suc n) k i zero lt = ap (λ x. some (some (desc x))) (omega arith)
rows_taken (suc n) k i (suc j) lt =
    rows_taken n k (i + 1) j (omega arith) ∙ ap (λ x. some (some (desc x))) (omega arith)

rows_free : (n k i j : ℕ) → n ≤ j → j < n + k → get_elem? (rows n k i) j ≡ some none
rows_free zero k i j le lt = get-replicate k j (omega arith)
rows_free (suc n) k i zero le lt = absurd (omega arith)
rows_free (suc n) k i (suc j) le lt = rows_free n k (i + 1) j (omega arith) (omega arith)

pub rows-Used : (n k : ℕ) → n + k ≡ 512 → Used n (rows n k 0)
rows-Used n k size = record {
  size = length-rows n k 0 ∙ size;
  taken = λ i lt. (desc (0 + i), rows_taken n k 0 i lt, omega arith);
  free = λ i le lt. rows_free n k 0 i le (omega arith);
}

abbrev empty_memory : Memory
empty_memory a = 0

pub first_block : (kzalloc kernel_heap 16 empty_memory).0 ≡ 0x1000000
unfolding kzalloc heap_malloc heap_get_start_block heap_get_entry_type heap_block_to_address
first_block = refl

last_refused_example :
    (slots' : List (Option (FileDescriptor ℕ))) × (m' : Memory) × (file_new_descriptor kernel_heap
        42
        (rows 511 1 0)
        empty_memory
      ≡ some (pos 0, 512, slots', m'))
    × (file_get_descriptor 512 slots' ≡ none)
last_refused_example =
    last_refused kernel_heap 42 (rows 511 1 0) empty_memory (rows-Used 511 1 refl)
      (rw first_block (omega arith))

-- A file system with a file of 52 bytes, the header of an ELF file. The state is the byte memory.
abbrev pub elf_byte : ℕ → ℕ
elf_byte i = get_or (0x7F ∷ b'E' ∷ b'L' ∷ b'F' ∷ 1 ∷ 1 ∷ []) i (if i == 28 then 52 else 0)

abbrev pub one_file : FileSystem Memory
one_file = record {
  resolve = λ m. (pos 0, m);
  open_path = λ m parts mode. (0x2000000, m);
  read = λ m private size blocks out.
      (pos blocks, λ a. if in_range out (size * blocks) a then elf_byte (a - out) else m a);
  close = λ m private. (pos 0, m);
  seek = λ m private offset mode. (pos 0, m);
  stat = λ m private. (pos 0, some (record { stat_flags = 0; file_size = 52 }));
}

abbrev pub disk : Disk Memory
disk = record { type = 0; disk_sector_size = 512; id = 0; fs = some one_file }

abbrev pub no_files : Files Memory
no_files = record { slots = rows 0 512 0; world = λ a. 0 }

-- "0:/sh"
abbrev pub sh : List ℕ
sh = b'0' ∷ b':' ∷ b'/' ∷ b's' ∷ b'h' ∷ []

abbrev pub sh_root : PathRoot
sh_root = record { drive_no = pos 0; parts = (b's' ∷ b'h' ∷ []) ∷ [] }

pub sh_parsed : path_parse 9 sh ≡ some (some sh_root)
unfolding path_parse path_parse_parts path_get_part get_part_loop skip_separator keep_part
    path_get_drive isdigit todigit
sh_parsed = refl

pub r_mode : is_invalid (file_get_mode_from_str (b'r' ∷ [])) ≡ false
unfolding file_get_mode_from_str
r_mode = refl

-- The memory with the block of the first descriptor.
abbrev opened_memory : Memory
opened_memory = (kzalloc kernel_heap 16 empty_memory).1

fopen-routed_example :
    (slots' : List (Option (FileDescriptor ℕ))) × (fopen kernel_heap
        (λ m. m)
        (λ m m'. m')
        disk
        9
        sh
        (b'r' ∷ [])
        no_files
      ≡ some (pos 1, record { slots = slots'; world = opened_memory }))
    × ((buf size blocks : ℕ) (s : Memory)
        → 0 < size
        → 0 < blocks
        → (fread one_file buf size blocks 1 (record { slots = slots'; world = s })).0
          ≡ (one_file.read s 0x2000000 size blocks buf).0)
    × ((offset : ℤ) (seek_mode : ℕ) (s : Memory)
        → (fseek one_file 1 offset seek_mode (record { slots = slots'; world = s })).0
          ≡ (one_file.seek s 0x2000000 offset seek_mode).0)
    × ((s : Memory)
        → fstat one_file 1 (record { slots = slots'; world = s }) ≡ one_file.stat s 0x2000000)
    × ((s : Memory)
        → (one_file.close s 0x2000000).0 ≡ pos 0
        → fclose kernel_heap (λ m. m) (λ m m'. m') one_file 1 (record { slots = slots'; world = s })
          ≡ (
            pos 0,
            record {
              slots = rows 0 512 0;
              world = kfree kernel_heap (kzalloc kernel_heap 16 empty_memory).0 s;
            },
          ))
fopen-routed_example =
    fopen-routed kernel_heap (λ m. m) (λ m m'. m') one_file disk 9 0 sh (b'r' ∷ []) sh_root no_files
      refl sh_parsed refl (omega arith) r_mode (rows-Used 0 512 refl) (omega arith)
      (rw first_block (omega arith))
