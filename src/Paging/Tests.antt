-- ===== src/Paging/Tests.antt =====
-- The theorems of paging.c on a page directory at 4096 whose tables are the 1024 pages behind it.

use enki_os.Base.{
  ℕ, ◌+◌, ◌-◌, ◌*◌, ◌/◌, ◌%◌, ◌^◌, ◌≤◌, ◌<◌, ◌≡◌, refl, ap, inl, inr, arith, ltb, ◌==◌, leb,
  if◌then◌else◌, ◌∙◌, true, ◌&&◌,
}
use enki_os.Base.Int.{pos}
use enki_os.Base.Bits.{and_page}
use enki_os.Base.Memory.{Memory}
use enki_os.Base.Word.{load32}
use enki_os.Status.{einvarg}
use enki_os.Kheap.Tests.{empty, all-Room}
use enki_os.Kheap.Zeroed.{kernel_heap}
use enki_os.Paging.Identity.{Identity, paging_new-Identity}
use enki_os.Paging.{
  paging_new, paging_get_indices, paging_align_address, paging_align_to_lower, paging_set,
  paging_get, paging_map_to, paging_get_phys_addr,
}
use enki_os.Paging.Address.{get_indices_bounds, align_bounds}
use enki_os.Paging.Entry.{IsDirectory, table_of, get-set}
use enki_os.Paging.Map.{IsPageDir, Mapped, map_to-Mapped, map_to_refused, get_phys_addr-Mapped}

abbrev word : ℕ → ℕ
word i = 8199 + i * 4096

-- Byte `k` of a word.
abbrev byte : ℕ → ℕ → ℕ
byte w k =
    if k == 0
    then w % 256
    else if k == 1
    then w / 2 ^ 8 % 256
    else if k == 2
    then w / 2 ^ 16 % 256
    else w / 2 ^ 24 % 256

-- The word at 0 is the address of the directory.
abbrev pub pages : Memory
pages a =
    if leb 4096 a && ltb a 8192
    then byte (word ((a - 4096) / 4)) (a % 4)
    else if ltb a 4
    then byte 4096 a
    else 0

pages-byte : (i k : ℕ) → i < 1024 → k < 4 → pages (4096 + 4 * i + k) ≡ byte (word i) k
pages-byte i k lt small =
    let row : (4096 + 4 * i + k - 4096) / 4 ≡ i = omega arith in
    let col : (4096 + 4 * i + k) % 4 ≡ k = omega arith in
    let lo : leb 4096 (4096 + 4 * i + k) ≡ true = ground arith in
    let hi : ltb (4096 + 4 * i + k) 8192 ≡ true = ground arith in rw (lo, hi, row, col) refl

load-word : (i : ℕ) → i < 1024 → load32 pages (4096 + 4 * i) ≡ word i
unfolding load32
load-word i lt =
    let first : 4096 + 4 * i ≡ 4096 + 4 * i + 0 = omega arith in
    rw
      (
        pages-byte i 1 lt (omega arith),
        pages-byte i 2 lt (omega arith),
        pages-byte i 3 lt (omega arith),
        ap pages first ∙ pages-byte i 0 lt (omega arith),
      )
      (omega arith)

table-eq : (i : ℕ) → i < 1024 → table_of pages 4096 i ≡ 8192 + i * 4096
table-eq i lt = rw (load-word i lt) (omega (arith, and_page (word i) (omega arith)))

pages-IsDirectory : IsDirectory pages 4096
pages-IsDirectory = record {
  aligned = refl;
  off_dir = λ i lt. rw (table-eq i lt) (ground arith);
  apart = λ i j hi hj ne. rw (table-eq i hi, table-eq j hj) (ground arith);
}

dir_word : load32 pages 0 ≡ 4096
unfolding load32
dir_word = refl

pub pages-IsPageDir : IsPageDir pages 0
pages-IsPageDir = record {
  directory = rw dir_word pages-IsDirectory;
  outside = λ i lt. rw (dir_word, table-eq i lt) (inl (omega arith));
}

get_indices_bounds_example :
    let (status, dir_idx, tab_idx) = paging_get_indices 0x400000 0 0 in
    (status ≡ pos 0)
    × (dir_idx < 1024)
    × (tab_idx < 1024)
    × (dir_idx * 4194304 + tab_idx * 4096 ≡ 0x400000)
get_indices_bounds_example = get_indices_bounds 0x400000 0 0 (omega arith) refl

align_bounds_example :
    (paging_align_address 5000 % 4096 ≡ 0)
    × (5000 ≤ paging_align_address 5000)
    × (paging_align_address 5000 < 9096)
    × (paging_align_to_lower 5000 % 4096 ≡ 0)
    × (paging_align_to_lower 5000 ≤ 5000)
    × (5000 < paging_align_to_lower 5000 + 4096)
align_bounds_example = align_bounds 5000 (omega arith)

get-set_example :
    let (status, m') = paging_set 4096 0x400000 0x9007 pages in
    (status ≡ pos 0)
    × IsDirectory m' 4096
    × (paging_get 4096 0x401000 m'
        ≡ (if 0x401000 == 0x400000 then 0x9007 % 2 ^ 32 else paging_get 4096 0x401000 pages))
get-set_example =
    get-set 0x400000 0x9007 0x401000 pages-IsDirectory (omega arith) refl (omega arith) refl

abbrev mapped : Memory
mapped = (paging_map_to 0 0x400000 0x100000 0x102000 7 pages).1

map_to-Mapped_example :
    ((paging_map_to 0 0x400000 0x100000 0x102000 7 pages).0 ≡ pos 0)
    × Mapped 0 0x400000 0x100000 8192 7 pages mapped
map_to-Mapped_example =
    map_to-Mapped 0 0x400000 0x100000 0x102000 7 pages pages-IsPageDir refl refl refl (omega arith)
      (omega arith) (omega arith) (omega arith) (omega arith)

map_to_refused_example : paging_map_to 0 0x400000 0x100000 0x101001 7 pages ≡ (einvarg, pages)
map_to_refused_example =
    map_to_refused 0 0x400000 0x100000 0x101001 7 pages (inr (inr (inl (omega arith))))

two_pages : Mapped 0 0x400000 0x100000 8192 7 pages mapped
two_pages =
    let (_, both) =
      map_to-Mapped 0 0x400000 0x100000 0x102000 7 pages pages-IsPageDir refl refl refl
        (omega arith) (omega arith) (omega arith) (omega arith) (omega arith) in
    both

get_phys_addr-Mapped_example : paging_get_phys_addr (load32 pages 0) 0x401234 mapped ≡ 0x101234
get_phys_addr-Mapped_example =
    get_phys_addr-Mapped 0 0x400000 0x100000 8192 7 0x401234 pages mapped two_pages refl refl refl
      (omega arith) (omega arith) (omega arith) (omega arith) (omega arith)

paging_new-Identity_example :
    let (dir, m') = paging_new kernel_heap 7 empty in
    Identity dir 7 m' × ((a : ℕ) → a < 2 ^ 32 → paging_get_phys_addr (load32 m' dir) a m' ≡ a)
paging_new-Identity_example =
    paging_new-Identity 7 5 empty (omega arith) (all-Room 5 1026 (omega arith))
