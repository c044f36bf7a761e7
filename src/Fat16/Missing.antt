-- ===== src/Fat16/Missing.antt =====
-- fat16.c: the search of a directory for a name that it does not hold.
use enki_os.Base.{
  ℕ, zero, suc, ◌+◌, ◌*◌, ◌≤◌, ◌<◌, ◌≡◌, ◌≢◌, ◌∙◌, refl, sym, ap, false, arith, some, List, ◌==◌,
  get_or, Bool-cases, inl, inr,
}
use enki_os.Base.Int.{ℤ, pos, ◌==ℤ◌}
use enki_os.Base.Memory.{Memory, in_range, SameOutside}
use enki_os.Base.Word.{load32, load32-same, store32, store32-beyond}
use enki_os.Status.{eio}
use enki_os.Libc.Chars.{schar, tolower}
use enki_os.Libc.Text.{istrncmp}
use enki_os.Libc.Text.Compare.{istrncmp-SameChars}
use enki_os.Path.{max_path}
use enki_os.Heap.{Heap}
use enki_os.Kheap.{kernel_heap_table, kzalloc, kfree}
use enki_os.Kheap.Zeroed.{kernel_heap, kzalloc-Zeroed}
use enki_os.Kheap.Page.{Room}
use enki_os.Kheap.Back.{kfree-kzalloc}
use enki_os.Fat16.{unsigned}
use enki_os.Fat16.Items.{fat16_file_name_resolve}
use enki_os.Fat16.Directory.{FatDisk, dir_item, total_rounds}
use enki_os.Fat16.Buffer.{resolve-same, bytes_at-same, resolve_at, resolve_outside}
use enki_os.Fat16.Lookup.{
  resolve_into, match_item, find_item_loop, fat16_find_item_in_dir, fat16_get_dir_entry, fat16_open,
  file_mode_read,
}

==ℤ-ne : (a b : ℤ) → a ≢ b → (a ==ℤ b) ≡ false
==ℤ-ne a b ne = ground arith

-- The buffer of the names and the `n` bytes from `p` on have no byte in common.
abbrev pub Away : ℕ → ℕ → ℕ → Type 0
Away tmp p n = (a : ℕ) → p ≤ a → a < p + n → in_range tmp max_path a ≡ false

-- The name of the entry and the one at `name`, filled up with NULs, differ in more than the case of
-- letters.
abbrev pub Differs : ℕ → ℕ → Memory → Type 0
Differs entry name m =
    (j : ℕ) × (j < max_path)
    × (schar (tolower (get_or (fat16_file_name_resolve (dir_item m entry)) j 0))
        ≢ schar (tolower (m (name + j))))

-- None of the `n` entries of the directory has the name, and the directory, its entries and the name
-- are away from the buffer.
pub record Missing (tmp dir name n : ℕ) (m : Memory) : Type 0 where
  pub head : Away tmp dir 4
  pub entries : Away tmp (load32 m dir) (n * 32)
  pub text : Away tmp name max_path
  pub differs : (i : ℕ) → i < n → Differs (load32 m dir + i * 32) name m

module _ (heap : Heap) (disk : ℕ) (drs : ℕ → ℕ → (ℕ → ℕ) → ℤ × (ℕ → ℕ)) (stack : ℕ → ℕ)
    (tmp : ℕ) where
  no_match :
      (entry name : ℕ) (m m' : Memory)
      → SameOutside tmp max_path m m'
      → Away tmp entry 32
      → Away tmp name max_path
      → Differs entry name m
      → istrncmp tmp name max_path (resolve_into (dir_item m' entry) tmp m') ≢ pos 0
  no_match entry name m m' same free text (j, lt, other) equal =
      let item = dir_item m' entry in
      let here = (istrncmp-SameChars tmp name max_path (resolve_into item tmp m')).0 equal j lt in
      let resolved : get_or (fat16_file_name_resolve item) j 0
          ≡ get_or (fat16_file_name_resolve (dir_item m entry)) j 0 =
        ap (λ s. get_or s j 0)
          (resolve-same item (dir_item m entry)
            (bytes_at-same 8 entry m m' (λ a lo hi. same a (free a (omega arith) (omega arith))))
            (bytes_at-same 3 (entry + 8) m m'
              (λ a lo hi. same a (free a (omega arith) (omega arith))))) in
      let away = text (name + j) (omega arith) (omega arith) in
      let stays = resolve_outside tmp item m' (name + j) away ∙ same (name + j) away in
      other (
        ap (λ c. schar (tolower c)) (sym resolved ∙ sym (resolve_at tmp item m' j lt))
        ∙ here
        ∙ ap (λ c. schar (tolower c)) stays)

  match-Missing :
      (fuel entry name item : ℕ) (fat : FatDisk) (m m' : Memory)
      → SameOutside tmp max_path m m'
      → Away tmp entry 32
      → Away tmp name max_path
      → Differs entry name m
      → match_item heap disk drs stack tmp fuel entry name item fat m'
        ≡ some (item, fat, resolve_into (dir_item m' entry) tmp m')
  unfolding match_item
  match-Missing fuel entry name item fat m m' same free text differs =
      let ne = no_match entry name m m' same free text differs in
      let test : (istrncmp tmp name max_path (resolve_into (dir_item m' entry) tmp m') ==ℤ pos 0)
          ≡ false =
        ==ℤ-ne _ (pos 0) ne in
      rw test refl

  loop-Missing :
      (n total i fuel dir name item : ℕ) (fat : FatDisk) (m m' : Memory)
      → i + n ≤ total
      → Missing tmp dir name total m
      → SameOutside tmp max_path m m'
      → (m2 : Memory) × SameOutside tmp max_path m m2
        × (find_item_loop heap disk drs stack tmp fuel n i dir name item fat m'
            ≡ some (item, fat, m2))
  unfolding find_item_loop
  loop-Missing zero total i fuel dir name item fat m m' le missing same = (m', same, refl)
  loop-Missing (suc n) total i fuel dir name item fat m m' le missing same =
      let head = load32-same m m' dir (λ a lo hi. same a (missing.head a lo hi)) in
      let entry : ℕ = load32 m dir + i * 32 in
      let free : Away tmp entry 32 = λ a lo hi. missing.entries a (omega arith) (omega arith) in
      let found =
        match-Missing fuel entry name item fat m m' same free missing.text
          (missing.differs i (omega arith)) in
      let (m2, same2, rest) =
        loop-Missing n total (i + 1) fuel dir name item fat m
          (resolve_into (dir_item m' entry) tmp m') (omega arith) missing
          (λ a out. resolve_outside tmp (dir_item m' entry) m' a out ∙ same a out) in
      (m2, same2, rw (head, found) rest)

  -- The search of the root directory for a name that it does not hold.
  entry-Missing :
      (fuel part : ℕ) (parts : List ℕ) (fat : FatDisk) (m : Memory)
      → Missing tmp fat.root part (total_rounds m fat.root) m
      → (m2 : Memory) × SameOutside tmp max_path m m2
        × (fat16_get_dir_entry heap disk drs stack tmp fuel part parts fat m ≡ some (0, fat, m2))
  unfolding fat16_get_dir_entry fat16_find_item_in_dir
  entry-Missing fuel part parts fat m missing =
      let (m2, same, e) =
        loop-Missing (total_rounds m fat.root) (total_rounds m fat.root) 0 fuel fat.root part 0 fat
          m m (omega arith) missing (λ a out. refl) in
      (m2, same, rw e refl)

  open-eio :
      (fuel part : ℕ) (parts : List ℕ) (fat : FatDisk) (m m1 : Memory) (descriptor : ℕ)
      → kzalloc heap 8 m ≡ (descriptor, m1)
      → 0 < descriptor
      → Missing tmp fat.root part (total_rounds m1 fat.root) m1
      → (m2 : Memory) × SameOutside tmp max_path m1 m2
        × (fat16_open heap disk drs stack tmp fuel part parts file_mode_read fat m
            ≡ some (unsigned eio, fat, kfree heap descriptor (store32 m2 descriptor 0)))
  unfolding fat16_open
  open-eio fuel part parts fat m m1 descriptor e positive missing =
      let (m2, same, found) = entry-Missing fuel part parts fat m1 missing in
      let some_descriptor : (descriptor == 0) ≡ false = ground arith in
      (m2, same, rw (e, some_descriptor, found) refl)

-- The address is neither in the buffer of the names nor one of the descriptor's 8 bytes.
abbrev pub Elsewhere : ℕ → Memory → ℕ → Type 0
Elsewhere tmp m a =
    (in_range tmp max_path a ≡ false) × (in_range (kzalloc kernel_heap 8 m).0 8 a ≡ false)

-- Where the kernel's heap has a block left, the opening of a path whose first part is not a name in the
-- root directory answers -EIO as a pointer, with any fuel, and every byte but those of the buffer of the
-- names and of the block that was the descriptor is what it was before: the block is free again.
pub open-Missing :
    (disk : ℕ) (drs : ℕ → ℕ → (ℕ → ℕ) → ℤ × (ℕ → ℕ)) (stack : ℕ → ℕ) (tmp fuel part s : ℕ)
    (parts : List ℕ) (fat : FatDisk) (m : Memory)
    → Room m s 1
    → Away tmp kernel_heap_table.entries kernel_heap_table.length
    → Missing tmp fat.root part
        (total_rounds (kzalloc kernel_heap 8 m).1 fat.root)
        (kzalloc kernel_heap 8 m).1
    → (m' : Memory) × (fat16_open kernel_heap disk drs stack tmp fuel part parts file_mode_read fat
          m
        ≡ some (unsigned eio, fat, m'))
      × ((a : ℕ) → Elsewhere tmp m a → m' a ≡ m a)
open-Missing disk drs stack tmp fuel part s parts fat m room away missing =
    let (b, fit, z) =
      kzalloc-Zeroed 8 s m (omega arith) (omega arith) room.within room.vacant room.ready in
    let (m2, same, opened) =
      open-eio kernel_heap disk drs stack tmp fuel part parts fat m (kzalloc kernel_heap 8 m).1
        (kzalloc kernel_heap 8 m).0 refl (omega (arith, z.addr)) missing in
    let later = store32 m2 (kzalloc kernel_heap 8 m).0 0 in
    let unwritten : (a : ℕ) → in_range (kzalloc kernel_heap 8 m).0 8 a ≡ false → later a ≡ m2 a =
      λ a page. store32-beyond m2 (kzalloc kernel_heap 8 m).0 0 a (ground arith) in
    let (back, stays) =
      kfree-kzalloc 8 s m later (omega arith) (omega arith) room.within room.vacant room.ready
        (λ a within.
          unwritten a (ground (arith, z.addr)) ∙ same a (away a (ground arith) (ground arith))) in
    (
      kfree kernel_heap (kzalloc kernel_heap 8 m).0 later,
      opened,
      λ a (buffer, page).
          elim (Bool-cases (in_range kernel_heap_table.entries kernel_heap_table.length a)) [
            | inl within ↦ back a within
            | inr outside ↦
                stays a outside ∙ unwritten a page ∙ same a buffer ∙ z.same a outside page
          ],
    )
