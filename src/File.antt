-- ===== src/File.antt =====
-- kernel/fs/file.c: the table of file descriptors, and the modes. What a file system keeps for a
-- descriptor is a type of its own; a slot of the table is free or holds a descriptor.
pub mod Calls
pub mod Descriptors
pub mod Routing
pub mod Tests
use enki_os.Base.{
  ℕ, zero, suc, ◌+◌, ◌-◌, true, false, Bool, ◌||◌, not, none, some, Option, List, ◌++◌, leb, ◌==◌,
  if◌then◌else◌, get_or, get_elem?, set,
}
use enki_os.Base.Int.{ℤ, pos, ◌==ℤ◌}
use enki_os.Base.Memory.{Memory}
use enki_os.Heap.{Heap}
use enki_os.Kheap.{kzalloc, kfree}
use enki_os.Status.{eio, enomem}

abbrev pub max_file_descriptors : ℕ
max_file_descriptors = 512

pub data FileMode : Type 0 where
  mode_read : FileMode
  mode_write : FileMode
  mode_append : FileMode
  mode_invalid : FileMode

-- The string's first character; `strncmp` compares one.
unfoldable pub file_get_mode_from_str : List ℕ → FileMode
file_get_mode_from_str s =
    if get_or s 0 0 == b'r'
    then mode_read
    else if get_or s 0 0 == b'w'
    then mode_write
    else if get_or s 0 0 == b'a'
    then mode_append
    else mode_invalid

-- What a slot points to: the number, the block that kzalloc has answered for the structure, and what
-- fopen fills in.
pub record FileDescriptor {ℓ} (P : Type ℓ) : Type ℓ where
  pub index : ℕ
  pub block : ℕ
  pub content : P

-- sizeof(struct file_descriptor)
abbrev pub file_descriptor_size : ℕ
file_descriptor_size = 16

module _ {ℓ} {P : Type ℓ} where
  unfoldable pub is_free : Option (Option (FileDescriptor P)) → Bool
  is_free (some none) = true
  is_free (some (some d)) = false
  is_free none = false

  -- The first free slot from `i` on, for (; n rounds; i++).
  unfoldable pub free_slot : ℕ → ℕ → List (Option (FileDescriptor P)) → Option ℕ
  free_slot zero i slots = none
  free_slot (suc n) i slots =
      let rest = free_slot n (i + 1) slots in if is_free (get_elem? slots i) then some i else rest

  -- None where the block cannot be allocated: the code writes to the null pointer then.
  unfoldable pub fill_slot :
      Heap
      → P
      → List (Option (FileDescriptor P))
      → Memory
      → Option ℕ
      → Option (ℤ × ℕ × List (Option (FileDescriptor P)) × Memory)
  fill_slot heap content slots m none = some (enomem, 0, slots, m)
  fill_slot heap content slots m (some i) =
      let (desc, m') = kzalloc heap file_descriptor_size m in
      let filled : FileDescriptor P = record { index = i + 1; block = desc; content = content } in
      if desc == 0 then none else some (pos 0, i + 1, set slots i (some filled), m')

  -- The status, the descriptor's index, the table and the memory. `content` is what the caller fills in.
  unfoldable pub file_new_descriptor :
      Heap
      → P
      → List (Option (FileDescriptor P))
      → Memory
      → Option (ℤ × ℕ × List (Option (FileDescriptor P)) × Memory)
  file_new_descriptor heap content slots m =
      fill_slot heap content slots m (free_slot max_file_descriptors 0 slots)

  -- An `fd` below 0 is refused as 0 is.
  unfoldable pub file_get_descriptor :
      ℕ → List (Option (FileDescriptor P)) → Option (FileDescriptor P)
  file_get_descriptor fd slots =
      if fd == 0 || leb max_file_descriptors fd then none else get_or slots (fd - 1) none

  unfoldable pub file_free_descriptor :
      Heap
      → FileDescriptor P
      → List (Option (FileDescriptor P))
      → Memory
      → List (Option (FileDescriptor P)) × Memory
  file_free_descriptor heap desc slots m =
      (set slots (desc.index - 1) none, kfree heap desc.block m)
