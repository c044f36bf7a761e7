-- ===== src/Kheap/Tests.antt =====
-- The theorems of the kernel's heap at a memory that is all 0.
use enki_os.Base.{false, ℕ, ◌+◌, ◌≤◌, ◌≡◌, refl, some, arith}
use enki_os.Base.Memory.{Memory, SameOutside, in_range, store}
use enki_os.Heap.{heap_get_entry_type}
use enki_os.Heap.Find.{AllFree, FirstFit}
use enki_os.Heap.Create.{Blocks-zeros}
use enki_os.Kheap.{kernel_heap_table, kheap_init, kzalloc, kfree}
use enki_os.Kheap.Back.{InTable, kfree-kzalloc}
use enki_os.Kheap.Page.{Room, heap_blocks}
use enki_os.Kheap.Zeroed.{kernel_heap, IsReady, Zeroed, kheap_init-IsReady, kzalloc-Zeroed}

abbrev pub empty : Memory
empty a = 0

empty-IsReady : IsReady empty
empty-IsReady = Blocks-zeros empty _ _ (λ a lo hi. refl)

room : AllFree kernel_heap_table empty 7 2
unfolding heap_get_entry_type
room j lo hi = refl

kzalloc-Zeroed_example :
    (s : ℕ) × FirstFit kernel_heap_table empty 2 25600 s
    × Zeroed 5000 s empty (kzalloc kernel_heap 5000 empty)
kzalloc-Zeroed_example =
    kzalloc-Zeroed 5000 7 empty (omega arith) (omega arith) (omega arith) room empty-IsReady

-- The first block is taken, a byte of it is written, and it is freed.
abbrev later : Memory
later = store (kzalloc kernel_heap 5000 empty).1 0x1000000 7

kfree-kzalloc_example :
    ((a : ℕ) → InTable a → kfree kernel_heap (kzalloc kernel_heap 5000 empty).0 later a ≡ 0)
    × ((a : ℕ)
        → in_range kernel_heap_table.entries kernel_heap_table.length a ≡ false
        → kfree kernel_heap (kzalloc kernel_heap 5000 empty).0 later a ≡ later a)
kfree-kzalloc_example =
    kfree-kzalloc 5000 7 empty later (omega arith) (omega arith) (omega arith) room empty-IsReady
      (λ a within. ground arith)

kheap_init-IsReady_example :
    (m' : Memory) × (kheap_init kernel_heap empty ≡ some (kernel_heap, m'))
    × IsReady m'
    × SameOutside kernel_heap_table.entries kernel_heap_table.length empty m'
kheap_init-IsReady_example = kheap_init-IsReady kernel_heap empty

pub all-Room : (s k : ℕ) → s + k ≤ heap_blocks → Room empty s k
unfolding heap_get_entry_type
all-Room s k le = record { ready = empty-IsReady; vacant = λ j lo hi. refl; within = le }
