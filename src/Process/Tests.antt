-- ===== src/Process/Tests.antt =====
-- The theorem of the process's memory on the page directory of the tests of paging.
use enki_os.Base.{◌+◌, ◌-◌, ◌≡◌, refl, arith}
use enki_os.Base.{ℕ, none, if◌then◌else◌, ◌==◌, false, some, [], ◌∷◌}
use enki_os.Base.Int.{pos, is_neg}
use enki_os.Base.Memory.{Memory}
use enki_os.Paging.{paging_align_address, paging_map_to, paging_map, paging_set}
use enki_os.Paging.Map.{Mapped}
use enki_os.Paging.Tests.{pages, pages-IsPageDir}
use enki_os.Heap.{
  Heap, heap_malloc, heap_get_start_block, heap_get_entry_type, heap_block_to_address,
}
use enki_os.Kheap.{kzalloc}
use enki_os.Kheap.Zeroed.{kernel_heap}
use enki_os.Process.Allocations.{
  no_allocation, index_of_ptr, process_find_free_alloc, process_owns_ptr, process_get_allocation,
  process_malloc, process_free,
}
use enki_os.File.Calls.{FileSystem, Disk}
use enki_os.Task.Growth.{no_tasks}
use enki_os.Task.{task_list_remove}
use enki_os.Process.Life.{World, no_process, process_terminate}
use enki_os.Process.Loaded.{process_terminate_slot}
use enki_os.Process.Owned.{process_free-process_malloc}
use enki_os.Process.Null.{process_free_null}
use enki_os.Process.{bin, process_map_memory}
use enki_os.Process.Mapping.{map_memory-Mapped}

map_memory-Mapped_example :
    ((process_map_memory 0 0x1800000 (bin 0x1900000 5000) pages).0 ≡ pos 0)
    × ((m1 : Memory) × Mapped 0 0x400000 0x1900000
          (paging_align_address (0x1900000 + 5000) - 0x1900000)
          7
          pages
          m1
        × Mapped 0 0x3FB000 0x1800000 16384 7 m1
            (process_map_memory 0 0x1800000 (bin 0x1900000 5000) pages).1)
map_memory-Mapped_example =
    map_memory-Mapped 0 0x1800000 0x1900000 5000 pages pages-IsPageDir (omega arith) refl
      (omega arith) refl (omega arith)

-- The first block of the kernel's heap is free.
malloc_answers : (process_malloc kernel_heap 0 16 (no_allocation ∷ []) pages).0 ≡ 0x1000000
unfolding process_malloc process_find_free_alloc index_of_ptr kzalloc heap_malloc
    paging_align_address paging_map_to paging_map heap_get_start_block heap_get_entry_type
    heap_block_to_address paging_set
malloc_answers = refl

unowned : process_owns_ptr 0x1000000 (no_allocation ∷ []) ≡ false
unfolding process_owns_ptr
unowned = refl

vacant : is_neg (process_find_free_alloc (no_allocation ∷ [])) ≡ false
unfolding process_find_free_alloc index_of_ptr
vacant = refl

process_free-process_malloc_example :
    (process_get_allocation 0x1000000 (process_malloc kernel_heap 0 16 (no_allocation ∷ []) pages).1
      ≡ some (record { ptr = 0x1000000; size = 16 }))
    × ((process_free kernel_heap 0 0x1000000
          (process_malloc kernel_heap 0 16 (no_allocation ∷ []) pages).1
          pages).0
        ≡ no_allocation ∷ [])
process_free-process_malloc_example =
    process_free-process_malloc kernel_heap 0 16 0x1000000 (no_allocation ∷ []) pages pages
      ((λ e. refl), tt) malloc_answers (omega arith) unowned

process_free_null_example :
    ((process_free kernel_heap 0 0 (no_allocation ∷ []) pages).0 ≡ no_allocation ∷ [])
    × ((process_free kernel_heap 0 0 (no_allocation ∷ []) pages).1 0x6E00 ≡ 0)
process_free_null_example = process_free_null 0 (no_allocation ∷ []) pages ((λ e. refl), tt) vacant

-- A file system with one file of 16 bytes that is no ELF file, and a memory that is always 0.
abbrev pub one_bin : FileSystem ℕ
one_bin = record {
  resolve = λ s. (pos 0, s);
  open_path = λ s parts mode. (0x2000000, s);
  read = λ s private size blocks out. (pos blocks, s);
  close = λ s private. (pos 0, s);
  seek = λ s private offset mode. (pos 0, s);
  stat = λ s private. (pos 0, some (record { stat_flags = 0; file_size = 16 }));
}

abbrev pub bin_disk : Disk ℕ
bin_disk = record { type = 0; disk_sector_size = 512; id = 0; fs = some one_bin }

abbrev no_world : World ℕ
no_world = record {
  files = record { slots = none ∷ []; world = 0 };
  tasks = no_tasks;
  procs = λ a. no_process;
  processes = λ i. 0;
  process_current = 0;
}

-- A heap without blocks.
abbrev no_heap : Heap
no_heap = record { table = record { entries = 0x7E00; length = 0 }; start_addr = 0x1000000 }

-- A process at 0x2000 that has been set to zeros only.
process_terminate_slot_example :
    (w' : World ℕ) × (process_terminate one_bin bin_disk no_heap
        (λ s a. 0)
        (λ s m. s)
        (λ w. none)
        0x2000
        no_world
      ≡ some w')
    × (w'.processes ≡ (λ i. if i == (no_world.procs 0x2000).id then 0 else no_world.processes i))
    × (w'.tasks ≡ task_list_remove 0 no_world.tasks)
process_terminate_slot_example =
    process_terminate_slot one_bin bin_disk no_heap (λ s a. 0) (λ s m. s) (λ w. none) 0x2000
      no_world (omega arith)
