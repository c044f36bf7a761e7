-- ===== src/Syscall/Tests.antt =====
-- The theorem of the system calls at an empty table.
pub mod Leaving
use enki_os.Base.{
  ℕ, ◌-◌, ◌≡◌, refl, false, none, some, Option, List, [], ◌∷◌, arith, get_elem?, ◌==◌,
  if◌then◌else◌,
}
use enki_os.Base.Int.{pos}
use enki_os.Base.Memory.{Memory}
use enki_os.Base.Word.{load32}
use enki_os.Heap.{heap_malloc, heap_get_start_block, heap_get_entry_type, heap_block_to_address}
use enki_os.Kheap.{kzalloc}
use enki_os.Kheap.Zeroed.{kernel_heap}
use enki_os.Paging.{paging_align_address, paging_map_to, paging_map, paging_set}
use enki_os.Paging.Tests.{pages}
use enki_os.File.Calls.{FileSystem, Disk}
use enki_os.Task.Growth.{no_tasks}
use enki_os.Task.User.{task_get_stack_item}
use enki_os.Process.Life.{no_process}
use enki_os.Process.Allocations.{
  no_allocation, process_malloc, process_get_allocation, process_owns_ptr, process_find_free_alloc,
  index_of_ptr,
}
use enki_os.Process.Tests.{one_bin, bin_disk}
use enki_os.Syscall.{syscall_register, syscall_invoke}
use enki_os.Syscall.Calls.{
  Kernel, Return, returns, current_process, process_dir, stack_item, syscall_4_malloc,
  syscall_5_free, all_calls, syscall_register_all,
}
use enki_os.Syscall.Allocate.{allocations_of, free_call-malloc_call}
use enki_os.Syscall.Dispatch.{invoke-register_all}
use enki_os.Syscall.Register.{invoke-register}

abbrev no_syscalls : ℕ → Option ℕ
no_syscalls i = none

invoke-register_example :
    (table : ℕ → Option ℕ) × (syscall_register 3 30 no_syscalls ≡ some table)
    × (syscall_invoke 3 table ≡ some 30)
    × (syscall_register 3 31 table ≡ none)
invoke-register_example = invoke-register 3 3 30 31 no_syscalls (omega arith) refl

-- The nine calls, on a memory that is always 0.
abbrev calls : List (Kernel ℕ → Option (Return ℕ))
calls =
    all_calls one_bin bin_disk kernel_heap (λ s a. 0) (λ s m. s) (λ dir a m. a) 1 1024 0x5000000
      0x5000400

invoke-register_all_example :
    (table : ℕ → Option (Kernel ℕ → Option (Return ℕ))) × (syscall_register_all calls ≡ some table)
    × ((idx : ℕ)
        → syscall_invoke idx table ≡ (if idx == 0 then none else get_elem? calls (idx - 1)))
invoke-register_all_example = invoke-register_all calls (omega arith)

-- A process without allocations, whose stack holds the number 16, on the pages of a directory at 4096.
abbrev stack_pages : Memory
stack_pages a = if a == 0x9000000 then 16 else pages a

abbrev pub itself : FileSystem Memory
itself = record {
  resolve = λ s. (pos 0, s);
  open_path = λ s parts mode. (0, s);
  read = λ s private size blocks out. (pos 0, s);
  close = λ s private. (pos 0, s);
  seek = λ s private offset mode. (pos 0, s);
  stat = λ s private. (pos 0, none);
}

abbrev pub itself_disk : Disk Memory
itself_disk = record { type = 0; disk_sector_size = 512; id = 0; fs = some itself }

abbrev pub running : Kernel Memory
running = record {
  world = record {
    files = record { slots = []; world = stack_pages };
    tasks = no_tasks;
    procs = λ a. record no_process { allocations = no_allocation ∷ [] };
    processes = λ i. 0;
    process_current = 0;
  };
  keyboards = λ p. record { buffer = λ i. 0; tail = 0; head = 0 };
  args = λ p. (0, 0);
  screen = record { row = 0; col = 0; cells = λ i. 0 };
}

abbrev pub stack_of : ℕ → ℕ → Memory → ℕ
stack_of dir a m = 0x9000000

abbrev asked : Kernel Memory → ℕ
asked k = stack_item itself itself_disk kernel_heap (λ s. s) (λ s m. m) stack_of 1 9 0 k

call_answers :
    (process_malloc kernel_heap 0 (asked running) (no_allocation ∷ []) stack_pages).0 ≡ 0x1000000
unfolding process_malloc process_find_free_alloc index_of_ptr kzalloc heap_malloc
    paging_align_address paging_map_to paging_map heap_get_start_block heap_get_entry_type
    heap_block_to_address paging_set task_get_stack_item load32
call_answers = refl

unowned : process_owns_ptr 0x1000000 (no_allocation ∷ []) ≡ false
unfolding process_owns_ptr
unowned = refl

free_call-malloc_call_example :
    (k1 : Kernel Memory) × (syscall_4_malloc itself itself_disk kernel_heap
        (λ s. s)
        (λ s m. m)
        stack_of
        1
        9
        running
      ≡ some (returns 0x1000000 k1))
    × (process_get_allocation 0x1000000 (allocations_of 0 k1)
        ≡ some (record { ptr = 0x1000000; size = asked running }))
    × ((later : Kernel Memory)
        → current_process itself itself_disk kernel_heap (λ s. s) (λ s m. m) stack_of 1 9 later ≡ 0
        → process_dir itself itself_disk kernel_heap
            (λ s. s)
            (λ s m. m)
            stack_of
            1
            9
            (current_process itself itself_disk kernel_heap (λ s. s) (λ s m. m) stack_of 1 9 later)
            later
          ≡ 0
        → asked later ≡ 0x1000000
        → allocations_of
            (current_process itself itself_disk kernel_heap (λ s. s) (λ s m. m) stack_of 1 9 later)
            later
          ≡ allocations_of 0 k1
        → (k2 : Kernel Memory) × (syscall_5_free itself itself_disk kernel_heap
              (λ s. s)
              (λ s m. m)
              stack_of
              1
              9
              later
            ≡ some (returns 0 k2))
          × (allocations_of
                (current_process itself itself_disk kernel_heap
                  (λ s. s)
                  (λ s m. m)
                  stack_of
                  1
                  9
                  later)
                k2
              ≡ no_allocation ∷ []))
free_call-malloc_call_example =
    free_call-malloc_call itself itself_disk kernel_heap (λ s. s) (λ s m. m) stack_of 1 9 running
      0x1000000 ((λ e. refl), tt) call_answers (omega arith) unowned
