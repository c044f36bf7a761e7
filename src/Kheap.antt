-- ===== src/Kheap.antt =====
-- kernel/memory/kheap.c: the kernel's heap. `kernel_heap` is an argument and a result here.
pub mod Zeroed
pub mod Page
pub mod Back
pub mod Tests
use enki_os.Base.{ℕ, ◌+◌, ◌/◌, Option, none, some, ◌==◌, if◌then◌else◌}
use enki_os.Base.Int.{is_neg}
use enki_os.Base.Memory.{Memory}
use enki_os.Libc.Bytes.{memset}
use enki_os.Heap.{Heap, HeapTable, heap_create, heap_malloc, heap_free}
use enki_os.Status.{heap_address, heap_table_address, heap_size_bytes, heap_block_size}

abbrev pub kernel_heap_table : HeapTable
kernel_heap_table = record {
  entries = heap_table_address;
  length = heap_size_bytes / heap_block_size;
}

-- `none` is the panic.
unfoldable pub kheap_init : Heap → Memory → Option (Heap × Memory)
kheap_init kernel_heap m =
    let end_addr = heap_address + heap_size_bytes in
    let (status, heap, m') = heap_create kernel_heap heap_address end_addr kernel_heap_table m in
    if is_neg status then none else some (heap, m')

unfoldable pub kmalloc : Heap → ℕ → Memory → ℕ × Memory
kmalloc kernel_heap size m = heap_malloc kernel_heap size m

unfoldable pub kzalloc : Heap → ℕ → Memory → ℕ × Memory
unfolding kmalloc
kzalloc kernel_heap size m =
    let (ptr, m') = kmalloc kernel_heap size m in
    if ptr == 0 then (0, m') else (ptr, memset ptr 0x00 size m')

unfoldable pub kfree : Heap → ℕ → Memory → Memory
kfree kernel_heap ptr m = heap_free kernel_heap ptr m
