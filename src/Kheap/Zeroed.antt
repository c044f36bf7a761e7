-- ===== src/Kheap/Zeroed.antt =====
-- The kernel's heap once it is set up: kzalloc gives zeroed memory of its own, and kfree takes it back.
use enki_os.Base.{ℕ, ◌+◌, ◌*◌, ◌/◌, ◌≤◌, ◌<◌, ◌≡◌, ◌∙◌, refl, true, false, some, arith, ap}
use enki_os.Base.Memory.{Memory, Holds, Holds-same, SameOutside, in_range}
use enki_os.Libc.Bytes.{memset}
use enki_os.Libc.Bytes.Copy.{memset_at}
use enki_os.Status.{heap_address, heap_size_bytes}
use enki_os.Heap.{Heap, heap_malloc, heap_malloc_blocks, heap_block_to_address}
use enki_os.Heap.Find.{AllFree, FirstFit}
use enki_os.Heap.Mark.{used_bytes, length-used_bytes}
use enki_os.Heap.Alloc.{Placed, malloc_blocks_fit, malloc-blocks}
use enki_os.Heap.Table.{Blocks, Blocks-same, heap_malloc_blocks-Blocks}
use enki_os.Heap.Create.{heap_create-Blocks}
use enki_os.Kheap.{kernel_heap_table, kheap_init, kzalloc}

abbrev pub kernel_heap : Heap
kernel_heap = record { table = kernel_heap_table; start_addr = heap_address }

-- The table of the kernel's heap is well formed.
abbrev pub IsReady : Memory → Type 0
IsReady m = Blocks m kernel_heap_table.entries kernel_heap_table.length

pub kernel_heap-Placed : Placed kernel_heap
kernel_heap-Placed = omega arith

-- `kheap_init` does not panic: it sets up the kernel's heap with a well-formed table, and changes no
-- byte outside the table.
pub kheap_init-IsReady :
    (heap : Heap) (m : Memory)
    → (m' : Memory) × (kheap_init heap m ≡ some (kernel_heap, m'))
      × IsReady m'
      × SameOutside kernel_heap_table.entries kernel_heap_table.length m m'
unfolding kheap_init
kheap_init-IsReady heap m =
    let (status, made, ready, same) =
      heap_create-Blocks heap heap_address (heap_address + heap_size_bytes) kernel_heap_table m
        (omega arith) in
    (_, rw (status, made) refl, ready, same)

kzalloc-eq :
    (heap : Heap) (size p : ℕ) (m : Memory)
    → (heap_malloc heap size m).0 ≡ p
    → 0 < p
    → kzalloc heap size m ≡ (p, memset p 0x00 size (heap_malloc heap size m).1)
unfolding kzalloc
kzalloc-eq heap size p m e positive = ground arith

-- The blocks that an allocation of `size` bytes takes.
abbrev pub blocks_for : ℕ → ℕ
blocks_for size = (size + 4095) / 4096

-- What `kzalloc` has done: it answers block `s` of the heap, whose bytes are 0, the table is well
-- formed, the entries of the blocks are those of an allocation, and no other byte has changed.
pub record Zeroed (size s : ℕ) (m : Memory) (out : ℕ × Memory) : Type 0 where
  pub addr : out.0 ≡ heap_address + s * 4096
  pub zeroed : (a : ℕ) → in_range out.0 size a ≡ true → out.1 a ≡ 0
  pub ready : IsReady out.1
  pub taken : Holds out.1 (kernel_heap_table.entries + s) (used_bytes (blocks_for size))
  pub others :
      (a : ℕ)
      → in_range kernel_heap_table.entries kernel_heap_table.length a ≡ true
      → in_range (kernel_heap_table.entries + s) (blocks_for size) a ≡ false
      → out.1 a ≡ m a
  pub same :
      (a : ℕ)
      → in_range kernel_heap_table.entries kernel_heap_table.length a ≡ false
      → in_range out.0 size a ≡ false
      → out.1 a ≡ m a

pub block_address :
    (s' : ℕ) → s' < 25600 → heap_block_to_address kernel_heap s' ≡ heap_address + s' * 4096
unfolding heap_block_to_address
block_address s' lt = omega arith

-- Where the kernel's heap has room for `size` bytes, `kzalloc` takes the first run of free blocks that
-- is long enough and zeroes `size` bytes there.
pub kzalloc-Zeroed :
    (size s : ℕ) (m : Memory)
    → 0 < size
    → size ≤ heap_size_bytes
    → s + blocks_for size ≤ kernel_heap_table.length
    → AllFree kernel_heap_table m s (blocks_for size)
    → IsReady m
    → (s' : ℕ) × FirstFit kernel_heap_table m (blocks_for size) kernel_heap_table.length s'
      × Zeroed size s' m (kzalloc kernel_heap size m)
kzalloc-Zeroed size s m positive small le vacant ready =
    let n : ℕ = blocks_for size in
    let (s', fit, took) = malloc_blocks_fit kernel_heap n s m (omega arith) le vacant in
    let p : ℕ = heap_address + s' * 4096 in
    let e = malloc-blocks kernel_heap size m (omega arith) in
    let at = ap (λ r. r.0) e ∙ took.addr ∙ block_address s' (ground (arith, fit.fits)) in
    (
      s',
      fit,
      rw (kzalloc-eq kernel_heap size p m at (omega arith), e)
          (record {
            addr = refl;
            zeroed = λ a within.
                ground (arith, memset_at p 0 size (heap_malloc_blocks kernel_heap n m).1 a);
            ready =
                Blocks-same
                  (heap_malloc_blocks-Blocks kernel_heap n s m (omega arith) le vacant ready)
                  (λ a lo hi.
                    ground (arith, memset_at p 0 size (heap_malloc_blocks kernel_heap n m).1 a));
            taken =
                Holds-same (heap_malloc_blocks kernel_heap n m).1 _ (kernel_heap_table.entries + s')
                  (used_bytes n)
                  (λ a lo hi. ground (
                    arith,
                    memset_at p 0 size (heap_malloc_blocks kernel_heap n m).1 a,
                    fit.fits,
                    length-used_bytes n,
                  ))
                  took.entries.holds;
            others = λ a within beyond. ground (
              arith,
              memset_at p 0 size (heap_malloc_blocks kernel_heap n m).1 a,
              took.entries.same a,
              length-used_bytes n,
            );
            same = λ a out far. ground (
              arith,
              memset_at p 0 size (heap_malloc_blocks kernel_heap n m).1 a,
              took.entries.same a,
              fit.fits,
              length-used_bytes n,
            );
          }),
    )
