-- ===== src/Heap/Create.antt =====
-- heap_create: a heap whose blocks are all free, or an error.
use enki_os.Base.{ℕ, zero, suc, ◌+◌, ◌-◌, ◌*◌, ◌%◌, ◌^◌, ◌≤◌, ◌<◌, ◌≡◌, ◌≢◌, ◌⊎◌, refl, arith}
use enki_os.Base.Int.{pos}
use enki_os.Base.Memory.{Memory, SameOutside}
use enki_os.Libc.Bytes.{memset}
use enki_os.Libc.Bytes.Copy.{memset_at}
use enki_os.Status.{einvarg}
use enki_os.Heap.{Heap, HeapTable, entry_free, heap_create}
use enki_os.Heap.Table.{Blocks, free, done}

-- Entries that are all 0 are free ones.
pub Blocks-zeros :
    (m : Memory) (p n : ℕ) → ((a : ℕ) → p ≤ a → a < p + n → m a ≡ entry_free) → Blocks m p n
Blocks-zeros m p zero all = done
Blocks-zeros m p (suc n) all =
    free (all p (omega arith) (omega arith))
      (Blocks-zeros m (p + 1) n (λ a lo hi. all a (omega arith) (omega arith)))

-- What a heap of the blocks from `start` to `end` with the given table is made from.
pub record Fitting (start end : ℕ) (table : HeapTable) : Type 0 where
  pub start_aligned : start % 4096 ≡ 0
  pub end_aligned : end % 4096 ≡ 0
  pub ordered : start ≤ end
  pub bounded : end < 2 ^ 32
  pub counted : table.length * 4096 ≡ end - start

pub heap_create-eq :
    (heap : Heap) (start end : ℕ) (table : HeapTable) (m : Memory)
    → Fitting start end table
    → heap_create heap start end table m ≡ (
      pos 0,
      record { table = table; start_addr = start },
      memset table.entries entry_free table.length m,
    )
unfolding heap_create
heap_create-eq heap start end table m ok = ground arith

-- On block-aligned ends and a table with an entry for each block between them, `heap_create` returns
-- 0, sets up the heap, leaves a well-formed table in which every entry is free, and changes no byte
-- outside the table.
pub heap_create-Blocks :
    (heap : Heap) (start end : ℕ) (table : HeapTable) (m : Memory)
    → Fitting start end table
    → let (status, heap', m') = heap_create heap start end table m in
      (status ≡ pos 0)
      × (heap' ≡ record { table = table; start_addr = start })
      × Blocks m' table.entries table.length
      × SameOutside table.entries table.length m m'
heap_create-Blocks heap start end table m ok = rw (heap_create-eq heap start end table m ok) (
  refl,
  refl,
  Blocks-zeros _ table.entries table.length
      (λ a lo hi. ground (arith, memset_at table.entries entry_free table.length m a)),
  λ a out. ground (arith, memset_at table.entries entry_free table.length m a),
)

-- Ends that are not block-aligned, or a table of another length, make `heap_create` return -EINVARG;
-- the memory is as it was.
pub heap_create_refused :
    (heap : Heap) (start end : ℕ) (table : HeapTable) (m : Memory)
    → ((start % 4096 ≢ 0)
        ⊎ (end % 4096 ≢ 0)
        ⊎ (start ≤ end) × (end < 2 ^ 32) × (table.length * 4096 ≢ end - start))
    → ((heap_create heap start end table m).0 ≡ einvarg)
      × ((heap_create heap start end table m).2 ≡ m)
unfolding heap_create
heap_create_refused heap start end table m bad = (ground arith, ground arith)
