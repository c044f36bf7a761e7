-- ===== src/Kheap/Page.antt =====
-- kzalloc of at most a block: the page that it takes, and the blocks that are left.
use enki_os.Base.{
  ℕ, suc, ◌+◌, ◌*◌, ◌≤◌, ◌<◌, ◌≡◌, ◌≢◌, ◌∙◌, refl, true, false, arith, ap, sym, ltb, Bool-cases,
  inl, inr, some,
}
use enki_os.Base.Memory.{Memory, in_range}
use enki_os.Status.{heap_address, heap_size_bytes}
use enki_os.Libc.Bytes.{memset}
use enki_os.Libc.Bytes.Copy.{memset_at}
use enki_os.Heap.{Heap, heap_get_entry_type, entry_free}
use enki_os.Heap.Create.{heap_create-eq, Blocks-zeros}
use enki_os.Heap.Find.{AllFree, FirstFit, IsFree}
use enki_os.Kheap.{kernel_heap_table, kheap_init, kzalloc}
use enki_os.Kheap.Zeroed.{kernel_heap, IsReady, blocks_for, Zeroed, kzalloc-Zeroed}

-- The number of the kernel heap's blocks.
abbrev pub heap_blocks : ℕ
heap_blocks = 25600

abbrev pub Free : Memory → ℕ → Type 0
Free m c = IsFree kernel_heap_table m c

abbrev pub page_at : ℕ → ℕ
page_at b = heap_address + b * 4096

-- The table is well formed, and the `k` blocks from `s` on are free.
pub record Room (m : Memory) (s k : ℕ) : Type 0 where
  pub ready : IsReady m
  pub vacant : AllFree kernel_heap_table m s k
  pub within : s + k ≤ heap_blocks

-- `kzalloc` has taken block `b`, which was free.
pub record Page (size b s k : ℕ) (m : Memory) (out : ℕ × Memory) : Type 0 where
  pub block : b < heap_blocks
  pub addr : out.0 ≡ page_at b
  pub was_free : Free m b
  pub taken : ¬ Free out.1 b
  pub others : (c : ℕ) → c < heap_blocks → c ≢ b → Free out.1 c → Free m c
  pub still : (c : ℕ) → c < heap_blocks → ¬ Free m c → ¬ Free out.1 c
  pub zeroed : (a : ℕ) → in_range (page_at b) size a ≡ true → out.1 a ≡ 0
  pub same : (a : ℕ) → heap_address ≤ a → in_range (page_at b) size a ≡ false → out.1 a ≡ m a
  pub room : Room out.1 (s + 1) k

taken_first : (v : ℕ) → v ≡ 0x41 → ¬ (heap_get_entry_type v ≡ 0)
unfolding heap_get_entry_type
taken_first v e free = let q = rw e at free in ground arith

module _ (size s k b : ℕ) (m : Memory) (out : ℕ × Memory) (one : blocks_for size ≡ 1)
    (fit : FirstFit kernel_heap_table m (blocks_for size) kernel_heap_table.length b)
    (z : Zeroed size b m out) (small : size ≤ 4096) (room : Room m s (suc k)) where
  page_entry :
      (c : ℕ)
      → c < heap_blocks
      → c ≢ b
      → out.1 (kernel_heap_table.entries + c) ≡ m (kernel_heap_table.entries + c)
  page_entry c lt ne = z.others (kernel_heap_table.entries + c) (ground arith) (ground arith)

  page_first : b ≤ s
  page_first = elim (Bool-cases (ltb s b)) [
    | inl behind ↦ absurd (fit.first s (ground arith) (λ j lo hi. room.vacant j lo (omega arith)))
    | inr before ↦ ground arith
  ]

  page_taken : ¬ Free out.1 b
  page_taken =
      taken_first (out.1 (kernel_heap_table.entries + b)) (let t = z.taken in (rw one at t).0)

  page_was_free : Free m b
  page_was_free = fit.free b (omega arith) (omega arith)

  Zeroed-Page : Page size b s k m out
  Zeroed-Page = record {
    block = omega (arith, fit.fits, one);
    addr = z.addr;
    was_free = page_was_free;
    taken = page_taken;
    others = λ c lt ne free. ap heap_get_entry_type (sym (page_entry c lt ne)) ∙ free;
    still = λ c lt was now.
        was (ap heap_get_entry_type (sym (page_entry c lt (λ e. page_taken (rw e at now)))) ∙ now);
    zeroed = λ a within. z.zeroed a (rw z.addr within);
    same = λ a high beyond. z.same a (ground arith) (rw z.addr beyond);
    room = record {
      ready = z.ready;
      vacant = λ j lo hi.
          ap heap_get_entry_type
            (page_entry j (omega (arith, room.within)) (omega (arith, page_first)))
          ∙ room.vacant j (omega arith) (omega arith);
      within = omega (arith, room.within);
    };
  }

-- Where the `suc k` blocks from `s` on are free, `kzalloc` of at most a block takes a free block and
-- zeroes it; the other blocks, and the entries of the table for them, are as they were, and the `k`
-- blocks behind `s` are free.
pub kzalloc-Page :
    (size s k : ℕ) (m : Memory)
    → 0 < size
    → size ≤ 4096
    → Room m s (suc k)
    → (b : ℕ) × Page size b s k m (kzalloc kernel_heap size m)
kzalloc-Page size s k m positive small room =
    let (b, fit, z) =
      kzalloc-Zeroed size s m positive (omega arith) (omega (arith, room.within))
        (λ j lo hi. room.vacant j lo (omega arith)) room.ready in
    (b, Zeroed-Page size s k b m (kzalloc kernel_heap size m) (omega arith) fit z small room)

-- `kheap_init` clears the table, which leaves room everywhere.
pub kheap_init-Room :
    (heap : Heap) (m : Memory)
    → let m' = memset kernel_heap_table.entries entry_free kernel_heap_table.length m in
      (kheap_init heap m ≡ some (kernel_heap, m')) × ((s k : ℕ) → s + k ≤ heap_blocks → Room m' s k)
unfolding kheap_init heap_get_entry_type
kheap_init-Room heap m = (
  rw
      (heap_create-eq heap heap_address (heap_address + heap_size_bytes) kernel_heap_table m
        (omega arith))
      refl,
  λ s k le. record {
    ready = Blocks-zeros _ kernel_heap_table.entries kernel_heap_table.length (λ a lo hi.
        ground
          (arith, memset_at kernel_heap_table.entries entry_free kernel_heap_table.length m a));
    vacant = λ j lo hi.
        let zero : memset kernel_heap_table.entries entry_free kernel_heap_table.length m
              (kernel_heap_table.entries + j)
            ≡ entry_free =
          ground (
            arith,
            memset_at kernel_heap_table.entries entry_free kernel_heap_table.length m
                (kernel_heap_table.entries + j),
          ) in
        ap heap_get_entry_type zero;
    within = le;
  },
)
