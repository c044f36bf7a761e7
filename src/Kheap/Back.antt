-- ===== src/Kheap/Back.antt =====
-- kfree of what kzalloc has answered.
use enki_os.Base.{
  ℕ, ◌+◌, ◌-◌, ◌≤◌, ◌<◌, ◌≡◌, ◌∙◌, sym, true, false, arith, replicate, Bool-cases, inl, inr,
}
use enki_os.Base.Memory.{Memory, Holds-same, in_range}
use enki_os.Status.{heap_size_bytes}
use enki_os.Heap.Find.{AllFree, FirstFit}
use enki_os.Heap.Free.{Holds-zero, length-zeros, free-Written}
use enki_os.Heap.Mark.{Written, used_bytes, length-used_bytes}
use enki_os.Heap.Table.{Blocks-zero}
use enki_os.Kheap.{kernel_heap_table, kzalloc, kfree}
use enki_os.Kheap.Zeroed.{
  kernel_heap, kernel_heap-Placed, IsReady, blocks_for, Zeroed, kzalloc-Zeroed, block_address,
}

abbrev pub InTable : ℕ → Type 0
InTable a = in_range kernel_heap_table.entries kernel_heap_table.length a ≡ true

module _ (size s : ℕ) (m later : Memory) (positive : 0 < size) (b : ℕ)
    (fit : FirstFit kernel_heap_table m (blocks_for size) kernel_heap_table.length b)
    (z : Zeroed size b m (kzalloc kernel_heap size m)) (ready : IsReady m)
    (same : (a : ℕ) → InTable a → later a ≡ (kzalloc kernel_heap size m).1 a) where
  freed-Written :
      Written
        (kernel_heap_table.entries + b)
        (replicate (blocks_for size) 0)
        later
        (kfree kernel_heap (kzalloc kernel_heap size m).0 later)
  unfolding kfree
  freed-Written =
      rw (z.addr, ← block_address b (omega (arith, fit.fits)))
        (free-Written kernel_heap kernel_heap-Placed b (blocks_for size) later (omega arith)
          fit.fits
          (Holds-same (kzalloc kernel_heap size m).1 later (kernel_heap_table.entries + b)
            (used_bytes (blocks_for size))
            (λ a lo hi. same a (ground (arith, fit.fits, length-used_bytes (blocks_for size))))
            z.taken))

  was_zero : (a : ℕ) → in_range (kernel_heap_table.entries + b) (blocks_for size) a ≡ true → m a ≡ 0
  was_zero a within =
      let e : kernel_heap_table.entries + (a - kernel_heap_table.entries) ≡ a = ground arith in
      rw e at (
        Blocks-zero (a - kernel_heap_table.entries) (ground (arith, fit.fits)) ready
          (fit.free (a - kernel_heap_table.entries) (ground arith) (ground arith)))

  table_back : (a : ℕ) → InTable a → kfree kernel_heap (kzalloc kernel_heap size m).0 later a ≡ m a
  table_back a in_it =
      elim (Bool-cases (in_range (kernel_heap_table.entries + b) (blocks_for size) a)) [
        | inl within ↦
            Holds-zero _ (blocks_for size) (kernel_heap_table.entries + b) a freed-Written.holds
              (ground arith) (ground arith)
            ∙ sym (was_zero a within)
        | inr outside ↦
            freed-Written.same a (rw (length-zeros (blocks_for size)) outside)
            ∙ same a in_it
            ∙ z.others a in_it outside
      ]

  rest_stays :
      (a : ℕ)
      → in_range kernel_heap_table.entries kernel_heap_table.length a ≡ false
      → kfree kernel_heap (kzalloc kernel_heap size m).0 later a ≡ later a
  rest_stays a out = freed-Written.same a (ground (arith, length-zeros (blocks_for size), fit.fits))

-- What `kzalloc` has answered is freed in a memory whose table is as `kzalloc` left it: the table is
-- then what it was before both, and no other byte changes.
pub kfree-kzalloc :
    (size s : ℕ) (m later : Memory)
    → 0 < size
    → size ≤ heap_size_bytes
    → s + blocks_for size ≤ kernel_heap_table.length
    → AllFree kernel_heap_table m s (blocks_for size)
    → IsReady m
    → ((a : ℕ) → InTable a → later a ≡ (kzalloc kernel_heap size m).1 a)
    → ((a : ℕ) → InTable a → kfree kernel_heap (kzalloc kernel_heap size m).0 later a ≡ m a)
      × ((a : ℕ)
          → in_range kernel_heap_table.entries kernel_heap_table.length a ≡ false
          → kfree kernel_heap (kzalloc kernel_heap size m).0 later a ≡ later a)
kfree-kzalloc size s m later positive small le vacant ready same =
    let (b, fit, z) = kzalloc-Zeroed size s m positive small le vacant ready in
    (
      table_back size s m later positive b fit z ready same,
      rest_stays size s m later positive b fit z ready same,
    )
