-- ===== src/Kernel/Segments.antt =====
-- kernel.c and gdt.c: the table of segments that the processor reads.
use enki_os.Base.{ℕ, ◌^◌, ◌%◌, ◌≤◌, ◌<◌, ◌≡◌, ◌⊎◌, refl, inl, inr, some, List, [], ◌∷◌, ◌++◌, arith}
use enki_os.Gdt.{GdtStructured, gdt_unstructure}
use enki_os.Gdt.Round.{Reads, encode-Reads}
use enki_os.Kernel.{segments}

-- The bytes of a table read back as its entries, one behind the other.
abbrev pub ReadsAll : List GdtStructured → List ℕ → Type 0
ReadsAll [] out = out ≡ []
ReadsAll (src ∷ rest) out =
    (entry : List ℕ) × (behind : List ℕ) × (out ≡ entry ++ behind)
    × Reads src entry
    × ReadsAll rest behind

-- A base and a limit that an entry can hold.
abbrev pub Encodable : List GdtStructured → Type 0
Encodable [] = Unit
Encodable (src ∷ rest) =
    (src.base < 2 ^ 32)
    × (src.limit < 2 ^ 32)
    × ((src.limit ≤ 65536) ⊎ (src.limit % 4096 ≡ 4095))
    × Encodable rest

-- A table of entries that can be encoded is encoded without a panic, and reads back as its entries.
pub unstructure-ReadsAll :
    (table : List GdtStructured)
    → Encodable table
    → (out : List ℕ) × (gdt_unstructure table ≡ some out) × ReadsAll table out
unfolding gdt_unstructure
unstructure-ReadsAll [] ok = ([], refl, refl)
unstructure-ReadsAll (src ∷ rest) (base, limit, fits, ok) =
    let (entry, e, reads) = encode-Reads src base limit fits in
    let (behind, f, all) = unstructure-ReadsAll rest ok in
    (entry ++ behind, rw (e, f) refl, (entry, behind, refl, reads, all))

pub segments-Encodable : (tss : ℕ) → tss < 2 ^ 32 → Encodable (segments tss)
segments-Encodable tss lt = (
  omega arith,
  omega arith,
  inl (omega arith),
  (
    omega arith,
    omega arith,
    inr refl,
    (
      omega arith,
      omega arith,
      inr refl,
      (
        omega arith,
        omega arith,
        inr refl,
        (omega arith, omega arith, inr refl, (lt, omega arith, inl (omega arith), tt)),
      ),
    ),
  ),
)
