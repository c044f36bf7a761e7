-- ===== src/Gdt/Round.antt =====
-- gdt.c: the processor reads back from a descriptor what the structured form says.
use Prim.Native.Nat.{bit_and, bit_or}
use enki_os.Base.{
  ℕ, ◌+◌, ◌*◌, ◌/◌, ◌%◌, ◌^◌, ◌≤◌, ◌<◌, ◌≡◌, ◌≢◌, ◌∙◌, ◌⊎◌, refl, ap, inl, inr, true, false, none,
  some, List, [], ◌∷◌, arith, ltb, leb, Bool-cases, if◌then◌else◌,
}
use enki_os.Base.Bits.{and_byte, and_low, or_flags}
use enki_os.Gdt.{GdtStructured, encode_gdt_entry}

-- The base, the limit in bytes less 1 and the access byte, the way the processor reads a descriptor:
-- with the flag G set, the limit counts pages.
pub data Reads (out : GdtStructured) : List ℕ → Type 0 where
  bytes :
      {b0 b1 b2 b3 b4 b5 b6 b7 : ℕ}
      → (b0 < 256) × (b1 < 256) × (b2 < 256) × (b3 < 256) × (b4 < 256) × (b6 < 256) × (b7 < 256)
      → out.base ≡ b2 + b3 * 2 ^ 8 + b4 * 2 ^ 16 + b7 * 2 ^ 24
      → out.type ≡ b5
      → out.limit ≡ (
          if leb 128 b6
          then (b0 + b1 * 2 ^ 8 + b6 % 16 * 2 ^ 16) * 4096 + 4095
          else b0 + b1 * 2 ^ 8 + b6 % 16 * 2 ^ 16)
      → Reads out (b0 ∷ b1 ∷ b2 ∷ b3 ∷ b4 ∷ b5 ∷ b6 ∷ b7 ∷ [])

nibble : (x : ℕ) → x < 2 ^ 20 → bit_and (x / 2 ^ 16) 0x0F ≡ x / 2 ^ 16
nibble x lt =
    let same : x / 2 ^ 16 ≡ 0 * 2 ^ 4 + x / 2 ^ 16 = omega arith in
    ap (λ w. bit_and w 0x0F) same ∙ and_low 4 0 (x / 2 ^ 16) (omega arith)

flags : (high x : ℕ) → x < 2 ^ 4 → bit_or (high * 2 ^ 4) x ≡ high * 2 ^ 4 + x
flags high x lt = or_flags 4 high x lt

low_ones : (x : ℕ) → bit_and x 0xFFF ≡ x % 4096
low_ones x =
    let split : x ≡ x / 4096 * 2 ^ 12 + x % 4096 = omega arith in
    ap (λ w. bit_and w 0xFFF) split ∙ and_low 12 (x / 4096) (x % 4096) (omega arith)

-- The bytes of an entry whose limit field is `limit` and whose flags are `high`.
abbrev packed : ℕ → ℕ → GdtStructured → List ℕ
packed limit high src =
    limit % 256
    ∷ limit / 2 ^ 8 % 256
    ∷ src.base % 256
    ∷ src.base / 2 ^ 8 % 256
    ∷ src.base / 2 ^ 16 % 256
    ∷ src.type
    ∷ (high * 2 ^ 4 + limit / 2 ^ 16)
    ∷ src.base / 2 ^ 24 % 256
    ∷ []

encode_large :
    (src : GdtStructured)
    → src.limit < 2 ^ 32
    → 65536 < src.limit
    → src.limit % 4096 ≡ 4095
    → encode_gdt_entry src ≡ some (packed (src.limit / 2 ^ 12) 0xC src)
unfolding encode_gdt_entry
encode_large src lt large ends =
    let limit : ℕ = src.limit / 2 ^ 12 in
    let over : ltb 65536 src.limit ≡ true = ground arith in
    rw
      (
        over,
        low_ones src.limit,
        ends,
        and_byte limit,
        and_byte (limit / 2 ^ 8),
        and_byte src.base,
        and_byte (src.base / 2 ^ 8),
        and_byte (src.base / 2 ^ 16),
        and_byte (src.base / 2 ^ 24),
        nibble limit (omega arith),
        flags 0xC (limit / 2 ^ 16) (omega arith),
      )
      refl

encode_small :
    (src : GdtStructured)
    → src.limit ≤ 65536
    → encode_gdt_entry src ≡ some (packed src.limit 0x4 src)
unfolding encode_gdt_entry
encode_small src small =
    let limit : ℕ = src.limit in
    let over : ltb 65536 src.limit ≡ false = ground arith in
    rw
      (
        over,
        and_byte limit,
        and_byte (limit / 2 ^ 8),
        and_byte src.base,
        and_byte (src.base / 2 ^ 8),
        and_byte (src.base / 2 ^ 16),
        and_byte (src.base / 2 ^ 24),
        nibble limit (omega arith),
        flags 0x4 (limit / 2 ^ 16) (omega arith),
      )
      refl

-- An entry of a 32-bit base and limit is encoded to 8 bytes that read back as the entry, if its limit
-- is at most 65536 or ends in 0xFFF.
pub encode-Reads :
    (src : GdtStructured)
    → src.base < 2 ^ 32
    → src.limit < 2 ^ 32
    → ((src.limit ≤ 65536) ⊎ (src.limit % 4096 ≡ 4095))
    → (out : List ℕ) × (encode_gdt_entry src ≡ some out) × Reads src out
encode-Reads src base limit ok = elim (Bool-cases (ltb 65536 src.limit)) [
  | inl large ↦ (
    packed (src.limit / 2 ^ 12) 0xC src,
    encode_large src limit (ground arith) (ground arith),
    bytes (omega arith) (omega arith) refl (ground arith),
  )
  | inr small ↦ (
    packed src.limit 0x4 src,
    encode_small src (ground arith),
    bytes (ground arith) (omega arith) refl (ground arith),
  )
]

-- Above 65536, a limit that does not end in 0xFFF makes the code panic.
pub encode_panics :
    (src : GdtStructured)
    → 65536 < src.limit
    → src.limit % 4096 ≢ 4095
    → encode_gdt_entry src ≡ none
unfolding encode_gdt_entry
encode_panics src large ends = ground (arith, low_ones src.limit)
