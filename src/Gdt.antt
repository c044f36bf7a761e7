-- ===== src/Gdt.antt =====
-- kernel/kernel/gdt.c: the descriptors of the segments, from their structured form.
pub mod Round
mod Tests
use Prim.Native.Nat.{bit_and, bit_or}
use enki_os.Base.{
  ◌>>=◌, ℕ, ◌+◌, ◌/◌, ◌^◌, ◌&&◌, not, none, some, Option, List, [], ◌∷◌, ◌++◌, ltb, ◌==◌,
  if◌then◌else◌,
}

pub record GdtStructured : Type 0 where
  pub base : ℕ
  pub limit : ℕ
  pub type : ℕ

-- The limit and the flags in the high half of byte 6, where the limit counts bytes or pages.
abbrev pub scaled : ℕ → ℕ × ℕ
scaled limit = if ltb 65536 limit then (limit / 2 ^ 12, 0xC0) else (limit, 0x40)

-- The 8 bytes of the descriptor; none where the code panics.
unfoldable pub encode_gdt_entry : GdtStructured → Option (List ℕ)
encode_gdt_entry src =
    if ltb 65536 src.limit && not (bit_and src.limit 0xFFF == 0xFFF)
    then none
    else let (limit, high) = scaled src.limit in
      some (
        bit_and limit 0xFF
        ∷ bit_and (limit / 2 ^ 8) 0xFF
        ∷ bit_and src.base 0xFF
        ∷ bit_and (src.base / 2 ^ 8) 0xFF
        ∷ bit_and (src.base / 2 ^ 16) 0xFF
        ∷ src.type
        ∷ bit_or high (bit_and (limit / 2 ^ 16) 0x0F)
        ∷ bit_and (src.base / 2 ^ 24) 0xFF
        ∷ [])

-- The entries of the table, one behind the other.
unfoldable pub gdt_unstructure : List GdtStructured → Option (List ℕ)
gdt_unstructure [] = some []
gdt_unstructure (src ∷ rest) = do
  entry ← encode_gdt_entry src
  behind ← gdt_unstructure rest
  some (entry ++ behind)
