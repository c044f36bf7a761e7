-- ===== src/Gdt/Tests.antt =====
-- The theorems of gdt.c at the kernel's code segment and at a limit that cannot be encoded.
use enki_os.Base.{ℕ, ◌≡◌, refl, inr, none, some, List, [], ◌∷◌, arith}
use enki_os.Gdt.{GdtStructured, encode_gdt_entry, gdt_unstructure}
use enki_os.Gdt.Round.{Reads, encode-Reads, encode_panics}

abbrev code_segment : GdtStructured
code_segment = record { base = 0x00; limit = 0xFFFFFFFF; type = 0x9A }

null_segment :
    gdt_unstructure (record { base = 0; limit = 0; type = 0 } ∷ [])
    ≡ some (0 ∷ 0 ∷ 0 ∷ 0 ∷ 0 ∷ 0 ∷ 0x40 ∷ 0 ∷ [])
unfolding gdt_unstructure encode_gdt_entry
null_segment = refl

encode-Reads_example :
    (out : List ℕ) × (encode_gdt_entry code_segment ≡ some out) × Reads code_segment out
encode-Reads_example = encode-Reads code_segment (omega arith) (omega arith) (inr refl)

encode_panics_example : encode_gdt_entry (record { base = 0; limit = 70000; type = 0 }) ≡ none
encode_panics_example =
    encode_panics (record { base = 0; limit = 70000; type = 0 }) (omega arith) (omega arith)
