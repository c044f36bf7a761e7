-- ===== src/Fat16/Names.antt =====
-- fat16.c: the names of directory items.
use enki_os.Base.{
  ℕ, zero, suc, ◌≤◌, ◌≡◌, ◌≢◌, refl, false, ◌||◌, List, [], ◌∷◌, ◌++◌, arith, ◌==◌, if◌then◌else◌,
  length,
}
use enki_os.Fat16.Items.{fat16_fmt_str, fat16_file_name_resolve}

-- A name without blanks and NULs.
abbrev pub Word : List ℕ → Type 0
Word [] = Unit
Word (c ∷ s) = (c ≢ 0x00) × (c ≢ 0x20) × Word s

-- The field of `size` bytes that holds the name, filled up with blanks.
abbrev pub pad : ℕ → List ℕ → List ℕ
pad zero s = s
pad (suc size) [] = 0x20 ∷ pad size []
pad (suc size) (c ∷ s) = c ∷ pad size s

fmt-pad : (size : ℕ) (s : List ℕ) → Word s → length s ≤ size → fat16_fmt_str size (pad size s) ≡ s
unfolding fat16_fmt_str
fmt-pad zero [] w le = refl
fmt-pad zero (c ∷ s) w le = absurd (omega arith)
fmt-pad (suc size) [] w le = refl
fmt-pad (suc size) (c ∷ s) (nul, blank, w) le =
    let other : (c == 0x00 || c == 0x20) ≡ false = ground arith in
    rw (other, fmt-pad size s w (omega arith)) refl

-- A stem of at most 8 characters and an extension of 1 to 3, neither with blanks or NULs, that are
-- stored in their padded fields, resolve to the stem, a dot and the extension; a stem with an empty
-- extension resolves to itself.
pub resolve-pad :
    (stem ext : List ℕ) (attribute high low size : ℕ)
    → Word stem
    → Word ext
    → length stem ≤ 8
    → length ext ≤ 3
    → fat16_file_name_resolve (record {
      name = pad 8 stem;
      ext = pad 3 ext;
      attribute = attribute;
      high_first_cluster = high;
      low_first_cluster = low;
      file_size = size;
    })
      ≡ (if length ext == 0 then stem else stem ++ b'.' ∷ ext)
unfolding fat16_file_name_resolve
resolve-pad stem [] attribute high low size w v le le' = fmt-pad 8 stem w le
resolve-pad stem (c ∷ ext) attribute high low size w (nul, blank, v) le le' =
    let first : (c == 0x00) ≡ false = ground arith in
    let second : (c == 0x20) ≡ false = ground arith in
    let some_ : (length (c ∷ ext) == 0) ≡ false = ground arith in
    rw (first, second, some_, fmt-pad 8 stem w le, fmt-pad 3 (c ∷ ext) (nul, blank, v) le') refl
