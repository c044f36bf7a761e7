-- ===== src/Fat16/Buffer.antt =====
-- fat16.c: the buffer that a directory item's name is resolved into.
use enki_os.Base.{
  ℕ, zero, suc, ◌+◌, ◌≤◌, ◌<◌, ◌≡◌, ◌∙◌, refl, sym, ap, arith, List, [], ◌∷◌, ltb, length, get_or,
  Bool-cases, inl, inr, length-append,
}
use enki_os.Base.Memory.{Memory, store, SameOutside}
use enki_os.Libc.Bytes.{memset}
use enki_os.Libc.Bytes.Copy.{memset_at}
use enki_os.Path.{max_path}
use enki_os.Fat16.Items.{FatDirItem, fat16_fmt_str, fat16_file_name_resolve}
use enki_os.Fat16.Directory.{bytes_at}
use enki_os.Fat16.Lookup.{store_chars, resolve_into}

length-fmt : (size : ℕ) (s : List ℕ) → length (fat16_fmt_str size s) ≤ size
unfolding fat16_fmt_str
length-fmt zero s = omega arith
length-fmt (suc size) [] = omega arith
length-fmt (suc size) (c ∷ s) = ground (arith, length-fmt size s)

length-resolve : (item : FatDirItem) → length (fat16_file_name_resolve item) ≤ 12
unfolding fat16_file_name_resolve
length-resolve item = ground (
  arith,
  length-fmt 8 item.name,
  length-fmt 3 item.ext,
  length-append (fat16_fmt_str 8 item.name) (b'.' ∷ fat16_fmt_str 3 item.ext),
)

pub resolve-same :
    (item item' : FatDirItem)
    → item.name ≡ item'.name
    → item.ext ≡ item'.ext
    → fat16_file_name_resolve item ≡ fat16_file_name_resolve item'
unfolding fat16_file_name_resolve
resolve-same item item' e f = rw (e, f) refl

pub bytes_at-same :
    (n p : ℕ) (m m' : Memory)
    → ((a : ℕ) → p ≤ a → a < p + n → m' a ≡ m a)
    → bytes_at n p m' ≡ bytes_at n p m
bytes_at-same zero p m m' same = refl
bytes_at-same (suc n) p m m' same =
    rw
      (
        same p (omega arith) (omega arith),
        bytes_at-same n (p + 1) m m' (λ a lo hi. same a (omega arith) (omega arith)),
      )
      refl

add_one : (p j : ℕ) → p + suc j ≡ p + 1 + j
add_one p j = omega arith

store_chars_before : (s : List ℕ) (p : ℕ) (m : Memory) (a : ℕ) → a < p → store_chars p s m a ≡ m a
store_chars_before [] p m a lt = refl
store_chars_before (c ∷ s) p m a lt =
    store_chars_before s (p + 1) (store m p c) a (omega arith) ∙ ground arith

store_chars_beyond :
    (s : List ℕ) (p : ℕ) (m : Memory) (a : ℕ) → p + length s ≤ a → store_chars p s m a ≡ m a
store_chars_beyond [] p m a le = refl
store_chars_beyond (c ∷ s) p m a le =
    store_chars_beyond s (p + 1) (store m p c) a (omega arith) ∙ ground arith

-- A text is followed by what stood there, which is a NUL here.
store_chars_at :
    (s : List ℕ) (p j : ℕ) (m : Memory)
    → ((k : ℕ) → length s ≤ k → k ≤ j → m (p + k) ≡ 0)
    → store_chars p s m (p + j) ≡ get_or s j 0
store_chars_at [] p j m nul = nul j (omega arith) (omega arith)
store_chars_at (c ∷ s) p zero m nul =
    store_chars_before s (p + 1) (store m p c) (p + 0) (omega arith) ∙ ground arith
store_chars_at (c ∷ s) p (suc j) m nul =
    let rest = store_chars_at s (p + 1) j (store m p c) (λ k lo hi.
      let kept : store m p c (p + 1 + k) ≡ m (p + 1 + k) = ground arith in
      kept ∙ ap m (sym (add_one p k)) ∙ nul (suc k) (omega arith) (omega arith)) in
    ap (store_chars (p + 1) s (store m p c)) (add_one p j) ∙ rest

module _ (tmp : ℕ) where
  pub resolve_at :
      (item : FatDirItem) (m : Memory) (j : ℕ)
      → j < max_path
      → resolve_into item tmp m (tmp + j) ≡ get_or (fat16_file_name_resolve item) j 0
  unfolding resolve_into
  resolve_at item m j lt =
      store_chars_at (fat16_file_name_resolve item) tmp j (memset tmp 0x00 max_path m)
        (λ k lo hi. ground (arith, memset_at tmp 0x00 max_path m (tmp + k)))

  pub resolve_outside :
      (item : FatDirItem) (m : Memory) → SameOutside tmp max_path m (resolve_into item tmp m)
  unfolding resolve_into
  resolve_outside item m a out =
      let kept : memset tmp 0x00 max_path m a ≡ m a =
        ground (arith, memset_at tmp 0x00 max_path m a) in
      elim (Bool-cases (ltb a tmp)) [
        | inl before ↦
            store_chars_before (fat16_file_name_resolve item) tmp (memset tmp 0x00 max_path m) a
              (ground arith)
            ∙ kept
        | inr behind ↦
            store_chars_beyond (fat16_file_name_resolve item) tmp (memset tmp 0x00 max_path m) a
              (ground (arith, length-resolve item))
            ∙ kept
      ]
