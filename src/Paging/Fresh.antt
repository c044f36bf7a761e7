-- ===== src/Paging/Fresh.antt =====
-- paging_new: the tables that it makes, each in a page of its own.
use Prim.Native.Nat.{bit_and, bit_or}
use enki_os.Base.{
  ℕ, zero, suc, ◌+◌, ◌*◌, ◌/◌, ◌%◌, ◌^◌, ◌≤◌, ◌<◌, ◌≡◌, ◌∙◌, ◌⊎◌, refl, ap, inl, inr, arith, ltb,
  Bool-cases,
}
use enki_os.Base.Bits.{and_page, or_flags, or_low}
use enki_os.Base.Memory.{Memory}
use enki_os.Base.Word.{u32, load32, store32, load32-store32_self, load32-same, store32-beyond}
use enki_os.Paging.{fill_table}
use enki_os.Paging.Map.{page_flags}

-- Outside of the `n` words from `p` on.
abbrev pub Beyond : ℕ → ℕ → ℕ → Type 0
Beyond p n a = (a < p) ⊎ (p + 4 * n ≤ a)

pub fill_table-Beyond :
    (n j entry offset flags : ℕ) (m : Memory) (a : ℕ)
    → Beyond (entry + 4 * j) n a
    → fill_table n j entry offset flags m a ≡ m a
unfolding fill_table
fill_table-Beyond zero j entry offset flags m a out = refl
fill_table-Beyond (suc n) j entry offset flags m a out =
    fill_table-Beyond n (j + 1) entry offset flags _ a (omega arith)
    ∙ store32-beyond m (entry + 4 * j) _ a (omega arith)

-- The value of an entry.
entry_value :
    (offset k flags : ℕ)
    → offset + k * 4096 + 4096 ≤ 2 ^ 32
    → offset % 4096 ≡ 0
    → flags < 4096
    → bit_or (u32 (offset + k * 4096)) flags % 2 ^ 32 ≡ offset + k * 4096 + flags
entry_value offset k flags fits aligned few =
    let small : u32 (offset + k * 4096) ≡ offset + k * 4096 = omega arith in
    omega (
      arith,
      ap (λ w. bit_or w flags) small ∙ page_flags (offset + k * 4096) flags (omega arith) few,
    )

pub fill_table-at :
    (n j entry offset flags k : ℕ) (m : Memory)
    → offset + (j + n) * 4096 ≤ 2 ^ 32
    → offset % 4096 ≡ 0
    → flags < 4096
    → j ≤ k
    → k < j + n
    → load32 (fill_table n j entry offset flags m) (entry + 4 * k) ≡ offset + k * 4096 + flags
unfolding fill_table
fill_table-at zero j entry offset flags k m fits aligned few lo hi = absurd (omega arith)
fill_table-at (suc n) j entry offset flags k m fits aligned few lo hi =
    elim (Bool-cases (ltb j k)) [
      | inl behind ↦
          fill_table-at n (j + 1) entry offset flags k _ (omega arith) aligned few (ground arith)
            (omega arith)
      | inr first ↦
          let e : k ≡ j = ground arith in
          rw e (
            load32-same (store32 m (entry + 4 * j) (bit_or (u32 (offset + j * 4096)) flags)) _
              (entry + 4 * j)
              (λ a from to. fill_table-Beyond n (j + 1) entry offset flags _ a (omega arith))
            ∙ load32-store32_self m (entry + 4 * j) (bit_or (u32 (offset + j * 4096)) flags)
            ∙ entry_value offset j flags (omega arith) aligned few)
    ]

-- The page that the entry of a directory names.
pub entry_page :
    (p flags : ℕ)
    → p % 4096 ≡ 0
    → p < 2 ^ 32
    → flags < 4096
    → bit_and (bit_or (bit_or p flags) 2 % 2 ^ 32) 0xFFFFF000 ≡ p
entry_page p flags aligned low few =
    let whole : p ≡ p / 4096 * 2 ^ 12 = omega arith in
    let (e, lt) = or_low 12 (p / 4096) flags 2 few (omega arith) in
    let f = ap (λ w. bit_or w flags) whole ∙ or_flags 12 (p / 4096) flags few in
    let word = ap (λ w. bit_or w 2) f ∙ e in
    and_page (bit_or (bit_or p flags) 2 % 2 ^ 32) (omega arith) ∙ omega (arith, word)
