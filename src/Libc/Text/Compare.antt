-- ===== src/Libc/Text/Compare.antt =====
-- When strncmp and istrncmp find two objects equal.
use native.Mathlib.Nat.{add-zero}
use enki_os.Base.{
  ℕ, zero, suc, ◌+◌, ◌<◌, ◌≡◌, ◌↔◌, refl, inl, inr, true, false, arith, Bool-cases, ◌≢◌, List,
  length,
}
use enki_os.Base.Int.{ℤ, pos, ◌-ℤ◌, ◌==ℤ◌, eq_of_-ℤ}
use enki_os.Base.Memory.{Memory, IsText}
use enki_os.Libc.Chars.{schar, tolower}
use enki_os.Libc.Text.{compare_chars, strncmp, istrncmp}

-- The `n` characters from `s1` and `s2` on read alike.
abbrev pub SameChars : (ℕ → ℤ) → ℕ → ℕ → ℕ → Memory → Type 0
SameChars read n s1 s2 m = (j : ℕ) → j < n → read (m (s1 + j)) ≡ read (m (s2 + j))

==ℤ-true : (a b : ℤ) → (a ==ℤ b) ≡ true → a ≡ b
==ℤ-true a b h = ground arith

==ℤ_self : (a : ℤ) → (a ==ℤ a) ≡ true
==ℤ_self a = ground arith

-ℤ_self : (a : ℤ) → a -ℤ a ≡ pos 0
-ℤ_self a = ground arith

==ℤ-false : (a b : ℤ) → (a ==ℤ b) ≡ false → a -ℤ b ≡ pos 0 → ⊥
==ℤ-false a b h = ground arith

add_one_left : (s j : ℕ) → s + 1 + j ≡ s + suc j
add_one_left s j = omega arith

module _ (read : ℕ → ℤ) (m : Memory) where
  SameChars-cons :
      (n s1 s2 : ℕ)
      → read (m s1) ≡ read (m s2)
      → SameChars read n (s1 + 1) (s2 + 1) m
      → SameChars read (suc n) s1 s2 m
  SameChars-cons n s1 s2 e all zero lt = rw (add-zero s1, add-zero s2) e
  SameChars-cons n s1 s2 e all (suc j) lt =
      let here : read (m (s1 + 1 + j)) ≡ read (m (s2 + 1 + j)) = all j (omega arith) in
      rw (← add_one_left s1 j, ← add_one_left s2 j) here

  compare_chars_sound :
      (n : ℕ) (a b : ℤ) (s1 s2 : ℕ)
      → compare_chars read n a b s1 s2 m ≡ pos 0
      → (a ≡ b) × SameChars read n s1 s2 m
  unfolding compare_chars
  compare_chars_sound zero a b s1 s2 h = (eq_of_-ℤ a b h, λ j lt. absurd (omega arith))
  compare_chars_sound (suc n) a b s1 s2 h = elim (Bool-cases (a ==ℤ b)) [
    | inl same ↦
        let (e, all) =
          compare_chars_sound n (read (m s1)) (read (m s2)) (s1 + 1) (s2 + 1) (rw same at h) in
        (==ℤ-true a b same, SameChars-cons n s1 s2 e all)
    | inr other ↦ absurd (==ℤ-false a b other (rw other at h))
  ]

  compare_chars_complete :
      (n : ℕ) (a b : ℤ) (s1 s2 : ℕ)
      → a ≡ b
      → SameChars read n s1 s2 m
      → compare_chars read n a b s1 s2 m ≡ pos 0
  unfolding compare_chars
  compare_chars_complete zero a b s1 s2 e h = rw e (-ℤ_self b)
  compare_chars_complete (suc n) a b s1 s2 e h =
      rw (e, ==ℤ_self b)
        (compare_chars_complete n (read (m s1)) (read (m s2)) (s1 + 1) (s2 + 1)
          (rw (add-zero s1, add-zero s2) at (h 0 (omega arith)))
          (λ j lt. rw (add_one_left s1 j, add_one_left s2 j) (h (suc j) (omega arith))))

-- `strncmp` returns 0 exactly where all `n` bytes agree as `char`s: a terminator does not end it.
pub strncmp-SameChars :
    (s1 s2 n : ℕ) (m : Memory) → (strncmp s1 s2 n m ≡ pos 0) ↔ SameChars schar n s1 s2 m
unfolding strncmp
strncmp-SameChars s1 s2 n m = (
  λ h. (compare_chars_sound schar m n (pos 0) (pos 0) s1 s2 h).1,
  compare_chars_complete schar m n (pos 0) (pos 0) s1 s2 refl,
)

-- `istrncmp` returns 0 exactly where all `n` bytes agree up to the case of their letters, those
-- behind a terminator too.
pub istrncmp-SameChars :
    (s1 s2 n : ℕ) (m : Memory)
    → (istrncmp s1 s2 n m ≡ pos 0) ↔ SameChars (λ c. schar (tolower c)) n s1 s2 m
unfolding istrncmp
istrncmp-SameChars s1 s2 n m = (
  λ h. (compare_chars_sound (λ c. schar (tolower c)) m n (pos 0) (pos 0) s1 s2 h).1,
  compare_chars_complete (λ c. schar (tolower c)) m n (pos 0) (pos 0) s1 s2 refl,
)

-- Two terminated strings of the same bytes that `strncmp` tells apart: where the first bytes behind
-- the terminators differ as `char`s, and `n` reaches them, the result is not 0.
pub strncmp-ne-zero :
    (s1 s2 n : ℕ) (m : Memory) (xs : List ℕ)
    → IsText m s1 xs
    → IsText m s2 xs
    → schar (m (s1 + suc (length xs))) ≢ schar (m (s2 + suc (length xs)))
    → suc (length xs) < n
    → strncmp s1 s2 n m ≢ pos 0
strncmp-ne-zero s1 s2 n m xs t1 t2 ne lt h =
    ne ((strncmp-SameChars s1 s2 n m).0 h (suc (length xs)) lt)
