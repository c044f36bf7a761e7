-- ===== src/Libc/Text/Copy.antt =====
-- What strcpy and strncpy leave at every address.
use enki_os.Base.{
  true, false, ℕ, zero, suc, ◌+◌, ◌-◌, ◌<◌, ◌≡◌, ◌⊎◌, some, List, [], ◌∷◌, arith, length, min, ap,
  ◌∙◌, ◌==◌, Bool-cases, inl, inr, eq_of_==, if◌then◌else◌,
}
use enki_os.Base.Memory.{Memory, IsText, store, in_range}
use enki_os.Libc.Bytes.Copy.{copied}
use enki_os.Libc.Text.{strcpy, strncpy_loop, strncpy}

-- A write outside a string leaves it there.
pub IsText-store :
    (m : Memory) (p a v : ℕ) (xs : List ℕ)
    → ((a < p) ⊎ (p + length xs < a))
    → IsText m p xs
    → IsText (store m a v) p xs
IsText-store m p a v [] out h = ground arith
IsText-store m p a v (x ∷ xs) out h =
    (ground arith, h.1, IsText-store m (p + 1) a v xs (omega arith) h.2)

-- The copy of the string: its bytes and the terminator at `dst`, all else as before.
abbrev pub Copied : Memory → ℕ → ℕ → ℕ → Memory → Type 0
Copied m dst src n m' = (a : ℕ) → m' a ≡ copied dst src n m a

copied_first : (dst src : ℕ) (m : Memory) (a : ℕ) → (a == dst) ≡ true → m (src + (a - dst)) ≡ m src
copied_first dst src m a here = ap m (omega (arith, eq_of_== a dst here))

-- Copying the first byte and then the others is copying all, if they do not overlap.
copied-suc :
    (dst src n : ℕ) (m : Memory) (a : ℕ)
    → ((dst + n < src) ⊎ (src + n < dst))
    → copied (dst + 1) (src + 1) n (store m dst (m src)) a ≡ copied dst src (suc n) m a
copied-suc dst src n m a out = elim (Bool-cases (a == dst)) [
  | inl here ↦ ground (arith, copied_first dst src m a here)
  | inr other ↦ elim (Bool-cases (in_range (dst + 1) n a)) [
    | inl within ↦
        let e : src + 1 + (a - (dst + 1)) ≡ src + (a - dst) = ground arith in ground (arith, ap m e)
    | inr outside ↦ ground arith
  ]
]

copied_end : (dst src : ℕ) (m : Memory) (a : ℕ) → m src ≡ 0 → store m dst 0 a ≡ copied dst src 1 m a
copied_end dst src m a z = elim (Bool-cases (a == dst)) [
  | inl here ↦ ground (arith, copied_first dst src m a here)
  | inr other ↦ ground arith
]

-- With more fuel than the string has bytes `strcpy` ends. It has copied the string and its
-- terminator, and every other address is as it was, if the two objects do not overlap.
pub strcpy-Copied :
    (fuel dst src : ℕ) (m : Memory) (xs : List ℕ)
    → IsText m src xs
    → length xs < fuel
    → ((dst + length xs < src) ⊎ (src + length xs < dst))
    → (m' : Memory) × (strcpy fuel dst src m ≡ some m') × Copied m dst src (suc (length xs)) m'
unfolding strcpy
strcpy-Copied zero dst src m xs h lt out = absurd (omega arith)
strcpy-Copied (suc fuel) dst src m [] h lt out =
    (store m dst 0, ground arith, λ a. copied_end dst src m a h)
strcpy-Copied (suc fuel) dst src m (x ∷ xs) h lt out =
    let (m', done, at) =
      strcpy-Copied fuel (dst + 1) (src + 1) (store m dst (m src)) xs
        (IsText-store m (src + 1) dst (m src) xs (omega arith) h.2) (omega arith) (omega arith) in
    (m', ground (arith, done), λ a. at a ∙ copied-suc dst src (suc (length xs)) m a (omega arith))

-- The byte at `a` after `k` bytes have been copied and a terminator put behind them.
abbrev pub cut : ℕ → ℕ → ℕ → Memory → ℕ → ℕ
cut dst src k m a = if a == dst + k then 0 else copied dst src k m a

cut-suc :
    (dst src k : ℕ) (m : Memory) (a : ℕ)
    → ((dst + k < src) ⊎ (src + k < dst))
    → cut (dst + 1) (src + 1) k (store m dst (m src)) a ≡ cut dst src (suc k) m a
cut-suc dst src k m a out = ground (arith, copied-suc dst src k m a out)

strncpy_loop-cut :
    (n i dst src d s : ℕ) (m : Memory) (xs : List ℕ)
    → dst + i ≡ d
    → src + i ≡ s
    → IsText m s xs
    → ((d + min n (length xs) < s) ⊎ (s + length xs < d))
    → (a : ℕ) → strncpy_loop n i dst src m a ≡ cut d s (min n (length xs)) m a
unfolding strncpy_loop
strncpy_loop-cut zero i dst src d s m xs e f h out a = ground arith
strncpy_loop-cut (suc n) i dst src d s m [] e f h out a = rw (e, f) (ground arith)
strncpy_loop-cut (suc n) i dst src d s m (x ∷ xs) e f h out a =
    let more : (m s == 0) ≡ false = ground arith in
    rw (e, f, more)
      (strncpy_loop-cut n (i + 1) dst src (d + 1) (s + 1) (store m d (m s)) xs (omega arith)
          (omega arith) (IsText-store m (s + 1) d (m s) xs (omega arith) h.2) (omega arith) a
        ∙ cut-suc d s (min n (length xs)) m a (omega arith)
        ∙ ap (λ k. cut d s k m a) (omega arith))

-- For a positive limit `n`, `strncpy` copies the bytes of the string, but at most `n - 1`, puts a
-- terminator behind them and leaves every other address as it was, if what is written does not overlap
-- the string.
pub strncpy-cut :
    (dst src n : ℕ) (m : Memory) (xs : List ℕ)
    → IsText m src xs
    → ((dst + min (n - 1) (length xs) < src) ⊎ (src + length xs < dst))
    → (a : ℕ) → strncpy dst src n m a ≡ cut dst src (min (n - 1) (length xs)) m a
unfolding strncpy
strncpy-cut dst src n m xs h out a =
    strncpy_loop-cut (n - 1) 0 dst src dst src m xs (omega arith) (omega arith) h out a
