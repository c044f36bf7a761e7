-- ===== src/Libc/Text/Length.antt =====
-- strlen and strnlen on a terminated string.
use native.Mathlib.Nat.{add-zero}
use enki_os.Base.{ℕ, zero, suc, ◌+◌, ◌<◌, ◌≡◌, ◌∙◌, ap, some, List, [], ◌∷◌, arith, length, min}
use enki_os.Base.Memory.{Memory, IsText}
use enki_os.Libc.Text.{strlen_loop, strlen, strnlen_loop, strnlen}

strlen_loop-IsText :
    (fuel i s : ℕ) (m : Memory) (xs : List ℕ)
    → IsText m (s + i) xs
    → length xs < fuel
    → strlen_loop fuel i s m ≡ some (i + length xs)
unfolding strlen_loop
strlen_loop-IsText zero i s m xs h lt = absurd (omega arith)
strlen_loop-IsText (suc fuel) i s m [] h lt = ground arith
strlen_loop-IsText (suc fuel) i s m (x ∷ xs) h lt =
    let e : s + i + 1 ≡ s + (i + 1) = omega arith in
    ground (arith, strlen_loop-IsText fuel (i + 1) s m xs (rw (← e) h.2) (omega arith))

-- With more fuel than the string has bytes `strlen` ends, and returns their number.
pub strlen-IsText :
    (fuel s : ℕ) (m : Memory) (xs : List ℕ)
    → IsText m s xs
    → length xs < fuel
    → strlen fuel s m ≡ some (length xs)
unfolding strlen
strlen-IsText fuel s m xs h lt =
    strlen_loop-IsText fuel 0 s m xs (rw add-zero h) lt ∙ ap some (omega arith)

strnlen_loop-IsText :
    (n i s : ℕ) (m : Memory) (xs : List ℕ)
    → IsText m (s + i) xs
    → strnlen_loop n i s m ≡ i + min n (length xs)
unfolding strnlen_loop
strnlen_loop-IsText zero i s m xs h = omega arith
strnlen_loop-IsText (suc n) i s m [] h = ground arith
strnlen_loop-IsText (suc n) i s m (x ∷ xs) h =
    let e : s + i + 1 ≡ s + (i + 1) = omega arith in
    ground (arith, strnlen_loop-IsText n (i + 1) s m xs (rw (← e) h.2))

-- `strnlen` returns the smaller of the limit and the string's length.
pub strnlen-IsText :
    (s n : ℕ) (m : Memory) (xs : List ℕ) → IsText m s xs → strnlen s n m ≡ min n (length xs)
unfolding strnlen
strnlen-IsText s n m xs h = strnlen_loop-IsText n 0 s m xs (rw add-zero h) ∙ omega arith
