-- ===== src/Libc/Text/Span.antt =====
-- strcspn and strspn never advance: they return 0 or do not return.
use native.Mathlib.Nat.{add-zero}
use enki_os.Base.{
  ℕ, zero, suc, ◌+◌, ◌<◌, ◌≡◌, ◌≢◌, none, some, inl, inr, Bool, arith, ◌==◌, List, [], ◌∷◌, length,
  ◌⊎◌, false, not, refl,
}
use enki_os.Base.Memory.{Memory, IsText}
use enki_os.Libc.Text.{find_char, span_loop, strcspn, strspn}

-- The character is none of the set.
abbrev pub Fresh : ℕ → List ℕ → Type 0
Fresh ch [] = Unit
Fresh ch (x ∷ xs) = (ch ≢ x) × Fresh ch xs

-- The inner loop then stops at the set's terminator.
find_char-Fresh :
    (fuel ch c : ℕ) (m : Memory) (xs : List ℕ)
    → IsText m c xs
    → Fresh ch xs
    → length xs < fuel
    → find_char fuel ch c m ≡ some (c + length xs)
unfolding find_char
find_char-Fresh zero ch c m xs t f lt = absurd (omega arith)
find_char-Fresh (suc fuel) ch c m [] t f lt = ground arith
find_char-Fresh (suc fuel) ch c m (x ∷ xs) t f lt =
    ground (arith, find_char-Fresh fuel ch (c + 1) m xs t.2 f.1 (omega arith))

IsText-end : (m : Memory) (p : ℕ) (xs : List ℕ) → IsText m p xs → m (p + length xs) ≡ 0
IsText-end m p [] h = rw (add-zero p) h
IsText-end m p (x ∷ xs) h =
    let e : p + 1 + length xs ≡ p + suc (length xs) = omega arith in
    rw (← e) (IsText-end m (p + 1) xs h.2)

module _ (scan s1 s2 : ℕ) (m : Memory) where
  span_loop-none :
      (stop : ℕ → Bool) (fuel c : ℕ)
      → m s1 ≢ 0
      → find_char scan (m s1) s2 m ≡ some c
      → stop (m c) ≡ false
      → span_loop stop fuel scan s1 s1 s2 m ≡ none
  unfolding span_loop
  span_loop-none stop zero c more found on = refl
  span_loop-none stop (suc fuel) c more found on =
      let go : (m s1 == 0) ≡ false = ground arith in
      rw (go, found, on) (span_loop-none stop fuel c more found on)

  span_loop-zero :
      (stop : ℕ → Bool) (fuel : ℕ) {r : ℕ} → span_loop stop fuel scan s1 s1 s2 m ≡ some r → r ≡ 0
  unfolding span_loop
  span_loop-zero stop zero h = cc
  span_loop-zero stop (suc fuel) {r} h = ground (arith, span_loop-zero stop fuel {r = r})

  -- `strcspn` never returns from a string whose first character is not in the set, however long it
  -- runs, although the length of the prefix without characters of the set is then positive.
  pub strcspn-none :
      (fuel ch : ℕ) (rest set : List ℕ)
      → IsText m s1 (ch ∷ rest)
      → IsText m s2 set
      → Fresh ch set
      → length set < scan
      → strcspn fuel scan s1 s2 m ≡ none
  unfolding strcspn
  strcspn-none fuel ch rest set t1 t2 fresh lt =
      span_loop-none (λ c. not (c == 0)) fuel (s2 + length set) (ground arith)
        (find_char-Fresh scan (m s1) s2 m set t2 (rw t1.0 fresh) lt) (rw (IsText-end m s2 set t2))

  -- Whenever `strcspn` or `strspn` returns, it returns 0.
  pub span-zero :
      (fuel : ℕ) {r : ℕ}
      → ((strcspn fuel scan s1 s2 m ≡ some r) ⊎ (strspn fuel scan s1 s2 m ≡ some r))
      → r ≡ 0
  unfolding strcspn strspn
  span-zero fuel (inl h) = span_loop-zero (λ c. not (c == 0)) fuel h
  span-zero fuel (inr h) = span_loop-zero (λ c. c == 0) fuel h
