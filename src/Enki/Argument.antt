-- ===== src/Enki/Argument.antt =====
-- enki.c: one argument of a command, copied from the word that strtok has found.
use enki_os.Base.{
  ℕ, zero, suc, ◌+◌, ◌-◌, ◌≤◌, ◌<◌, ◌≡◌, ◌∙◌, ◌⊎◌, ap, inl, List, [], ◌∷◌, arith, length, take, min,
}
use enki_os.Base.Memory.{Memory, IsText}
use enki_os.Base.Word.{load32, store32, load32-store32_self, store32-beyond}
use enki_os.Libc.Text.{strncpy}
use enki_os.Libc.Text.Copy.{cut, strncpy-cut}
use enki_os.Enki.Words.{Answers, no_word, word}

-- Outside of the `n` addresses from `p` on.
abbrev pub Beyond : ℕ → ℕ → ℕ → Type 0
Beyond p n a = (a < p) ⊎ (p + n ≤ a)

abbrev pub Apart : ℕ → ℕ → ℕ → ℕ → Type 0
Apart p n q k = (p + n ≤ q) ⊎ (q + k ≤ p)

-- The list of arguments at `p`: each has room for 511 characters of its word.
abbrev pub IsArgs : Memory → ℕ → List (List ℕ) → Type 0
IsArgs m p [] = p ≡ 0
IsArgs m p (w ∷ ws) = (0 < p) × IsText m p (take 511 w) × IsArgs m (load32 m (p + 512)) ws

pub IsText-same :
    (m m' : Memory) (p : ℕ) (xs : List ℕ)
    → ((a : ℕ) → p ≤ a → a ≤ p + length xs → m' a ≡ m a)
    → IsText m p xs
    → IsText m' p xs
IsText-same m m' p [] same h = same p (omega arith) (omega arith) ∙ h
IsText-same m m' p (x ∷ xs) same h = (
  same p (omega arith) (omega arith) ∙ h.0,
  h.1,
  IsText-same m m' (p + 1) xs (λ a lo hi. same a (omega arith) (omega arith)) h.2,
)

pub length_take_le : (k : ℕ) (xs : List ℕ) → length (take k xs) ≤ k
length_take_le zero xs = omega arith
length_take_le (suc k) [] = omega arith
length_take_le (suc k) (x ∷ xs) = omega (arith, length_take_le k xs)

-- A text that is copied, with at most `k` of its characters.
IsText-take :
    (m m' : Memory) (p q k : ℕ) (xs : List ℕ)
    → IsText m p xs
    → ((i : ℕ) → i < min k (length xs) → m' (q + i) ≡ m (p + i))
    → m' (q + min k (length xs)) ≡ 0
    → IsText m' q (take k xs)
IsText-take m m' p q zero xs h same ended = ap m' (omega arith) ∙ ended
IsText-take m m' p q (suc k) [] h same ended = ap m' (omega arith) ∙ ended
IsText-take m m' p q (suc k) (x ∷ xs) h same ended = (
  ap m' (omega arith) ∙ same 0 (omega arith) ∙ ap m (omega arith) ∙ h.0,
  h.1,
  IsText-take m m' (p + 1) (q + 1) k xs h.2
      (λ i lt. ap m' (omega arith) ∙ same (i + 1) (omega arith) ∙ ap m (omega arith))
      (ap m' (omega arith) ∙ ended),
)

cut_inside : (dst src k i : ℕ) (m : Memory) → i < k → cut dst src k m (dst + i) ≡ m (src + i)
cut_inside dst src k i m lt =
    let e : src + (dst + i - dst) ≡ src + i = omega arith in ground (arith, ap m e)

pub strncpy-take :
    (dst src n : ℕ) (m : Memory) (xs : List ℕ)
    → IsText m src xs
    → ((dst + min (n - 1) (length xs) < src) ⊎ (src + length xs < dst))
    → IsText (strncpy dst src n m) dst (take (n - 1) xs)
strncpy-take dst src n m xs h out =
    IsText-take m (strncpy dst src n m) src dst (n - 1) xs h
      (λ i lt. strncpy-cut dst src n m xs h out (dst + i) ∙ cut_inside dst src _ i m lt)
      (strncpy-cut dst src n m xs h out _ ∙ ground arith)

pub strncpy-Beyond :
    (dst src n : ℕ) (m : Memory) (xs : List ℕ) (a : ℕ)
    → 0 < n
    → IsText m src xs
    → ((dst + min (n - 1) (length xs) < src) ⊎ (src + length xs < dst))
    → Beyond dst n a
    → strncpy dst src n m a ≡ m a
strncpy-Beyond dst src n m xs a some_room h out beyond =
    strncpy-cut dst src n m xs h out a ∙ ground arith

-- A new argument, whose word is in the buffer.
abbrev pub made_arg : ℕ → ℕ → Memory → Memory
made_arg new tok m = store32 (strncpy new tok 512 m) (new + 512) 0

module _ (new tok : ℕ) (m : Memory) (w : List ℕ) (h : IsText m tok w)
    (out : (new + 516 ≤ tok) ⊎ (tok + length w < new)) where
  pub made_arg-IsText : IsText (made_arg new tok m) new (take 511 w)
  made_arg-IsText =
      IsText-same (strncpy new tok 512 m) (made_arg new tok m) new (take 511 w)
        (λ a lo hi. store32-beyond _ (new + 512) 0 a (inl (omega (arith, length_take_le 511 w))))
        (strncpy-take new tok 512 m w h (omega arith))

  pub made_arg-next : load32 (made_arg new tok m) (new + 512) ≡ 0
  made_arg-next = load32-store32_self (strncpy new tok 512 m) (new + 512) 0

  pub made_arg-Beyond : (a : ℕ) → Beyond new 516 a → made_arg new tok m a ≡ m a
  made_arg-Beyond a beyond =
      store32-beyond _ (new + 512) 0 a (omega arith)
      ∙ strncpy-Beyond new tok 512 m w a (omega arith) h (omega arith) (omega arith)

pub Answers-beyond :
    {ds : List ℕ} {p : ℕ} {s : List ℕ} {m : Memory} {token next : ℕ} {m' : Memory} (a : ℕ)
    → Answers ds p s m token next m'
    → ((a < p) ⊎ (p + length s < a))
    → m' a ≡ m a
Answers-beyond a (no_word none_left same) out = ap (λ q. q a) same
Answers-beyond a (word w rest e some_word shorter text more lo le hi same) out =
    same a (omega arith)
