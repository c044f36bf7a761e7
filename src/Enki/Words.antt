-- ===== src/Enki/Words.antt =====
-- string.c: a call of strtok against the words of a text.
use enki_os.Base.{
  ℕ, zero, suc, ◌+◌, ◌≤◌, ◌<◌, ◌≡◌, ◌≢◌, ◌∙◌, refl, sym, ap, inl, inr, true, false, some, List, [],
  ◌∷◌, arith, ◌==◌, ==_self, Bool-cases, if◌then◌else◌, length, not, ◌&&◌,
}
use enki_os.Base.Memory.{Memory, IsText, store}
use enki_os.Libc.Text.Copy.{IsText-store}
use enki_os.Enki.{is_delimiter, skip_delimiters, end_token, strtok}

-- A word in front of the others, where it is not empty.
abbrev pub cons_word : List ℕ → List (List ℕ) → List (List ℕ)
cons_word [] ws = ws
cons_word (c ∷ w) ws = (c ∷ w) ∷ ws

-- The word that the text starts with, which may be empty, and the words behind it.
abbrev pub split : List ℕ → List ℕ → List ℕ × List (List ℕ)
split delimiters [] = ([], [])
split delimiters (c ∷ s) =
    let (w, ws) = split delimiters s in
    if is_delimiter delimiters c then ([], cons_word w ws) else (c ∷ w, ws)

-- The words of a text: its longest runs of characters that are not delimiters.
abbrev pub words : List ℕ → List ℕ → List (List ℕ)
words delimiters s = cons_word (split delimiters s).0 (split delimiters s).1

module _ (ds : List ℕ) where
  -- The text behind the delimiters in front, and behind the first word and its delimiter.
  abbrev pub skip : List ℕ → List ℕ
  skip [] = []
  skip (c ∷ s) = if is_delimiter ds c then skip s else c ∷ s

  abbrev pub first : List ℕ → List ℕ
  first [] = []
  first (c ∷ s) = if is_delimiter ds c then [] else c ∷ first s

  abbrev pub behind : List ℕ → List ℕ
  behind [] = []
  behind (c ∷ s) = if is_delimiter ds c then s else behind s

  split-eq : (s : List ℕ) → split ds s ≡ (first s, words ds (behind s))
  split-eq [] = refl
  split-eq (c ∷ s) = elim (Bool-cases (is_delimiter ds c)) [
    | inl e ↦ rw e refl
    | inr e ↦ rw (e, split-eq s) refl
  ]

  words-skip : (s : List ℕ) → words ds (skip s) ≡ words ds s
  words-skip [] = refl
  words-skip (c ∷ s) = elim (Bool-cases (is_delimiter ds c)) [
    | inl e ↦ rw e (words-skip s)
    | inr e ↦ rw e (rw e refl)
  ]

  pub words-cons :
      (c : ℕ) (s : List ℕ)
      → is_delimiter ds c ≡ false
      → words ds (c ∷ s) ≡ (c ∷ first s) ∷ words ds (behind s)
  words-cons c s e = rw (e, split-eq s) refl

  skip_delimiters-skip :
      (fuel start : ℕ) (m : Memory) (s : List ℕ)
      → is_delimiter ds 0 ≡ false
      → length s < fuel
      → IsText m start s
      → (p : ℕ) × (skip_delimiters fuel ds start m ≡ some p)
        × IsText m p (skip s)
        × (start ≤ p)
        × (p + length (skip s) ≡ start + length s)
  unfolding skip_delimiters
  skip_delimiters-skip zero start m s nul lt h = absurd (omega arith)
  skip_delimiters-skip (suc fuel) start m [] nul lt h =
      (start, rw (h, nul) refl, h, omega arith, refl)
  skip_delimiters-skip (suc fuel) start m (c ∷ s) nul lt h = elim (Bool-cases (is_delimiter ds c)) [
    | inr e ↦ rw e (start, rw (h.0, e) refl, h, omega arith, refl)
    | inl e ↦
        let (p, eq, text, le, all) =
          skip_delimiters-skip fuel (start + 1) m s nul (omega arith) h.2 in
        rw e (p, rw (h.0, e) eq, text, omega arith, omega arith)
  ]

  -- What the search for the end of a word that starts at `last` does: only the byte behind the word is
  -- written, and the rest of the text is left.
  abbrev pub Ended : Memory → ℕ → List ℕ → ℕ → Memory → Type 0
  Ended m last s next m' =
      IsText m' last (first s)
      × IsText m' next (behind s)
      × (last + length (first s) ≤ next)
      × (next + length (behind s) ≤ last + length s)
      × ((a : ℕ) → a ≢ last + length (first s) → m' a ≡ m a)

  end_token-Ended :
      (fuel last : ℕ) (m : Memory) (s : List ℕ)
      → length s < fuel
      → IsText m last s
      → (next : ℕ) × (m' : Memory) × (end_token fuel ds last m ≡ some (next, m'))
        × Ended m last s next m'
  unfolding end_token
  end_token-Ended zero last m s lt h = absurd (omega arith)
  end_token-Ended (suc fuel) last m [] lt h =
      (last, m, rw (h) refl, (h, h, omega arith, omega arith, λ a ne. refl))
  end_token-Ended (suc fuel) last m (c ∷ s) lt h =
      let more : (m last == 0) ≡ false = ground arith in
      elim (Bool-cases (is_delimiter ds c)) [
        | inl e ↦ rw e (
          last + 1,
          store m last 0,
          rw (more, h.0, e) refl,
          (
            rw (==_self last) refl,
            IsText-store m (last + 1) last 0 s (omega arith) h.2,
            omega arith,
            omega arith,
            λ a ne. ground arith,
          ),
        )
        | inr e ↦
            let (next, m', eq, (word, rest, le, fits, same)) =
              end_token-Ended fuel (last + 1) m s (omega arith) h.2 in
            rw e (
              next,
              m',
              rw (more, h.0, e) eq,
              (
                (same last (omega arith) ∙ h.0, h.1, word),
                rest,
                omega arith,
                omega arith,
                λ a ne. same a (omega arith),
              ),
            )
      ]

  -- What a call of strtok on the text `s` at `p` answers: the null pointer where no word is left, and else
  -- the address of the first word, which has been ended in place, with the place to go on from.
  pub data Answers (p : ℕ) (s : List ℕ) (m : Memory) : ℕ → ℕ → Memory → Type 0 where
    no_word : {m' : Memory} → words ds s ≡ [] → m' ≡ m → Answers p s m 0 0 m'
    word :
        {token next : ℕ} {m' : Memory} (w rest : List ℕ)
        → words ds s ≡ w ∷ words ds rest
        → 0 < length w
        → length rest < length s
        → IsText m' token w
        → IsText m' next rest
        → p ≤ token
        → token + length w ≤ next
        → next + length rest ≤ p + length s
        → ((a : ℕ) → a ≢ token + length w → m' a ≡ m a)
        → Answers p s m token next m'

  skip_head : (s : List ℕ) (c : ℕ) (t : List ℕ) → skip s ≡ c ∷ t → is_delimiter ds c ≡ false
  skip_head [] c t e = cc
  skip_head (d ∷ s) c t e = elim (Bool-cases (is_delimiter ds d)) [
    | inl delimits ↦ skip_head s c t (rw delimits at e)
    | inr plain ↦ cc (rw plain at e, plain)
  ]

  strtok-end :
      (fuel str last p start : ℕ) (m : Memory)
      → (if not (str == 0) && last == 0 then str else last) ≡ p
      → (p == 0) ≡ false
      → skip_delimiters fuel ds p m ≡ some start
      → (m start == 0) ≡ true
      → strtok fuel str ds last m ≡ some (0, 0, m)
  unfolding strtok
  strtok-end fuel str last p start m at nonzero found ended = rw (at, nonzero, found, ended) refl

  strtok-token :
      (fuel str last p start next : ℕ) (m m' : Memory)
      → (if not (str == 0) && last == 0 then str else last) ≡ p
      → (p == 0) ≡ false
      → skip_delimiters fuel ds p m ≡ some start
      → (m start == 0) ≡ false
      → end_token fuel ds start m ≡ some (next, m')
      → strtok fuel str ds last m ≡ some (start, next, m')
  unfolding strtok
  strtok-token fuel str last p start next m m' at nonzero found more ended =
      rw (at, nonzero, found, more, ended) refl

  strtok-Answers :
      (fuel str last p : ℕ) (m : Memory) (s : List ℕ) (start : ℕ)
      → (if not (str == 0) && last == 0 then str else last) ≡ p
      → (p == 0) ≡ false
      → length s < fuel
      → skip_delimiters fuel ds p m ≡ some start
      → IsText m start (skip s)
      → p ≤ start
      → start + length (skip s) ≡ p + length s
      → (t : List ℕ) → skip s ≡ t
      → (token : ℕ) × (next : ℕ) × (m' : Memory) × (strtok fuel str ds last m
          ≡ some (token, next, m'))
        × Answers p s m token next m'
  strtok-Answers fuel str last p m s start at nonzero lt found text le all [] e =
      let ended : (m start == 0) ≡ true = let h = rw e at text in ground arith in
      (
        0,
        0,
        m,
        strtok-end fuel str last p start m at nonzero found ended,
        no_word (sym (words-skip s) ∙ ap (words ds) e) refl,
      )
  strtok-Answers fuel str last p m s start at nonzero lt found text le all (c ∷ t) e =
      let plain = skip_head s c t e in
      let h : IsText m start (c ∷ t) = rw e at text in
      let more : (m start == 0) ≡ false = ground arith in
      let long : start + length (c ∷ t) ≡ p + length s = rw e at all in
      let (next, m', ended, (w, rest, after, fits, same)) =
        end_token-Ended fuel start m (c ∷ t) (omega arith) h in
      let after' : start + suc (length (first t)) ≤ next = rw plain at after in
      let fits' : next + length (behind t) ≤ start + suc (length t) = rw plain at fits in
      (
        start,
        next,
        m',
        strtok-token fuel str last p start next m m' at nonzero found more ended,
        word (c ∷ first t) (behind t) (sym (words-skip s) ∙ ap (words ds) e ∙ words-cons c t plain)
            (omega arith) (omega arith) (rw plain at w) (rw plain at rest) le after' (omega arith)
            (rw plain at same),
      )

  -- A call of strtok on a text, at its start or where the last call has left off, with fuel above its
  -- length answers the first word of the text, ended in place, and goes on behind it; without a word it
  -- answers the null pointer. No other byte is written.
  pub strtok-words :
      (fuel str last p : ℕ) (m : Memory) (s : List ℕ)
      → (if not (str == 0) && last == 0 then str else last) ≡ p
      → (p == 0) ≡ false
      → is_delimiter ds 0 ≡ false
      → length s < fuel
      → IsText m p s
      → (token : ℕ) × (next : ℕ) × (m' : Memory) × (strtok fuel str ds last m
          ≡ some (token, next, m'))
        × Answers p s m token next m'
  strtok-words fuel str last p m s at nonzero nul lt text =
      let (start, found, here, le, all) = skip_delimiters-skip fuel p m s nul lt text in
      strtok-Answers fuel str last p m s start at nonzero lt found here le all (skip s) refl
