-- ===== src/Enki/Command.antt =====
-- enki.c: enki_parse_cmd makes the words of a command the arguments of a list.
use enki_os.Base.{
  ℕ, zero, suc, ◌+◌, ◌^◌, ◌≤◌, ◌<◌, ◌≡◌, ◌∙◌, ◌⊎◌, refl, ap, inl, false, some, List, [], ◌∷◌, arith,
  leb, ◌==◌, length, take,
}
use enki_os.Base.Memory.{Memory, IsText}
use enki_os.Base.Word.{load32, store32, load32-store32_self, load32-same, store32-beyond}
use enki_os.Libc.Text.{strncpy}
use enki_os.Enki.{strtok, arg_loop, enki_parse_cmd}
use enki_os.Enki.Words.{words, Answers, no_word, word, strtok-words}
use enki_os.Enki.Argument.{
  Beyond, Apart, IsArgs, IsText-same, strncpy-take, strncpy-Beyond, made_arg, length_take_le,
  made_arg-IsText, made_arg-next, made_arg-Beyond, Answers-beyond,
}

IsArgs-at :
    (m : Memory) (p q : ℕ) (ws ws' : List (List ℕ))
    → p ≡ q
    → ws ≡ ws'
    → IsArgs m q ws'
    → IsArgs m p ws
IsArgs-at m p q ws ws' e f args = rw (f, e) args

abbrev spaces : List ℕ
spaces = b' ' ∷ []

-- The first `n` blocks that `enki_malloc` answers are objects of their own, outside of the buffer.
pub record Fresh (enki_malloc : ℕ → ℕ) (scmd n : ℕ) : Type 0 where
  pub some_block : (i : ℕ) → i < n → 0 < enki_malloc i
  pub low : (i : ℕ) → i < n → enki_malloc i < 2 ^ 32
  pub off_buffer : (i : ℕ) → i < n → Apart (enki_malloc i) 516 scmd 1025
  pub apart : (i j : ℕ) → i < j → j < n → Apart (enki_malloc i) 516 (enki_malloc j) 516

module _ (enki_malloc : ℕ → ℕ) (scmd : ℕ) {n : ℕ} (fresh : Fresh enki_malloc scmd n)
    (buffer : 0 < scmd) where
  -- Neither in the buffer nor in a block from the `made`-th on.
  abbrev pub Untouched : ℕ → ℕ → Type 0
  Untouched made a =
      Beyond scmd 1025 a × ((i : ℕ) → made ≤ i → i < n → Beyond (enki_malloc i) 516 a)

  -- The text that is left lies in the buffer.
  abbrev Buffered : ℕ → List ℕ → Type 0
  Buffered p s = (scmd ≤ p) × (p + length s < scmd + 1025)

  -- What the loop does behind the argument `curr`: the words that are left become the list behind it.
  abbrev Parsed : ℕ → ℕ → ℕ → ℕ → ℕ → List ℕ → Memory → Type 0
  Parsed fuel made curr tok last s m =
      (m' : Memory) × (arg_loop enki_malloc fuel made curr tok last m ≡ some (0, m'))
      × IsArgs m' (load32 m' (curr + 512)) (words spaces s)
      × ((a : ℕ) → Untouched made a → Beyond (curr + 512) 4 a → m' a ≡ m a)

  -- The argument that the loop stands on.
  abbrev Stands : ℕ → ℕ → Memory → Type 0
  Stands made curr m =
      Apart curr 516 scmd 1025
      × ((i : ℕ) → made ≤ i → i < n → Apart curr 516 (enki_malloc i) 516)
      × (load32 m (curr + 512) ≡ 0)

  -- What is outside of the buffer and of the blocks to come is left by a call of strtok and by the loop.
  Parsed-Beyond :
      {p : ℕ} {s : List ℕ} {mx : Memory} {tok next : ℕ} {m m' : Memory} (made new a : ℕ)
      → Answers spaces p s mx tok next m
      → Buffered p s
      → ((a : ℕ) → Untouched made a → Beyond (new + 512) 4 a → m' a ≡ m a)
      → Untouched made a
      → Beyond (new + 512) 4 a
      → m' a ≡ mx a
  Parsed-Beyond made new a ans (lo, hi) same (off, blocks) beyond =
      same a (off, blocks) beyond ∙ Answers-beyond a ans (omega arith)

  -- The argument `new`, which holds its word, and the list that grows behind it.
  grow :
      (fuel made last : ℕ) (w rest : List ℕ) (mx : Memory)
      → made < n
      → IsText mx (enki_malloc made) (take 511 w)
      → load32 mx (enki_malloc made + 512) ≡ 0
      → IsText mx last rest
      → Buffered last rest
      → length rest < fuel
      → ((tok next : ℕ) (m : Memory)
          → Answers spaces last rest mx tok next m
          → Stands (made + 1) (enki_malloc made) m
          → Parsed fuel (made + 1) (enki_malloc made) tok next rest m)
      → (tok : ℕ) × (next : ℕ) × (m : Memory) × (m' : Memory) × (strtok fuel 0 spaces last mx
          ≡ some (tok, next, m))
        × (arg_loop enki_malloc fuel (made + 1) (enki_malloc made) tok next m ≡ some (0, m'))
        × IsArgs m' (enki_malloc made) (w ∷ words spaces rest)
        × ((a : ℕ) → Untouched (made + 1) a → Beyond (enki_malloc made + 512) 4 a → m' a ≡ mx a)
  grow fuel made last w rest mx here text ends left inside lt loop =
      let new : ℕ = enki_malloc made in
      let off = fresh.off_buffer made here in
      let later =
        λ (i : ℕ) (le : made + 1 ≤ i) (below : i < n). fresh.apart made i (omega arith) below in
      let (tok, next, m, e, ans) =
        strtok-words spaces fuel 0 last last mx rest refl (ground arith) refl lt left in
      let still = load32-same mx m (new + 512) (λ a lo hi. Answers-beyond a ans (omega arith)) in
      let (m', looped, args, same) = loop tok next m ans (off, later, still ∙ ends) in
      let frame = λ (a : ℕ) (out : Untouched (made + 1) a) (beyond : Beyond (new + 512) 4 a).
        Parsed-Beyond {m' = m'} (made + 1) new a ans inside same out beyond in
      let held =
        IsText-same mx m' new (take 511 w)
          (λ a lo hi.
            let top : a < new + 512 = omega (arith, length_take_le 511 w) in
            frame a (omega arith, λ i le below. let far = later i le below in omega arith)
              (inl top))
          text in
      (tok, next, m, m', e, looped, (fresh.some_block made here, held, args), frame)

  -- A word makes a new argument, which `curr` is linked to.
  abbrev linked : ℕ → ℕ → ℕ → Memory → Memory
  linked curr new tok m = store32 (made_arg new tok m) (curr + 512) new

  loop-eq :
      (fuel made curr tok last tok' next : ℕ) (m m1 : Memory) (o : ℕ × Memory)
      → 0 < tok
      → 0 < enki_malloc made
      → strtok fuel 0 spaces last (linked curr (enki_malloc made) tok m) ≡ some (tok', next, m1)
      → arg_loop enki_malloc fuel (made + 1) (enki_malloc made) tok' next m1 ≡ some o
      → arg_loop enki_malloc (suc fuel) made curr tok last m ≡ some o
  unfolding arg_loop
  loop-eq fuel made curr tok last tok' next m m1 o found block e looped =
      let some_tok : (tok == 0) ≡ false = ground arith in
      let some_new : (enki_malloc made == 0) ≡ false = ground arith in
      rw (some_tok, some_new, e) looped

  linked-Beyond :
      (curr new tok : ℕ) (m : Memory) (w : List ℕ) (a : ℕ)
      → IsText m tok w
      → ((new + 516 ≤ tok) ⊎ (tok + length w < new))
      → Beyond new 516 a
      → Beyond (curr + 512) 4 a
      → linked curr new tok m a ≡ m a
  linked-Beyond curr new tok m w a h out beyond beyond' =
      store32-beyond (made_arg new tok m) (curr + 512) new a beyond'
      ∙ made_arg-Beyond new tok m w h out a beyond

  last_arg :
      (fuel made curr p : ℕ) (s : List ℕ) (m : Memory)
      → words spaces s ≡ []
      → load32 m (curr + 512) ≡ 0
      → Parsed (suc fuel) made curr 0 0 s m
  unfolding arg_loop
  last_arg fuel made curr p s m none_left ends =
      (m, refl, rw (none_left, ends) refl, λ a out beyond. refl)

  loop-IsArgs :
      (fuel made curr tok last p : ℕ) (s : List ℕ) (m0 m : Memory)
      → Answers spaces p s m0 tok last m
      → Buffered p s
      → Stands made curr m
      → made + length (words spaces s) ≡ n
      → length s < fuel
      → Parsed fuel made curr tok last s m
  loop-IsArgs zero made curr tok last p s m0 m ans inside st count lt = absurd (omega arith)
  loop-IsArgs (suc fuel) made curr tok last p s m0 m (no_word none_left same) inside st count lt =
      last_arg fuel made curr p s m none_left st.2
  loop-IsArgs (suc fuel) made curr tok last p s m0 m
        (word w rest e some_char shorter text more lo le hi same) inside (off, later, ends) count
        lt =
      let new : ℕ = enki_malloc made in
      let mx : Memory = linked curr new tok m in
      let count' : made + suc (length (words spaces rest)) ≡ n = rw e at count in
      let here : made < n = omega arith in
      let off' = fresh.off_buffer made here in
      let out : (new + 516 ≤ tok) ⊎ (tok + length w < new) = omega arith in
      let far = later made (omega arith) here in
      let (tok', next, m1, m', found, looped, (block, held, args), frame) =
        grow fuel made last w rest mx here
          (IsText-same (made_arg new tok m) mx new (take 511 w)
            (λ a lo hi.
              store32-beyond (made_arg new tok m) (curr + 512) new a
                (omega (arith, length_take_le 511 w)))
            (made_arg-IsText new tok m w text out))
          (load32-same (made_arg new tok m) mx (new + 512)
              (λ a lo hi. store32-beyond (made_arg new tok m) (curr + 512) new a (omega arith))
            ∙ made_arg-next new tok m w text out)
          (IsText-same m mx last rest
            (λ a from to. linked-Beyond curr new tok m w a text out (omega arith) (omega arith))
            more)
          (omega arith) (omega arith)
          (λ tok' next m1 ans st.
            loop-IsArgs fuel (made + 1) new tok' next last rest mx m1 ans (omega arith) st
              (omega arith) (omega arith)) in
      let link : load32 m' (curr + 512) ≡ new =
        load32-same mx m' (curr + 512) (λ a lo hi.
          frame a
            (omega arith, λ i le' below. let far' = later i (omega arith) below in omega arith)
            (omega arith))
        ∙ load32-store32_self (made_arg new tok m) (curr + 512) new
        ∙ (let small = fresh.low made here in omega arith) in
      (
        m',
        loop-eq fuel made curr tok last tok' next m m1 (0, m') (omega arith) block found looped,
        IsArgs-at m' (load32 m' (curr + 512)) new (words spaces s) (w ∷ words spaces rest) link e
            (block, held, args),
        λ a free beyond.
            let away = free.1 made (omega arith) here in
            frame a (free.0, λ i le' below. free.1 i (omega arith) below) (omega arith)
            ∙ linked-Beyond curr new tok m w a text out away beyond,
      )

  parse_end :
      (fuel cmd max : ℕ) (m m1 : Memory)
      → leb 1025 max ≡ false
      → strtok fuel scmd spaces 0 (strncpy scmd cmd 1025 m) ≡ some (0, 0, m1)
      → enki_parse_cmd enki_malloc fuel scmd cmd max 0 m ≡ some (0, 0, m1)
  unfolding enki_parse_cmd
  parse_end fuel cmd max m m1 small e = rw (small, e) refl

  parse-eq :
      (fuel cmd max tok last tok' next : ℕ) (m m1 m2 m' : Memory)
      → leb 1025 max ≡ false
      → 0 < tok
      → 0 < enki_malloc 0
      → strtok fuel scmd spaces 0 (strncpy scmd cmd 1025 m) ≡ some (tok, last, m1)
      → strtok fuel 0 spaces last (made_arg (enki_malloc 0) tok m1) ≡ some (tok', next, m2)
      → arg_loop enki_malloc fuel 1 (enki_malloc 0) tok' next m2 ≡ some (0, m')
      → enki_parse_cmd enki_malloc fuel scmd cmd max 0 m ≡ some (enki_malloc 0, 0, m')
  unfolding enki_parse_cmd
  parse-eq fuel cmd max tok last tok' next m m1 m2 m' small found block e f looped =
      let some_tok : (tok == 0) ≡ false = ground arith in
      let some_new : (enki_malloc 0 == 0) ≡ false = ground arith in
      rw (small, e, some_tok, some_new, f, looped) refl

  -- What the parsing of a command is about: the list of its words, with nothing else changed.
  abbrev Listed : ℕ → ℕ → ℕ → List ℕ → Memory → Memory → Type 0
  Listed fuel cmd max s m m0 =
      (root : ℕ) × (m' : Memory) × (enki_parse_cmd enki_malloc fuel scmd cmd max 0 m
        ≡ some (root, 0, m'))
      × IsArgs m' root (words spaces s)
      × ((a : ℕ) → Untouched 0 a → m' a ≡ m0 a)

  parse-Listed :
      (fuel cmd max tok last : ℕ) (s : List ℕ) (m m0 m1 : Memory)
      → leb 1025 max ≡ false
      → strtok fuel scmd spaces 0 m0 ≡ some (tok, last, m1)
      → m0 ≡ strncpy scmd cmd 1025 m
      → Answers spaces scmd s m0 tok last m1
      → length s ≤ 1024
      → length (words spaces s) ≡ n
      → length s < fuel
      → Listed fuel cmd max s m m0
  parse-Listed fuel cmd max tok last s m m0 m1 small e start (no_word none_left same) short count
        lt =
      (
        0,
        m1,
        parse_end fuel cmd max m m1 small (rw start at e),
        rw none_left refl,
        λ a free. ap (λ q. q a) same,
      )
  parse-Listed fuel cmd max tok last s m m0 m1 small e start
        (word w rest f some_char shorter text more lo le hi same) short count lt =
      let new : ℕ = enki_malloc 0 in
      let mx : Memory = made_arg new tok m1 in
      let count' : suc (length (words spaces rest)) ≡ n = rw f at count in
      let here : 0 < n = omega arith in
      let off = fresh.off_buffer 0 here in
      let out : (new + 516 ≤ tok) ⊎ (tok + length w < new) = omega arith in
      let (tok', next, m2, m', found, looped, args, frame) =
        grow fuel 0 last w rest mx here (made_arg-IsText new tok m1 w text out)
          (made_arg-next new tok m1 w text out)
          (IsText-same m1 mx last rest
            (λ a from to. made_arg-Beyond new tok m1 w text out a (omega arith)) more)
          (omega arith) (omega arith)
          (λ tok' next m2 ans st.
            loop-IsArgs fuel 1 new tok' next last rest mx m2 ans (omega arith) st (omega arith)
              (omega arith)) in
      (
        new,
        m',
        parse-eq fuel cmd max tok last tok' next m m1 m2 m' small (omega arith)
            (fresh.some_block 0 here) (rw start at e) found looped,
        IsArgs-at m' new new (words spaces s) (w ∷ words spaces rest) refl f args,
        λ a free.
            let away = free.1 0 (omega arith) here in
            frame a (free.0, λ i from below. free.1 i (omega arith) below) (omega arith)
            ∙ made_arg-Beyond new tok m1 w text out a away
            ∙ same a (omega arith),
      )

  -- A command that stands apart from the buffer, of which `max` is below 1025, is parsed with any fuel
  -- above its length where strtok holds no text from an earlier call: the first 1024 characters are cut into words at the spaces, and the words, each with at most 511 of its characters,
  -- stand in the list of arguments that is answered, in their order, if `enki_malloc` answers a block of
  -- its own for each. Nothing else but the buffer is written, and strtok is ready for another text.
  pub parse_cmd-IsArgs :
      (fuel cmd max : ℕ) (s : List ℕ) (m : Memory)
      → max < 1025
      → IsText m cmd s
      → ((scmd + 1025 ≤ cmd) ⊎ (cmd + length s < scmd))
      → length (words spaces (take 1024 s)) ≡ n
      → length (take 1024 s) < fuel
      → (root : ℕ) × (m' : Memory) × (enki_parse_cmd enki_malloc fuel scmd cmd max 0 m
          ≡ some (root, 0, m'))
        × IsArgs m' root (words spaces (take 1024 s))
        × ((a : ℕ) → Untouched 0 a → m' a ≡ m a)
  parse_cmd-IsArgs fuel cmd max s m small text off count lt =
      let m0 : Memory = strncpy scmd cmd 1025 m in
      let some_buffer : (scmd == 0) ≡ false = ground arith in
      let held = strncpy-take scmd cmd 1025 m s text (omega arith) in
      let (tok, last, m1, e, ans) =
        strtok-words spaces fuel scmd 0 scmd m0 (take 1024 s) (rw some_buffer refl) some_buffer refl
          lt held in
      let (root, m', parsed, args, frame) =
        parse-Listed fuel cmd max tok last (take 1024 s) m m0 m1 (ground arith) e refl ans
          (length_take_le 1024 s) count lt in
      (
        root,
        m',
        parsed,
        args,
        λ a free.
            frame a free
            ∙ strncpy-Beyond scmd cmd 1025 m s a (omega arith) text (omega arith) free.0,
      )
