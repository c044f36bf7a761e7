-- ===== src/Enki/Tests.antt =====
-- Runs of the user library's functions.
use enki_os.Base.{
  ℕ, ◌+◌, ◌-◌, ◌*◌, ◌≡◌, refl, true, some, List, [], ◌∷◌, arith, inr, leb, if◌then◌else◌, get_or,
}
use enki_os.Base.Int.{pos}
use enki_os.Base.Memory.{Memory, IsText}
use enki_os.Libc.Itoa.{itoa, itoa_loop, zero_digit}
use enki_os.Enki.{enki_tty_readline, strtok, enki_parse_cmd, printf, int_arg}
use enki_os.Enki.Readline.{Stands, answer, tty_readline-edit}
use enki_os.Enki.Words.{words, Answers, strtok-words}
use enki_os.Enki.Argument.{IsArgs}
use enki_os.Enki.Command.{Fresh, Untouched, parse_cmd-IsArgs}

-- "hi", a backspace, a moment without a key, "o" and a carriage return; "x" is left.
abbrev typed : List ℕ
typed = b'h' ∷ b'i' ∷ 0x08 ∷ 0 ∷ b'o' ∷ 0x0D ∷ b'x' ∷ []

abbrev memory : Memory
memory a = 7

tty_readline-edit_example :
    (shown : List ℕ) × (m' : Memory) × (enki_tty_readline 8 100 10 true typed memory
      ≡ answer (b'x' ∷ []) shown m')
    × Stands m' 100 (b'o' ∷ b'h' ∷ [])
    × (m' (100 + 2) ≡ 0)
tty_readline-edit_example =
    tty_readline-edit true 100 10 8 typed memory (b'o' ∷ b'h' ∷ []) (b'x' ∷ []) (omega arith) refl

prints :
    printf (b'n' ∷ b'=' ∷ b'%' ∷ b'd' ∷ []) (int_arg (pos 42) ∷ [])
    ≡ some (b'n' ∷ b'=' ∷ b'4' ∷ b'2' ∷ [])
unfolding printf itoa itoa_loop zero_digit
prints = refl

-- "run  x" at 100.
abbrev command : List ℕ
command = b'r' ∷ b'u' ∷ b'n' ∷ b' ' ∷ b' ' ∷ b'x' ∷ []

abbrev command_memory : Memory
command_memory a = if leb 100 a then get_or command (a - 100) 0 else 0

command-IsText : IsText command_memory 100 command
command-IsText = omega arith

command-words : words (b' ' ∷ []) command ≡ (b'r' ∷ b'u' ∷ b'n' ∷ []) ∷ (b'x' ∷ []) ∷ []
command-words = refl

-- Blocks of a page each.
abbrev pages : ℕ → ℕ
pages i = 0x10000 + i * 0x1000

pages-Fresh : Fresh pages 2000 2
pages-Fresh = record {
  some_block = λ i lt. omega arith;
  low = λ i lt. omega arith;
  off_buffer = λ i lt. omega arith;
  apart = λ i j lt below. omega arith;
}

parse_cmd-IsArgs_example :
    (root : ℕ) × (m' : Memory) × (enki_parse_cmd pages 7 2000 100 1024 0 command_memory
      ≡ some (root, 0, m'))
    × IsArgs m' root ((b'r' ∷ b'u' ∷ b'n' ∷ []) ∷ (b'x' ∷ []) ∷ [])
    × ((a : ℕ) → Untouched pages 2000 pages-Fresh (omega arith) 0 a → m' a ≡ command_memory a)
parse_cmd-IsArgs_example =
    parse_cmd-IsArgs pages 2000 pages-Fresh (omega arith) 7 100 1024 command command_memory
      (omega arith) command-IsText (inr (omega arith)) refl (omega arith)

strtok-words_example :
    (token : ℕ) × (next : ℕ) × (m' : Memory) × (strtok 7 100 (b' ' ∷ []) 0 command_memory
      ≡ some (token, next, m'))
    × Answers (b' ' ∷ []) 100 command command_memory token next m'
strtok-words_example =
    strtok-words (b' ' ∷ []) 7 100 0 100 command_memory command refl refl refl (omega arith)
      command-IsText
