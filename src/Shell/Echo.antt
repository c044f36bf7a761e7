-- ===== src/Shell/Echo.antt =====
-- shell.c and shell_cmd.c: the command echo.
use enki_os.Base.{
  ℕ, zero, suc, ◌+◌, ◌<◌, ◌≡◌, refl, ap, false, some, List, [], ◌∷◌, ◌++◌, arith, ◌==◌, length,
}
use enki_os.Base.Int.{ℤ}
use enki_os.Base.Memory.{Memory, IsText}
use enki_os.Libc.Chars.{schar}
use enki_os.Libc.Text.Compare.{SameChars, strncmp-SameChars}
use enki_os.Syscall.Calls.{text_at}
use enki_os.Enki.{printf, string_arg}
use enki_os.Shell.{cmd_echo, cmd_handler}

text_at-IsText :
    (fuel p : ℕ) (m : Memory) (s : List ℕ)
    → length s < fuel
    → IsText m p s
    → text_at fuel p m ≡ some s
unfolding text_at
text_at-IsText zero p m s lt h = absurd (omega arith)
text_at-IsText (suc fuel) p m [] lt h = rw h refl
text_at-IsText (suc fuel) p m (c ∷ s) lt h =
    let more : (m p == 0) ≡ false = ground arith in
    rw (more, text_at-IsText fuel (p + 1) m s (omega arith) h.2) (ap (λ x. some (x ∷ s)) h.0)

echo_prints :
    (t : List ℕ) → printf (b'%' ∷ b's' ∷ 0x0A ∷ []) (string_arg t ∷ []) ≡ some (t ++ 0x0A ∷ [])
unfolding printf
echo_prints t = refl

-- A line whose first four characters are those of "echo" makes the shell print the text that stands five
-- characters behind the line's start, with a line break, whatever the fifth character is: on the bare
-- line "echo" that text lies behind the line's end. No program is started and no memory changes.
pub cmd_handler-echo :
    (enki_malloc : ℕ → ℕ) (enki_system : ℕ → Memory → ℤ × Memory)
    (fuel echo run_buf scmd command last : ℕ) (m : Memory) (t : List ℕ)
    → SameChars schar 4 echo command m
    → IsText m (command + 5) t
    → length t < fuel
    → cmd_handler enki_malloc enki_system fuel echo run_buf scmd command last m
      ≡ some (t ++ 0x0A ∷ [], last, m)
unfolding cmd_handler cmd_echo
cmd_handler-echo enki_malloc enki_system fuel echo run_buf scmd command last m t same text lt =
    rw
      (
        (strncmp-SameChars echo command 4 m).1 same,
        text_at-IsText fuel (command + 5) m t lt text,
        echo_prints t,
      )
      refl
