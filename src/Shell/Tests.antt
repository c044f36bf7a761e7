-- ===== src/Shell/Tests.antt =====
-- The shell's echo on a line that stands behind the text "echo".
use enki_os.Base.{
  ℕ, zero, suc, ◌-◌, ◌≡◌, refl, some, [], ◌∷◌, List, arith, leb, if◌then◌else◌, get_or,
}
use enki_os.Base.Int.{pos}
use enki_os.Base.Memory.{Memory}
use enki_os.Libc.Chars.{schar}
use enki_os.Libc.Text.Compare.{SameChars}
use enki_os.Shell.{cmd_handler}
use enki_os.Shell.Echo.{cmd_handler-echo}

-- "echo" at 100, and the line "echo" at 105, behind which "ls" is left of an earlier one.
abbrev bytes : List ℕ
bytes = b'e' ∷ b'c' ∷ b'h' ∷ b'o' ∷ 0 ∷ b'e' ∷ b'c' ∷ b'h' ∷ b'o' ∷ 0 ∷ b'l' ∷ b's' ∷ 0 ∷ []

abbrev memory : Memory
memory a = if leb 100 a then get_or bytes (a - 100) 0 else 0

same_four : SameChars schar 4 100 105 memory
same_four zero lt = refl
same_four (suc zero) lt = refl
same_four (suc (suc zero)) lt = refl
same_four (suc (suc (suc zero))) lt = refl
same_four (suc (suc (suc (suc j)))) lt = absurd (omega arith)

echo_left_over :
    cmd_handler (λ i. 0) (λ arg m. (pos 0, m)) 9 100 2000 4000 105 0 memory
    ≡ some (b'l' ∷ b's' ∷ 0x0A ∷ [], 0, memory)
echo_left_over =
    cmd_handler-echo (λ i. 0) (λ arg m. (pos 0, m)) 9 100 2000 4000 105 0 memory (b'l' ∷ b's' ∷ [])
      same_four (omega arith) (omega arith)
