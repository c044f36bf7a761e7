-- ===== src/Shell.antt =====
-- programs/shell: the shell, a program that reads commands with the user library and prints or starts what
-- they say. What is printed is a list of characters; `enki_malloc` and `enki_system` are the system calls.
mod Echo
mod Tests
use enki_os.Base.{ℕ, ◌+◌, true, none, some, Option, List, [], ◌∷◌, ◌++◌, ◌==◌, if◌then◌else◌, ◌>>=◌}
use enki_os.Base.Int.{ℤ, pos, ◌==ℤ◌}
use enki_os.Base.Memory.{Memory}
use enki_os.Libc.Text.{strncmp}
use enki_os.Syscall.Calls.{text_at}
use enki_os.Enki.{printf, string_arg, enki_tty_readline, enki_system_run}

-- printf("%s\n", cmd + 5)
unfoldable pub cmd_echo : ℕ → ℕ → Memory → Option (List ℕ)
cmd_echo fuel cmd m =
    text_at fuel (cmd + 5) m >>= λ text. printf (b'%' ∷ b's' ∷ 0x0A ∷ []) (string_arg text ∷ [])

module _ (enki_malloc : ℕ → ℕ) (enki_system : ℕ → Memory → ℤ × Memory)
    (fuel echo run_buf scmd : ℕ) where
  -- `echo` is the address of the text "echo", `run_buf` and `scmd` those of the buffers of
  -- enki_system_run. What is printed, `last` of strtok, and the memory.
  unfoldable pub cmd_handler : ℕ → ℕ → Memory → Option (List ℕ × ℕ × Memory)
  cmd_handler command last m =
      let printed = cmd_echo fuel command m >>= λ out. some (out, last, m) in
      let started =
        enki_system_run enki_malloc enki_system fuel run_buf scmd command last m >>= λ run.
        some ([], run.1, run.2) in
      if strncmp echo command 4 m ==ℤ pos 0 then printed else started

  -- A round of the loop of `main`, with the keys that come: what is printed, the keys that are left,
  -- `last` of strtok, and the memory.
  unfoldable pub shell_round : ℕ → List ℕ → ℕ → Memory → Option (List ℕ × List ℕ × ℕ × Memory)
  shell_round buf keys last m = enki_tty_readline fuel buf 1024 true keys m >>= λ line.
      cmd_handler buf last line.2 >>= λ handled.
      some ((b'>' ∷ b' ' ∷ []) ++ (line.1 ++ 0x0A ∷ handled.0), line.0, handled.1, handled.2)
