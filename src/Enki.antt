-- ===== src/Enki.antt =====
-- libc/enki/enki.c: the line that a program reads from the terminal, and the parsing of a command; strtok
-- of libc/string/string.c and printf of libc/stdio/stdio.c, which they use or which stand beside them.
-- The system calls of the library are parameters: what enki_getkey answers is a list of keys, 0 for no
-- key; what is written to the terminal is a list of characters.
mod Readline
mod Words
mod Argument
mod Command
mod Tests
use enki_os.Base.{
  ℕ, zero, suc, ◌+◌, ◌-◌, ◌%◌, true, false, Bool, ◌&&◌, ◌||◌, not, none, some, Option, List, [],
  ◌∷◌, ◌++◌, ltb, leb, ◌==◌, if◌then◌else◌, ◌>>=◌, drop,
}
use enki_os.Base.Int.{ℤ, negsuc}
use enki_os.Base.Memory.{Memory, store}
use enki_os.Base.Word.{store32}
use enki_os.Libc.Text.{strncpy}
use enki_os.Libc.Itoa.{itoa}

-- The first key that is not 0, and the keys behind it; none where the program waits for good.
unfoldable pub enki_getkey_block : List ℕ → Option (ℕ × List ℕ)
enki_getkey_block [] = none
enki_getkey_block (val ∷ keys) =
    let rest = enki_getkey_block keys in if val == 0 then rest else some (val, keys)

-- What a key does to the line: the index of the next round, and the memory.
unfoldable pub type_key : ℕ → ℕ → ℕ → Memory → ℕ × Memory
type_key out i key m =
    if key == 0x08 && leb 1 i
    then (i - 1, store m (out + (i - 1)) 0x00)
    else (i + 1, store m (out + i) key)

-- for (i = 0; i < max - 1; i++), `fuel` bounds the rounds: the keys that are left, what is shown and the
-- memory.
unfoldable pub readline_loop :
    Bool → ℕ → ℕ → ℕ → ℕ → List ℕ → List ℕ → Memory → Option (List ℕ × List ℕ × Memory)
readline_loop show_typing out max zero i keys shown m = none
readline_loop show_typing out max (suc fuel) i keys shown m =
    let typed = enki_getkey_block keys >>= λ got.
    let (i', m') = type_key out i got.0 m in
    let shown' = if show_typing then shown ++ got.0 ∷ [] else shown in
    let rest = readline_loop show_typing out max fuel i' got.1 shown' m' in
    if got.0 == 0x0D then some (got.1, shown, store m (out + i) 0x00) else rest in
    if ltb i (max - 1) then typed else some (keys, shown, store m (out + i) 0x00)

unfoldable pub enki_tty_readline :
    ℕ → ℕ → ℕ → Bool → List ℕ → Memory → Option (List ℕ × List ℕ × Memory)
enki_tty_readline fuel out max show_typing keys m =
    readline_loop show_typing out max fuel 0 keys [] m

-- while (1): the delimiters in front of a token are skipped; `fuel` bounds the rounds.
abbrev pub is_delimiter : List ℕ → ℕ → Bool
is_delimiter [] c = false
is_delimiter (d ∷ delimiters) c = if c == d then true else is_delimiter delimiters c

unfoldable pub skip_delimiters : ℕ → List ℕ → ℕ → Memory → Option ℕ
skip_delimiters zero delimiters start m = none
skip_delimiters (suc fuel) delimiters start m =
    let rest = skip_delimiters fuel delimiters (start + 1) m in
    if is_delimiter delimiters (m start) then rest else some start

-- while (*last != '\0'): a NUL takes the place of the delimiter behind the token.
unfoldable pub end_token : ℕ → List ℕ → ℕ → Memory → Option (ℕ × Memory)
end_token zero delimiters last m = none
end_token (suc fuel) delimiters last m =
    let rest = end_token fuel delimiters (last + 1) m in
    if m last == 0
    then some (last, m)
    else if is_delimiter delimiters (m last)
    then some (last + 1, store m last 0)
    else rest

-- The token, `last` and the memory; 0 is the null pointer. A new string is not looked at while `last` is
-- set.
unfoldable pub strtok : ℕ → ℕ → List ℕ → ℕ → Memory → Option (ℕ × ℕ × Memory)
strtok fuel str delimiters last m =
    let last = if not (str == 0) && last == 0 then str else last in
    let found = skip_delimiters fuel delimiters last m >>= λ start.
    let token = end_token fuel delimiters start m >>= λ end. some (start, end.0, end.1) in
    if m start == 0 then some (0, 0, m) else token in
    if last == 0 then some (0, 0, m) else found

-- while (tok != 0): each token becomes an argument behind the others. `enki_malloc` answers an address,
-- 0 for none, and leaves the program's memory alone.
module _ (enki_malloc : ℕ → ℕ) where
  -- `made` counts the calls of `enki_malloc`.
  unfoldable pub arg_loop : ℕ → ℕ → ℕ → ℕ → ℕ → Memory → Option (ℕ × Memory)
  arg_loop zero made curr_cmd tok last m = none
  arg_loop (suc fuel) made curr_cmd tok last m =
      let new_cmd = enki_malloc made in
      let m1 = store32 (strncpy new_cmd tok 512 m) (new_cmd + 512) 0 in
      let m2 = store32 m1 (curr_cmd + 512) new_cmd in
      let rest = strtok fuel 0 (b' ' ∷ []) last m2 >>= λ next.
      arg_loop fuel (made + 1) new_cmd next.0 next.1 next.2 in
      if tok == 0 then some (last, m) else if new_cmd == 0 then some (last, m) else rest

  -- The first argument, 0 for none, `last` and the memory. `scmd` is the local buffer of 1025 bytes.
  unfoldable pub enki_parse_cmd : ℕ → ℕ → ℕ → ℕ → ℕ → Memory → Option (ℕ × ℕ × Memory)
  enki_parse_cmd fuel scmd cmd max last m =
      let root_cmd = enki_malloc 0 in
      let parsed = strtok fuel scmd (b' ' ∷ []) last (strncpy scmd cmd 1025 m) >>= λ first.
      let m1 = store32 (strncpy root_cmd first.0 512 first.2) (root_cmd + 512) 0 in
      let arguments = strtok fuel 0 (b' ' ∷ []) first.1 m1 >>= λ next.
      arg_loop fuel 1 root_cmd next.0 next.1 next.2 >>= λ done'.
      some (root_cmd, done'.0, done'.1) in
      if first.0 == 0
      then some (0, first.1, first.2)
      else if root_cmd == 0
      then some (0, first.1, first.2)
      else arguments in
      if leb 1025 max then some (0, last, m) else parsed

  -- `buf` and `scmd` are the local buffers; `enki_system` is the system call. The status, `last` of
  -- strtok, and the memory.
  unfoldable pub enki_system_run :
      (ℕ → Memory → ℤ × Memory) → ℕ → ℕ → ℕ → ℕ → ℕ → Memory → Option (ℤ × ℕ × Memory)
  enki_system_run enki_system fuel buf scmd cmd last m =
      enki_parse_cmd fuel scmd buf 1024 last (strncpy buf cmd 1024 m) >>= λ parsed.
      let (result, m') = enki_system parsed.0 parsed.2 in
      some (if parsed.0 == 0 then (negsuc 0, parsed.1, parsed.2) else (result, parsed.1, m'))

-- An argument of printf, of the type that the text asks for.
pub data Arg : Type 0 where
  int_arg : ℤ → Arg
  string_arg : List ℕ → Arg

abbrev pub arg_text : Option Arg → Option (List ℕ)
arg_text none = none
arg_text (some (int_arg n)) = itoa n
arg_text (some (string_arg s)) = some s

abbrev pub head_arg : List Arg → Option Arg
head_arg [] = none
head_arg (a ∷ args) = some a

-- What is printed; none where an argument is missing, and a '%' at the end of the text runs behind it.
unfoldable pub printf : List ℕ → List Arg → Option (List ℕ)
printf [] args = some []
printf (c ∷ []) args = if c == b'%' then none else some (c ∷ [])
printf (c ∷ d ∷ fmt) args =
    let plain = printf (d ∷ fmt) args >>= λ rest. some (c ∷ rest) in
    let value = arg_text (head_arg args) >>= λ text.
    printf fmt (drop 1 args) >>= λ rest. some (text ++ rest) in
    let literal = printf fmt args >>= λ rest. some (d ∷ rest) in
    if not (c == b'%')
    then plain
    else if d == b'd' || (d == b'i' || d == b's')
    then value
    else literal
