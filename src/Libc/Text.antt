-- ===== src/Libc/Text.antt =====
-- The functions on NUL-terminated strings of libc/string/string.c. A loop that runs to a terminator
-- takes fuel, and `none` means that the fuel ran out; a loop that counts down `n` takes none. An
-- `int n` is a number here: no caller passes a negative one.
pub mod Length
pub mod Copy
pub mod Compare
pub mod Span
use enki_os.Base.{ℕ, zero, suc, ◌+◌, ◌-◌, Bool, ◌&&◌, not, Option, none, some, ◌==◌, if◌then◌else◌}
use enki_os.Base.Int.{ℤ, pos, ◌-ℤ◌, ◌==ℤ◌}
use enki_os.Base.Memory.{Memory, store}
use enki_os.Libc.Chars.{schar, tolower}

-- while (s[i]) i++
unfoldable pub strlen_loop : ℕ → ℕ → ℕ → Memory → Option ℕ
strlen_loop zero i s m = none
strlen_loop (suc fuel) i s m =
    let rest = strlen_loop fuel (i + 1) s m in if m (s + i) == 0 then some i else rest

unfoldable pub strlen : ℕ → ℕ → Memory → Option ℕ
unfolding strlen_loop
strlen fuel s m = strlen_loop fuel 0 s m

-- for (; n rounds; i++) if (!s[i]) break
unfoldable pub strnlen_loop : ℕ → ℕ → ℕ → Memory → ℕ
strnlen_loop zero i s m = i
strnlen_loop (suc n) i s m =
    let rest = strnlen_loop n (i + 1) s m in if m (s + i) == 0 then i else rest

unfoldable pub strnlen : ℕ → ℕ → Memory → ℕ
unfolding strnlen_loop
strnlen s n m = strnlen_loop n 0 s m

unfoldable pub strcpy : ℕ → ℕ → ℕ → Memory → Option Memory
strcpy zero dst src m = none
strcpy (suc fuel) dst src m =
    let rest = strcpy fuel (dst + 1) (src + 1) (store m dst (m src)) in
    if m src == 0 then some (store m dst 0) else rest

-- for (; n rounds; i++) { if (src[i] == '\0') break; dst[i] = src[i]; }, then dst[i] = '\0'
unfoldable pub strncpy_loop : ℕ → ℕ → ℕ → ℕ → Memory → Memory
strncpy_loop zero i dst src m = store m (dst + i) 0
strncpy_loop (suc n) i dst src m =
    let rest = strncpy_loop n (i + 1) dst src (store m (dst + i) (m (src + i))) in
    if m (src + i) == 0 then store m (dst + i) 0 else rest

unfoldable pub strncpy : ℕ → ℕ → ℕ → Memory → Memory
unfolding strncpy_loop
strncpy dst src n m = strncpy_loop (n - 1) 0 dst src m

-- do { a = *s1++; b = *s2++; } while (a && b && a == b)
unfoldable pub strcmp : ℕ → ℕ → ℕ → Memory → Option ℤ
strcmp zero s1 s2 m = none
strcmp (suc fuel) s1 s2 m =
    let rest = strcmp fuel (s1 + 1) (s2 + 1) m in
    if not (m s1 == 0) && not (m s2 == 0) && schar (m s1) ==ℤ schar (m s2)
    then rest
    else some (schar (m s1) -ℤ schar (m s2))

-- while (n && a == b) { a = read(*s1++); b = read(*s2++); n--; }
unfoldable pub compare_chars : (ℕ → ℤ) → ℕ → ℤ → ℤ → ℕ → ℕ → Memory → ℤ
compare_chars read zero a b s1 s2 m = a -ℤ b
compare_chars read (suc n) a b s1 s2 m =
    let rest = compare_chars read n (read (m s1)) (read (m s2)) (s1 + 1) (s2 + 1) m in
    if a ==ℤ b then rest else a -ℤ b

unfoldable pub strncmp : ℕ → ℕ → ℕ → Memory → ℤ
unfolding compare_chars
strncmp s1 s2 n m = compare_chars schar n (pos 0) (pos 0) s1 s2 m

unfoldable pub istrncmp : ℕ → ℕ → ℕ → Memory → ℤ
unfolding compare_chars
istrncmp s1 s2 n m = compare_chars (λ c. schar (tolower c)) n (pos 0) (pos 0) s1 s2 m

-- for (c = s2; *c; c++) if (ch == *c) break: the address where the loop stops
unfoldable pub find_char : ℕ → ℕ → ℕ → Memory → Option ℕ
find_char zero ch c m = none
find_char (suc fuel) ch c m =
    let rest = find_char fuel ch (c + 1) m in
    if m c == 0 then some c else if ch == m c then some c else rest

-- The increment of `s1` stands behind a `break`, and is never reached.
unfoldable pub span_loop : (ℕ → Bool) → ℕ → ℕ → ℕ → ℕ → ℕ → Memory → Option ℕ
unfolding find_char
span_loop stop zero scan s s1 s2 m = none
span_loop stop (suc fuel) scan s s1 s2 m =
    let rest = span_loop stop fuel scan s s1 s2 m in
    if m s1 == 0 then some (s1 - s) else elim (find_char scan (m s1) s2 m) [
      | none ↦ none
      | some c ↦ if stop (m c) then some (s1 - s) else rest
    ]

-- `scan` is the fuel of the inner loop.
unfoldable pub strcspn : ℕ → ℕ → ℕ → ℕ → Memory → Option ℕ
unfolding span_loop
strcspn fuel scan s1 s2 m = span_loop (λ c. not (c == 0)) fuel scan s1 s1 s2 m

unfoldable pub strspn : ℕ → ℕ → ℕ → ℕ → Memory → Option ℕ
unfolding span_loop
strspn fuel scan s1 s2 m = span_loop (λ c. c == 0) fuel scan s1 s1 s2 m
