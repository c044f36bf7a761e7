-- ===== src/Libc/Tests.antt =====
-- Runs of the string functions, and their theorems at concrete memories.
use enki_os.Base.{
  ℕ, ◌+◌, ◌≤◌, ◌≡◌, ◌≢◌, ◌↔◌, refl, inl, inr, none, some, List, [], ◌∷◌, arith, ◌==◌, if◌then◌else◌,
  length,
}
use enki_os.Libc.Itoa.{itoa, Numeral, value, itoa-value}
use enki_os.Base.Int.{pos, negsuc}
use enki_os.Base.Memory.{Memory}
use enki_os.Libc.Chars.{schar}
use enki_os.Libc.Bytes.{memcpy, memmove, memcmp}
use enki_os.Libc.Bytes.Copy.{copied, memcpy-copied, memmove-copied}
use enki_os.Libc.Bytes.Compare.{Compared, memcmp-Compared}
use enki_os.Base.{◌↔◌}
use enki_os.Libc.Text.{strlen, strnlen, strcpy, strncpy, strcmp, strncmp, strcspn, strspn}
use enki_os.Libc.Text.Length.{strlen-IsText, strnlen-IsText}
use enki_os.Libc.Text.Copy.{Copied, cut, strcpy-Copied, strncpy-cut}
use enki_os.Libc.Text.Compare.{SameChars, strncmp-SameChars, strncmp-ne-zero}
use enki_os.Libc.Text.Span.{strcspn-none, span-zero}

-- "ab" at 10, "ab" at 20 with an 'x' behind its terminator, ":" at 30.
abbrev strings : Memory
strings a =
    if a == 10
    then b'a'
    else if a == 11
    then b'b'
    else if a == 20
    then b'a'
    else if a == 21
    then b'b'
    else if a == 23
    then b'x'
    else if a == 30
    then b':'
    else 0

abbrev ab : List ℕ
ab = b'a' ∷ b'b' ∷ []

memmove_overlaps : memmove 21 20 3 strings 22 ≡ b'b'
unfolding memmove
memmove_overlaps = refl

memcmp_runs : memcmp 10 20 4 strings ≡ negsuc 0
unfolding memcmp
memcmp_runs = refl

strcmp_runs : strcmp 9 10 20 strings ≡ some (pos 0)
unfolding strcmp
strcmp_runs = refl

strspn_runs : strspn 5 5 10 30 strings ≡ some 0
unfolding strspn
strspn_runs = refl

memcpy-copied_example : memcpy 40 10 3 strings 41 ≡ copied 40 10 3 strings 41
memcpy-copied_example = memcpy-copied 40 10 3 strings 41 (inr (omega arith))

strlen-IsText_example : strlen 9 10 strings ≡ some 2
strlen-IsText_example = strlen-IsText 9 10 strings ab (omega arith) (omega arith)

strnlen-IsText_example : strnlen 10 108 strings ≡ 2
strnlen-IsText_example = strnlen-IsText 10 108 strings ab (omega arith)

strcpy-Copied_example :
    (m' : Memory) × (strcpy 9 40 10 strings ≡ some m') × Copied strings 40 10 3 m'
strcpy-Copied_example =
    strcpy-Copied 9 40 10 strings ab (omega arith) (omega arith) (inr (omega arith))

strncpy-cut_example : strncpy 40 10 2 strings 41 ≡ cut 40 10 1 strings 41
strncpy-cut_example = strncpy-cut 40 10 2 strings ab (omega arith) (inr (omega arith)) 41

strncmp-ne-zero_example : strncmp 10 20 4 strings ≢ pos 0
strncmp-ne-zero_example =
    strncmp-ne-zero 10 20 4 strings ab (omega arith) (omega arith) (ground arith) (omega arith)

strcspn-none_example : strcspn 1000 5 10 30 strings ≡ none
strcspn-none_example =
    strcspn-none 5 10 30 strings 1000 b'a' (b'b' ∷ []) (b':' ∷ []) (omega arith) (omega arith)
      (omega arith) (omega arith)

span-zero_example : ◌≡◌ {A = ℕ} 0 0
unfolding strcspn
span-zero_example = span-zero 5 10 20 strings 5 (inl refl)

memmove-copied_example : memmove 11 10 3 strings 12 ≡ copied 11 10 3 strings 12
memmove-copied_example = memmove-copied 11 10 3 strings 12

memcmp-Compared_example : Compared strings 10 20 0 4 (memcmp 10 20 4 strings)
memcmp-Compared_example = memcmp-Compared 10 20 4 strings

strncmp-SameChars_example : (strncmp 10 20 3 strings ≡ pos 0) ↔ SameChars schar 3 10 20 strings
strncmp-SameChars_example = strncmp-SameChars 10 20 3 strings

itoa-value_example :
    ((t : List ℕ) × (itoa (pos 41) ≡ some t) × Numeral t × (value 0 t ≡ 41) × (length t ≤ 11))
    × ((t : List ℕ) × (itoa (negsuc 41) ≡ some (b'-' ∷ t))
        × Numeral t
        × (value 0 t ≡ 42)
        × (length t + 1 ≤ 11))
itoa-value_example = itoa-value 41 (omega arith)
