-- ===== src/Libc/Chars.antt =====
-- The character functions of libc/string/string.c. A `char` is its byte, a number below 256; the
-- target's `char` is signed, so a comparison reads the byte by `schar`.
use enki_os.Base.{ℕ, ◌+◌, ◌-◌, ◌%◌, ◌<◌, ◌≡◌, Bool, ◌&&◌, arith, ltb, leb, if◌then◌else◌}
use enki_os.Base.Int.{ℤ, pos, negsuc, ◌-ℤ◌, pos_part, neg_part}

-- The value of a signed `char`.
abbrev pub schar : ℕ → ℤ
schar c = if ltb c 128 then pos c else negsuc (255 - c)

abbrev leb_ℤ : ℤ → ℤ → Bool
leb_ℤ a b = leb (pos_part a + neg_part b) (pos_part b + neg_part a)

unfoldable pub isdigit : ℕ → Bool
isdigit c = leb_ℤ (pos 48) (schar c) && leb_ℤ (schar c) (pos 57)

unfoldable pub todigit : ℕ → ℤ
todigit c = schar c -ℤ pos 48

unfoldable pub tolower : ℕ → ℕ
tolower c =
    if leb_ℤ (pos b'A') (schar c) && leb_ℤ (schar c) (pos b'Z')
    then (c + (b'a' - b'A')) % 256
    else c

unfoldable pub toupper : ℕ → ℕ
toupper c =
    if leb_ℤ (pos b'a') (schar c) && leb_ℤ (schar c) (pos b'z')
    then (c + 256 - b'a' + b'A') % 256
    else c

-- Case folding is idempotent and keeps the byte range.
pub tolower-tolower : (c : ℕ) → c < 256 → (tolower (tolower c) ≡ tolower c) × (tolower c < 256)
unfolding tolower
tolower-tolower c h = ground arith
