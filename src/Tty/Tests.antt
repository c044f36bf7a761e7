-- ===== src/Tty/Tests.antt =====
-- The theorems of the screen at a blank one.
use enki_os.Base.{ℕ, ◌+◌, ◌<◌, ◌≡◌, refl, [], ◌∷◌, arith, ltb, ◌==◌, if◌then◌else◌}
use enki_os.Tty.{
  Tty, vga_entry, tty_init, writechar_plain, tty_writestr, tty_newline, tty_backspace,
}
use enki_os.Tty.Write.{OnScreen, cursor, Wrote, init_blanks, writestr-Wrote, newline_leaves}
use enki_os.Tty.Backspace.{backspace_blanks, backspace_wraps}

abbrev at : ℕ → ℕ → Tty
at row col = record { row = row; col = col; cells = λ i. 0 }

at-OnScreen : (row col : ℕ) → row < 25 → col < 80 → OnScreen (at row col)
at-OnScreen row col lt lt' = record { row = lt; col = lt' }

tab_moves : cursor (tty_writestr (0x09 ∷ b'a' ∷ []) (at 0 78)) ≡ 83
unfolding tty_writestr
tab_moves = refl

init_blanks_example :
    OnScreen (tty_init (at 7 7))
    × (cursor (tty_init (at 7 7)) ≡ 0)
    × ((i : ℕ) → (tty_init (at 7 7)).cells i ≡ (if ltb i 2000 then vga_entry b' ' 0 else 0))
init_blanks_example = init_blanks (at 7 7)

writestr-Wrote_example :
    Wrote (b'o' ∷ b'k' ∷ []) (at 3 79) (tty_writestr (b'o' ∷ b'k' ∷ []) (at 3 79))
writestr-Wrote_example =
    writestr-Wrote (b'o' ∷ b'k' ∷ []) (at 3 79) (at-OnScreen 3 79 (omega arith) (omega arith))
      (omega arith) (omega arith)

newline_leaves_example :
    (writechar_plain b'x' 15 (tty_newline (at 24 5))).cells 2000 ≡ vga_entry b'x' 15
newline_leaves_example =
    newline_leaves b'x' (at 24 5) (at-OnScreen 24 5 (omega arith) (omega arith)) refl

backspace_blanks_example :
    OnScreen (tty_backspace (at 2 9))
    × (cursor (tty_backspace (at 2 9)) + 1 ≡ 169)
    × ((i : ℕ) → (tty_backspace (at 2 9)).cells i ≡ (if i == 168 then vga_entry b' ' 15 else 0))
backspace_blanks_example =
    backspace_blanks (at 2 9) (at-OnScreen 2 9 (omega arith) (omega arith)) (omega arith)

backspace_wraps_example :
    ((tty_backspace (at 2 0)).row ≡ 2) × ((tty_backspace (at 2 0)).col ≡ 65535)
backspace_wraps_example =
    backspace_wraps (at 2 0) (at-OnScreen 2 0 (omega arith) (omega arith)) refl (omega arith)
