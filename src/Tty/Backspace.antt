-- ===== src/Tty/Backspace.antt =====
-- tty.c: the backspace.
use enki_os.Base.{ℕ, ◌+◌, ◌-◌, ◌^◌, ◌<◌, ◌≡◌, refl, false, ◌&&◌, arith, leb, ◌==◌, if◌then◌else◌}
use enki_os.Tty.{Tty, vga_entry, writechar_plain, tty_backspace, u16}
use enki_os.Tty.Write.{OnScreen, cursor}

-- Right of the first column, a backspace moves the cursor one cell to the left and blanks that cell;
-- nothing else changes.
pub backspace_blanks :
    (t : Tty)
    → OnScreen t
    → 0 < t.col
    → OnScreen (tty_backspace t)
      × (cursor (tty_backspace t) + 1 ≡ cursor t)
      × ((i : ℕ)
          → (tty_backspace t).cells i
            ≡ (if i == cursor t - 1 then vga_entry b' ' 15 else t.cells i))
unfolding tty_backspace writechar_plain
backspace_blanks t on positive =
    let middle : (t.col == 0) ≡ false = ground arith in
    let back : u16 (t.col + (2 ^ 16 - 1)) ≡ t.col - 1 = omega (arith, on.col) in
    let again : u16 (t.col - 1 + 1) ≡ t.col = omega (arith, on.col) in
    let under : leb 80 t.col ≡ false = ground (arith, on.col) in
    let start : (t.row == 0 && t.col == 0) ≡ false = ground arith in
    rw (start, middle, back, again, under, back)
      (record { row = on.row; col = ground (arith, on.col) }, ground arith, λ i. ground arith)

-- In the first column, below the first row, a backspace puts the cursor on column 65535 of the same
-- row, off the screen.
pub backspace_wraps :
    (t : Tty)
    → OnScreen t
    → t.col ≡ 0
    → 0 < t.row
    → ((tty_backspace t).row ≡ t.row) × ((tty_backspace t).col ≡ 65535)
unfolding tty_backspace writechar_plain
backspace_wraps t on left below =
    let start : (t.row == 0) ≡ false = ground arith in
    rw (left, start) (omega (arith, on.row), refl)
