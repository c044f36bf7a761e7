-- ===== src/Tty.antt =====
-- kernel/drivers/tty/tty.c and vga.h: the text screen. The 16-bit cells of the video memory are a
-- function of their index; the screen is the first 2000 of them.
mod Write
mod Backspace
mod Tests
use Prim.Native.Nat.{bit_or}
use enki_os.Base.{
  ℕ, zero, suc, ◌+◌, ◌-◌, ◌*◌, ◌%◌, ◌^◌, ◌&&◌, List, [], ◌∷◌, leb, ◌==◌, if◌then◌else◌,
}

abbrev pub vga_width : ℕ
vga_width = 80

abbrev pub vga_height : ℕ
vga_height = 25

abbrev pub vga_color_white : ℕ
vga_color_white = 15

abbrev pub key_backspace : ℕ
key_backspace = 0x08

abbrev pub u16 : ℕ → ℕ
u16 n = n % 2 ^ 16

-- fg | bg << 4
unfoldable pub vga_entry_color : ℕ → ℕ → ℕ
vga_entry_color fg bg = bit_or fg (bg * 2 ^ 4) % 2 ^ 8

unfoldable pub vga_entry : ℕ → ℕ → ℕ
vga_entry uc color = bit_or uc (color * 2 ^ 8)

pub record Tty : Type 0 where
  pub row : ℕ
  pub col : ℕ
  pub cells : ℕ → ℕ

unfoldable pub tty_putchar : ℕ → ℕ → ℕ → ℕ → Tty → Tty
tty_putchar x y c color t = record {
  row = t.row;
  col = t.col;
  cells = λ i. if i == y * vga_width + x then vga_entry c color else t.cells i;
}

-- for (; n rounds; x++)
unfoldable pub init_row : ℕ → ℕ → ℕ → Tty → Tty
unfolding tty_putchar
init_row zero x y t = t
init_row (suc n) x y t = init_row n (x + 1) y (tty_putchar x y b' ' 0 t)

-- for (; n rounds; y++)
unfoldable pub init_rows : ℕ → ℕ → Tty → Tty
unfolding init_row
init_rows zero y t = t
init_rows (suc n) y t = init_rows n (y + 1) (init_row vga_width 0 y t)

unfoldable pub tty_init : Tty → Tty
unfolding init_rows
tty_init t = init_rows vga_height 0 (record { row = 0; col = 0; cells = t.cells })

unfoldable pub tty_newline : Tty → Tty
tty_newline t = record { row = u16 (t.row + 1); col = 0; cells = t.cells }

-- `tty_writechar` behind its switch: what it does for a character that is none of the three.
unfoldable pub writechar_plain : ℕ → ℕ → Tty → Tty
unfolding tty_putchar
writechar_plain c color t =
    let t = tty_putchar t.col t.row c color t in
    let col = u16 (t.col + 1) in
    if leb vga_width col
    then record { row = u16 (t.row + 1); col = 0; cells = t.cells }
    else record { row = t.row; col = col; cells = t.cells }

-- The calls of `tty_writechar` in the next two write a blank.
unfoldable pub tty_backspace : Tty → Tty
unfolding writechar_plain
tty_backspace t =
    if t.row == 0 && t.col == 0
    then t
    else let t : Tty =
        if t.col == 0
        then record { row = u16 (t.row + (2 ^ 16 - 1)); col = vga_width; cells = t.cells }
        else t in
      let t : Tty = record { row = t.row; col = u16 (t.col + (2 ^ 16 - 1)); cells = t.cells } in
      let t = writechar_plain b' ' 15 t in
      record { row = t.row; col = u16 (t.col + (2 ^ 16 - 1)); cells = t.cells }

-- for (; n rounds; i++)
unfoldable pub tty_tab : ℕ → Tty → Tty
unfolding writechar_plain
tty_tab zero t = t
tty_tab (suc n) t = tty_tab n (writechar_plain b' ' vga_color_white t)

unfoldable pub tty_writechar : ℕ → ℕ → Tty → Tty
unfolding tty_newline tty_tab tty_backspace writechar_plain
tty_writechar c color t =
    if c == 0x0A
    then tty_newline t
    else if c == 0x09
    then tty_tab 4 t
    else if c == key_backspace
    then tty_backspace t
    else writechar_plain c color t

-- The characters of the string, whose length the loop reads again in each round.
unfoldable pub tty_writestr : List ℕ → Tty → Tty
unfolding tty_writechar
tty_writestr [] t = t
tty_writestr (c ∷ s) t = tty_writestr s (tty_writechar c vga_color_white t)
