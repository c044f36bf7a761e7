-- ===== src/Tty/Write.antt =====
-- tty.c: where the characters of a text stand on the screen.
use enki_os.Base.{
  ℕ, zero, suc, ◌+◌, ◌-◌, ◌*◌, ◌<◌, ◌≡◌, ◌≢◌, ◌∙◌, refl, inl, inr, true, ◌&&◌, List, [], ◌∷◌, arith,
  ltb, leb, ◌==◌, Bool-cases, if◌then◌else◌, get_or, length,
}
use enki_os.Tty.{
  u16, Tty, vga_entry, init_row, init_rows, tty_init, writechar_plain, tty_writechar, tty_writestr,
  tty_newline,
}

-- The cursor is on a line of the screen.
pub record OnScreen (t : Tty) : Type 0 where
  pub row : t.row < 25
  pub col : t.col < 80

-- The index of the cell at the cursor.
abbrev pub cursor : Tty → ℕ
cursor t = t.row * 80 + t.col

init_row_at :
    (n x y : ℕ) (t : Tty)
    → ((init_row n x y t).row ≡ t.row)
      × ((init_row n x y t).col ≡ t.col)
      × ((i : ℕ)
          → (init_row n x y t).cells i ≡ (
              if leb (y * 80 + x) i && ltb i (y * 80 + x + n) then vga_entry b' ' 0 else t.cells i))
unfolding init_row
init_row_at zero x y t = (refl, refl, λ i. ground arith)
init_row_at (suc n) x y t =
    let (row, col, cells) = init_row_at n (x + 1) y (init_row 1 x y t) in
    (row, col, λ i. ground (arith, cells i))

-- A row and those below it.
rows_join :
    (v w i a k : ℕ)
    → (if leb (a + 80) i && ltb i (a + 80 + k)
        then v
        else if leb (a + 0) i && ltb i (a + 0 + 80)
        then v
        else w)
      ≡ (if leb a i && ltb i (a + 80 + k) then v else w)
rows_join v w i a k = ground arith

init_rows_at :
    (n y : ℕ) (t : Tty)
    → ((init_rows n y t).row ≡ t.row)
      × ((init_rows n y t).col ≡ t.col)
      × ((i : ℕ)
          → (init_rows n y t).cells i
            ≡ (if leb (y * 80) i && ltb i ((y + n) * 80) then vga_entry b' ' 0 else t.cells i))
unfolding init_rows
init_rows_at zero y t = (refl, refl, λ i. ground arith)
init_rows_at (suc n) y t =
    let (row, col, cells) = init_rows_at n (y + 1) (init_row 80 0 y t) in
    let (row', col', cells') = init_row_at 80 0 y t in
    let start : (y + 1) * 80 ≡ y * 80 + 80 = omega arith in
    let end : (y + 1 + n) * 80 ≡ y * 80 + 80 + n * 80 = omega arith in
    let end' : (y + suc n) * 80 ≡ y * 80 + 80 + n * 80 = omega arith in
    (
      row ∙ row',
      col ∙ col',
      λ i.
          rw (cells i, cells' i, start, end, end')
            (rows_join (vga_entry b' ' 0) (t.cells i) i (y * 80) (n * 80)),
    )

init-eq : (t : Tty) → tty_init t ≡ init_rows 25 0 (record { row = 0; col = 0; cells = t.cells })
unfolding tty_init
init-eq t = refl

-- `tty_init` blanks the 2000 cells of the screen and no others, and puts the cursor on the first.
pub init_blanks :
    (t : Tty)
    → OnScreen (tty_init t)
      × (cursor (tty_init t) ≡ 0)
      × ((i : ℕ) → (tty_init t).cells i ≡ (if ltb i 2000 then vga_entry b' ' 0 else t.cells i))
init_blanks t =
    let (row, col, cells) = init_rows_at 25 0 (record { row = 0; col = 0; cells = t.cells }) in
    rw (init-eq t) (
      record { row = rw row (omega arith); col = rw col (omega arith) },
      rw (row, col) refl,
      λ i. let all : leb 0 i ≡ true = ground arith in rw (cells i, all) refl,
    )

-- The `n` cells from the cursor on hold the characters of `s` in white, and nothing else has changed.
pub record Wrote (s : List ℕ) (t t' : Tty) : Type 0 where
  pub screen : OnScreen t'
  pub moved : cursor t' ≡ cursor t + length s
  pub cells :
      (i : ℕ)
      → t'.cells i ≡ (
          if leb (cursor t) i && ltb i (cursor t + length s)
          then vga_entry (get_or s (i - cursor t) 0) 15
          else t.cells i)

-- None of the characters moves the cursor in a way of its own.
abbrev pub Plain : List ℕ → Type 0
Plain [] = Unit
Plain (c ∷ s) = (c ≢ 0x0A) × (c ≢ 0x09) × (c ≢ 0x08) × Plain s

pub plain-Wrote :
    (c : ℕ) (t : Tty) → OnScreen t → cursor t + 1 < 2000 → Wrote (c ∷ []) t (writechar_plain c 15 t)
unfolding writechar_plain
plain-Wrote c t on lt = elim (Bool-cases (leb 80 (u16 (t.col + 1)))) [
  | inl wraps ↦ rw wraps (record {
    screen = record { row = ground (arith, on.row, on.col); col = omega arith };
    moved = ground (arith, on.row, on.col);
    cells = λ i. ground arith;
  })
  | inr stays ↦ rw stays (record {
    screen = record { row = on.row; col = ground (arith, on.col) };
    moved = ground (arith, on.col);
    cells = λ i. ground arith;
  })
]

Wrote-cons :
    (c : ℕ) (s : List ℕ) (t t1 t2 : Tty) → Wrote (c ∷ []) t t1 → Wrote s t1 t2 → Wrote (c ∷ s) t t2
Wrote-cons c s t t1 t2 first rest = record {
  screen = rest.screen;
  moved = omega (arith, first.moved, rest.moved);
  cells = λ i. elim (Bool-cases (i == cursor t)) [
    | inl same ↦ ground (arith, first.cells i, rest.cells i, first.moved)
    | inr other ↦
        let next : leb (cursor t) i ≡ true → i - cursor t ≡ suc (i - cursor t1) =
          λ le. ground (arith, first.moved) in
        ground (arith, first.cells i, rest.cells i, first.moved, next)
  ];
}

plain-eq :
    (c : ℕ) (t : Tty)
    → c ≢ 0x0A
    → c ≢ 0x09
    → c ≢ 0x08
    → tty_writechar c 15 t ≡ writechar_plain c 15 t
unfolding tty_writechar
plain-eq c t line tab back = ground arith

-- A text without line breaks, tabs and backspaces that ends before the last cell of the screen stands
-- on the screen from the cursor on, in white; the cursor is behind it and nothing else has changed.
pub writestr-Wrote :
    (s : List ℕ) (t : Tty)
    → OnScreen t
    → Plain s
    → cursor t + length s < 2000
    → Wrote s t (tty_writestr s t)
unfolding tty_writestr
writestr-Wrote [] t on plain lt = record {
  screen = on;
  moved = omega arith;
  cells = λ i. ground arith;
}
writestr-Wrote (c ∷ s) t on (line, tab, back, plain) lt =
    let first = plain-Wrote c t on (omega arith) in
    let rest =
      writestr-Wrote s (writechar_plain c 15 t) first.screen plain (omega (arith, first.moved)) in
    rw (plain-eq c t line tab back) (Wrote-cons c s t _ _ first rest)

-- A line break on the last row leaves the screen: the next character is written behind its 2000 cells.
pub newline_leaves :
    (c : ℕ) (t : Tty)
    → OnScreen t
    → t.row ≡ 24
    → (writechar_plain c 15 (tty_newline t)).cells 2000 ≡ vga_entry c 15
unfolding tty_newline writechar_plain
newline_leaves c t on last = ground arith
