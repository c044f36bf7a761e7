-- ===== src/Enki/Readline.antt =====
-- enki.c: enki_tty_readline against an editor of lines.
use mathlib.Core.Path.{subst}
use mathlib.Core.Option.{some_inj, none-ne-some}
use enki_os.Base.{
  ℕ, zero, suc, ◌+◌, ◌-◌, ◌≤◌, ◌<◌, ◌≡◌, refl, ap, inl, inr, true, false, Bool, ◌&&◌, not, none,
  some, Option, List, [], ◌∷◌, ◌++◌, arith, ltb, leb, ◌==◌, ==_self, Bool-cases, if◌then◌else◌,
  length,
}
use enki_os.Base.Memory.{Memory, store}
use enki_os.Enki.{enki_getkey_block, type_key, readline_loop, enki_tty_readline}

-- A line is kept with its last character first. A backspace takes it away; on an empty line it is a
-- character like any other.
abbrev pub edit_key : ℕ → List ℕ → List ℕ
edit_key key [] = key ∷ []
edit_key key (c ∷ line) = if key == 0x08 then line else key ∷ c ∷ line

-- The line once it is full or ended by a carriage return, and the keys that are left; none where the
-- keys run out before.
abbrev pub edit : ℕ → List ℕ → List ℕ → Option (List ℕ × List ℕ)
edit room line [] = if ltb (length line) room then none else some (line, [])
edit room line (key ∷ keys) =
    let skip = edit room line keys in
    let typed = edit room (edit_key key line) keys in
    if not (ltb (length line) room)
    then some (line, key ∷ keys)
    else if key == 0
    then skip
    else if key == 0x0D
    then some (line, keys)
    else typed

-- The line stands from `out` on.
abbrev pub Stands : Memory → ℕ → List ℕ → Type 0
Stands m out [] = Unit
Stands m out (c ∷ line) = (m (out + length line) ≡ c) × Stands m out line

Stands-store :
    (m : Memory) (out : ℕ) (line : List ℕ) (a v : ℕ)
    → out + length line ≤ a
    → Stands m out line
    → Stands (store m a v) out line
Stands-store m out [] a v le st = tt
Stands-store m out (c ∷ line) a v le (here, st) =
    let other : (out + length line == a) ≡ false = ground arith in
    (rw other here, Stands-store m out line a v (omega arith) st)

-- A key changes the line as the editor does.
type_key-Stands :
    (out key : ℕ) (line : List ℕ) (m : Memory)
    → Stands m out line
    → ((type_key out (length line) key m).0 ≡ length (edit_key key line))
      × Stands (type_key out (length line) key m).1 out (edit_key key line)
unfolding type_key
type_key-Stands out key [] m st =
    let at_start : (key == 0x08 && leb 1 0) ≡ false = ground arith in
    rw at_start (refl, (rw (==_self (out + 0)) refl, tt))
type_key-Stands out key (c ∷ line) m (here, st) = elim (Bool-cases (key == 0x08)) [
  | inl e ↦
      let room : leb 1 (suc (length line)) ≡ true = ground arith in
      let before : suc (length line) - 1 ≡ length line = omega arith in
      rw (e, room, before) (refl, Stands-store m out line (out + length line) 0 (omega arith) st)
  | inr e ↦ rw e (
    omega arith,
    (
      rw (==_self (out + suc (length line))) refl,
      Stands-store m out (c ∷ line) (out + suc (length line)) key (omega arith) (here, st),
    ),
  )
]

abbrev pub answer : List ℕ → List ℕ → Memory → Option (List ℕ × List ℕ × Memory)
answer keys shown m = some (keys, shown, m)

-- A line that is ended.
finished :
    (out : ℕ) (shown line line' keys keys' : List ℕ) (m : Memory)
    → Stands m out line
    → line ≡ line'
    → keys ≡ keys'
    → (shown' : List ℕ) × (m' : Memory) × (answer keys shown (store m (out + length line) 0x00)
        ≡ answer keys' shown' m')
      × Stands m' out line'
      × (m' (out + length line') ≡ 0)
finished out shown line line' keys keys' m st same left = (
  shown,
  store m (out + length line) 0x00,
  ap (λ q. answer q shown (store m (out + length line) 0x00)) left,
  subst (Stands (store m (out + length line) 0x00) out) same
      (Stands-store m out line (out + length line) 0 (omega arith) st),
  subst (λ l. store m (out + length line) 0x00 (out + length l) ≡ 0) same
      (rw (==_self (out + length line)) refl),
)

module _ (show_typing : Bool) (out max : ℕ) where
  -- The rounds from a line on.
  readline_loop-edit :
      (fuel : ℕ) (keys line shown : List ℕ) (m : Memory) (line' keys' : List ℕ)
      → length keys < fuel
      → Stands m out line
      → edit (max - 1) line keys ≡ some (line', keys')
      → (shown' : List ℕ) × (m' : Memory) × (readline_loop show_typing out max fuel
            (length line)
            keys
            shown
            m
          ≡ answer keys' shown' m')
        × Stands m' out line'
        × (m' (out + length line') ≡ 0)
  unfolding readline_loop enki_getkey_block
  readline_loop-edit zero keys line shown m line' keys' lt st e = absurd (omega arith)
  readline_loop-edit (suc fuel) [] line shown m line' keys' lt st e =
      elim (Bool-cases (ltb (length line) (max - 1))) [
        | inl room ↦ absurd (none-ne-some _ (rw room at e))
        | inr full ↦ rw full (
            finished out shown line line' [] keys' m st (ap (λ q. q.0) (some_inj.0 (rw full at e)))
              (ap (λ q. q.1) (some_inj.0 (rw full at e))))
      ]
  readline_loop-edit (suc fuel) (key ∷ keys) line shown m line' keys' lt st e =
      elim (Bool-cases (ltb (length line) (max - 1))) [
        | inr full ↦ rw full (
            finished out shown line line' (key ∷ keys) keys' m st
              (ap (λ q. q.0) (some_inj.0 (rw full at e)))
              (ap (λ q. q.1) (some_inj.0 (rw full at e))))
        | inl room ↦ elim (Bool-cases (key == 0)) [
          | inl none_yet ↦
              rw (room, none_yet)
                (rw room at (
                  readline_loop-edit (suc fuel) keys line shown m line' keys' (omega arith) st
                    (rw (room, none_yet) at e)))
          | inr got ↦ elim (Bool-cases (key == 0x0D)) [
            | inl return ↦
                rw (room, got)
                  (rw return (
                    finished out shown line line' keys keys' m st
                      (ap (λ q. q.0) (some_inj.0 (rw (room, got, return) at e)))
                      (ap (λ q. q.1) (some_inj.0 (rw (room, got, return) at e)))))
            | inr other ↦
                let (index, st') = type_key-Stands out key line m st in
                rw (room, got)
                  (rw (other, index)
                    (readline_loop-edit fuel keys (edit_key key line)
                      (if show_typing then shown ++ key ∷ [] else shown)
                      (type_key out (length line) key m).1 line' keys' (omega arith) st'
                      (rw (room, got, other) at e)))
          ]
        ]
      ]

  -- With fuel above the number of keys, `enki_tty_readline` leaves the line that the editor makes of the
  -- keys at `out`, with a NUL behind it, and the keys behind the line.
  pub tty_readline-edit :
      (fuel : ℕ) (keys : List ℕ) (m : Memory) (line keys' : List ℕ)
      → length keys < fuel
      → edit (max - 1) [] keys ≡ some (line, keys')
      → (shown : List ℕ) × (m' : Memory) × (enki_tty_readline fuel out max show_typing keys m
          ≡ answer keys' shown m')
        × Stands m' out line
        × (m' (out + length line) ≡ 0)
  unfolding enki_tty_readline
  tty_readline-edit fuel keys m line keys' lt e =
      readline_loop-edit fuel keys [] [] m line keys' lt tt e
