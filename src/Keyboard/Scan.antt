-- ===== src/Keyboard/Scan.antt =====
-- ps2.c: the characters of the scan codes.
use enki_os.Base.{
  ℕ, ◌<◌, ◌≡◌, ◌≢◌, refl, inl, inr, false, some, List, [], ◌∷◌, ◌++◌, arith, ltb, ◌==◌, Bool-cases,
  length,
}
use Prim.Native.Nat.{bit_and}
use enki_os.Keyboard.Queue.{IsQueue, push-IsQueue}
use enki_os.Libc.Chars.{tolower}
use enki_os.Keyboard.{
  KeyboardBuffer, CapslockState, on, off, scan_set_1, ps2_scan_to_char, ps2_handle_interrupt,
  ps2_capslock,
}

-- With capslock off, every scan code gives the lower case of what it gives with capslock on; a code
-- above the table's length gives none either way.
pub scan_to_char-tolower :
    (behind sc : ℕ)
    → (ps2_scan_to_char behind off sc ≡ tolower (ps2_scan_to_char behind on sc))
      × (82 < sc → ps2_scan_to_char behind on sc ≡ 0)
unfolding ps2_scan_to_char tolower
scan_to_char-tolower behind sc = elim (Bool-cases (ltb (length scan_set_1) sc)) [
  | inl high ↦ rw high (refl, λ _. refl)
  | inr low ↦ rw low (ground arith, λ lt. absurd (ground arith))
]

-- The scan code one behind the table passes the bound, and gives the byte that stands there.
pub scan_to_char_behind : (behind : ℕ) → ps2_scan_to_char behind on 82 ≡ behind
unfolding ps2_scan_to_char
scan_to_char_behind behind = refl

-- The interrupt of a key that is pressed and has a character puts it into the process's queue, where
-- there is room; capslock stays as it is unless the key is that one.
pub handle_interrupt-IsQueue :
    (behind sc : ℕ) (caps : CapslockState) (k : KeyboardBuffer) (xs : List ℕ)
    → IsQueue k xs
    → length xs < 1024
    → bit_and sc 0x80 ≡ 0
    → sc ≢ ps2_capslock
    → 0 < ps2_scan_to_char behind caps sc
    → (k' : KeyboardBuffer) × (ps2_handle_interrupt behind sc (caps, some k) ≡ (caps, some k'))
      × IsQueue k' (xs ++ ps2_scan_to_char behind caps sc ∷ [])
unfolding ps2_handle_interrupt
handle_interrupt-IsQueue behind sc caps k xs q room pressed other positive =
    let (k', e, q') = push-IsQueue k xs (ps2_scan_to_char behind caps sc) q room positive in
    let same : (sc == ps2_capslock) ≡ false = ground arith in
    let shown : (ps2_scan_to_char behind caps sc == 0) ≡ false = ground arith in
    (k', rw (pressed, same, shown, e) refl, q')
