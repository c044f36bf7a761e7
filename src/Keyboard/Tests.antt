-- ===== src/Keyboard/Tests.antt =====
-- Runs of the keyboard, and its theorems at an empty buffer.
use enki_os.Base.{ℕ, zero, suc, ◌<◌, ◌≡◌, refl, some, [], ◌∷◌, arith, ◌==◌, if◌then◌else◌, get_or}
use enki_os.Libc.Chars.{tolower}
use enki_os.Keyboard.{
  KeyboardBuffer, keyboard_backspace, keyboard_push, keyboard_pop, on, off, ps2_scan_to_char,
  ps2_handle_interrupt,
}
use enki_os.Keyboard.Queue.{IsQueue, push-IsQueue, Popped, pop-IsQueue, backspace-IsQueue}
use enki_os.Keyboard.Lost.{backspace_loses}
use enki_os.Keyboard.Scan.{scan_to_char-tolower, handle_interrupt-IsQueue}

abbrev empty : KeyboardBuffer
empty = record { buffer = λ a. 0; tail = 0; head = 0 }

empty-IsQueue : IsQueue empty []
empty-IsQueue = record {
  head = omega arith;
  tail = refl;
  small = omega arith;
  cells = λ j lt. refl;
  chars = λ j lt. absurd (omega arith);
}

-- The buffer with 'k' in it.
abbrev one : KeyboardBuffer
one = record { buffer = λ a. if a == 0 then b'k' else 0; tail = 1; head = 0 }

one-IsQueue : IsQueue one (b'k' ∷ [])
one-IsQueue = record {
  head = omega arith;
  tail = refl;
  small = omega arith;
  cells = λ j lt. ground (arith, get_or-single j);
  chars = λ j lt. ground (arith, get_or-single j);
}
  where
    get_or-single : (j : ℕ) → get_or {A = ℕ} (b'k' ∷ []) j 0 ≡ (if j == 0 then b'k' else 0)
    get_or-single zero = refl
    get_or-single (suc j) = ground arith

scan_of_capital : ps2_scan_to_char 0 on 0x1E ≡ b'A'
unfolding ps2_scan_to_char
scan_of_capital = refl

push-IsQueue_example :
    (k' : KeyboardBuffer) × (keyboard_push b'k' (some empty) ≡ some k') × IsQueue k' (b'k' ∷ [])
push-IsQueue_example = push-IsQueue empty [] b'k' empty-IsQueue (omega arith) (omega arith)

pop-IsQueue_example : Popped one (b'k' ∷ []) (keyboard_pop (some one))
pop-IsQueue_example = pop-IsQueue one (b'k' ∷ []) one-IsQueue

backspace-IsQueue_example : IsQueue (keyboard_backspace one) []
backspace-IsQueue_example = backspace-IsQueue one [] b'k' one-IsQueue

backspace_loses_example :
    (keyboard_pop (keyboard_push b'k' (some (keyboard_backspace empty)))).0 ≡ 0
backspace_loses_example = backspace_loses empty b'k' empty-IsQueue (omega arith)

scan_to_char-tolower_example :
    (ps2_scan_to_char 0 off 0x1E ≡ tolower (ps2_scan_to_char 0 on 0x1E))
    × (82 < 0x1E → ps2_scan_to_char 0 on 0x1E ≡ 0)
scan_to_char-tolower_example = scan_to_char-tolower 0 0x1E

handle_interrupt-IsQueue_example :
    (k' : KeyboardBuffer) × (ps2_handle_interrupt 0 0x1E (on, some empty) ≡ (on, some k'))
    × IsQueue k' (ps2_scan_to_char 0 on 0x1E ∷ [])
handle_interrupt-IsQueue_example =
    handle_interrupt-IsQueue 0 0x1E on empty [] empty-IsQueue (omega arith) refl (omega arith)
      (rw scan_of_capital (omega arith))
