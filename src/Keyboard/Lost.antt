-- ===== src/Keyboard/Lost.antt =====
-- keyboard.c at the ends of the buffer: a backspace in an empty one, and a push into a full one.
use enki_os.Base.{ℕ, ◌<◌, ◌≡◌, false, some, [], arith, ◌==◌}
use enki_os.Keyboard.{KeyboardBuffer, keyboard_backspace, keyboard_push, keyboard_pop}
use enki_os.Keyboard.Queue.{IsQueue}

-- After a backspace in an empty buffer the next character that is pushed is not popped: the buffer
-- reads as empty.
pub backspace_loses :
    (k : KeyboardBuffer) (c : ℕ)
    → IsQueue k []
    → 0 < c
    → (keyboard_pop (keyboard_push c (some (keyboard_backspace k)))).0 ≡ 0
unfolding keyboard_backspace keyboard_push keyboard_pop
backspace_loses k c q positive =
    let nonzero : (c == 0) ≡ false = ground arith in
    let tail : k.tail ≡ k.head = ground (arith, q.tail, q.head) in
    rw (nonzero, tail) (ground (arith, q.cells 0, q.head))
