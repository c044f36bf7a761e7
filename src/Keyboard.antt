-- ===== src/Keyboard.antt =====
-- kernel/drivers/keyboard/keyboard.c and ps2.c: the key buffer of a process and the scan codes.
pub mod Devices
mod Queue
mod Lost
mod Scan
mod Tests
use Prim.Native.Nat.{bit_and}
use enki_os.Base.{
  ℕ, ◌+◌, ◌-◌, ◌%◌, ◌^◌, ◌&&◌, Option, none, some, List, [], ◌∷◌, ltb, leb, ◌==◌, not,
  if◌then◌else◌, get_or, length,
}
use enki_os.Base.Memory.{store}
use enki_os.Base.Word.{u32}

abbrev pub keyboard_buffer_size : ℕ
keyboard_buffer_size = 1024

-- `tail` and `head` are C ints that are only counted up and down and reduced as unsigned numbers:
-- they are kept modulo 2 ^ 32.
pub record KeyboardBuffer : Type 0 where
  pub buffer : ℕ → ℕ
  pub tail : ℕ
  pub head : ℕ

unfoldable pub keyboard_get_tail_idx : KeyboardBuffer → ℕ
keyboard_get_tail_idx k = k.tail % keyboard_buffer_size

unfoldable pub keyboard_backspace : KeyboardBuffer → KeyboardBuffer
unfolding keyboard_get_tail_idx
keyboard_backspace k =
    let k : KeyboardBuffer = record {
      buffer = k.buffer;
      tail = u32 (k.tail + (2 ^ 32 - 1));
      head = k.head;
    } in
    record { buffer = store k.buffer (keyboard_get_tail_idx k) 0x00; tail = k.tail; head = k.head }

-- The buffer is that of the current process, where there is one.
unfoldable pub keyboard_push : ℕ → Option KeyboardBuffer → Option KeyboardBuffer
unfolding keyboard_get_tail_idx
keyboard_push c none = none
keyboard_push c (some k) =
    if c == 0x00
    then some k
    else some record {
      buffer = store k.buffer (keyboard_get_tail_idx k) c;
      tail = u32 (k.tail + 1);
      head = k.head;
    }

-- The buffer is that of the current task's process, where there is a task.
unfoldable pub keyboard_pop : Option KeyboardBuffer → ℕ × Option KeyboardBuffer
keyboard_pop none = (0, none)
keyboard_pop (some k) =
    let idx = k.head % keyboard_buffer_size in
    let c = k.buffer idx in
    if c == 0x00
    then (0, some k)
    else (c, some record { buffer = store k.buffer idx 0; tail = k.tail; head = u32 (k.head + 1) })

pub data CapslockState : Type 0 where
  off : CapslockState
  on : CapslockState

abbrev pub ps2_capslock : ℕ
ps2_capslock = 0x3A

abbrev pub ps2_key_released : ℕ
ps2_key_released = 0x80

abbrev pub scan_set_1 : List ℕ
scan_set_1 =
    0x00 ∷ 0x1B ∷ b'1' ∷ b'2' ∷ b'3' ∷ b'4' ∷ b'5' ∷ b'6' ∷ b'7' ∷ b'8' ∷ b'9' ∷ b'0' ∷ b'-' ∷ b'='
    ∷ 0x08 ∷ 0x09 ∷ b'Q' ∷ b'W' ∷ b'E' ∷ b'R' ∷ b'T' ∷ b'Y' ∷ b'U' ∷ b'I' ∷ b'O' ∷ b'P' ∷ b'['
    ∷ b']' ∷ 0x0D ∷ 0x00 ∷ b'A' ∷ b'S' ∷ b'D' ∷ b'F' ∷ b'G' ∷ b'H' ∷ b'J' ∷ b'K' ∷ b'L' ∷ b';'
    ∷ 0x27 ∷ b'`' ∷ 0x00 ∷ 0x5C ∷ b'Z' ∷ b'X' ∷ b'C' ∷ b'V' ∷ b'B' ∷ b'N' ∷ b'M' ∷ b',' ∷ b'.'
    ∷ b'/' ∷ 0x00 ∷ b'*' ∷ 0x00 ∷ 0x20 ∷ 0x00 ∷ 0x00 ∷ 0x00 ∷ 0x00 ∷ 0x00 ∷ 0x00 ∷ 0x00 ∷ 0x00
    ∷ 0x00 ∷ 0x00 ∷ 0x00 ∷ b'7' ∷ b'8' ∷ b'9' ∷ b'-' ∷ b'4' ∷ b'5' ∷ b'6' ∷ b'+' ∷ b'1' ∷ b'2'
    ∷ b'3' ∷ b'0' ∷ b'.' ∷ []

-- `behind` is the byte that stands behind the table, which the bound of the test lets through.
unfoldable pub ps2_scan_to_char : ℕ → CapslockState → ℕ → ℕ
ps2_scan_to_char behind capslock sc =
    let set_size = length scan_set_1 in
    if ltb set_size sc
    then 0
    else let c = get_or scan_set_1 sc behind in
      elim capslock [ off ↦ if leb b'A' c && leb c b'Z' then c + 32 else c | on ↦ c ]

unfoldable pub toggle : CapslockState → CapslockState
toggle on = off
toggle off = on

-- `sc` is the byte that the data port answers. Which page directory is loaded meanwhile is left out.
unfoldable pub ps2_handle_interrupt :
    ℕ → ℕ → CapslockState × Option KeyboardBuffer → CapslockState × Option KeyboardBuffer
unfolding toggle
ps2_handle_interrupt behind sc (capslock, proc) =
    if not (bit_and sc ps2_key_released == 0)
    then (capslock, proc)
    else let capslock = if sc == ps2_capslock then toggle capslock else capslock in
      let c = ps2_scan_to_char behind capslock sc in
      if not (c == 0) then (capslock, keyboard_push c proc) else (capslock, proc)
