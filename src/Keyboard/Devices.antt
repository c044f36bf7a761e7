-- ===== src/Keyboard/Devices.antt =====
-- keyboard.c and ps2.c: the list of keyboards. A `struct keyboard` stands at its address in a store of its
-- own; the write to the port that switches the keyboard on is left out.
use enki_os.Base.{ℕ, none, some, Option, ◌==◌, if◌then◌else◌}
use enki_os.Base.Int.{ℤ, pos}
use enki_os.Status.{einvarg}
use enki_os.Syscall.{idt_register_int_callback}
use enki_os.Keyboard.{CapslockState, off}

-- `keyboard_head`, `keyboard_tail`, the fields of the keyboards, and the callbacks of the interrupts.
pub record Drivers {ℓ} (F : Type ℓ) : Type ℓ where
  pub head : ℕ
  pub tail : ℕ
  pub next : ℕ → ℕ
  pub capslock : ℕ → CapslockState
  pub int_callbacks : ℕ → Option F

abbrev pub isr_kbd_interrupt : ℕ
isr_kbd_interrupt = 0x21

module _ {ℓ} {F : Type ℓ} where
  unfoldable pub keyboard_get_capslock : ℕ → Drivers F → CapslockState
  keyboard_get_capslock kbd d = d.capslock kbd

  unfoldable pub keyboard_set_capslock : ℕ → CapslockState → Drivers F → Drivers F
  keyboard_set_capslock kbd state d = record d {
    capslock = λ k. if k == kbd then state else d.capslock k;
  }

  abbrev pub link_keyboard : ℕ → Drivers F → Drivers F
  link_keyboard kbd d =
      if d.tail == 0
      then record d { head = kbd; tail = kbd }
      else record d { next = λ k. if k == d.tail then kbd else d.next k; tail = kbd }

  -- `init` is the keyboard's function, which may be null.
  unfoldable pub keyboard_insert :
      ℕ → Option (Drivers F → ℤ × Drivers F) → Drivers F → ℤ × Drivers F
  keyboard_insert kbd none d = (einvarg, d)
  keyboard_insert kbd (some init) d = init (link_keyboard kbd d)

  -- `ps2_keyboard` is the keyboard's address.
  unfoldable pub ps2_keyboard_init : ℕ → F → Drivers F → ℤ × Drivers F
  ps2_keyboard_init ps2_keyboard ps2_handle_interrupt d =
      let (_, callbacks) =
        idt_register_int_callback isr_kbd_interrupt ps2_handle_interrupt d.int_callbacks in
      (pos 0, keyboard_set_capslock ps2_keyboard off (record d { int_callbacks = callbacks }))

  unfoldable pub keyboard_init : ℕ → F → Drivers F → Drivers F
  keyboard_init ps2_keyboard ps2_handle_interrupt d =
      (keyboard_insert ps2_keyboard (some (ps2_keyboard_init ps2_keyboard ps2_handle_interrupt))
        d).1
