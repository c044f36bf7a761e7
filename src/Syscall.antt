-- ===== src/Syscall.antt =====
-- kernel/kernel/syscall.c and idt.c: the tables of system calls and of interrupt callbacks, and the entries
-- of the interrupt descriptor table. A slot that is 0 is none.
pub mod Calls
mod Exceptions
mod Allocate
pub mod Dispatch
mod Register
mod Tests
use Prim.Native.Nat.{bit_and}
use enki_os.Base.{ℕ, ◌-◌, ◌/◌, ◌^◌, true, false, Bool, none, some, Option, leb, ◌==◌, if◌then◌else◌}
use enki_os.Base.Int.{ℤ, pos}
use enki_os.Status.{einvarg}

abbrev pub max_syscalls : ℕ
max_syscalls = 256

abbrev pub total_interrupts : ℕ
total_interrupts = 512

abbrev pub kernel_code_seg : ℕ
kernel_code_seg = 0x08

pub record IdtEntry : Type 0 where
  pub base_low : ℕ
  pub selector : ℕ
  pub reserved : ℕ
  pub flags : ℕ
  pub base_high : ℕ

unfoldable pub idt_set : ℕ → ℕ → (ℕ → IdtEntry) → ℕ → IdtEntry
idt_set i addr idt_entries j =
    if j == i
    then record {
      base_low = bit_and addr 0x0000FFFF;
      selector = kernel_code_seg;
      reserved = 0x00;
      flags = 0xEE;
      base_high = addr / 2 ^ 16;
    }
    else idt_entries j

module _ {ℓ} {F : Type ℓ} where
  abbrev pub put : (ℕ → Option F) → ℕ → F → ℕ → Option F
  put table i fn j = if j == i then some fn else table j

  -- The status and the callbacks; an interrupt below 0 is refused as 512 is.
  unfoldable pub idt_register_int_callback : ℕ → F → (ℕ → Option F) → ℤ × (ℕ → Option F)
  idt_register_int_callback interrupt callback int_callbacks =
      if leb total_interrupts interrupt
      then (einvarg, int_callbacks)
      else (pos 0, put int_callbacks interrupt callback)

  abbrev pub is_set : Option F → Bool
  is_set none = false
  is_set (some fn) = true

  -- None where the kernel panics; an index below 0 is refused as 256 is.
  unfoldable pub syscall_register : ℕ → F → (ℕ → Option F) → Option (ℕ → Option F)
  syscall_register idx fn syscalls =
      if leb max_syscalls idx
      then none
      else if is_set (syscalls idx)
      then none
      else some (put syscalls idx fn)

  -- The function that the call runs, or none where it answers 0.
  unfoldable pub syscall_invoke : ℕ → (ℕ → Option F) → Option F
  syscall_invoke idx syscalls = if leb max_syscalls idx then none else syscalls idx
