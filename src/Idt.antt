-- ===== src/Idt.antt =====
-- kernel/kernel/idt.c: idt_init, which fills the interrupt descriptor table and the table of callbacks. The
-- addresses of the assembly's handlers, `interrupt_ptr_table`, are a parameter; the loading of the table is
-- left out.
pub mod Handlers
mod Tests
use enki_os.Base.{ℕ, zero, suc, ◌+◌, ◌-◌, ◌*◌, Option}
use enki_os.Syscall.{IdtEntry, total_interrupts, idt_set, idt_register_int_callback}

-- `idt_entries`, the register that is loaded, and `int_callbacks`.
pub record Idt {ℓ} (F : Type ℓ) : Type ℓ where
  pub entries : ℕ → IdtEntry
  pub limit : ℕ
  pub base : ℕ
  pub int_callbacks : ℕ → Option F

-- What memset leaves.
abbrev pub no_entry : IdtEntry
no_entry = record { base_low = 0; selector = 0; reserved = 0; flags = 0; base_high = 0 }

-- sizeof(struct idt_entry)
abbrev pub idt_entry_size : ℕ
idt_entry_size = 8

-- for (; n rounds; i++)
unfoldable pub set_entries : ℕ → ℕ → (ℕ → ℕ) → (ℕ → IdtEntry) → ℕ → IdtEntry
set_entries zero i table entries = entries
set_entries (suc n) i table entries = set_entries n (i + 1) table (idt_set i (table i) entries)

module _ {ℓ} {F : Type ℓ} where
  -- for (; n rounds; i++)
  unfoldable pub register_exceptions : ℕ → ℕ → F → (ℕ → Option F) → ℕ → Option F
  register_exceptions zero i handler callbacks = callbacks
  register_exceptions (suc n) i handler callbacks =
      register_exceptions n (i + 1) handler (idt_register_int_callback i handler callbacks).1

  -- `base` is the address of idt_entries; `idt_zero` and `syscall_wrapper` are those of the functions.
  unfoldable pub idt_init : ℕ → (ℕ → ℕ) → ℕ → ℕ → F → F → (ℕ → Option F) → Idt F
  idt_init base interrupt_ptr_table idt_zero syscall_wrapper idt_handle_exception idt_clock
        int_callbacks =
      let all = set_entries total_interrupts 0 interrupt_ptr_table (λ i. no_entry) in
      let exceptions = register_exceptions 0x20 0 idt_handle_exception int_callbacks in
      record {
        entries = idt_set 0x80 syscall_wrapper (idt_set 0x0 idt_zero all);
        limit = idt_entry_size * total_interrupts - 1;
        base = base;
        int_callbacks = (idt_register_int_callback 0x20 idt_clock exceptions).1;
      }
