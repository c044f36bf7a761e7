-- ===== src/Idt/Tests.antt =====
-- The table of interrupts for handlers that are a page apart.
use enki_os.Base.{ℕ, ◌*◌, ◌≡◌, none, arith}
use enki_os.Idt.{idt_init}
use enki_os.Idt.Handlers.{LeadsTo, idt_init-LeadsTo}

abbrev handlers : ℕ → ℕ
handlers i = i * 4096

idt_init-LeadsTo_example :
    let idt = idt_init {F = ℕ} 0x9000 handlers 0x1234 0x567890 1 2 (λ i. none) in
    LeadsTo 0x21000 (idt.entries 0x21) × (idt.int_callbacks 0x21 ≡ none)
idt_init-LeadsTo_example =
    idt_init-LeadsTo 0x9000 handlers 0x1234 0x567890 1 2 (λ i. none) (omega arith) (omega arith)
      0x21 (omega arith) (omega arith)
