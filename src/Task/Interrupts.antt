-- ===== src/Task/Interrupts.antt =====
-- kernel/kernel/idt.c: what an interrupt does to the tasks.
use enki_os.Base.{ℕ, none, some, Option, ltb, ◌==◌, if◌then◌else◌}
use enki_os.Task.{Tasks, Registers, task_switch_next, task_switch, task_current_save_state}

-- A handler's end: it returns, goes on in another task for good (with the page directory and the
-- registers that are loaded), or panics.
pub data Control : Type 0 where
  returned : Tasks → Control
  switched : Tasks → ℕ → Registers → Control
  panicked : Control

-- The task that the processor goes on with; the assembly around a handler that returns takes the
-- registers from the frame again.
unfoldable pub task_page : Registers → Control → Option (Tasks × ℕ × Registers)
task_page frame (returned s) = let (s', dir) = task_switch s.current s in some (s', dir, frame)
task_page frame (switched s dir registers) = some (s, dir, registers)
task_page frame panicked = none

-- The callback where there is a task whose registers could be saved.
abbrev pub then_call : Option Tasks → (Tasks → Control) → Control
then_call none callback = panicked
then_call (some s) callback = callback s

unfoldable pub call_back : Option (Tasks → Control) → Registers → Tasks → Control
call_back none frame s = returned s
call_back (some callback) frame s = then_call (task_current_save_state frame s) callback

unfoldable pub interrupt_handler :
    (ℕ → Option (Tasks → Control)) → ℕ → Registers → Tasks → Option (Tasks × ℕ × Registers)
interrupt_handler callbacks interrupt frame s =
    task_page frame (call_back (callbacks interrupt) frame s)

abbrev pub switched_to : Option (Tasks × ℕ × Registers) → Control
switched_to none = panicked
switched_to (some (s, dir, registers)) = switched s dir registers

unfoldable pub idt_clock : Tasks → Control
idt_clock s = switched_to (task_switch_next s)

-- The callbacks once `idt_init` has run, with the handler for exceptions.
unfoldable pub idt_callbacks : (Tasks → Control) → ℕ → Option (Tasks → Control)
idt_callbacks idt_handle_exception interrupt =
    if ltb interrupt 0x20
    then some idt_handle_exception
    else if interrupt == 0x20
    then some idt_clock
    else none
