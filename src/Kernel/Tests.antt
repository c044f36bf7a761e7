-- ===== src/Kernel/Tests.antt =====
-- The set-up of the kernel on a disk whose file system is its own state.
use enki_os.Base.{ℕ, ◌+◌, ◌*◌, ◌≡◌, refl, none, some, [], ◌∷◌, arith}
use enki_os.Base.Int.{pos}
use enki_os.Base.Memory.{Memory}
use enki_os.Kheap.Tests.{empty}
use enki_os.Kheap.Zeroed.{kernel_heap}
use enki_os.Kheap.Page.{Room, kheap_init-Room}
use enki_os.Tty.{Tty}
use enki_os.Keyboard.{off}
use enki_os.Keyboard.Devices.{Drivers}
use enki_os.File.Calls.{FileSystem, fs_resolve, disk_search_and_init}
use enki_os.Task.Growth.{no_tasks}
use enki_os.Process.Life.{World, no_process}
use enki_os.Kernel.{Image, Handlers, Boot, kernel_set_up}
use enki_os.Kernel.Booted.{Booted, found, set_up-Booted}

abbrev plain : FileSystem Memory
plain = record {
  resolve = λ s. (pos 0, s);
  open_path = λ s parts mode. (0, s);
  read = λ s private size blocks out. (pos 0, s);
  close = λ s private. (pos 0, s);
  seek = λ s private offset mode. (pos 0, s);
  stat = λ s private. (pos 0, none);
}

abbrev image : Image
image = record {
  tss_at = 0x108000;
  idt_entries_at = 0x109000;
  interrupt_ptr_table = λ i. 0x100000 + i * 16;
  idt_zero = 0x103000;
  syscall_wrapper = 0x104000;
  ps2_keyboard = 0x105000;
}

abbrev handlers : Handlers ℕ
handlers = record { idt_handle_exception = 1; idt_clock = 2; ps2_handle_interrupt = 3 }

abbrev drivers : Drivers ℕ
drivers = record {
  head = 0;
  tail = 0;
  next = λ k. 0;
  capslock = λ k. off;
  int_callbacks = λ j. none;
}

abbrev screen : Tty
screen = record { row = 0; col = 0; cells = λ i. 0 }

abbrev world : World Memory
world = record {
  files = record { slots = []; world = empty };
  tasks = no_tasks;
  procs = λ a. no_process;
  processes = λ i. 0;
  process_current = 0;
}

room : Room (found (λ s. s) (λ s m. m) plain world).1 3 1026
unfolding disk_search_and_init fs_resolve
room = (kheap_init-Room kernel_heap empty).1 3 1026 (omega arith)

set_up-Booted_example :
    (b : Boot Memory ℕ ℕ) × (kernel_set_up
        (λ s. s)
        (λ s m. m)
        image
        handlers
        plain
        (λ d h. 10 ∷ 20 ∷ [])
        screen
        kernel_heap
        drivers
        world
      ≡ some b)
    × Booted (λ s. s) (λ s m. m) image handlers plain (λ d h. 10 ∷ 20 ∷ []) drivers b
set_up-Booted_example =
    set_up-Booted (λ s. s) (λ s m. m) image handlers plain (λ d h. 10 ∷ 20 ∷ []) 3 screen
      kernel_heap drivers world (λ s m. refl) (omega arith) (omega arith) (omega arith)
      (omega arith) room
