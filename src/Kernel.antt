-- ===== src/Kernel.antt =====
-- kernel/kernel/kernel.c and tss.h: the kernel's set-up, which composes that of its parts. What only loads
-- registers of the processor or writes to ports (cursor_disable, gdt_load, idt_load, tss_load,
-- paging_switch, enable_paging) is left out.
mod Segments
mod Booted
mod Tests
use enki_os.Base.{ℕ, ◌+◌, none, some, Option, List, [], ◌∷◌, ◌>>=◌, replicate}
use enki_os.Base.Memory.{Memory}
use enki_os.Heap.{Heap}
use enki_os.Kheap.{kheap_init}
use enki_os.Gdt.{GdtStructured, gdt_unstructure}
use enki_os.Idt.{Idt, idt_init}
use enki_os.Paging.{paging_new}
use enki_os.Tty.{Tty, tty_init, tty_writestr}
use enki_os.File.{max_file_descriptors}
use enki_os.File.Calls.{FileSystem, Disk, fs_load, disk_search_and_init}
use enki_os.Task.{Tasks, Registers, task_run_first}
use enki_os.Process.Life.{World, process_new_shell}
use enki_os.Syscall.Calls.{syscall_register_all}
use enki_os.Keyboard.Devices.{Drivers, keyboard_init}

abbrev pub kernel_data_seg : ℕ
kernel_data_seg = 0x10

pub record Tss : Type 0 where
  pub link : ℕ
  pub esp0 : ℕ
  pub ss0 : ℕ
  pub esp1 : ℕ
  pub esp2 : ℕ
  pub ss2 : ℕ
  pub sr3 : ℕ
  pub eip : ℕ
  pub eflags : ℕ
  pub eax : ℕ
  pub ecx : ℕ
  pub edx : ℕ
  pub ebx : ℕ
  pub esp : ℕ
  pub ebp : ℕ
  pub esi : ℕ
  pub edi : ℕ
  pub es : ℕ
  pub cs : ℕ
  pub ss : ℕ
  pub ds : ℕ
  pub fs : ℕ
  pub gs : ℕ
  pub ldtr : ℕ
  pub iopb : ℕ

-- sizeof(struct tss)
abbrev pub tss_size : ℕ
tss_size = 100

-- What memset leaves.
abbrev pub no_tss : Tss
no_tss = record {
  link = 0;
  esp0 = 0;
  ss0 = 0;
  esp1 = 0;
  esp2 = 0;
  ss2 = 0;
  sr3 = 0;
  eip = 0;
  eflags = 0;
  eax = 0;
  ecx = 0;
  edx = 0;
  ebx = 0;
  esp = 0;
  ebp = 0;
  esi = 0;
  edi = 0;
  es = 0;
  cs = 0;
  ss = 0;
  ds = 0;
  fs = 0;
  gs = 0;
  ldtr = 0;
  iopb = 0;
}

-- `gdt_structured`, with the address of `tss`.
abbrev pub segments : ℕ → List GdtStructured
segments tss =
    record { base = 0x00; limit = 0x00; type = 0x00 }
    ∷ record { base = 0x00; limit = 0xFFFFFFFF; type = 0x9A }
    ∷ record { base = 0x00; limit = 0xFFFFFFFF; type = 0x92 }
    ∷ record { base = 0x00; limit = 0xFFFFFFFF; type = 0xF8 }
    ∷ record { base = 0x00; limit = 0xFFFFFFFF; type = 0xF2 }
    ∷ record { base = tss; limit = tss_size; type = 0xE9 }
    ∷ []

-- PAGING_IS_WRITEABLE | PAGING_IS_PRESENT | PAGING_ACCESS_FROM_ALL
abbrev pub paging_flags : ℕ
paging_flags = 0b00000111

-- "Enki OS\n\n"
abbrev pub greeting : List ℕ
greeting = b'E' ∷ b'n' ∷ b'k' ∷ b'i' ∷ b' ' ∷ b'O' ∷ b'S' ∷ 0x0A ∷ 0x0A ∷ []

-- The addresses that the linker sets: `tss`, `idt_entries`, the handlers of the interrupts, `ps2_keyboard`.
pub record Image : Type 0 where
  pub tss_at : ℕ
  pub idt_entries_at : ℕ
  pub interrupt_ptr_table : ℕ → ℕ
  pub idt_zero : ℕ
  pub syscall_wrapper : ℕ
  pub ps2_keyboard : ℕ

-- The functions that are registered: for exceptions, the timer and the keyboard.
pub record Handlers {ℓ} (F : Type ℓ) : Type ℓ where
  pub idt_handle_exception : F
  pub idt_clock : F
  pub ps2_handle_interrupt : F

-- What the kernel has set up; `world` has the heap's memory, and the tables of files, tasks and processes.
pub record Boot {ℓ} (S F G : Type ℓ) : Type ℓ where
  pub screen : Tty
  pub gdt : List ℕ
  pub kernel_heap : Heap
  pub disk : Disk S
  pub idt : Idt F
  pub tss : Tss
  pub kernel_page_dir : ℕ
  pub syscalls : ℕ → Option G
  pub drivers : Drivers F
  pub world : World S

module _ {ℓ} {S F G : Type ℓ} (memory : S → Memory) (with_memory : S → Memory → S) (image : Image)
    (handlers : Handlers F) (fat16_fs : FileSystem S) where
  -- The lines of `kernel_main` up to the first process; none where the kernel panics. `calls` are those
  -- that syscall_register_all registers, on the disk and the heap.
  unfoldable pub kernel_set_up :
      (Disk S → Heap → List G) → Tty → Heap → Drivers F → World S → Option (Boot S F G)
  kernel_set_up calls t heap drivers w =
      let screen = tty_writestr greeting (tty_init t) in
      gdt_unstructure (segments image.tss_at) >>= λ gdt.
      kheap_init heap (memory w.files.world) >>= λ ready. fs_load fat16_fs >>= λ file_systems.
      let (disk, s) = disk_search_and_init file_systems (with_memory w.files.world ready.1) in
      let idt =
        idt_init image.idt_entries_at image.interrupt_ptr_table image.idt_zero image.syscall_wrapper
          handlers.idt_handle_exception handlers.idt_clock drivers.int_callbacks in
      let tss = record no_tss { esp0 = 0x600000; ss0 = kernel_data_seg } in
      let (dir, m) = paging_new ready.0 paging_flags (memory s) in
      syscall_register_all (calls disk ready.0) >>= λ syscalls.
      let drivers' =
        keyboard_init image.ps2_keyboard handlers.ps2_handle_interrupt
          (record drivers { int_callbacks = idt.int_callbacks }) in
      some record {
        screen = screen;
        gdt = gdt;
        kernel_heap = ready.0;
        disk = disk;
        idt = record idt { int_callbacks = drivers'.int_callbacks };
        tss = tss;
        kernel_page_dir = dir;
        syscalls = syscalls;
        drivers = drivers';
        world = record w {
          files = record { slots = replicate max_file_descriptors none; world = with_memory s m };
        };
      }

  -- The task that the processor goes on with, its page directory and its registers.
  unfoldable pub kernel_main :
      (Disk S → Heap → List G)
      → ℕ
      → ℕ
      → Tty
      → Heap
      → Drivers F
      → World S
      → Option (Boot S F G × (Tasks × ℕ × Registers))
  kernel_main calls depth fuel t heap drivers w = kernel_set_up calls t heap drivers w >>= λ boot.
      process_new_shell fat16_fs boot.disk boot.kernel_heap memory with_memory depth fuel boot.world
      >>= λ w'. task_run_first w'.tasks >>= λ run. some (record boot { world = w' }, run)
