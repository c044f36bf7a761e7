-- ===== src/Kernel/Booted.antt =====
-- kernel.c: what the set-up of the kernel gives to the first process.
use enki_os.Base.{
  ℕ, ◌-◌, ◌^◌, ◌≤◌, ◌<◌, ◌≡◌, ◌∙◌, refl, ap, none, some, Option, List, ◌∷◌, arith, ltb, ◌==◌,
  if◌then◌else◌, length, get_elem?, replicate,
}
use enki_os.Base.Memory.{Memory}
use enki_os.Base.Word.{load32}
use enki_os.Libc.Bytes.{memset}
use enki_os.Heap.{Heap, entry_free}
use enki_os.Kheap.{kernel_heap_table, kheap_init}
use enki_os.Kheap.Zeroed.{kernel_heap}
use enki_os.Kheap.Page.{Room, kheap_init-Room}
use enki_os.Paging.{paging_new, paging_get_phys_addr}
use enki_os.Paging.Identity.{Identity, paging_new-Identity}
use enki_os.Tty.{Tty, tty_init, tty_writestr}
use enki_os.Gdt.{gdt_unstructure}
use enki_os.Idt.{Idt, idt_init}
use enki_os.Idt.Handlers.{LeadsTo, idt_init-LeadsTo}
use enki_os.File.{max_file_descriptors}
use enki_os.File.Calls.{FileSystem, Disk, fs_insert_file_system, fs_load, disk_search_and_init}
use enki_os.Process.Life.{World}
use enki_os.Syscall.{syscall_invoke, idt_register_int_callback}
use enki_os.Syscall.Calls.{syscall_register_all}
use enki_os.Syscall.Dispatch.{invoke-register_all}
use enki_os.Keyboard.Devices.{
  Drivers, keyboard_insert, ps2_keyboard_init, keyboard_set_capslock, keyboard_init,
}
use enki_os.Kernel.{
  Image, Handlers, Boot, segments, greeting, paging_flags, no_tss, kernel_data_seg, kernel_set_up,
}
use enki_os.Kernel.Segments.{ReadsAll, unstructure-ReadsAll, segments-Encodable}

-- The memory of the kernel's heap once the table is clear.
abbrev pub cleared : Memory → Memory
cleared m = memset kernel_heap_table.entries entry_free kernel_heap_table.length m

module _ {S : Type 0} (memory : S → Memory) (with_memory : S → Memory → S)
    (fat16_fs : FileSystem S) where
  -- The disk, and the state once it has been searched.
  abbrev pub found : World S → Disk S × S
  found w =
      disk_search_and_init (some fat16_fs ∷ replicate 11 none)
        (with_memory w.files.world (cleared (memory w.files.world)))

fs_load-eq :
    {S : Type 0} (fat16_fs : FileSystem S)
    → fs_load fat16_fs ≡ some (some fat16_fs ∷ replicate 11 none)
unfolding fs_load fs_insert_file_system
fs_load-eq fat16_fs = refl

module _ {F : Type 0} (image : Image) (handlers : Handlers F) where
  -- The interrupts as `idt_init` leaves them, and the keyboards.
  abbrev pub interrupts : Drivers F → Idt F
  interrupts drivers =
      idt_init image.idt_entries_at image.interrupt_ptr_table image.idt_zero image.syscall_wrapper
        handlers.idt_handle_exception handlers.idt_clock drivers.int_callbacks

  abbrev pub devices : Drivers F → Drivers F
  devices drivers =
      keyboard_init image.ps2_keyboard handlers.ps2_handle_interrupt
        (record drivers { int_callbacks = (interrupts drivers).int_callbacks })

  keyboard_callback :
      (drivers : Drivers F) (j : ℕ)
      → (keyboard_init image.ps2_keyboard handlers.ps2_handle_interrupt drivers).int_callbacks j
        ≡ (if j == 0x21 then some handlers.ps2_handle_interrupt else drivers.int_callbacks j)
  unfolding keyboard_init keyboard_insert ps2_keyboard_init keyboard_set_capslock
      idt_register_int_callback
  keyboard_callback drivers j = ground arith

module _ {S F G : Type 0} (memory : S → Memory) (with_memory : S → Memory → S) (image : Image)
    (handlers : Handlers F) (fat16_fs : FileSystem S) (calls : Disk S → Heap → List G) where
  -- What is there once the kernel has set itself up.
  pub record Booted (drivers : Drivers F) (b : Boot S F G) : Type 0 where
    pub segment_table : ReadsAll (segments image.tss_at) b.gdt
    pub identity : Identity b.kernel_page_dir 7 (memory b.world.files.world)
    pub translation :
        (a : ℕ)
        → a < 2 ^ 32
        → paging_get_phys_addr
            (load32 (memory b.world.files.world) b.kernel_page_dir)
            a
            (memory b.world.files.world)
          ≡ a
    pub system_calls :
        (idx : ℕ)
        → syscall_invoke idx b.syscalls
          ≡ (if idx == 0 then none else get_elem? (calls b.disk b.kernel_heap) (idx - 1))
    pub vectors :
        (j : ℕ)
        → j < 512
        → image.interrupt_ptr_table j < 2 ^ 32
        → LeadsTo
            (if j == 0x80
              then image.syscall_wrapper
              else if j == 0
              then image.idt_zero
              else image.interrupt_ptr_table j)
            (b.idt.entries j)
    pub callbacks :
        (j : ℕ)
        → j < 512
        → image.interrupt_ptr_table j < 2 ^ 32
        → b.idt.int_callbacks j ≡ (
            if j == 0x21
            then some handlers.ps2_handle_interrupt
            else if ltb j 0x20
            then some handlers.idt_handle_exception
            else if j == 0x20
            then some handlers.idt_clock
            else drivers.int_callbacks j)

  -- The state that `kernel_set_up` comes to, from the parts that may panic.
  abbrev built : List ℕ → (ℕ → Option G) → Tty → Drivers F → World S → Boot S F G
  built gdt syscalls t drivers w =
      let (disk, s) = found memory with_memory fat16_fs w in
      let (dir, m) = paging_new kernel_heap paging_flags (memory s) in
      record {
        screen = tty_writestr greeting (tty_init t);
        gdt = gdt;
        kernel_heap = kernel_heap;
        disk = disk;
        idt = record (interrupts image handlers drivers) {
          int_callbacks = (devices image handlers drivers).int_callbacks;
        };
        tss = record no_tss { esp0 = 0x600000; ss0 = kernel_data_seg };
        kernel_page_dir = dir;
        syscalls = syscalls;
        drivers = devices image handlers drivers;
        world = record w {
          files = record { slots = replicate max_file_descriptors none; world = with_memory s m };
        };
      }

  set_up-eq :
      (gdt : List ℕ) (syscalls : ℕ → Option G) (t : Tty) (heap : Heap) (drivers : Drivers F)
      (w : World S)
      → gdt_unstructure (segments image.tss_at) ≡ some gdt
      → kheap_init heap (memory w.files.world) ≡ some (kernel_heap, cleared (memory w.files.world))
      → syscall_register_all (calls (found memory with_memory fat16_fs w).0 kernel_heap)
        ≡ some syscalls
      → kernel_set_up memory with_memory image handlers fat16_fs calls t heap drivers w
        ≡ some (built gdt syscalls t drivers w)
  unfolding kernel_set_up
  set_up-eq gdt syscalls t heap drivers w e f g = rw (e, f, fs_load-eq fat16_fs, g) refl

  -- The kernel sets itself up without a panic, whatever the disk is, where what is written to memory is
  -- read back, the addresses of the image are 32-bit numbers, and the search of the disk leaves room for 1026 pages in the kernel's heap and at most 255 system calls are registered: its table of
  -- segments reads back as it is written in the source, its page directory translates every address to
  -- itself, and the system calls, the vectors and the callbacks of the interrupts lead to their functions.
  pub set_up-Booted :
      (n : ℕ) (t : Tty) (heap : Heap) (drivers : Drivers F) (w : World S)
      → ((s : S) (m : Memory) → memory (with_memory s m) ≡ m)
      → image.tss_at < 2 ^ 32
      → image.idt_zero < 2 ^ 32
      → image.syscall_wrapper < 2 ^ 32
      → length (calls (found memory with_memory fat16_fs w).0 kernel_heap) ≤ 255
      → Room (memory (found memory with_memory fat16_fs w).1) n 1026
      → (b : Boot S F G) × (kernel_set_up memory with_memory image handlers fat16_fs calls t heap
            drivers w
          ≡ some b)
        × Booted drivers b
  set_up-Booted n t heap drivers w law tss_low zero_low wrapper_low few room =
      let s : S = (found memory with_memory fat16_fs w).1 in
      let made : ℕ × Memory = paging_new kernel_heap paging_flags (memory s) in
      let (gdt, encoded, table) =
        unstructure-ReadsAll (segments image.tss_at) (segments-Encodable image.tss_at tss_low) in
      let (ready, clear) = kheap_init-Room heap (memory w.files.world) in
      let (syscalls, registered, invoked) =
        invoke-register_all (calls (found memory with_memory fat16_fs w).0 kernel_heap) few in
      let (id, phys) = paging_new-Identity paging_flags n (memory s) (omega arith) room in
      let lead = λ (j : ℕ) (lt : j < 512) (low : image.interrupt_ptr_table j < 2 ^ 32).
        idt_init-LeadsTo image.idt_entries_at image.interrupt_ptr_table image.idt_zero
          image.syscall_wrapper handlers.idt_handle_exception handlers.idt_clock
          drivers.int_callbacks zero_low wrapper_low j lt low in
      (
        built gdt syscalls t drivers w,
        set_up-eq gdt syscalls t heap drivers w encoded ready registered,
        record {
          segment_table = table;
          identity = rw (law s made.1) id;
          translation = rw (law s made.1) phys;
          system_calls = invoked;
          vectors = λ j lt low. (lead j lt low).0;
          callbacks = λ j lt low.
              keyboard_callback image handlers _ j
              ∙ ap (λ o. if j == 0x21 then some handlers.ps2_handle_interrupt else o)
                  (lead j lt low).1;
        },
      )
