-- ===== src/Syscall/Calls.antt =====
-- kernel/kernel/syscall.c: the system calls, on the state of the whole kernel, and how one is handled.
-- `translate` is the processor's translation of addresses, `fuel` bounds the loops over a text or a list.
use enki_os.Base.{
  ℕ, zero, suc, ◌+◌, ◌%◌, ◌^◌, ◌||◌, none, some, Option, List, [], ◌∷◌, ◌==◌, if◌then◌else◌, take,
  ◌>>=◌,
}
use enki_os.Base.Int.{ℤ, is_neg}
use enki_os.Base.Memory.{Memory}
use enki_os.Base.Word.{load32, store32}
use enki_os.Status.{einvarg}
use enki_os.Heap.{Heap}
use enki_os.File.Calls.{FileSystem, Disk}
use enki_os.Fat16.{unsigned}
use enki_os.Keyboard.{KeyboardBuffer, keyboard_pop}
use enki_os.Tty.{Tty, tty_writechar, tty_writestr}
use enki_os.Task.{
  Tasks, Registers, task_switch, task_switch_next, task_current_save_state, task_virt_to_phys_addr,
}
use enki_os.Task.User.{copy_str_from_task, task_get_stack_item}
use enki_os.Process.Allocations.{process_malloc, process_free, process_inject_args}
use enki_os.Process.Life.{
  World, ram, set_ram, set_process, process_load_switch, process_terminate, process_new_shell,
}
use enki_os.Syscall.{syscall_register, syscall_invoke}

pub record Kernel {ℓ} (S : Type ℓ) : Type ℓ where
  pub world : World S
  pub keyboards : ℕ → KeyboardBuffer
  pub args : ℕ → ℕ × ℕ
  pub screen : Tty

-- A call answers, or goes on in another task for good.
pub data Return {ℓ} (S : Type ℓ) : Type ℓ where
  returns : ℕ → Kernel S → Return S
  enters : Kernel S → ℕ → Registers → Return S

-- The text at an address, without its NUL.
unfoldable pub text_at : ℕ → ℕ → Memory → Option (List ℕ)
text_at zero p m = none
text_at (suc fuel) p m =
    let rest = text_at fuel (p + 1) m >>= λ s. some (m p ∷ s) in if m p == 0 then some [] else rest

-- The addresses of a list of arguments.
unfoldable pub cmd_args : ℕ → ℕ → Memory → Option (List ℕ)
cmd_args zero arg m = none
cmd_args (suc fuel) arg m =
    let rest = cmd_args fuel (load32 m (arg + 512)) m >>= λ args. some (arg ∷ args) in
    if arg == 0 then some [] else rest

-- "0:/" in front of a program's name.
abbrev pub on_drive : List ℕ → List ℕ
on_drive name = b'0' ∷ b':' ∷ b'/' ∷ name

module _ {ℓ} {S : Type ℓ} (fs : FileSystem S) (disk : Disk S) (heap : Heap) (memory : S → Memory)
    (with_memory : S → Memory → S) (translate : ℕ → ℕ → Memory → ℕ) (depth fuel : ℕ) where
  abbrev pub kernel_ram : Kernel S → Memory
  kernel_ram k = ram fs disk heap memory with_memory k.world

  abbrev pub set_kernel_ram : Memory → Kernel S → Kernel S
  set_kernel_ram m k = record k { world = set_ram fs disk heap memory with_memory m k.world }

  abbrev pub current_task : Kernel S → ℕ
  current_task k = k.world.tasks.current

  abbrev pub current_process : Kernel S → ℕ
  current_process k = (k.world.tasks.at (current_task k)).process

  -- The page directory of a process's task.
  abbrev pub process_dir : ℕ → Kernel S → ℕ
  process_dir proc k = (k.world.tasks.at (k.world.procs proc).task).page_dir

  abbrev pub stack_item : ℕ → Kernel S → ℕ
  stack_item idx k = task_get_stack_item translate (current_task k) idx k.world.tasks (kernel_ram k)

  -- `kernel_buffer` is the address of the local buffer.
  unfoldable pub syscall_1_print : ℕ → Kernel S → Option (Return S)
  syscall_1_print kernel_buffer k =
      let (_, m) =
        copy_str_from_task translate heap (current_task k) (stack_item 0 k) kernel_buffer 1024
          k.world.tasks (kernel_ram k) in
      text_at fuel kernel_buffer m >>= λ text.
      some (returns 0 (record (set_kernel_ram m k) { screen = tty_writestr text k.screen }))

  abbrev pub keep_keyboard : ℕ → Option KeyboardBuffer → Kernel S → Kernel S
  keep_keyboard proc none k = k
  keep_keyboard proc (some buffer) k = record k {
    keyboards = λ p. if p == proc then buffer else k.keyboards p;
  }

  unfoldable pub syscall_2_getkey : Kernel S → Option (Return S)
  syscall_2_getkey k =
      let proc = current_process k in
      let buffer = if current_task k == 0 then none else some (k.keyboards proc) in
      let (c, buffer') = keyboard_pop buffer in some (returns c (keep_keyboard proc buffer' k))

  unfoldable pub syscall_3_putchar : Kernel S → Option (Return S)
  syscall_3_putchar k =
      let c = stack_item 0 k % 2 ^ 8 in
      some (returns 0 (record k { screen = tty_writechar c 15 k.screen }))

  unfoldable pub syscall_4_malloc : Kernel S → Option (Return S)
  syscall_4_malloc k =
      let proc = current_process k in
      let p = k.world.procs proc in
      let (ptr, table, m) =
        process_malloc heap (process_dir proc k) (stack_item 0 k) p.allocations (kernel_ram k) in
      let k1 = set_kernel_ram m k in
      some (
        returns ptr (record k1 {
          world =
              set_process fs disk heap memory with_memory proc (record p { allocations = table })
                k1.world;
        }))

  unfoldable pub syscall_5_free : Kernel S → Option (Return S)
  syscall_5_free k =
      let proc = current_process k in
      let p = k.world.procs proc in
      let (table, m) =
        process_free heap (process_dir proc k) (stack_item 0 k) p.allocations (kernel_ram k) in
      let k1 = set_kernel_ram m k in
      some (
        returns 0 (record k1 {
          world =
              set_process fs disk heap memory with_memory proc (record p { allocations = table })
                k1.world;
        }))

  abbrev pub load_program : List ℕ → Kernel S → Option (ℤ × ℕ × World S)
  load_program path k =
      process_load_switch fs disk heap memory with_memory
        (process_new_shell fs disk heap memory with_memory depth fuel) fuel path k.world

  -- The new process's task runs.
  abbrev pub start : ℕ → Kernel S → Return S
  start proc k =
      let task = (k.world.procs proc).task in
      let (tasks, dir) = task_switch task k.world.tasks in
      enters (record k { world = record k.world { tasks = tasks } }) dir
        (k.world.tasks.at task).registers

  unfoldable pub syscall_6_proc_start : ℕ → Kernel S → Option (Return S)
  syscall_6_proc_start file_name k =
      let (result, m) =
        copy_str_from_task translate heap (current_task k) (stack_item 0 k) file_name 108
          k.world.tasks (kernel_ram k) in
      let k1 = set_kernel_ram m k in
      let started = text_at fuel file_name m >>= λ name.
      load_program (on_drive name) k1 >>= λ loaded.
      let k2 = record k1 { world = loaded.2 } in
      some (if is_neg loaded.0 then returns (unsigned loaded.0) k2 else start loaded.1 k2) in
      if is_neg result then some (returns (unsigned result) k1) else started

  -- argc and argv of a process, where they are set.
  abbrev pub set_args : ℕ → Option (ℕ × ℕ) → Kernel S → Kernel S
  set_args proc none k = k
  set_args proc (some a) k = record k { args = λ p. if p == proc then a else k.args p }

  unfoldable pub syscall_7_system : Kernel S → Option (Return S)
  syscall_7_system k =
      let m = kernel_ram k in
      let arg = task_virt_to_phys_addr (current_task k) (stack_item 0 k) k.world.tasks m in
      let loaded_with = λ (loaded : ℤ × ℕ × World S) (args : List ℕ).
        let k1 = record k { world = loaded.2 } in
        let proc = loaded.1 in
        let p = loaded.2.procs proc in
        let (result, set', table, m1) =
          process_inject_args heap (process_dir proc k1) args p.allocations (kernel_ram k1) in
        let k2 = set_args proc set' (set_kernel_ram m1 k1) in
        let k3 = record k2 {
          world =
              set_process fs disk heap memory with_memory proc (record p { allocations = table })
                k2.world;
        } in
        if is_neg result then returns (unsigned result) k3 else start proc k3 in
      let run = text_at fuel arg m >>= λ name.
      load_program (on_drive (take 107 name)) k >>= λ loaded.
      let k1 = record k { world = loaded.2 } in
      let injected = cmd_args fuel arg (kernel_ram k1) >>= λ args. some (loaded_with loaded args) in
      if is_neg loaded.0 then some (returns (unsigned loaded.0) k1) else injected in
      if arg == 0 || m arg == 0 then some (returns (unsigned einvarg) k) else run

  unfoldable pub syscall_8_pgm_args : Kernel S → Option (Return S)
  syscall_8_pgm_args k =
      let m = kernel_ram k in
      let args = task_virt_to_phys_addr (current_task k) (stack_item 0 k) k.world.tasks m in
      let (argc, argv) = k.args (current_process k) in
      some (returns 0 (set_kernel_ram (store32 (store32 m args argc) (args + 4) argv) k))

  abbrev pub entered : Kernel S → Option (Tasks × ℕ × Registers) → Option (Return S)
  entered k none = none
  entered k (some (tasks, dir, registers)) =
      some (enters (record k { world = record k.world { tasks = tasks } }) dir registers)

  unfoldable pub syscall_9_exit : Kernel S → Option (Return S)
  syscall_9_exit k =
      process_terminate fs disk heap memory with_memory
        (process_new_shell fs disk heap memory with_memory depth fuel) (current_process k) k.world
      >>= λ w. entered (record k { world = w }) (task_switch_next w.tasks)

  -- The call that the table has for an index, 0 without one.
  abbrev pub run_call : Option (Kernel S → Option (Return S)) → Kernel S → Option (Return S)
  run_call none k = some (returns 0 k)
  run_call (some call) k = call k

  unfoldable pub syscall_handler :
      (ℕ → Option (Kernel S → Option (Return S))) → ℕ → Registers → Kernel S → Option (Return S)
  syscall_handler syscalls idx frame k = task_current_save_state frame k.world.tasks >>= λ tasks.
      run_call (syscall_invoke idx syscalls) (record k { world = record k.world { tasks = tasks } })

  -- The calls that syscall_register_all registers, from number 1 on, with the addresses of the local
  -- buffers of the first and the sixth.
  abbrev pub all_calls : ℕ → ℕ → List (Kernel S → Option (Return S))
  all_calls kernel_buffer file_name =
      syscall_1_print kernel_buffer
      ∷ syscall_2_getkey
      ∷ syscall_3_putchar
      ∷ syscall_4_malloc
      ∷ syscall_5_free
      ∷ syscall_6_proc_start file_name
      ∷ syscall_7_system
      ∷ syscall_8_pgm_args
      ∷ syscall_9_exit
      ∷ []

module _ {κ} {F : Type κ} where
  -- The calls 1 to 9 in their order; none where the kernel panics.
  unfoldable pub register_from : ℕ → List F → (ℕ → Option F) → Option (ℕ → Option F)
  register_from idx [] syscalls = some syscalls
  register_from idx (fn ∷ fns) syscalls =
      syscall_register idx fn syscalls >>= λ syscalls'. register_from (idx + 1) fns syscalls'

  unfoldable pub syscall_register_all : List F → Option (ℕ → Option F)
  syscall_register_all fns = register_from 1 fns (λ idx. none)
