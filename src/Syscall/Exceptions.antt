-- ===== src/Syscall/Exceptions.antt =====
-- kernel/kernel/idt.c: what an exception of the processor does to the process that runs.
use enki_os.Base.{
  ℕ, ◌<◌, ◌≡◌, ◌≢◌, ◌∙◌, refl, ap, false, arith, some, Option, List, ◌∷◌, ◌++◌, ◌==◌, if◌then◌else◌,
  ◌>>=◌,
}
use enki_os.Base.Memory.{Memory}
use enki_os.Heap.{Heap}
use enki_os.File.Calls.{FileSystem, Disk}
use enki_os.Task.{Tasks, task_get_next, task_list_remove, task_switch, task_switch_next}
use enki_os.Task.Links.{IsTaskList}
use enki_os.Task.Leaving.{successor, get_next-task_list_remove}
use enki_os.Process.Loaded.{process_terminate_slot}
use enki_os.Process.Life.{process_terminate, process_new_shell}
use enki_os.Syscall.Calls.{Kernel, Return, enters, current_process, entered, syscall_9_exit}

module _ {ℓ} {S : Type ℓ} (fs : FileSystem S) (disk : Disk S) (heap : Heap) (memory : S → Memory)
    (with_memory : S → Memory → S) (translate : ℕ → ℕ → Memory → ℕ) (depth fuel : ℕ) where
  unfoldable pub idt_handle_exception : Kernel S → Option (Return S)
  idt_handle_exception k =
      let proc = current_process fs disk heap memory with_memory translate depth fuel k in
      process_terminate fs disk heap memory with_memory
        (process_new_shell fs disk heap memory with_memory depth fuel) proc k.world
      >>= λ w.
          entered fs disk heap memory with_memory translate depth fuel (record k { world = w })
            (task_switch_next w.tasks)

  -- An exception ends a process as the call to exit does.
  exception-exit :
      (k : Kernel S)
      → idt_handle_exception k
        ≡ syscall_9_exit fs disk heap memory with_memory translate depth fuel k
  unfolding idt_handle_exception syscall_9_exit
  exception-exit k = refl

  -- What the processor goes on with.
  entered-eq :
      (k : Kernel S) (s : Tasks)
      → 0 < task_get_next s
      → entered fs disk heap memory with_memory translate depth fuel k (task_switch_next s)
        ≡ some (
            enters
              (record k {
                world = record k.world { tasks = record s { current = task_get_next s } };
              })
              (s.at (task_get_next s)).page_dir
              (s.at (task_get_next s)).registers)
  unfolding task_switch_next task_switch
  entered-eq k s positive =
      let some_task : (task_get_next s == 0) ≡ false = ground arith in rw some_task refl

  abbrev leaving : Kernel S → ℕ
  leaving k = current_process fs disk heap memory with_memory translate depth fuel k

  -- The task of the process that exits runs and stands between `xs` and `ys` in the list, the process
  -- is not `process_current`, and its task has a successor. The process's slot is freed, and the
  -- processor goes on with the successor, with the page directory and the registers that are kept for
  -- that one; an exception does the same.
  pub exit-successor :
      (k : Kernel S) (xs : List ℕ) (t : ℕ) (ys : List ℕ)
      → IsTaskList k.world.tasks (xs ++ t ∷ ys)
      → k.world.tasks.current ≡ t
      → (k.world.procs (leaving k)).task ≡ t
      → k.world.process_current ≢ leaving k
      → 0 < successor xs ys
      → (k' : Kernel S) × (syscall_9_exit fs disk heap memory with_memory translate depth fuel k
          ≡ some (
              enters k'
                (k'.world.tasks.at (successor xs ys)).page_dir
                (k'.world.tasks.at (successor xs ys)).registers))
        × (idt_handle_exception k
            ≡ syscall_9_exit fs disk heap memory with_memory translate depth fuel k)
        × (k'.world.tasks.current ≡ successor xs ys)
        × (k'.world.processes
            ≡ (λ i. if i == (k.world.procs (leaving k)).id then 0 else k.world.processes i))
  unfolding syscall_9_exit
  exit-successor k xs t ys ok running own other positive =
      let (w, ended, slots, tasks) =
        process_terminate_slot fs disk heap memory with_memory
          (process_new_shell fs disk heap memory with_memory depth fuel) (leaving k) k.world
          other in
      let next : task_get_next w.tasks ≡ successor xs ys =
        ap task_get_next (tasks ∙ ap (λ a. task_list_remove a k.world.tasks) own)
        ∙ get_next-task_list_remove k.world.tasks xs t ys ok running in
      let k1 = record k { world = w } in
      (
        record k1 {
          world = record w { tasks = record w.tasks { current = task_get_next w.tasks } };
        },
        rw ended (rw (← next) (entered-eq k1 w.tasks (rw next positive))),
        exception-exit k,
        next,
        slots,
      )
