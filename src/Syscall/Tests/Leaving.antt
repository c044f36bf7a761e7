-- ===== src/Syscall/Tests/Leaving.antt =====
-- syscall.c, idt.c: the end of a process where four tasks take turns.
use enki_os.Base.{◌+◌, ◌-◌, ◌*◌, ◌/◌, ◌≡◌, refl, some, [], ◌∷◌, arith, ltb, ◌==◌, if◌then◌else◌}
use enki_os.Base.Memory.{Memory}
use enki_os.Kheap.Zeroed.{kernel_heap}
use enki_os.Task.{Tasks, no_task}
use enki_os.Task.Links.{IsTaskList}
use enki_os.Process.Life.{no_process}
use enki_os.Syscall.Calls.{Kernel, enters, syscall_9_exit}
use enki_os.Syscall.Exceptions.{idt_handle_exception, exit-successor}
use enki_os.Syscall.Tests.{itself, itself_disk, stack_of, running}

-- Four tasks, of which the second runs.
abbrev four_tasks : Tasks
four_tasks = record {
  current = 20;
  head = 10;
  tail = 40;
  at = λ a. record no_task {
    next = if ltb a 40 then a + 10 else 0;
    prev = a - 10;
    process = a * 4096;
  };
}

four_tasks-IsTaskList : IsTaskList four_tasks (10 ∷ 20 ∷ 30 ∷ 40 ∷ [])
four_tasks-IsTaskList = record {
  head = refl;
  tail = refl;
  chain = (
    omega arith,
    refl,
    refl,
    (omega arith, refl, refl, (omega arith, refl, refl, (omega arith, refl, refl, tt))),
  );
  distinct = (
    (omega arith, (omega arith, (omega arith, tt))),
    ((omega arith, (omega arith, tt)), ((omega arith, tt), (tt, tt))),
  );
}

abbrev multitasking : Kernel Memory
multitasking = record running {
  world = record running.world {
    tasks = four_tasks;
    procs = λ p. record no_process { task = p / 4096 };
    processes = λ i. (i + 1) * 40960;
    process_current = 40960;
  };
}

-- The third task misses its turn: the fourth goes on.
exit-successor_example :
    (k' : Kernel Memory) × (syscall_9_exit itself itself_disk kernel_heap
        (λ s. s)
        (λ s m. m)
        stack_of
        1
        9
        multitasking
      ≡ some (enters k' (k'.world.tasks.at 40).page_dir (k'.world.tasks.at 40).registers))
    × (idt_handle_exception itself itself_disk kernel_heap
          (λ s. s)
          (λ s m. m)
          stack_of
          1
          9
          multitasking
        ≡ syscall_9_exit itself itself_disk kernel_heap
            (λ s. s)
            (λ s m. m)
            stack_of
            1
            9
            multitasking)
    × (k'.world.tasks.current ≡ 40)
    × (k'.world.processes ≡ (λ i. if i == 0 then 0 else multitasking.world.processes i))
exit-successor_example =
    exit-successor itself itself_disk kernel_heap (λ s. s) (λ s m. m) stack_of 1 9 multitasking
      (10 ∷ []) 20 (30 ∷ 40 ∷ []) four_tasks-IsTaskList refl refl (omega arith) (omega arith)
