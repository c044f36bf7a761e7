-- ===== src/Task/Tests.antt =====
-- Three tasks, and runs over them.
use enki_os.Base.{ℕ, ◌≤◌, ◌≡◌, refl, inr, some, List, [], ◌∷◌, arith}
use enki_os.Base.Memory.{Memory}
use enki_os.Heap.{
  Heap, heap_malloc, heap_get_start_block, heap_get_entry_type, heap_block_to_address,
}
use enki_os.Kheap.{kernel_heap_table, kzalloc}
use enki_os.Task.{
  Tasks, Registers, no_registers, task_size, link_task, task_list_remove, task_new, task_get_next,
}
use enki_os.Task.Interrupts.{returned}
use enki_os.Task.Links.{Absent, IsTaskList}
use enki_os.Task.Schedule.{Runs, ticks}
use enki_os.Task.Rounds.{GoesOn, ticks-current, ticks-registers}
use enki_os.Task.Removal.{Nexts, task_list_remove-Nexts, task_list_remove-twice}
use enki_os.Task.Growth.{Valid, grown, no_tasks, task_new-Valid, created, here, next, Reach-Valid}

abbrev three_tasks : Tasks
unfolding link_task
three_tasks = link_task 30 (link_task 20 (link_task 10 no_tasks))

three_tasks-IsTaskList : IsTaskList three_tasks (10 ∷ 20 ∷ 30 ∷ [])
unfolding three_tasks link_task
three_tasks-IsTaskList = record {
  head = refl;
  tail = refl;
  chain = (omega arith, refl, refl, (omega arith, refl, refl, (omega arith, refl, refl, tt)));
  distinct = ((omega arith, (omega arith, tt)), ((omega arith, tt), (tt, tt)));
}

three_tasks-Runs : Runs three_tasks (10 ∷ 20 ∷ 30 ∷ []) 0
unfolding three_tasks link_task
three_tasks-Runs = record { tasks = three_tasks-IsTaskList; current = refl }

goes_round : task_get_next (record three_tasks { current = 30 }) ≡ 10
unfolding task_get_next link_task three_tasks
goes_round = refl

-- An interrupt's frame.
abbrev frame : ℕ → Registers
frame ip = record no_registers { ip = ip }

ticks-current_example :
    (2 ≤ 3)
    × ((out : Tasks × ℕ × Registers) × (ticks returned
            (frame 1 ∷ frame 2 ∷ [])
            (three_tasks, 0, frame 0)
          ≡ some out)
        × GoesOn three_tasks (10 ∷ 20 ∷ 30 ∷ []) 2 30 (three_tasks.at 30).registers out)
ticks-current_example =
    ticks-current returned (frame 1 ∷ frame 2 ∷ []) three_tasks 0 (frame 0) (10 ∷ 20 ∷ 30 ∷ []) 0 2
      30 three_tasks-Runs refl (omega arith) refl

ticks-registers_example :
    (out : Tasks × ℕ × Registers) × (ticks returned
        (frame 1 ∷ frame 2 ∷ frame 3 ∷ [])
        (three_tasks, 0, frame 0)
      ≡ some out)
    × GoesOn three_tasks (10 ∷ 20 ∷ 30 ∷ []) 0 three_tasks.current (frame 1) out
ticks-registers_example =
    ticks-registers returned (frame 1) (frame 2 ∷ frame 3 ∷ []) three_tasks 0 (frame 0)
      (10 ∷ 20 ∷ 30 ∷ []) 0 three_tasks-Runs refl

task_list_remove-Nexts_example :
    ((task_list_remove 20 three_tasks).head ≡ 10)
    × Nexts (task_list_remove 20 three_tasks).at (10 ∷ 30 ∷ [])
task_list_remove-Nexts_example =
    task_list_remove-Nexts three_tasks (10 ∷ []) 20 (30 ∷ []) three_tasks-IsTaskList

task_list_remove-twice_example :
    (((task_list_remove 30 (task_list_remove 20 three_tasks)).at 10).next ≡ 30)
    × (((task_list_remove 30 (task_list_remove 20 three_tasks)).at 20).next ≡ 0)
task_list_remove-twice_example =
    task_list_remove-twice three_tasks 10 [] 20 30 [] three_tasks-IsTaskList

-- A heap with all its blocks free.
abbrev heap : Heap
heap = record { table = kernel_heap_table; start_addr = 0x01000000 }

abbrev empty_memory : Memory
empty_memory a = 0

three_tasks-Valid : Valid three_tasks (10 ∷ 20 ∷ 30 ∷ [])
unfolding three_tasks link_task
three_tasks-Valid = record { tasks = three_tasks-IsTaskList; current = inr (0, refl) }

task_block : (kzalloc heap task_size empty_memory).0 ≡ 0x1000000
unfolding kzalloc heap_malloc heap_get_start_block heap_get_entry_type heap_block_to_address
task_block = refl

task_new-Valid_example :
    Valid
      (task_new heap 0x2000000 0x400000 three_tasks empty_memory).1
      (grown (10 ∷ 20 ∷ 30 ∷ []) (task_new heap 0x2000000 0x400000 three_tasks empty_memory).0)
task_new-Valid_example =
    task_new-Valid heap 0x2000000 0x400000 three_tasks empty_memory (10 ∷ 20 ∷ 30 ∷ [])
      three_tasks-Valid (rw task_block (omega arith, (omega arith, (omega arith, tt))))

no_tasks_only : (a : ℕ) (xs : List ℕ) → Valid no_tasks xs → Absent a xs
no_tasks_only a [] v = tt
no_tasks_only a (x ∷ xs) v = absurd (omega (arith, v.tasks.head, v.tasks.chain.0))

Reach-Valid_example :
    (xs : List ℕ) × Valid (task_new heap 0x2000000 0x400000 no_tasks empty_memory).1 xs
Reach-Valid_example =
    Reach-Valid {heap = heap} {handler = returned} {m = empty_memory}
      (next here (created 0x2000000 0x400000 no_tasks empty_memory (no_tasks_only _)))
