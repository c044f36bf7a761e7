-- ===== src/Task.antt =====
-- kernel/task/task.c: the tasks and their doubly linked list. A `struct task` stands at its address in
-- a store of its own; the directory that it runs in is built in the byte memory.
pub mod Links
pub mod Interrupts
pub mod Growth
pub mod Removal
pub mod Leaving
pub mod User
pub mod Schedule
pub mod Rounds
mod Tests
use enki_os.Base.{ℕ, none, some, Option, ◌==◌, if◌then◌else◌}
use enki_os.Base.Int.{ℤ, pos, ◌==ℤ◌}
use enki_os.Base.Memory.{Memory}
use enki_os.Heap.{Heap}
use enki_os.Kheap.{kzalloc, kfree}
use enki_os.Paging.{paging_new, paging_free, paging_get_phys_addr}
use enki_os.Base.Word.{load32}
use enki_os.Status.{eio}

-- Also the fields of `struct interrupt_frame`, less the reserved word that nothing reads.
pub record Registers : Type 0 where
  pub edi : ℕ
  pub esi : ℕ
  pub ebp : ℕ
  pub ebx : ℕ
  pub edx : ℕ
  pub ecx : ℕ
  pub eax : ℕ
  pub ip : ℕ
  pub cs : ℕ
  pub flags : ℕ
  pub esp : ℕ
  pub ss : ℕ

pub record Task : Type 0 where
  pub page_dir : ℕ
  pub registers : Registers
  pub next : ℕ
  pub prev : ℕ
  pub process : ℕ

pub record Tasks : Type 0 where
  pub current : ℕ
  pub head : ℕ
  pub tail : ℕ
  pub at : ℕ → Task

-- A write to the struct at an address.
abbrev pub put_task : Tasks → ℕ → Task → Tasks
put_task s a t = record s { at = λ b. if b == a then t else s.at b }

abbrev pub set_next : ℕ → ℕ → Tasks → Tasks
set_next a next s = put_task s a (record (s.at a) { next = next })

abbrev pub set_prev : ℕ → ℕ → Tasks → Tasks
set_prev a prev s = put_task s a (record (s.at a) { prev = prev })

unfoldable pub task_get_next : Tasks → ℕ
task_get_next s = if (s.at s.current).next == 0 then s.head else (s.at s.current).next

unfoldable pub task_list_remove : ℕ → Tasks → Tasks
task_list_remove task s =
    let s = if (s.at task).prev == 0 then s else set_next (s.at task).prev (s.at task).next s in
    if task == s.head
    then record s { head = (s.at task).next }
    else if task == s.tail
    then record s { tail = (s.at task).prev }
    else if task == s.current
    then record s { current = task_get_next s }
    else s

unfoldable pub task_free : Heap → ℕ → Tasks → Memory → Tasks × Memory
task_free heap task s m =
    let m = paging_free heap (s.at task).page_dir m in (task_list_remove task s, kfree heap task m)

abbrev pub no_registers : Registers
no_registers = record {
  edi = 0;
  esi = 0;
  ebp = 0;
  ebx = 0;
  edx = 0;
  ecx = 0;
  eax = 0;
  ip = 0;
  cs = 0;
  flags = 0;
  esp = 0;
  ss = 0;
}

-- What memset leaves.
abbrev pub no_task : Task
no_task = record { page_dir = 0; registers = no_registers; next = 0; prev = 0; process = 0 }

-- PAGING_IS_PRESENT | PAGING_ACCESS_FROM_ALL
abbrev pub task_flags : ℕ
task_flags = 0b00000101

abbrev pub new_task : ℕ → ℕ → ℕ → Task
new_task page_dir ip proc = record no_task {
  page_dir = page_dir;
  registers = record no_registers { ip = ip; ss = 0x23; cs = 0x1B; esp = 0x3FF000 };
  process = proc;
}

-- `ip` is the entry of the process's ELF file, or 0x400000 for a binary.
unfoldable pub task_init : Heap → ℕ → ℕ → ℕ → Tasks → Memory → ℤ × Tasks × Memory
task_init heap task proc ip s m =
    let (page_dir, m) = paging_new heap task_flags m in
    if page_dir == 0
    then (eio, put_task s task no_task, m)
    else (pos 0, put_task s task (new_task page_dir ip proc), m)

-- The last lines of `task_new`: a task that has been initialised joins the list at its tail.
unfoldable pub link_task : ℕ → Tasks → Tasks
link_task task s =
    let s =
      if s.head == 0
      then record s { head = task; current = task }
      else set_prev task s.tail (set_next s.tail task s) in
    record s { tail = task }

abbrev pub task_size : ℕ
task_size = 64

-- The address of the task, or 0.
unfoldable pub task_new : Heap → ℕ → ℕ → Tasks → Memory → ℕ × Tasks × Memory
task_new heap proc ip s m =
    let (task, m) = kzalloc heap task_size m in
    let (status, s', m') = task_init heap task proc ip s m in
    let failed = task_free heap task s' m' in
    if task == 0
    then (0, s, m)
    else if status ==ℤ pos 0
    then (task, link_task task s', m')
    else (0, failed.0, failed.1)

-- The task that runs, and the page directory that is loaded.
unfoldable pub task_switch : ℕ → Tasks → Tasks × ℕ
task_switch task s = (record s { current = task }, (s.at task).page_dir)

-- None where the kernel panics; the registers are those that the processor goes on with.
unfoldable pub task_switch_next : Tasks → Option (Tasks × ℕ × Registers)
task_switch_next s =
    let next = task_get_next s in
    let (s', dir) = task_switch next s in
    if next == 0 then none else some (s', dir, (s.at next).registers)

unfoldable pub task_run_first : Tasks → Option (Tasks × ℕ × Registers)
task_run_first s =
    let (s', dir) = task_switch s.head s in
    if s.current == 0 then none else some (s', dir, (s.at s.head).registers)

unfoldable pub task_save_state : ℕ → Registers → Tasks → Tasks
task_save_state task frame s = put_task s task (record (s.at task) {
  registers = record {
    ip = frame.ip;
    cs = frame.cs;
    flags = frame.flags;
    esp = frame.esp;
    ss = frame.ss;
    eax = frame.eax;
    ebp = frame.ebp;
    ebx = frame.ebx;
    ecx = frame.ecx;
    edi = frame.edi;
    edx = frame.edx;
    esi = frame.esi;
  };
})

-- None where the kernel panics.
unfoldable pub task_current_save_state : Registers → Tasks → Option Tasks
task_current_save_state frame s =
    if s.current == 0 then none else some (task_save_state s.current frame s)

unfoldable pub task_virt_to_phys_addr : ℕ → ℕ → Tasks → Memory → ℕ
task_virt_to_phys_addr task virt_addr s m =
    paging_get_phys_addr (load32 m (s.at task).page_dir) virt_addr m
