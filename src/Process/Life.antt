-- ===== src/Process/Life.antt =====
-- kernel/task/process.c: a process from its file to its end, through the calls on files, the loader, the
-- heap, the paging and the tasks. `struct process` stands at its address in a store of its own, as the
-- tasks do.
use enki_os.Base.{
  ℕ, zero, suc, ◌+◌, not, none, some, Option, List, [], ◌∷◌, ◌==◌, if◌then◌else◌, take, ◌>>=◌,
  replicate,
}
use enki_os.Base.Int.{ℤ, pos, pos_part, is_neg, ◌==ℤ◌}
use enki_os.Base.Memory.{Memory}
use enki_os.Base.Word.{load32}
use enki_os.Status.{eio, enomem, einvfmt, eistkn}
use enki_os.Heap.{Heap}
use enki_os.Kheap.{kzalloc, kfree}
use enki_os.File.Calls.{FileSystem, Disk, Files, fopen, fread, fclose, fstat}
use enki_os.Elf.{ElfFile}
use enki_os.Elf.Load.{
  elf_header, elf_program_header, e_phnum, loaded_at, size_of, elf_load, elf_close,
}
use enki_os.Task.{Tasks, task_new, task_free}
use enki_os.Process.{
  Segment, ProcessMemory, bin, elf, pgm_virt_addr, user_pgm_stack_size, process_map_memory,
  max_processes, is_taken, process_get, process_get_free_slot,
}
use enki_os.Process.Allocations.{
  Allocation, no_allocation, max_pgm_allocations, process_free_allocations,
}

-- `file_type`, and what the union holds: an ELF file at its address, or a binary and its size.
pub data PgmData : Type 0 where
  elf_data : ℕ → ElfFile → PgmData
  bin_data : ℕ → ℕ → PgmData

pub record Process : Type 0 where
  pub id : ℕ
  pub file_name : List ℕ
  pub pgm : PgmData
  pub task : ℕ
  pub stack : ℕ
  pub allocations : List Allocation

pub record World {ℓ} (S : Type ℓ) : Type ℓ where
  pub files : Files S
  pub tasks : Tasks
  pub procs : ℕ → Process
  pub processes : ℕ → ℕ
  pub process_current : ℕ

-- What memset leaves: an ELF file at the null pointer.
abbrev pub no_process : Process
no_process = record {
  id = 0;
  file_name = [];
  pgm = elf_data 0 (loaded_at 0);
  task = 0;
  stack = 0;
  allocations = replicate max_pgm_allocations no_allocation;
}

-- sizeof(struct process)
abbrev pub process_size : ℕ
process_size = 9360

-- for (; n rounds; i++), the program headers as they are mapped
unfoldable pub segments : ℕ → ℕ → Memory → ℕ → List Segment
segments zero i m header = []
segments (suc n) i m header =
    let phdr = elf_program_header m header i in
    record {
      p_offset = load32 m (phdr + 4);
      p_vaddr = load32 m (phdr + 8);
      p_memsz = load32 m (phdr + 20);
      p_flags = load32 m (phdr + 24);
    }
    ∷ segments n (i + 1) m header

unfoldable pub pgm_memory : Memory → PgmData → ProcessMemory
pgm_memory m (elf_data p file) =
    elf file.elf_memory (segments (e_phnum m file.elf_memory) 0 m file.elf_memory)
pgm_memory m (bin_data addr size) = bin addr size

-- Where a task of the process starts.
unfoldable pub pgm_entry : Memory → PgmData → ℕ
pgm_entry m (elf_data p file) = (elf_header m file.elf_memory).e_entry
pgm_entry m (bin_data addr size) = pgm_virt_addr

unfoldable pub process_free_pgm_data : Heap → PgmData → Memory → Memory
process_free_pgm_data heap (elf_data p file) m = elf_close heap p file m
process_free_pgm_data heap (bin_data addr size) m = kfree heap addr m

-- The table of processes, 0 for a free slot.
abbrev pub slots_of : (ℕ → ℕ) → ℕ → Option ℕ
slots_of processes i = if processes i == 0 then none else some (processes i)

module _ {ℓ} {S : Type ℓ} (fs : FileSystem S) (disk : Disk S) (heap : Heap) (memory : S → Memory)
    (with_memory : S → Memory → S) where
  abbrev pub ram : World S → Memory
  ram w = memory w.files.world

  abbrev pub set_ram : Memory → World S → World S
  set_ram m w = record w { files = record w.files { world = with_memory w.files.world m } }

  abbrev pub set_process : ℕ → Process → World S → World S
  set_process a proc w = record w { procs = λ b. if b == a then proc else w.procs b }

  abbrev pub set_pgm : ℕ → PgmData → World S → World S
  set_pgm a pgm w = set_process a (record (w.procs a) { pgm = pgm }) w

  abbrev pub keep_elf : ℕ → ℕ → ℤ → Option ElfFile → World S → ℤ × World S
  keep_elf proc p result none w = (result, w)
  keep_elf proc p result (some file) w = (result, set_pgm proc (elf_data p file) w)

  unfoldable pub process_load_elf : ℕ → List ℕ → ℕ → World S → Option (ℤ × World S)
  process_load_elf fuel file_name proc w =
      elf_load fs disk heap memory with_memory fuel file_name w.files >>= λ read.
      some (keep_elf proc read.0 read.1 read.2 (record w { files = read.3 }))

  -- From the open descriptor on.
  unfoldable pub bin_read : ℕ → ℕ → World S → ℤ × World S
  bin_read fd proc w =
      let stat = fstat fs fd w.files in
      let size = size_of stat.1 in
      let (pgm_data, m) = kzalloc heap size (ram w) in
      let w1 = set_ram m w in
      let (result, files2) = fread fs pgm_data size 1 fd w1.files in
      let w2 = record w1 { files = files2 } in
      let w3 = set_ram (kfree heap pgm_data (ram w2)) w2 in
      if not (stat.0 ==ℤ pos 0)
      then (stat.0, record w { files = (fclose heap memory with_memory fs fd w.files).1 })
      else if pgm_data == 0
      then (enomem, record w1 { files = (fclose heap memory with_memory fs fd w1.files).1 })
      else if not (result ==ℤ pos 1)
      then (eio, record w3 { files = (fclose heap memory with_memory fs fd w3.files).1 })
      else (pos 0, set_pgm proc (bin_data pgm_data size) w2)

  -- A descriptor below 0, which `!fd` lets through, is refused as 0 is by the calls that follow.
  unfoldable pub process_load_bin : ℕ → List ℕ → ℕ → World S → Option (ℤ × World S)
  process_load_bin fuel file_name proc w =
      fopen heap memory with_memory disk fuel file_name (b'r' ∷ []) w.files >>= λ opened.
      let w1 = record w { files = opened.1 } in
      some (if opened.0 ==ℤ pos 0 then (eio, w1) else bin_read (pos_part opened.0) proc w1)

  unfoldable pub process_load_data : ℕ → List ℕ → ℕ → World S → Option (ℤ × World S)
  process_load_data fuel file_name proc w = process_load_elf fuel file_name proc w >>= λ loaded.
      let as_bin = process_load_bin fuel file_name proc loaded.1 in
      if loaded.0 ==ℤ einvfmt then as_bin else some loaded

  -- The first process of the table, from `i` on.
  unfoldable pub first_process : ℕ → ℕ → (ℕ → ℕ) → ℕ
  first_process zero i processes = 0
  first_process (suc n) i processes =
      let rest = first_process n (i + 1) processes in if processes i == 0 then rest else processes i

  -- What process_terminate does up to process_unlink: the memory and the task are freed.
  unfoldable pub release : ℕ → World S → World S
  release proc w =
      let p = w.procs proc in
      let (table, m1) =
        process_free_allocations heap (w.tasks.at p.task).page_dir p.allocations (ram w) in
      let m2 = kfree heap p.stack (process_free_pgm_data heap p.pgm m1) in
      let (tasks, m3) = task_free heap p.task w.tasks m2 in
      set_process proc (record p { allocations = table }) (record (set_ram m3 w) { tasks = tasks })

  abbrev pub set_slot : ℕ → ℕ → World S → World S
  set_slot slot proc w = record w { processes = λ i. if i == slot then proc else w.processes i }

  -- A shell that cannot be loaded panics: none. `shell` is process_new_shell.
  unfoldable pub process_unlink : (World S → Option (World S)) → ℕ → World S → Option (World S)
  process_unlink shell proc w =
      let w1 = set_slot (w.procs proc).id 0 w in
      let any = first_process max_processes 0 w1.processes in
      let next = if any == 0 then shell w1 else some (record w1 { process_current = any }) in
      if w.process_current == proc then next else some w1

  unfoldable pub process_terminate : (World S → Option (World S)) → ℕ → World S → Option (World S)
  process_terminate shell proc w = process_unlink shell proc (release proc w)

  -- A status with which a process that is half built is terminated.
  unfoldable pub give_up : (World S → Option (World S)) → ℤ → ℕ → World S → Option (ℤ × ℕ × World S)
  give_up shell status proc w = process_terminate shell proc w >>= λ w'. some (status, 0, w')

  -- The stack, the task and the map of a process whose data is loaded: the status, the process and the
  -- state.
  unfoldable pub load_rest :
      (World S → Option (World S)) → List ℕ → ℕ → ℕ → World S → Option (ℤ × ℕ × World S)
  load_rest shell file_name proc slot w =
      let (stack, m1) = kzalloc heap user_pgm_stack_size (ram w) in
      let w1 = set_ram m1 w in
      let p : Process = record (w1.procs proc) {
        stack = stack;
        file_name = take 107 file_name;
        id = slot;
      } in
      let w2 = set_process proc p w1 in
      let (task, tasks, m3) = task_new heap proc (pgm_entry (ram w2) p.pgm) w2.tasks (ram w2) in
      let w3 = record (set_ram m3 w2) { tasks = tasks } in
      let w4 = set_process proc (record p { task = task }) w3 in
      let (result, m5) =
        process_map_memory (tasks.at task).page_dir stack (pgm_memory (ram w4) p.pgm) (ram w4) in
      let w5 = set_ram m5 w4 in
      if stack == 0
      then give_up shell enomem proc w1
      else if task == 0
      then give_up shell enomem proc w3
      else if is_neg result
      then some (result, 0, w5)
      else some (result, proc, set_slot slot proc w5)

  unfoldable pub load_slot :
      (World S → Option (World S)) → ℕ → List ℕ → ℕ → World S → Option (ℤ × ℕ × World S)
  load_slot shell fuel file_name slot w =
      let (proc, m1) = kzalloc heap process_size (ram w) in
      let w1 = set_process proc no_process (set_ram m1 w) in
      let loaded = process_load_data fuel file_name proc w1 >>= λ data'.
      let rest = load_rest shell file_name proc slot data'.1 in
      let failed = give_up shell data'.0 proc data'.1 in if is_neg data'.0 then failed else rest in
      if is_taken (process_get slot (slots_of w.processes))
      then some (eistkn, 0, w)
      else if proc == 0
      then some (enomem, 0, set_ram m1 w)
      else loaded

  abbrev pub load_into :
      (ℕ → Option (ℤ × ℕ × World S)) → Option ℕ → World S → Option (ℤ × ℕ × World S)
  load_into load none w = some (eistkn, 0, w)
  load_into load (some slot) w = load slot

  unfoldable pub process_load :
      (World S → Option (World S)) → ℕ → List ℕ → World S → Option (ℤ × ℕ × World S)
  process_load shell fuel file_name w =
      load_into (λ slot. load_slot shell fuel file_name slot w)
        (process_get_free_slot (slots_of w.processes)) w

  unfoldable pub process_load_switch :
      (World S → Option (World S)) → ℕ → List ℕ → World S → Option (ℤ × ℕ × World S)
  process_load_switch shell fuel file_name w = process_load shell fuel file_name w >>= λ loaded.
      some (
        if loaded.0 ==ℤ pos 0
        then (loaded.0, loaded.1, record loaded.2 { process_current = loaded.1 })
        else loaded)

  -- `depth` bounds the shells that are started while a process ends; none also where the kernel
  -- panics. The path is "0:/shell".
  unfoldable pub process_new_shell : ℕ → ℕ → World S → Option (World S)
  process_new_shell zero fuel w = none
  process_new_shell (suc depth) fuel w =
      process_load_switch (process_new_shell depth fuel) fuel
        (b'0' ∷ b':' ∷ b'/' ∷ b's' ∷ b'h' ∷ b'e' ∷ b'l' ∷ b'l' ∷ []) w
      >>= λ loaded. if loaded.0 ==ℤ pos 0 then some loaded.2 else none
