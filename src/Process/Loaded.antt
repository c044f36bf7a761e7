-- ===== src/Process/Loaded.antt =====
-- process.c: the table of processes when a process is loaded.
use mathlib.Core.Option.{none-ne-some, some_inj}
use enki_os.Base.{
  ℕ, ◌<◌, ◌≡◌, ◌≢◌, ◌∙◌, refl, sym, ap, inl, inr, true, false, none, some, Option, List, [], ◌∷◌,
  arith, ◌==◌, ==_self, Bool-cases, if◌then◌else◌, take, ◌>>=◌,
}
use enki_os.Base.Int.{ℤ, pos, pos_part, is_neg, ◌==ℤ◌}
use enki_os.Task.{task_free, task_list_remove}
use enki_os.Base.Memory.{Memory}
use enki_os.Status.{enomem, einvfmt, eistkn}
use enki_os.Heap.{Heap}
use enki_os.Kheap.{kzalloc}
use enki_os.File.Calls.{FileSystem, Disk, fopen, fread, fstat}
use enki_os.Elf.{ElfFile}
use enki_os.Elf.Load.{size_of, elf_load}
use enki_os.Task.{task_new}
use enki_os.Process.{user_pgm_stack_size, process_map_memory, is_taken, process_get}
use enki_os.Process.Life.{
  Process, World, process_size, no_process, slots_of, pgm_memory, pgm_entry, ram, set_ram,
  set_process, set_slot, keep_elf, process_load_elf, bin_read, process_load_bin, process_load_data,
  release, process_unlink, process_terminate, give_up, load_rest, load_slot,
}

other_address : (a b : ℕ) → a ≢ b → (a == b) ≡ false
other_address a b ne = ground arith

nonzero : (a : ℕ) → (a == 0) ≡ false → 0 < a
nonzero a e = ground arith

bind_some {ℓ κ} :
    {A : Type ℓ} {B : Type κ} (o : Option A) (k : A → Option B) (b : B)
    → (o >>= k) ≡ some b
    → (a : A) × (o ≡ some a) × (k a ≡ some b)
bind_some none k b e = absurd (none-ne-some b e)
bind_some (some a) k b e = (a, refl, e)

module _ {ℓ} {S : Type ℓ} (fs : FileSystem S) (disk : Disk S) (heap : Heap) (memory : S → Memory)
    (with_memory : S → Memory → S) where
  keep_elf-processes :
      (proc p : ℕ) (result : ℤ) (file : Option ElfFile) (w : World S)
      → (keep_elf fs disk heap memory with_memory proc p result file w).1.processes ≡ w.processes
  keep_elf-processes proc p result none w = refl
  keep_elf-processes proc p result (some file) w = refl

  bin_read-processes :
      (fd proc : ℕ) (w : World S)
      → (bin_read fs disk heap memory with_memory fd proc w).1.processes ≡ w.processes
  unfolding bin_read
  bin_read-processes fd proc w =
      let stat = fstat fs fd w.files in
      let made = kzalloc heap (size_of stat.1) (ram fs disk heap memory with_memory w) in
      let w1 = set_ram fs disk heap memory with_memory made.1 w in
      let read = fread fs made.0 (size_of stat.1) 1 fd w1.files in
      elim (Bool-cases (stat.0 ==ℤ pos 0)) [
        | inr a ↦ rw a refl
        | inl a ↦ elim (Bool-cases (made.0 == 0)) [
          | inl b ↦ rw (a, b) refl
          | inr b ↦ elim (Bool-cases (read.0 ==ℤ pos 1)) [
            | inr c ↦ rw (a, b, c) refl
            | inl c ↦ rw (a, b, c) refl
          ]
        ]
      ]

  load_elf-processes :
      (fuel : ℕ) (file_name : List ℕ) (proc : ℕ) (w : World S) (out : ℤ × World S)
      → process_load_elf fs disk heap memory with_memory fuel file_name proc w ≡ some out
      → out.1.processes ≡ w.processes
  unfolding process_load_elf
  load_elf-processes fuel file_name proc w out e =
      let (read, _, e') =
        bind_some (elf_load fs disk heap memory with_memory fuel file_name w.files) _ out e in
      sym (ap (λ o. o.1.processes) (some_inj.0 e'))
      ∙ keep_elf-processes proc read.0 read.1 read.2 (record w { files = read.3 })

  load_bin-processes :
      (fuel : ℕ) (file_name : List ℕ) (proc : ℕ) (w : World S) (out : ℤ × World S)
      → process_load_bin fs disk heap memory with_memory fuel file_name proc w ≡ some out
      → out.1.processes ≡ w.processes
  unfolding process_load_bin
  load_bin-processes fuel file_name proc w out e =
      let (opened, _, e') =
        bind_some (fopen heap memory with_memory disk fuel file_name (b'r' ∷ []) w.files) _ out e in
      let read = bin_read-processes (pos_part opened.0) proc (record w { files = opened.1 }) in
      elim (Bool-cases (opened.0 ==ℤ pos 0)) [
        | inl b ↦ sym (ap (λ o. o.1.processes) (some_inj.0 (rw b at e')))
        | inr b ↦ sym (ap (λ o. o.1.processes) (some_inj.0 (rw b at e'))) ∙ read
      ]

  -- Loading the data of a process leaves the table of processes alone.
  load_data-processes :
      (fuel : ℕ) (file_name : List ℕ) (proc : ℕ) (w : World S) (out : ℤ × World S)
      → process_load_data fs disk heap memory with_memory fuel file_name proc w ≡ some out
      → out.1.processes ≡ w.processes
  unfolding process_load_data
  load_data-processes fuel file_name proc w out e =
      let (loaded, first, e') =
        bind_some (process_load_elf fs disk heap memory with_memory fuel file_name proc w) _ out
          e in
      let kept = load_elf-processes fuel file_name proc w loaded first in
      elim (Bool-cases (loaded.0 ==ℤ einvfmt)) [
        | inl b ↦ load_bin-processes fuel file_name proc loaded.1 out (rw b at e') ∙ kept
        | inr b ↦ sym (ap (λ o. o.1.processes) (some_inj.0 (rw b at e'))) ∙ kept
      ]

  give_up-status :
      (shell : World S → Option (World S)) (status : ℤ) (proc : ℕ) (w : World S)
      (out : ℤ × ℕ × World S)
      → give_up fs disk heap memory with_memory shell status proc w ≡ some out
      → out.0 ≡ status
  unfolding give_up
  give_up-status shell status proc w out e =
      let (w', _, e') =
        bind_some (process_terminate fs disk heap memory with_memory shell proc w) _ out e in
      sym (ap (λ o. o.0) (some_inj.0 e'))

  refused :
      (out : ℤ × ℕ × World S) (status : ℤ)
      → out.0 ≡ status
      → is_neg status ≡ true
      → is_neg out.0 ≡ false
      → ⊥
  refused out status e neg ok = let bad : true ≡ false = sym neg ∙ ap is_neg (sym e) ∙ ok in cc

  -- A process that is loaded has its slot; the other slots are as they were.
  load_rest-slot :
      (shell : World S → Option (World S)) (file_name : List ℕ) (proc slot : ℕ) (w : World S)
      (out : ℤ × ℕ × World S)
      → load_rest fs disk heap memory with_memory shell file_name proc slot w ≡ some out
      → is_neg out.0 ≡ false
      → (out.1 ≡ proc) × (out.2.processes ≡ (λ i. if i == slot then proc else w.processes i))
  unfolding load_rest
  load_rest-slot shell file_name proc slot w out e ok =
      let made = kzalloc heap user_pgm_stack_size (ram fs disk heap memory with_memory w) in
      let w1 = set_ram fs disk heap memory with_memory made.1 w in
      let p : Process = record (w1.procs proc) {
        stack = made.0;
        file_name = take 107 file_name;
        id = slot;
      } in
      let w2 = set_process fs disk heap memory with_memory proc p w1 in
      let m2 = ram fs disk heap memory with_memory w2 in
      let new = task_new heap proc (pgm_entry m2 p.pgm) w2.tasks m2 in
      let w3 : World S = record (set_ram fs disk heap memory with_memory new.2 w2) {
        tasks = new.1;
      } in
      let w4 = set_process fs disk heap memory with_memory proc (record p { task = new.0 }) w3 in
      let m4 = ram fs disk heap memory with_memory w4 in
      let mapped = process_map_memory (new.1.at new.0).page_dir made.0 (pgm_memory m4 p.pgm) m4 in
      elim (Bool-cases (made.0 == 0)) [
        | inl a ↦
            absurd
              (refused out enomem (give_up-status shell enomem proc w1 out (rw a at e)) refl ok)
        | inr a ↦ elim (Bool-cases (new.0 == 0)) [
          | inl b ↦ absurd (
              refused out enomem (give_up-status shell enomem proc w3 out (rw (a, b) at e)) refl ok)
          | inr b ↦ elim (Bool-cases (is_neg mapped.0)) [
            | inl c ↦
                absurd
                  (refused out mapped.0 (sym (ap (λ o. o.0) (some_inj.0 (rw (a, b, c) at e)))) c ok)
            | inr c ↦
                let done' = some_inj.0 (rw (a, b, c) at e) in
                (sym (ap (λ o. o.1) done'), sym (ap (λ o. o.2.processes) done'))
          ]
        ]
      ]

  -- `process_load_slot` that succeeds answers a process that is not null, puts it in its slot, which was
  -- free, and leaves the other slots as they were.
  pub load_slot-Taken :
      (shell : World S → Option (World S)) (fuel : ℕ) (file_name : List ℕ) (slot : ℕ) (w : World S)
      (out : ℤ × ℕ × World S)
      → load_slot fs disk heap memory with_memory shell fuel file_name slot w ≡ some out
      → is_neg out.0 ≡ false
      → (is_taken (process_get slot (slots_of w.processes)) ≡ false)
        × (0 < out.1)
        × (out.2.processes ≡ (λ i. if i == slot then out.1 else w.processes i))
  unfolding load_slot
  load_slot-Taken shell fuel file_name slot w out e ok =
      let made = kzalloc heap process_size (ram fs disk heap memory with_memory w) in
      let w1 =
        set_process fs disk heap memory with_memory made.0 no_process
          (set_ram fs disk heap memory with_memory made.1 w) in
      elim (Bool-cases (is_taken (process_get slot (slots_of w.processes)))) [
        | inl a ↦
            let same : out.0 ≡ eistkn = sym (ap (λ o. o.0) (some_inj.0 (rw a at e))) in
            absurd (refused out eistkn same refl ok)
        | inr a ↦ elim (Bool-cases (made.0 == 0)) [
          | inl b ↦
              let same : out.0 ≡ enomem = sym (ap (λ o. o.0) (some_inj.0 (rw (a, b) at e))) in
              absurd (refused out enomem same refl ok)
          | inr b ↦
              let (data', first, e') =
                bind_some
                  (process_load_data fs disk heap memory with_memory fuel file_name made.0 w1) _ out
                  (rw (a, b) at e) in
              let kept = load_data-processes fuel file_name made.0 w1 data' first in
              elim (Bool-cases (is_neg data'.0)) [
                | inl c ↦ absurd (
                    refused out data'.0
                      (give_up-status shell data'.0 made.0 data'.1 out (rw c at e')) c ok)
                | inr c ↦
                    let (proc, slots) =
                      load_rest-slot shell file_name made.0 slot data'.1 out (rw c at e') ok in
                    (a, omega (arith, proc, nonzero made.0 b), rw (proc, ← kept) slots)
              ]
        ]
      ]

  release-id :
      (proc : ℕ) (w : World S)
      → ((release fs disk heap memory with_memory proc w).procs proc).id ≡ (w.procs proc).id
  unfolding release
  release-id proc w = rw (==_self proc) refl

  release-processes :
      (proc : ℕ) (w : World S)
      → (release fs disk heap memory with_memory proc w).processes ≡ w.processes
  unfolding release
  release-processes proc w = refl

  release-current :
      (proc : ℕ) (w : World S)
      → (release fs disk heap memory with_memory proc w).process_current ≡ w.process_current
  unfolding release
  release-current proc w = refl

  release-tasks :
      (proc : ℕ) (w : World S)
      → (release fs disk heap memory with_memory proc w).tasks
        ≡ task_list_remove (w.procs proc).task w.tasks
  unfolding release task_free
  release-tasks proc w = refl

  -- A process that is not the current one is terminated without a panic: the slot of its id is free
  -- then, which is the first for a process that has not been given its own yet, the others are as
  -- they were, and its task is taken off the list.
  pub process_terminate_slot :
      (shell : World S → Option (World S)) (proc : ℕ) (w : World S)
      → w.process_current ≢ proc
      → (w' : World S) × (process_terminate fs disk heap memory with_memory shell proc w ≡ some w')
        × (w'.processes ≡ (λ i. if i == (w.procs proc).id then 0 else w.processes i))
        × (w'.tasks ≡ task_list_remove (w.procs proc).task w.tasks)
  unfolding process_terminate process_unlink
  process_terminate_slot shell proc w ne =
      let r = release fs disk heap memory with_memory proc w in
      let other : (r.process_current == proc) ≡ false =
        rw (release-current proc w) (other_address w.process_current proc ne) in
      (
        set_slot fs disk heap memory with_memory (r.procs proc).id 0 r,
        rw other refl,
        rw (release-id proc w, release-processes proc w) refl,
        release-tasks proc w,
      )
