-- ===== src/Syscall/Allocate.antt =====
-- syscall.c: the calls for memory, one after the other in a process.
use enki_os.Base.{ℕ, ◌<◌, ◌≡◌, ◌∙◌, refl, ap, false, some, List, ◌==◌, ==_self, if◌then◌else◌}
use enki_os.Base.Memory.{Memory}
use enki_os.Heap.{Heap}
use enki_os.File.Calls.{FileSystem, Disk}
use enki_os.Process.Allocations.{
  Allocation, process_malloc, process_free, process_get_allocation, process_owns_ptr,
}
use enki_os.Process.Owned.{Clean, process_free-process_malloc}
use enki_os.Process.Life.{Process}
use enki_os.Syscall.Calls.{
  Kernel, returns, kernel_ram, current_process, process_dir, stack_item, syscall_4_malloc,
  syscall_5_free,
}

if_same {ℓ} : {A : Type ℓ} (p : ℕ) (x y : A) → (if p == p then x else y) ≡ x
if_same p x y = rw (==_self p) refl

-- The table of a process.
abbrev pub allocations_of : {S : Type 0} → ℕ → Kernel S → List Allocation
allocations_of proc k = (k.world.procs proc).allocations

module _ {S : Type 0} (fs : FileSystem S) (disk : Disk S) (heap : Heap) (memory : S → Memory)
    (with_memory : S → Memory → S) (translate : ℕ → ℕ → Memory → ℕ) (depth fuel : ℕ) where
  abbrev proc_of : Kernel S → ℕ
  proc_of k = current_process fs disk heap memory with_memory translate depth fuel k

  abbrev dir_of : Kernel S → ℕ
  dir_of k = process_dir fs disk heap memory with_memory translate depth fuel (proc_of k) k

  abbrev argument : Kernel S → ℕ
  argument k = stack_item fs disk heap memory with_memory translate depth fuel 0 k

  abbrev memory_of : Kernel S → Memory
  memory_of k = kernel_ram fs disk heap memory with_memory translate depth fuel k

  malloc-eq :
      (k : Kernel S)
      → (k1 : Kernel S) × (syscall_4_malloc fs disk heap memory with_memory translate depth fuel k
          ≡ some (
              returns
                (process_malloc heap
                  (dir_of k)
                  (argument k)
                  (allocations_of (proc_of k) k)
                  (memory_of k)).0
                k1))
        × (allocations_of (proc_of k) k1
            ≡ (process_malloc heap
                (dir_of k)
                (argument k)
                (allocations_of (proc_of k) k)
                (memory_of k)).1)
  unfolding syscall_4_malloc
  malloc-eq k = (_, refl, ap (λ (p : Process). p.allocations) (if_same (proc_of k) _ _))

  free-eq :
      (k : Kernel S)
      → (k1 : Kernel S) × (syscall_5_free fs disk heap memory with_memory translate depth fuel k
          ≡ some (returns 0 k1))
        × (allocations_of (proc_of k) k1
            ≡ (process_free heap
                (dir_of k)
                (argument k)
                (allocations_of (proc_of k) k)
                (memory_of k)).0)
  unfolding syscall_5_free
  free-eq k = (_, refl, ap (λ (p : Process). p.allocations) (if_same (proc_of k) _ _))

  -- A process that calls for memory and is answered a pointer which it has not got yet finds it in its
  -- table with the size that it asked for; once it has called, in any later state in which it runs with
  -- that table and its page directory, to free the pointer, its table is what it was before both calls.
  pub free_call-malloc_call :
      (k : Kernel S) (ptr : ℕ)
      → Clean (allocations_of (proc_of k) k)
      → (process_malloc heap (dir_of k) (argument k) (allocations_of (proc_of k) k) (memory_of k)).0
        ≡ ptr
      → 0 < ptr
      → process_owns_ptr ptr (allocations_of (proc_of k) k) ≡ false
      → (k1 : Kernel S) × (syscall_4_malloc fs disk heap memory with_memory translate depth fuel k
          ≡ some (returns ptr k1))
        × (process_get_allocation ptr (allocations_of (proc_of k) k1)
            ≡ some (record { ptr = ptr; size = argument k }))
        × ((later : Kernel S)
            → proc_of later ≡ proc_of k
            → dir_of later ≡ dir_of k
            → argument later ≡ ptr
            → allocations_of (proc_of later) later ≡ allocations_of (proc_of k) k1
            → (k2 : Kernel S) × (syscall_5_free fs disk heap memory with_memory translate depth fuel
                  later
                ≡ some (returns 0 k2))
              × (allocations_of (proc_of later) k2 ≡ allocations_of (proc_of k) k))
  free_call-malloc_call k ptr clean e positive fresh =
      let (k1, called, table) = malloc-eq k in
      let round = λ (m : Memory).
        process_free-process_malloc heap (dir_of k) (argument k) ptr (allocations_of (proc_of k) k)
          (memory_of k) m clean e positive fresh in
      (
        k1,
        called ∙ ap (λ p. some (returns p k1)) e,
        ap (process_get_allocation ptr) table ∙ (round (memory_of k)).0,
        λ later same_proc same_dir same_ptr same_table.
            let (k2, freed, table') = free-eq later in
            (
              k2,
              freed,
              table'
                  ∙ ap
                      (λ d.
                        (process_free heap d (argument later) (allocations_of (proc_of later) later)
                          (memory_of later)).0)
                      same_dir
                  ∙ ap
                      (λ p.
                        (process_free heap (dir_of k) p (allocations_of (proc_of later) later)
                          (memory_of later)).0)
                      same_ptr
                  ∙ ap (λ t. (process_free heap (dir_of k) ptr t (memory_of later)).0)
                      (same_table ∙ table)
                  ∙ (round (memory_of later)).1,
            ),
      )
