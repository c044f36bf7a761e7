-- ===== src/Task/User.antt =====
-- task.c: what the kernel reads of a task's memory. How the processor translates an address by a page
-- directory is a parameter: the directory's address, the address and the memory to an address.
use enki_os.Base.{ℕ, zero, suc, ◌+◌, ◌-◌, ◌*◌, leb, ◌==◌, if◌then◌else◌}
use enki_os.Base.Int.{ℤ, pos, is_neg}
use enki_os.Base.Memory.{Memory, store}
use enki_os.Base.Word.{load32}
use enki_os.Status.{eio, einvarg, enomem}
use enki_os.Libc.Text.{strncpy}
use enki_os.Heap.{Heap}
use enki_os.Kheap.{kzalloc, kfree}
use enki_os.Paging.{paging_get, paging_set, paging_map}
use enki_os.Task.{Tasks}

module _ (translate : ℕ → ℕ → Memory → ℕ) where
  -- strncpy while the task's directory is loaded.
  unfoldable pub strncpy_in : ℕ → ℕ → ℕ → ℕ → ℕ → Memory → Memory
  strncpy_in zero i dir dst src m = store m (translate dir (dst + i) m) 0
  strncpy_in (suc n) i dir dst src m =
      let c = m (translate dir (src + i) m) in
      let rest = strncpy_in n (i + 1) dir dst src (store m (translate dir (dst + i) m) c) in
      if c == 0 then store m (translate dir (dst + i) m) 0 else rest

  unfoldable pub copy_str_from_task : Heap → ℕ → ℕ → ℕ → ℕ → Tasks → Memory → ℤ × Memory
  copy_str_from_task heap task virt_addr phys_addr max s m =
      let page_dir = (s.at task).page_dir in
      let (tmp, m1) = kzalloc heap max m in
      let task_dir = load32 m1 page_dir in
      let old_entry = paging_get task_dir tmp m1 in
      let m2 = (paging_map page_dir tmp tmp 0b00000111 m1).1 in
      let m3 = strncpy_in (max - 1) 0 task_dir tmp virt_addr m2 in
      let (restored, m4) = paging_set task_dir tmp old_entry m3 in
      if leb 4096 max
      then (einvarg, m)
      else if tmp == 0
      then (enomem, m1)
      else if is_neg restored
      then (eio, kfree heap tmp m4)
      else (pos 0, strncpy phys_addr tmp max m4)

  unfoldable pub task_get_stack_item : ℕ → ℕ → Tasks → Memory → ℕ
  task_get_stack_item task idx s m =
      let sp = (s.at task).registers.esp in
      load32 m (translate (load32 m (s.at task).page_dir) (sp + 4 * idx) m)
