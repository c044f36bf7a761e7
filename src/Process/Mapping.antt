-- ===== src/Process/Mapping.antt =====
-- process.c: where a binary's process sees its program and its stack.
use enki_os.Base.{ℕ, ◌+◌, ◌-◌, ◌%◌, ◌^◌, ◌≤◌, ◌<◌, ◌≡◌, refl, arith}
use enki_os.Base.Int.{pos}
use enki_os.Base.Memory.{Memory}
use enki_os.Base.Word.{u32}
use enki_os.Paging.{paging_align_address}
use enki_os.Paging.Address.{align_bounds}
use enki_os.Paging.Map.{IsPageDir, Mapped, map_to-Mapped}
use enki_os.Process.{process_map_bin, bin, map_image, process_map_memory}

align_self : (a : ℕ) → a % 4096 ≡ 0 → paging_align_address a ≡ a
unfolding paging_align_address
align_self a al = ground arith

-- Mapping the memory of a binary's process, whose program is not at the null address and ends, like the
-- stack, within the first 2 GB, returns 0. The program's bytes, up to the next page
-- boundary, are mapped from 0x400000 on, and behind that the 16 KB of the stack, whose memory is
-- aligned, from 0x3FB000 on, both present, writeable and open to the user; no other page changes.
pub map_memory-Mapped :
    (dir stack addr size : ℕ) (m : Memory)
    → IsPageDir m dir
    → 0 < addr
    → addr % 4096 ≡ 0
    → addr + size ≤ 2 ^ 31
    → stack % 4096 ≡ 0
    → stack + 16384 ≤ 2 ^ 31
    → ((process_map_memory dir stack (bin addr size) m).0 ≡ pos 0)
      × ((m1 : Memory) × Mapped dir 0x400000 addr (paging_align_address (addr + size) - addr) 7 m m1
          × Mapped dir 0x3FB000 stack 16384 7 m1 (process_map_memory dir stack (bin addr size) m).1)
unfolding process_map_memory map_image process_map_bin
map_memory-Mapped dir stack addr size m ok some_addr al fits als fits' =
    let (aligned, above, below, _, _, _) = align_bounds (addr + size) (omega arith) in
    let (_, program) =
      map_to-Mapped dir 0x400000 addr (paging_align_address (addr + size)) 7 m ok refl al aligned
        (omega arith) (omega arith) (omega arith) (omega arith) (omega arith) in
    let same : u32 (addr + size) ≡ addr + size = omega arith in
    let same' : u32 (stack + 16384) ≡ stack + 16384 = omega arith in
    let end : paging_align_address (stack + 16384) ≡ stack + 16384 =
      align_self (stack + 16384) (omega arith) in
    let exact : stack + 16384 - stack ≡ 16384 = omega arith in
    rw (same, same', end)
      (
        refl,
        (
          _,
          program,
          rw exact at (
              (map_to-Mapped dir 0x3FB000 stack (stack + 16384) 7 _ program.valid refl als
                (omega arith) (omega arith) (omega arith) (omega arith) (omega arith)
                (omega arith)).1),
        ),
      )
