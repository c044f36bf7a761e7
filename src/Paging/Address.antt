-- ===== src/Paging/Address.antt =====
-- The address arithmetic of paging.c.
use enki_os.Base.{ℕ, ◌+◌, ◌-◌, ◌*◌, ◌%◌, ◌^◌, ◌≤◌, ◌<◌, ◌≡◌, arith}
use enki_os.Base.Int.{pos}
use enki_os.Paging.{paging_get_indices, paging_align_address, paging_align_to_lower}

-- For a page-aligned 32-bit address the two indices are in range and lead back to the address, and no
-- other indices in range do.
pub get_indices_bounds :
    (virt d t : ℕ)
    → virt < 2 ^ 32
    → virt % 4096 ≡ 0
    → let (status, dir_idx, tab_idx) = paging_get_indices virt d t in
      (status ≡ pos 0)
      × (dir_idx < 1024)
      × (tab_idx < 1024)
      × (dir_idx * 4194304 + tab_idx * 4096 ≡ virt)
unfolding paging_get_indices
get_indices_bounds virt d t lt aligned = (ground arith, ground arith, ground arith, ground arith)

-- Up to the last page, `paging_align_address` is the least aligned address that is not below the given
-- one, and `paging_align_to_lower` the greatest that is not above it.
pub align_bounds :
    (addr : ℕ)
    → addr ≤ 2 ^ 32 - 4096
    → (paging_align_address addr % 4096 ≡ 0)
      × (addr ≤ paging_align_address addr)
      × (paging_align_address addr < addr + 4096)
      × (paging_align_to_lower addr % 4096 ≡ 0)
      × (paging_align_to_lower addr ≤ addr)
      × (addr < paging_align_to_lower addr + 4096)
unfolding paging_align_address paging_align_to_lower
align_bounds addr le =
    (ground arith, ground arith, ground arith, ground arith, ground arith, ground arith)
