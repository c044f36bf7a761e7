-- ===== src/Libc/Bytes/Copy.antt =====
-- What memcpy, memmove and memset leave at every address.
use enki_os.Base.{
  ℕ, zero, suc, ◌+◌, ◌-◌, ◌%◌, ◌≤◌, ◌≡◌, ◌⊎◌, inl, inr, arith, ltb, ◌==◌, eq_of_==, Bool-cases,
  if◌then◌else◌,
}
use enki_os.Base.Memory.{Memory, store, in_range}
use enki_os.Libc.Bytes.{copy_up, copy_down, memcpy, memmove, fill, memset}

-- The byte at `a` after `n` bytes have been copied from `src` to `dst`, all read before the copy.
abbrev pub copied : ℕ → ℕ → ℕ → Memory → ℕ → ℕ
copied dst src n m a = if in_range dst n a then m (src + (a - dst)) else m a

-- The ascending loop, where the rounds to come read nothing that an earlier round has written.
copy_up_at :
    (n i dst src : ℕ) (m : Memory) (a : ℕ)
    → ((dst ≤ src) ⊎ (src + n ≤ dst))
    → copy_up n i dst src m a ≡ (if in_range (dst + i) n a then m (src + (a - dst)) else m a)
unfolding copy_up
copy_up_at zero i dst src m a h = ground arith
copy_up_at (suc n) i dst src m a h = elim (Bool-cases (a == dst + i)) [
  | inl here ↦
      let e : src + (a - dst) ≡ src + i = omega (arith, eq_of_== a (dst + i) here) in
      rw (e) (
        ground
          (arith, copy_up_at n (i + 1) dst src (store m (dst + i) (m (src + i))) a (omega arith)))
  | inr other ↦
      ground (arith, copy_up_at n (i + 1) dst src (store m (dst + i) (m (src + i))) a (omega arith))
]

copy_down_at :
    (i dst src : ℕ) (m : Memory) (a : ℕ)
    → src ≤ dst
    → copy_down i dst src m a ≡ copied dst src i m a
unfolding copy_down
copy_down_at zero dst src m a h = ground arith
copy_down_at (suc i) dst src m a h = elim (Bool-cases (a == dst + i)) [
  | inl here ↦
      let e : src + (a - dst) ≡ src + i = omega (arith, eq_of_== a (dst + i) here) in
      rw (e) (ground (arith, copy_down_at i dst src (store m (dst + i) (m (src + i))) a))
  | inr other ↦ ground (arith, copy_down_at i dst src (store m (dst + i) (m (src + i))) a)
]

fill_at :
    (n i buf val : ℕ) (m : Memory) (a : ℕ)
    → fill n i buf val m a ≡ (if in_range (buf + i) n a then val % 256 else m a)
unfolding fill
fill_at zero i buf val m a = ground arith
fill_at (suc n) i buf val m a =
    ground (arith, fill_at n (i + 1) buf val (store m (buf + i) (val % 256)) a)

-- `memmove` copies the `size` bytes that stood at `src` to `dst` and leaves every other address as it
-- was, however the two objects overlap.
pub memmove-copied :
    (dst src size : ℕ) (m : Memory) (a : ℕ) → memmove dst src size m a ≡ copied dst src size m a
unfolding memmove
memmove-copied dst src size m a = elim (Bool-cases (ltb dst src)) [
  | inl up ↦ rw up (ground (arith, copy_up_at size 0 dst src m a))
  | inr down ↦ rw down (copy_down_at size dst src m a (ground arith))
]

-- `memcpy` copies the `size` bytes that stood at `src` to `dst` and leaves every other address as it
-- was, if the objects do not overlap or the destination starts at or below the source.
pub memcpy-copied :
    (dst src size : ℕ) (m : Memory) (a : ℕ)
    → ((dst ≤ src) ⊎ (src + size ≤ dst))
    → memcpy dst src size m a ≡ copied dst src size m a
unfolding memcpy
memcpy-copied dst src size m a h = ground (arith, copy_up_at size 0 dst src m a)

-- `memset` writes the low byte of `val` to the `size` addresses from `buf` on, and nowhere else.
pub memset_at :
    (buf val size : ℕ) (m : Memory) (a : ℕ)
    → memset buf val size m a ≡ (if in_range buf size a then val % 256 else m a)
unfolding memset
memset_at buf val size m a = ground (arith, fill_at size 0 buf val m a)
