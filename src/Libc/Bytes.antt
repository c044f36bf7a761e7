-- ===== src/Libc/Bytes.antt =====
-- memcpy, memmove, memset and memcmp of libc/string/string.c. Each loop reads the memory as it is
-- at that round, so that overlapping objects are modelled.
pub mod Copy
pub mod Compare
use enki_os.Base.{ℕ, zero, suc, ◌+◌, ◌%◌, ltb, if◌then◌else◌}
use enki_os.Base.Int.{ℤ, pos, negsuc}
use enki_os.Base.Memory.{Memory, store}

-- for (; n rounds; i++) dst[i] = src[i]
unfoldable pub copy_up : ℕ → ℕ → ℕ → ℕ → Memory → Memory
copy_up zero i dst src m = m
copy_up (suc n) i dst src m = copy_up n (i + 1) dst src (store m (dst + i) (m (src + i)))

-- for (; i != 0; i--) dst[i - 1] = src[i - 1]
unfoldable pub copy_down : ℕ → ℕ → ℕ → Memory → Memory
copy_down zero dst src m = m
copy_down (suc i) dst src m = copy_down i dst src (store m (dst + i) (m (src + i)))

unfoldable pub memcpy : ℕ → ℕ → ℕ → Memory → Memory
unfolding copy_up
memcpy dst src size m = copy_up size 0 dst src m

unfoldable pub memmove : ℕ → ℕ → ℕ → Memory → Memory
unfolding copy_up copy_down
memmove dst src size m = if ltb dst src then copy_up size 0 dst src m else copy_down size dst src m

-- for (; n rounds; i++) buf[i] = (unsigned char) val
unfoldable pub fill : ℕ → ℕ → ℕ → ℕ → Memory → Memory
fill zero i buf val m = m
fill (suc n) i buf val m = fill n (i + 1) buf val (store m (buf + i) (val % 256))

unfoldable pub memset : ℕ → ℕ → ℕ → Memory → Memory
unfolding fill
memset buf val size m = fill size 0 buf val m

-- for (; n rounds; i++) compare a[i] and b[i]
unfoldable pub compare_bytes : ℕ → ℕ → ℕ → ℕ → Memory → ℤ
compare_bytes zero i a b m = pos 0
compare_bytes (suc n) i a b m =
    let rest = compare_bytes n (i + 1) a b m in
    if ltb (m (a + i)) (m (b + i))
    then negsuc 0
    else if ltb (m (b + i)) (m (a + i))
    then pos 1
    else rest

unfoldable pub memcmp : ℕ → ℕ → ℕ → Memory → ℤ
unfolding compare_bytes
memcmp a b size m = compare_bytes size 0 a b m
