-- ===== src/Base/Word.antt =====
-- 32-bit words in the byte memory, lowest byte first.
use Prim.Native.Nat.{ℕ, ◌+◌, ◌*◌, ◌/◌, ◌%◌, ◌^◌, ◌≤◌, ◌<◌}
use mathlib.Core.Path.{◌≡◌, refl}
use mathlib.Core.Logic.{◌⊎◌}
use native.Mathlib.Omega.{arith}
use enki_os.Base.Memory.{Memory, store}

abbrev pub u32 : ℕ → ℕ
u32 n = n % 2 ^ 32

unfoldable pub load32 : Memory → ℕ → ℕ
load32 m p =
    m p % 256 + m (p + 1) % 256 * 2 ^ 8 + m (p + 2) % 256 * 2 ^ 16 + m (p + 3) % 256 * 2 ^ 24

unfoldable pub store32 : Memory → ℕ → ℕ → Memory
store32 m p v =
    store (store (store (store m p (v % 256)) (p + 1) (v / 2 ^ 8 % 256)) (p + 2) (v / 2 ^ 16 % 256))
      (p + 3) (v / 2 ^ 24 % 256)

pub load32-lt : (m : Memory) (p : ℕ) → load32 m p < 2 ^ 32
unfolding load32
load32-lt m p = omega arith

pub load32-store32_self : (m : Memory) (p v : ℕ) → load32 (store32 m p v) p ≡ v % 2 ^ 32
unfolding load32 store32
load32-store32_self m p v = ground arith

pub load32-store32_ne :
    (m : Memory) (p v q : ℕ) → ((q + 4 ≤ p) ⊎ (p + 4 ≤ q)) → load32 (store32 m p v) q ≡ load32 m q
unfolding load32 store32
load32-store32_ne m p v q apart = ground arith

-- A word is the same where its four bytes are.
pub load32-same :
    (m m' : Memory) (p : ℕ) → ((a : ℕ) → p ≤ a → a < p + 4 → m' a ≡ m a) → load32 m' p ≡ load32 m p
unfolding load32
load32-same m m' p same =
    rw
      (
        same p (omega arith) (omega arith),
        same (p + 1) (omega arith) (omega arith),
        same (p + 2) (omega arith) (omega arith),
        same (p + 3) (omega arith) (omega arith),
      )
      refl

-- A word that is stored leaves the bytes outside of it.
pub store32-beyond : (m : Memory) (p v a : ℕ) → ((a < p) ⊎ (p + 4 ≤ a)) → store32 m p v a ≡ m a
unfolding store32
store32-beyond m p v a out = ground arith
