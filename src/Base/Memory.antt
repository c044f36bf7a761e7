-- ===== src/Base/Memory.antt =====
-- The memory that C pointers read and write: a byte at each address. An address is a number, and an
-- object never wraps round the end of the address space.
use Prim.Native.Nat.{ℕ, ◌+◌, ◌≤◌, ◌<◌}
use mathlib.Core.Path.{◌≡◌, ◌∙◌}
use mathlib.Core.Bool.{Bool, false, ◌&&◌}
use mathlib.Core.List.{List, [], ◌∷◌}
use native.Mathlib.Omega.{arith}
use enki_os.Base.Lists.{length}
use enki_os.Base.Tests.{ltb, leb, ◌==◌, if◌then◌else◌}

abbrev pub Memory : Type 0
Memory = ℕ → ℕ

abbrev pub store : Memory → ℕ → ℕ → Memory
store m a v b = if b == a then v else m b

-- Is `a` one of the `n` addresses from `p` on?
abbrev pub in_range : ℕ → ℕ → ℕ → Bool
in_range p n a = leb p a && ltb a (p + n)

-- The memory holds the bytes `xs` from `p` on.
abbrev pub Holds : Memory → ℕ → List ℕ → Type 0
Holds m p [] = Unit
Holds m p (x ∷ xs) = (m p ≡ x) × Holds m (p + 1) xs

-- The memory holds the text `xs`, free of NUL, from `p` on, with its terminator.
abbrev pub IsText : Memory → ℕ → List ℕ → Type 0
IsText m p [] = m p ≡ 0
IsText m p (x ∷ xs) = (m p ≡ x) × (0 < x) × IsText m (p + 1) xs

-- At most the `n` addresses from `p` on differ.
abbrev pub SameOutside : ℕ → ℕ → Memory → Memory → Type 0
SameOutside p n m m' = (a : ℕ) → in_range p n a ≡ false → m' a ≡ m a

-- A block of bytes keeps its bytes where the memories agree on it.
pub Holds-same :
    (m m' : Memory) (p : ℕ) (xs : List ℕ)
    → ((a : ℕ) → p ≤ a → a < p + length xs → m' a ≡ m a)
    → Holds m p xs
    → Holds m' p xs
Holds-same m m' p [] same h = tt
Holds-same m m' p (x ∷ xs) same h = (
  same p (omega arith) (omega arith) ∙ h.0,
  Holds-same m m' (p + 1) xs (λ a lo hi. same a (omega arith) (omega arith)) h.1,
)
