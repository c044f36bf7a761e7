-- ===== src/Libc/Bytes/Compare.antt =====
-- What the result of memcmp says of the two objects.
use enki_os.Base.{
  ℕ, zero, suc, ◌+◌, ◌≤◌, ◌<◌, ◌≡◌, ◌⊎◌, refl, inl, inr, arith, tests, ltb, Bool-cases,
}
use enki_os.Base.Int.{ℤ, pos, negsuc}
use enki_os.Base.Memory.{Memory}
use enki_os.Libc.Bytes.{compare_bytes, memcmp}

-- The objects at `a` and `b` agree on their bytes from `i` up to, not including, `k`.
abbrev pub Agree : Memory → ℕ → ℕ → ℕ → ℕ → Type 0
Agree m a b i k = (j : ℕ) → i ≤ j → j < k → m (a + j) ≡ m (b + j)

-- From the byte `i` on: all `n` bytes agree and the result is 0, or at the first byte where the
-- objects differ the smaller one stands in `a` and the result is -1, or in `b` and it is 1.
abbrev pub Compared : Memory → ℕ → ℕ → ℕ → ℕ → ℤ → Type 0
Compared m a b i n r =
    (r ≡ pos 0) × Agree m a b i (i + n)
    ⊎ ((k : ℕ) × (r ≡ negsuc 0) × (i ≤ k) × (k < i + n) × Agree m a b i k × (m (a + k) < m (b + k)))
    ⊎ ((k : ℕ) × (r ≡ pos 1) × (i ≤ k) × (k < i + n) × Agree m a b i k × (m (b + k) < m (a + k)))

-- One more byte that agrees, in front.
Agree-cons :
    (m : Memory) (a b i k : ℕ) → m (a + i) ≡ m (b + i) → Agree m a b (i + 1) k → Agree m a b i k
Agree-cons m a b i k e all j lo hi = elim (Bool-cases (ltb i j)) [
  | inl later ↦ all j (omega tests) hi
  | inr first ↦ let here : i ≡ j = ground arith in rw (← here) e
]

Compared-cons :
    (m : Memory) (a b i n : ℕ) (r : ℤ)
    → m (a + i) ≡ m (b + i)
    → Compared m a b (i + 1) n r
    → Compared m a b i (suc n) r
Compared-cons m a b i n r e (inl (z, all)) =
    inl (z, λ j lo hi. Agree-cons m a b i (i + suc n) e (λ l u v. all l u (omega arith)) j lo hi)
Compared-cons m a b i n r e (inr (inl (k, z, lo, hi, all, lt))) =
    inr (inl (k, z, omega arith, omega arith, Agree-cons m a b i k e all, lt))
Compared-cons m a b i n r e (inr (inr (k, z, lo, hi, all, lt))) =
    inr (inr (k, z, omega arith, omega arith, Agree-cons m a b i k e all, lt))

compare_bytes-Compared : (n i a b : ℕ) (m : Memory) → Compared m a b i n (compare_bytes n i a b m)
unfolding compare_bytes
compare_bytes-Compared zero i a b m = inl (refl, λ j lo hi. absurd (omega arith))
compare_bytes-Compared (suc n) i a b m = elim (Bool-cases (ltb (m (a + i)) (m (b + i)))) [
  | inl less ↦
      rw less (
        inr (inl (i, refl, omega arith, omega arith, λ j lo hi. absurd (omega arith), omega tests)))
  | inr not_less ↦ rw not_less (elim (Bool-cases (ltb (m (b + i)) (m (a + i)))) [
    | inl more ↦ rw more (
        inr (inr (i, refl, omega arith, omega arith, λ j lo hi. absurd (omega arith), omega tests)))
    | inr same ↦ rw same (
        Compared-cons m a b i n (compare_bytes n (i + 1) a b m) (ground arith)
          (compare_bytes-Compared n (i + 1) a b m))
  ])
]

-- The result of `memcmp` is 0 exactly where the `size` bytes agree; otherwise it is -1 or 1 by the
-- unsigned order of the first bytes that differ.
pub memcmp-Compared : (a b size : ℕ) (m : Memory) → Compared m a b 0 size (memcmp a b size m)
unfolding memcmp
memcmp-Compared a b size m = compare_bytes-Compared size 0 a b m
