-- ===== src/Base/Bits.antt =====
-- Masks and flags of machine words as arithmetic: `|` of a field with what lies below it, and `&` with
-- a mask of the low or of the high bits.
use Prim.Native.Nat.{
  ℕ, zero, suc, ◌+◌, ◌-◌, ◌*◌, ◌/◌, ◌%◌, ◌^◌, ◌≤◌, ◌<◌, min, max, digits, bit_and, bit_or,
  bit_and-bitwise, bit_or-bitwise,
}
use mathlib.Core.Path.{◌≡◌, refl, ◌∙◌, sym, ap}
use native.Mathlib.Nat.{pow-suc, one-le-pow}
use native.Mathlib.Omega.{arith}

module _ (last : ℕ → ℕ) (op : ℕ → ℕ → ℕ) where
  -- Fuel beyond the left operand changes nothing.
  spare_fuel : (more x y : ℕ) (n : ℕ) → x ≤ n → digits last op (n + more) x y ≡ digits last op n x y
  spare_fuel more zero y zero le = from_zero (zero + more)
    where
      from_zero : (k : ℕ) → digits last op k 0 y ≡ last y
      from_zero zero = refl
      from_zero (suc k) = refl
  spare_fuel more (suc x) y zero le = absurd (omega arith)
  spare_fuel more zero y (suc n) le = rw (suc_plus n more)
    where
      suc_plus : (n k : ℕ) → suc n + k ≡ suc (n + k)
      suc_plus n k = omega arith
  spare_fuel more (suc x) y (suc n) le =
      let e : suc n + more ≡ suc (n + more) = omega arith in
      rw (e, spare_fuel more (suc x / 2) (y / 2) n (omega arith))

  digits-step :
      (x y : ℕ)
      → digits last op (suc x) (suc x) y
        ≡ digits last op (suc x / 2) (suc x / 2) (y / 2) * 2 + op (suc x % 2) (y % 2)
  digits-step x y =
      let e : x ≡ suc x / 2 + (x - suc x / 2) = omega arith in
      ap (λ d. d * 2 + op (suc x % 2) (y % 2))
        (ap (λ n. digits last op n (suc x / 2) (y / 2)) e
          ∙ spare_fuel (x - suc x / 2) (suc x / 2) (y / 2) (suc x / 2) (omega arith))

-- The lowest bit, and the others.
or_bit : (x y : ℕ) → bit_or x y ≡ bit_or (x / 2) (y / 2) * 2 + max (x % 2) (y % 2)
or_bit zero y = omega (arith, bit_or-bitwise 0 y, bit_or-bitwise 0 (y / 2))
or_bit (suc x) y =
    bit_or-bitwise (suc x) y
    ∙ digits-step (λ b. b) max x y
    ∙ ap (λ d. d * 2 + max (suc x % 2) (y % 2)) (sym (bit_or-bitwise (suc x / 2) (y / 2)))

and_bit : (x y : ℕ) → bit_and x y ≡ bit_and (x / 2) (y / 2) * 2 + min (x % 2) (y % 2)
and_bit zero y = omega (arith, bit_and-bitwise 0 y, bit_and-bitwise 0 (y / 2))
and_bit (suc x) y =
    bit_and-bitwise (suc x) y
    ∙ digits-step (λ b. 0) min x y
    ∙ ap (λ d. d * 2 + min (suc x % 2) (y % 2)) (sym (bit_and-bitwise (suc x / 2) (y / 2)))

or_nothing : (n x : ℕ) → x ≤ n → bit_or x 0 ≡ x
or_nothing n zero le = bit_or-bitwise 0 0
or_nothing zero (suc x) le = absurd (omega arith)
or_nothing (suc n) (suc x) le =
    omega (arith, or_bit (suc x) 0, or_nothing n (suc x / 2) (omega arith))

and_nothing : (n x : ℕ) → x ≤ n → bit_and x 0 ≡ 0
and_nothing n zero le = bit_and-bitwise 0 0
and_nothing zero (suc x) le = absurd (omega arith)
and_nothing (suc n) (suc x) le =
    omega (arith, and_bit (suc x) 0, and_nothing n (suc x / 2) (omega arith))

shift_once : (q k : ℕ) → q * 2 ^ suc k ≡ q * 2 ^ k + q * 2 ^ k
shift_once q k = omega (arith, ap (λ (t : ℕ). q * t) (pow-suc 2 k))

-- Flags below bit `k` are added to a word whose low `k` bits are 0.
pub or_flags :
    (k high flags : ℕ) → flags < 2 ^ k → bit_or (high * 2 ^ k) flags ≡ high * 2 ^ k + flags
or_flags zero high flags lt =
    let none : flags ≡ 0 = omega arith in
    let all : high * 2 ^ 0 ≡ high = omega arith in
    rw (none, all) (or_nothing high high (omega arith) ∙ omega arith)
or_flags (suc k) high flags lt = ground (
  arith,
  shift_once high k,
  pow-suc 2 k,
  or_bit (high * 2 ^ suc k) flags,
  or_flags k high (flags / 2) (omega (arith, pow-suc 2 k)),
)

-- Flags below bit `k` are set below bit `k`.
pub or_low :
    (k high low flags : ℕ)
    → low < 2 ^ k
    → flags < 2 ^ k
    → (bit_or (high * 2 ^ k + low) flags ≡ high * 2 ^ k + bit_or low flags)
      × (bit_or low flags < 2 ^ k)
or_low zero high low flags lt lt' =
    let a : low ≡ 0 = omega arith in
    let b : flags ≡ 0 = omega arith in
    rw (a, b)
      (
        or_nothing (high * 2 ^ 0 + 0) (high * 2 ^ 0 + 0) (omega arith)
            ∙ omega (arith, or_nothing 0 0 (omega arith)),
        omega (arith, or_nothing 0 0 (omega arith)),
      )
or_low (suc k) high low flags lt lt' = ground (
  arith,
  shift_once high k,
  pow-suc 2 k,
  or_bit (high * 2 ^ suc k + low) flags,
  or_bit low flags,
  or_low k high (low / 2) (flags / 2) (omega (arith, pow-suc 2 k)) (omega (arith, pow-suc 2 k)),
)

-- A mask whose low `k` bits are 0 reads the bits from `k` on.
pub and_high :
    (k high low mask : ℕ)
    → low < 2 ^ k
    → bit_and (high * 2 ^ k + low) (mask * 2 ^ k) ≡ bit_and high mask * 2 ^ k
and_high zero high low mask lt =
    let a : high * 2 ^ 0 + low ≡ high = omega arith in
    let b : mask * 2 ^ 0 ≡ mask = omega arith in rw (a, b) (omega arith)
and_high (suc k) high low mask lt = ground (
  arith,
  shift_once high k,
  shift_once mask k,
  shift_once (bit_and high mask) k,
  pow-suc 2 k,
  and_bit (high * 2 ^ suc k + low) (mask * 2 ^ suc k),
  and_high k high (low / 2) mask (omega (arith, pow-suc 2 k)),
)

-- A mask of `k` ones keeps what is below 2^k.
pub and_ones : (k x : ℕ) → x < 2 ^ k → bit_and x (2 ^ k - 1) ≡ x
and_ones zero x lt = let z : x ≡ 0 = omega arith in rw z (and_nothing 0 0 (omega arith))
and_ones (suc k) x lt = ground (
  arith,
  pow-suc 2 k,
  one-le-pow k 2,
  and_bit x (2 ^ suc k - 1),
  and_ones k (x / 2) (omega (arith, pow-suc 2 k)),
)

-- A mask of `k` ones drops what is from 2^k on.
pub and_low : (k high low : ℕ) → low < 2 ^ k → bit_and (high * 2 ^ k + low) (2 ^ k - 1) ≡ low
and_low zero high low lt =
    let z : low ≡ 0 = omega arith in
    let a : high * 2 ^ 0 + 0 ≡ high = omega arith in rw (z, a) (and_nothing high high (omega arith))
and_low (suc k) high low lt = ground (
  arith,
  pow-suc 2 k,
  one-le-pow k 2,
  shift_once high k,
  and_bit (high * 2 ^ suc k + low) (2 ^ suc k - 1),
  and_low k high (low / 2) (omega (arith, pow-suc 2 k)),
)

pub and_byte : (x : ℕ) → bit_and x 0xFF ≡ x % 256
and_byte x =
    let split : x ≡ x / 256 * 2 ^ 8 + x % 256 = omega arith in
    ap (λ w. bit_and w 0xFF) split ∙ and_low 8 (x / 256) (x % 256) (omega arith)

-- `x & 0xFFFFF000` on a 32-bit word: the address of the page that `x` lies in.
pub and_page : (x : ℕ) → x < 2 ^ 32 → bit_and x 0xFFFFF000 ≡ x - x % 4096
and_page x lt =
    let split : x ≡ x / 4096 * 2 ^ 12 + x % 4096 = omega arith in
    ap (λ w. bit_and w 0xFFFFF000) split
    ∙ and_high 12 (x / 4096) (x % 4096) (2 ^ 20 - 1) (omega arith)
    ∙ ap (λ y. y * 2 ^ 12) (and_ones 20 (x / 4096) (omega arith))
    ∙ omega arith
