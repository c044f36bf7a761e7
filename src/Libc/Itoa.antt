-- ===== src/Libc/Itoa.antt =====
-- itoa of libc/stdlib/stdlib.c. The digits stand at the end of the static buffer of 12 bytes: the text is
-- the list of them.
use native.Mathlib.Nat.{pow-suc}
use enki_os.Base.{
  ℕ, ◌⊎◌, zero, suc, ◌+◌, ◌-◌, ◌*◌, ◌/◌, ◌%◌, ◌^◌, ◌≤◌, ◌<◌, ◌≡◌, ◌∙◌, refl, ap, inl, inr, none,
  some, Option, List, [], ◌∷◌, arith, ◌==◌, eq_of_==, Bool-cases, if◌then◌else◌, length, ◌>>=◌,
}
use enki_os.Base.Int.{ℤ, pos, negsuc}

-- while (i), in `fuel` rounds; the code counts with the negative number, whose magnitude `n` is.
unfoldable pub itoa_loop : ℕ → ℕ → List ℕ → Option (List ℕ)
itoa_loop zero n s = if n == 0 then some s else none
itoa_loop (suc fuel) n s =
    let rest = itoa_loop fuel (n / 10) ((b'0' + n % 10) ∷ s) in if n == 0 then some s else rest

-- if (idx == 11)
unfoldable pub zero_digit : List ℕ → List ℕ
zero_digit [] = b'0' ∷ []
zero_digit (c ∷ s) = c ∷ s

unfoldable pub itoa : ℤ → Option (List ℕ)
itoa (pos n) = itoa_loop 10 n [] >>= λ s. some (zero_digit s)
itoa (negsuc n) = itoa_loop 10 (n + 1) [] >>= λ s. some (b'-' ∷ zero_digit s)

-- The number that digits add to `n`.
abbrev pub value : ℕ → List ℕ → ℕ
value n [] = n
value n (c ∷ s) = value (n * 10 + (c - b'0')) s

-- Decimal digits.
abbrev pub Digits : List ℕ → Type 0
Digits [] = Unit
Digits (c ∷ s) = (b'0' ≤ c) × (c ≤ b'9') × Digits s

-- The numeral of a number: digits, at least one, the first of which is 0 only where it is the only one.
abbrev pub Numeral : List ℕ → Type 0
Numeral [] = ⊥
Numeral (c ∷ s) = Digits (c ∷ s) × (b'0' < c ⊎ (s ≡ []))

-- Digits without a 0 in front.
abbrev pub NoZero : List ℕ → Type 0
NoZero [] = Unit
NoZero (c ∷ s) = b'0' < c

pub loop-value :
    (fuel n : ℕ) (s : List ℕ)
    → n < 10 ^ fuel
    → Digits s
    → (n ≡ 0 → NoZero s)
    → (t : List ℕ) × (itoa_loop fuel n s ≡ some t)
      × (value 0 t ≡ value n s)
      × (length t ≤ length s + fuel)
      × Digits t
      × NoZero t
unfolding itoa_loop
loop-value zero n s lt digits front =
    let none_left : n ≡ 0 = omega arith in
    rw none_left (s, refl, refl, omega arith, digits, front none_left)
loop-value (suc fuel) n s lt digits front = elim (Bool-cases (n == 0)) [
  | inl done_ ↦
      let none_left : n ≡ 0 = eq_of_== n 0 done_ in
      rw none_left (s, refl, refl, omega arith, digits, front none_left)
  | inr more ↦
      let positive : 0 < n = ground arith in
      let (t, e, v, len, all, first) =
        loop-value fuel (n / 10) ((b'0' + n % 10) ∷ s) (omega (arith, pow-suc 10 fuel))
          (omega arith, omega arith, digits) (λ e. omega arith) in
      let whole : n / 10 * 10 + (b'0' + n % 10 - b'0') ≡ n = omega arith in
      (t, rw more e, v ∙ ap (λ k. value k s) whole, omega arith, all, first)
]

zero_digit-value : (s : List ℕ) → (value 0 (zero_digit s) ≡ value 0 s)
unfolding zero_digit
zero_digit-value [] = refl
zero_digit-value (c ∷ s) = refl

length-zero_digit : (s : List ℕ) → length s ≤ 10 → length (zero_digit s) ≤ 10
unfolding zero_digit
length-zero_digit [] le = omega arith
length-zero_digit (c ∷ s) le = le

zero_digit-Numeral : (s : List ℕ) → Digits s → NoZero s → Numeral (zero_digit s)
unfolding zero_digit
zero_digit-Numeral [] digits front = ((omega arith, omega arith, tt), inr refl)
zero_digit-Numeral (c ∷ s) digits front = (digits, inl front)

-- Every 32-bit int is printed: a number from 0 on as its decimal numeral, without a 0 in front but for
-- 0 itself, one below 0 as a minus sign and the numeral of its magnitude, in at most 11 characters.
pub itoa-value :
    (n : ℕ)
    → n < 2 ^ 31
    → ((t : List ℕ) × (itoa (pos n) ≡ some t) × Numeral t × (value 0 t ≡ n) × (length t ≤ 11))
      × ((t : List ℕ) × (itoa (negsuc n) ≡ some (b'-' ∷ t))
          × Numeral t
          × (value 0 t ≡ n + 1)
          × (length t + 1 ≤ 11))
unfolding itoa
itoa-value n lt =
    let (t, e, v, len, all, front) = loop-value 10 n [] (omega arith) tt (λ _. tt) in
    let (u, f, w, len', all', front') = loop-value 10 (n + 1) [] (omega arith) tt (λ _. tt) in
    (
      (
        zero_digit t,
        rw e refl,
        zero_digit-Numeral t all front,
        zero_digit-value t ∙ v,
        omega (arith, length-zero_digit t (omega arith)),
      ),
      (
        zero_digit u,
        rw f refl,
        zero_digit-Numeral u all' front',
        zero_digit-value u ∙ w,
        omega (arith, length-zero_digit u (omega arith)),
      ),
    )
