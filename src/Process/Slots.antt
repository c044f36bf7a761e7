-- ===== src/Process/Slots.antt =====
-- process.c: the slots of the processes.
use enki_os.Base.{
  ℕ, zero, suc, ◌+◌, ◌≤◌, ◌<◌, ◌≡◌, inl, inr, true, false, none, some, Option, arith, ◌==◌,
  eq_of_==, Bool-cases,
}
use enki_os.Process.{is_taken, get_free_slot, process_get_free_slot}

module _ {ℓ} {P : Type ℓ} where
  -- What the search has found: the first free slot, or that none is free.
  pub Found : ℕ → ℕ → (ℕ → Option P) → Option ℕ → Type 0
  Found i n processes none = (j : ℕ) → i ≤ j → j < i + n → is_taken (processes j) ≡ true
  Found i n processes (some s) =
      (i ≤ s)
      × (s < i + n)
      × (is_taken (processes s) ≡ false)
      × ((j : ℕ) → i ≤ j → j < s → is_taken (processes j) ≡ true)

  taken_from :
      (i j : ℕ) (processes : ℕ → Option P)
      → is_taken (processes i) ≡ true
      → (i + 1 ≤ j → is_taken (processes j) ≡ true)
      → i ≤ j
      → is_taken (processes j) ≡ true
  taken_from i j processes here behind le = elim (Bool-cases (j == i)) [
    | inl same ↦ rw (eq_of_== j i same) here
    | inr other ↦ behind (ground arith)
  ]

  Found-suc :
      (r : Option ℕ) (n i : ℕ) (processes : ℕ → Option P)
      → is_taken (processes i) ≡ true
      → Found (i + 1) n processes r
      → Found i (suc n) processes r
  unfolding Found
  Found-suc none n i processes here all =
      λ j lo hi. taken_from i j processes here (λ le. all j le (omega arith)) lo
  Found-suc (some s) n i processes here (lo, hi, free, all) = (
    omega arith,
    omega arith,
    free,
    λ j le lt. taken_from i j processes here (λ le'. all j le' lt) le,
  )

  get_free_slot-Found :
      (n i : ℕ) (processes : ℕ → Option P) → Found i n processes (get_free_slot n i processes)
  unfolding get_free_slot Found
  get_free_slot-Found zero i processes = λ j lo hi. absurd (omega arith)
  get_free_slot-Found (suc n) i processes = elim (Bool-cases (is_taken (processes i))) [
    | inr vacant ↦ rw vacant (omega arith, omega arith, vacant, λ j lo hi. absurd (omega arith))
    | inl taken ↦ rw taken (
        Found-suc (get_free_slot n (i + 1) processes) n i processes taken
          (get_free_slot-Found n (i + 1) processes))
  ]

  -- The slot for a new process is the first of the 12 that is free; without one, all are taken.
  pub process_get_free_slot-Found :
      (processes : ℕ → Option P) → Found 0 12 processes (process_get_free_slot processes)
  unfolding process_get_free_slot
  process_get_free_slot-Found processes = get_free_slot-Found 12 0 processes
