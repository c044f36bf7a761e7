-- ===== src/Heap/Mark.antt =====
-- heap_mark_blocks_taken and heap_mark_blocks_free: the bytes of an allocation in the block table.
use Prim.Native.Nat.{bit_and}
use native.Mathlib.Nat.{add-zero}
use enki_os.Base.{
  ℕ, zero, suc, ◌+◌, ◌-◌, ◌≤◌, ◌<◌, ◌≡◌, ◌∙◌, ◌⊎◌, inl, inr, refl, Bool, true, false, List, [], ◌∷◌,
  arith, length, replicate, ltb, ◌==◌, if◌then◌else◌,
}
use enki_os.Base.Int.{pos}
use enki_os.Base.Memory.{Memory, Holds, SameOutside, Holds-same, store}
use enki_os.Heap.{
  Heap, HeapTable, has_next, take_loop, heap_mark_blocks_taken, free_loop, heap_mark_blocks_free,
}

-- The entries behind the first of an allocation: all but the last have a next block.
abbrev pub tail_bytes : ℕ → List ℕ
tail_bytes zero = []
tail_bytes (suc zero) = 0x01 ∷ []
tail_bytes (suc (suc n)) = 0x81 ∷ tail_bytes (suc n)

-- The entries of an allocation of `n` blocks.
abbrev pub used_bytes : ℕ → List ℕ
used_bytes zero = []
used_bytes (suc zero) = 0x41 ∷ []
used_bytes (suc (suc n)) = 0xC1 ∷ tail_bytes (suc n)

length-tail_bytes : (n : ℕ) → length (tail_bytes n) ≡ n
length-tail_bytes zero = refl
length-tail_bytes (suc zero) = refl
length-tail_bytes (suc (suc n)) = omega (arith, length-tail_bytes (suc n))

pub length-used_bytes : (n : ℕ) → length (used_bytes n) ≡ n
length-used_bytes zero = refl
length-used_bytes (suc zero) = refl
length-used_bytes (suc (suc n)) = omega (arith, length-tail_bytes (suc n))

-- An entry of an allocation that is not its first.
abbrev pub IsTail : ℕ → Type 0
IsTail v = (v ≡ 0x01) ⊎ (v ≡ 0x81)

tail_bytes-IsTail : (n j p : ℕ) (m : Memory) → j < n → Holds m p (tail_bytes n) → IsTail (m (p + j))
tail_bytes-IsTail zero j p m lt h = absurd (omega arith)
tail_bytes-IsTail (suc zero) zero p m lt h = inl (rw (add-zero p) h.0)
tail_bytes-IsTail (suc zero) (suc j) p m lt h = absurd (omega arith)
tail_bytes-IsTail (suc (suc n)) zero p m lt h = inr (rw (add-zero p) h.0)
tail_bytes-IsTail (suc (suc n)) (suc j) p m lt h =
    let e : p + 1 + j ≡ p + suc j = omega arith in
    rw (← e) (tail_bytes-IsTail (suc n) j (p + 1) m (omega arith) h.1)

-- All entries of an allocation but the first.
pub used_bytes-IsTail :
    (n j p : ℕ) (m : Memory) → 0 < j → j < n → Holds m p (used_bytes n) → IsTail (m (p + j))
used_bytes-IsTail zero j p m pos_j lt h = absurd (omega arith)
used_bytes-IsTail (suc zero) j p m pos_j lt h = absurd (omega arith)
used_bytes-IsTail (suc (suc n)) zero p m pos_j lt h = absurd (omega arith)
used_bytes-IsTail (suc (suc n)) (suc j) p m pos_j lt h =
    let e : p + 1 + j ≡ p + suc j = omega arith in
    rw (← e) (tail_bytes-IsTail (suc n) j (p + 1) m (omega arith) h.1)

-- What the loop leaves: the bytes `xs` from `p` on, and all else as it was.
pub record Written (p : ℕ) (xs : List ℕ) (m m' : Memory) : Type 0 where
  pub holds : Holds m' p xs
  pub same : SameOutside p (length xs) m m'

Written-cons :
    (p x : ℕ) (xs : List ℕ) (m m' : Memory)
    → Written (p + 1) xs (store m p x) m'
    → Written p (x ∷ xs) m m'
Written-cons p x xs m m' w = record {
  holds = (w.same p (ground arith) ∙ ground arith, w.holds);
  same = λ a out. w.same a (ground arith) ∙ ground arith;
}

-- A loop that has no round left writes nothing.
Written-nil : (p : ℕ) (m : Memory) → Written p [] m m
Written-nil p m = record { holds = tt; same = λ a out. refl }

tail_bytes-cons :
    (k i end : ℕ)
    → i + k ≡ end
    → tail_bytes (suc k) ≡ (if i == end then 0x01 else 0x81) ∷ tail_bytes k
tail_bytes-cons zero i end e = ground arith
tail_bytes-cons (suc k) i end e = ground arith

ltb_two : (n : ℕ) → ltb 1 (suc (suc n)) ≡ true
ltb_two n = ground arith

take_loop-Written :
    (k i end entry p : ℕ) (table : HeapTable) (m : Memory)
    → i + k ≡ end
    → table.entries + i ≡ p
    → Written p (entry ∷ tail_bytes k) m (take_loop (suc k) table end i entry m)
unfolding take_loop
take_loop-Written zero i end entry p table m e f =
    rw (f) (Written-cons p entry [] m (store m p entry) (Written-nil (p + 1) (store m p entry)))
take_loop-Written (suc k) i end entry p table m e f = rw f (
    Written-cons p entry (tail_bytes (suc k)) m _ (
      rw (tail_bytes-cons k (i + 1) end (omega arith)) (
        take_loop-Written k (i + 1) end _ (p + 1) table (store m p entry) (omega arith)
          (omega arith))))

-- `heap_mark_blocks_taken` writes the entries of an allocation of `n` blocks from block `s` on, and
-- nothing else.
pub heap_mark_blocks_taken-Written :
    (heap : Heap) (s n : ℕ) (m : Memory)
    → Written (heap.table.entries + s) (used_bytes n) m (heap_mark_blocks_taken heap s n m)
unfolding heap_mark_blocks_taken take_loop
heap_mark_blocks_taken-Written heap s zero m = Written-nil (heap.table.entries + s) m
heap_mark_blocks_taken-Written heap s (suc zero) m =
    take_loop-Written 0 s (s + 1 - 1) 0x41 (heap.table.entries + s) heap.table m (omega arith) refl
heap_mark_blocks_taken-Written heap s (suc (suc n)) m = rw (ltb_two n) (
    take_loop-Written (suc n) s (s + suc (suc n) - 1) 0xC1 (heap.table.entries + s) heap.table m
      (omega arith) refl)

-- Is the entry the last of its allocation?
abbrev is_last : ℕ → Bool
is_last entry = bit_and entry has_next == 0

tail_is_last :
    (k : ℕ) (p : ℕ) (m : Memory)
    → Holds m p (tail_bytes (suc k))
    → (v : ℕ) × Holds m p (v ∷ tail_bytes k) × (is_last v ≡ (k == 0))
tail_is_last zero p m h = (0x01, h, refl)
tail_is_last (suc k) p m h = (0x81, h, ground arith)

free_loop-Written :
    (k rounds i p x : ℕ) (table : HeapTable) (m : Memory)
    → k < rounds
    → table.entries + i ≡ p
    → Holds m p (x ∷ tail_bytes k)
    → is_last x ≡ (k == 0)
    → Written p (replicate (suc k) 0) m (free_loop rounds table (pos i) m)
unfolding free_loop
free_loop-Written k zero i p x table m lt f h c = absurd (omega arith)
free_loop-Written zero (suc r) i p x table m lt f h c =
    rw (f, h.0, c) (Written-cons p 0 [] m (store m p 0) (Written-nil (p + 1) (store m p 0)))
free_loop-Written (suc k) (suc r) i p x table m lt f h c =
    let goes_on : is_last x ≡ false = c ∙ ground arith in
    let (v, rest, next) = tail_is_last k (p + 1) m h.1 in
    rw (f, h.0, goes_on)
      (Written-cons p 0 (replicate (suc k) 0) m _ (
        free_loop-Written k r (i + 1) (p + 1) v table (store m p 0) (omega arith) (omega arith)
          (Holds-same m (store m p 0) (p + 1) (v ∷ tail_bytes k) (λ a lo hi. ground arith) rest)
          next))

-- On the entries of an allocation of `n` blocks from block `s` on, all inside the table,
-- `heap_mark_blocks_free` clears just these entries, and stops.
pub heap_mark_blocks_free-Written :
    (heap : Heap) (s n : ℕ) (m : Memory)
    → 0 < n
    → s + n ≤ heap.table.length
    → Holds m (heap.table.entries + s) (used_bytes n)
    → Written (heap.table.entries + s) (replicate n 0) m (heap_mark_blocks_free heap (pos s) m)
unfolding heap_mark_blocks_free
heap_mark_blocks_free-Written heap s zero m pos_n le h = absurd (omega arith)
heap_mark_blocks_free-Written heap s (suc zero) m pos_n le h =
    free_loop-Written 0 _ s (heap.table.entries + s) 0x41 heap.table m (ground arith) refl h refl
heap_mark_blocks_free-Written heap s (suc (suc n)) m pos_n le h =
    free_loop-Written (suc n) _ s (heap.table.entries + s) 0xC1 heap.table m (ground arith) refl h
      (ground arith)
