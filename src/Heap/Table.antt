-- ===== src/Heap/Table.antt =====
-- The well-formed block table: free entries and whole allocations, one behind the other.
use native.Mathlib.Nat.{add-zero}
use enki_os.Base.{
  ℕ, zero, suc, ◌+◌, ◌-◌, ◌≤◌, ◌<◌, ◌≡◌, ◌∙◌, ◌⊎◌, refl, inl, inr, arith, tests, replicate, ltb,
  Bool-cases,
}
use enki_os.Base.Memory.{Memory, Holds, Holds-same}
use enki_os.Heap.{Heap, entry_free, heap_get_entry_type, heap_malloc_blocks}
use enki_os.Heap.Find.{AllFree, FirstFit}
use enki_os.Heap.Mark.{Written, IsTail, used_bytes, used_bytes-IsTail, length-used_bytes}
use enki_os.Heap.Alloc.{Took, malloc_blocks_fit}

-- The `n` entries from `p` on are free ones and whole allocations.
pub data Blocks (m : Memory) : ℕ → ℕ → Type 0 where
  done : {p : ℕ} → Blocks m p 0
  free : {p n : ℕ} → m p ≡ entry_free → Blocks m (p + 1) n → Blocks m p (suc n)
  used :
      {p n : ℕ} (k rest : ℕ)
      → 0 < k
      → k + rest ≡ n
      → Holds m p (used_bytes k)
      → Blocks m (p + k) rest
      → Blocks m p n

-- The entry type of an allocation's first entry and of its others is not that of a free entry.
taken-ne-free :
    (v : ℕ) → ((v ≡ 0x41) ⊎ (v ≡ 0xC1) ⊎ IsTail v) → heap_get_entry_type v ≡ entry_free → ⊥
unfolding heap_get_entry_type
taken-ne-free v h f = ground arith

used_bytes-taken :
    (k j p : ℕ) (m : Memory)
    → j < k
    → Holds m p (used_bytes k)
    → heap_get_entry_type (m (p + j)) ≡ entry_free
    → ⊥
used_bytes-taken zero j p m lt h f = absurd (omega arith)
used_bytes-taken (suc zero) zero p m lt h f = taken-ne-free _ (inl refl) (rw (add-zero p, h.0) at f)
used_bytes-taken (suc (suc k)) zero p m lt h f =
    taken-ne-free _ (inr (inl refl)) (rw (add-zero p, h.0) at f)
used_bytes-taken (suc k) (suc j) p m lt h f =
    taken-ne-free _ (inr (inr (used_bytes-IsTail (suc k) (suc j) p m (omega arith) lt h))) f

pub Blocks-same :
    {m m' : Memory} {p n : ℕ}
    → Blocks m p n
    → ((a : ℕ) → p ≤ a → a < p + n → m' a ≡ m a)
    → Blocks m' p n
Blocks-same done same = done
Blocks-same (free {p} e b) same =
    free (same p (omega arith) (omega arith) ∙ e)
      (Blocks-same b (λ a lo hi. same a (omega arith) (omega arith)))
Blocks-same {m} {m'} (used {p} k rest pos_k e h b) same =
    used k rest pos_k e
      (Holds-same m m' p (used_bytes k) (λ a lo hi. same a lo (omega (arith, length-used_bytes k)))
        h)
      (Blocks-same b (λ a lo hi. same a (omega arith) (omega arith)))

pub Blocks-append :
    {m : Memory} {p n k q l : ℕ}
    → Blocks m p n
    → p + n ≡ q
    → n + k ≡ l
    → Blocks m q k
    → Blocks m p l
Blocks-append {p} {k} {q} {l} done e f b =
    let pq : q ≡ p = omega arith in let kl : k ≡ l = omega arith in rw (← kl, ← pq) b
Blocks-append {p} {k} {q} {l} (free {n} z a) e f b =
    let step : l ≡ suc (n + k) = omega arith in
    rw step (free z (Blocks-append a (omega arith) refl b))
Blocks-append {k} {l} (used c rest pos_c g h a) e f b =
    used c (rest + k) pos_c (omega arith) h (Blocks-append a (omega arith) refl b)

-- The `t` entries from `p + s` on are free.
abbrev FreeRun : Memory → ℕ → ℕ → ℕ → Type 0
FreeRun m p s t = (j : ℕ) → s ≤ j → j < s + t → heap_get_entry_type (m (p + j)) ≡ entry_free

FreeRun-shift :
    (m : Memory) (p d q s t s' : ℕ) → p + d ≡ q → s' + d ≡ s → FreeRun m p s t → FreeRun m q s' t
FreeRun-shift m p d q s t s' e f run j lo hi =
    let at : q + j ≡ p + (d + j) = omega arith in rw at (run (d + j) (omega arith) (omega arith))

FreeRun-tail : (m : Memory) (p t : ℕ) → FreeRun m p 0 (suc t) → FreeRun m (p + 1) 0 t
FreeRun-tail m p t run =
    FreeRun-shift m p 1 (p + 1) 1 t 0 refl refl (λ j lo hi. run j (omega arith) (omega arith))

-- Free entries at the front come off one by one.
Blocks-drop :
    {m : Memory} (t : ℕ) {p n : ℕ} (q r : ℕ)
    → Blocks m p n
    → FreeRun m p 0 t
    → p + t ≡ q
    → t + r ≡ n
    → Blocks m q r
Blocks-drop zero {p} {n} q r b run e f =
    let pq : q ≡ p = omega arith in let rn : r ≡ n = omega arith in rw (pq, rn) b
Blocks-drop (suc t) q r done run e f = absurd (omega arith)
Blocks-drop {m} (suc t) {p} q r (free z b) run e f =
    Blocks-drop t q r b (FreeRun-tail m p t run) (omega arith) (omega arith)
Blocks-drop {m} (suc t) {p} q r (used k rest pos_k g h b) run e f =
    absurd (used_bytes-taken k 0 p m pos_k h (run 0 (omega arith) (omega arith)))

-- An allocation written over a run of free entries leaves a well-formed table.
Blocks-take :
    {m m' : Memory} (s t q : ℕ) {p n : ℕ}
    → 0 < t
    → s + t ≤ n
    → p + s ≡ q
    → Blocks m p n
    → FreeRun m p s t
    → Written q (used_bytes t) m m'
    → Blocks m' p n
Blocks-take s t q pos_t le e done run w = absurd (omega arith)
Blocks-take {m} {m'} zero t q {p} pos_t le e (free {n} z b) run w =
    let pq : q ≡ p = omega arith in
    let w' = rw pq at w in
    used t (suc n - t) pos_t (omega arith) (Written.holds w') (
      Blocks-same (Blocks-drop t (p + t) (suc n - t) (free z b) run refl (omega arith))
        (λ a lo hi. Written.same w' a (ground (arith, length-used_bytes t))))
Blocks-take {m} {m'} (suc s) t q {p} pos_t le e (free z b) run w =
    free (Written.same w p (ground (arith, length-used_bytes t)) ∙ z) (
      Blocks-take s t q pos_t (omega arith) (omega arith) b
        (FreeRun-shift m p 1 (p + 1) (suc s) t s refl (omega arith) run) w)
Blocks-take {m} {m'} s t q {p} pos_t le e (used k rest pos_k g h b) run w =
    elim (Bool-cases (ltb s k)) [
      | inl within ↦
          absurd (used_bytes-taken k s p m (omega tests) h (run s (omega arith) (omega arith)))
      | inr behind ↦
          let far : k ≤ s = ground arith in
          used k rest pos_k g
            (Holds-same m m' p (used_bytes k)
              (λ a lo hi.
                Written.same w a (ground (arith, length-used_bytes t, length-used_bytes k)))
              h)
            (Blocks-take (s - k) t q pos_t (omega arith) (omega arith) b
              (FreeRun-shift m p k (p + k) s t (s - k) refl (omega arith) run) w)
    ]

-- Where the table has a run of `total` free blocks, `heap_malloc_blocks` keeps it well formed.
pub heap_malloc_blocks-Blocks :
    (heap : Heap) (total s : ℕ) (m : Memory)
    → 0 < total
    → s + total ≤ heap.table.length
    → AllFree heap.table m s total
    → Blocks m heap.table.entries heap.table.length
    → Blocks (heap_malloc_blocks heap total m).1 heap.table.entries heap.table.length
heap_malloc_blocks-Blocks heap total s m positive le vacant b =
    let (s', fit, took) = malloc_blocks_fit heap total s m positive le vacant in
    Blocks-take s' total (heap.table.entries + s') positive (FirstFit.fits fit) refl b
      (FirstFit.free fit) (Took.entries took)

-- In a well-formed table a free entry is the byte 0.
pub Blocks-zero :
    {m : Memory} (j : ℕ) {p n : ℕ}
    → j < n
    → Blocks m p n
    → heap_get_entry_type (m (p + j)) ≡ entry_free
    → m (p + j) ≡ 0
Blocks-zero j lt done f = absurd (omega arith)
Blocks-zero zero {p} lt (free z b) f = rw (add-zero p) z
Blocks-zero {m} (suc j) {p} lt (free z b) f =
    let e : p + suc j ≡ p + 1 + j = omega arith in rw e (Blocks-zero j (omega arith) b (rw e at f))
Blocks-zero {m} j {p} lt (used k rest pos_k g h b) f = elim (Bool-cases (ltb j k)) [
  | inl within ↦ absurd (used_bytes-taken k j p m (omega tests) h f)
  | inr behind ↦
      let far : k ≤ j = ground arith in
      let e : p + j ≡ p + k + (j - k) = omega arith in
      rw e (Blocks-zero (j - k) (omega arith) b (rw e at f))
]

-- Clearing the entries of an allocation leaves a well-formed table.
pub Blocks-clear : (m : Memory) (p k : ℕ) → Holds m p (replicate k 0) → Blocks m p k
Blocks-clear m p zero h = done
Blocks-clear m p (suc k) h = free h.0 (Blocks-clear m (p + 1) k h.1)
