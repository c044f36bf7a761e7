-- ===== src/Heap/Find.antt =====
-- heap_get_start_block: a first-fit search, and what it answers when no run is long enough.
use enki_os.Base.{
  ℕ, zero, suc, ◌+◌, ◌-◌, ◌≤◌, ◌<◌, ◌≡◌, ◌⊎◌, refl, inl, inr, false, arith, tests, ◌==◌, eq_of_==,
  ltb, Bool-cases, if◌then◌else◌,
}
use enki_os.Base.Int.{ℤ, pos, negsuc, ◌==ℤ◌}
use enki_os.Base.Memory.{Memory}
use enki_os.Status.{enomem}
use enki_os.Heap.{Heap, HeapTable, entry_free, heap_get_entry_type, find_loop, heap_get_start_block}

add_one : (n : ℕ) → n + 1 ≡ suc n
add_one n = omega arith

module _ (table : HeapTable) (m : Memory) where
  abbrev pub IsFree : ℕ → Type 0
  IsFree i = heap_get_entry_type (m (table.entries + i)) ≡ entry_free

  -- The `n` blocks from `s` on are free.
  abbrev pub AllFree : ℕ → ℕ → Type 0
  AllFree s n = (j : ℕ) → s ≤ j → j < s + n → IsFree j

  -- Of the first `i` blocks, no `total` in a row are free.
  abbrev pub NoFit : ℕ → ℕ → Type 0
  NoFit total i = (s : ℕ) → s + total ≤ i → AllFree s total → ⊥

  -- The search has come to block `i`, the last `c` of which, from `s` on, are free.
  record Scan (total i c s : ℕ) : Type 0 where
    ends : s + c ≡ i
    short : c < total
    free : AllFree s c
    before : (s ≡ 0) ⊎ ¬ IsFree (s - 1)
    none_yet : NoFit total i

  -- The first run of `total` free blocks starts at `s`.
  pub record FirstFit (total n s : ℕ) : Type 0 where
    pub fits : s + total ≤ n
    pub free : AllFree s total
    pub first : NoFit total (s + total - 1)

  -- There is no such run, and the table's last `n - s` blocks, fewer than `total`, are free.
  pub record TooShort (total n s : ℕ) : Type 0 where
    pub below : s < n
    pub short : n < s + total
    pub free : AllFree s (n - s)
    pub none : NoFit total n

  -- The result of the search of `n` blocks: a first fit, nothing, or the start of a short last run.
  abbrev pub Found : ℕ → ℕ → ℤ → ℤ → Type 0
  Found total n missing r =
      ((s : ℕ) × (r ≡ pos s) × FirstFit total n s)
      ⊎ (r ≡ missing) × NoFit total n × ((n ≡ 0) ⊎ ¬ IsFree (n - 1))
      ⊎ ((s : ℕ) × (r ≡ pos s) × TooShort total n s)

  abbrev start_of : ℕ → ℕ → ℤ
  start_of c s = if c == 0 then negsuc 0 else pos s

  Scan-taken : (total i c s : ℕ) → Scan total i c s → ¬ IsFree i → Scan total (i + 1) 0 (i + 1)
  Scan-taken total i c s sc taken = record {
    ends = omega arith;
    short = omega (arith, sc.short);
    free = λ j lo hi. absurd (omega arith);
    before = inr (rw (add_sub_one i) taken);
    none_yet = λ s' le all. elim (Bool-cases (ltb (s' + total) (i + 1))) [
      | inl early ↦ sc.none_yet s' (omega tests) all
      | inr late ↦ taken (all i (ground (arith, sc.short)) (ground (arith, sc.short)))
    ];
  }
    where
      add_sub_one : (i : ℕ) → i + 1 - 1 ≡ i
      add_sub_one i = omega arith

  AllFree-suc : (s c i : ℕ) → s + c ≡ i → AllFree s c → IsFree i → AllFree s (c + 1)
  AllFree-suc s c i e all here j lo hi = elim (Bool-cases (ltb j i)) [
    | inl early ↦ all j lo (omega tests)
    | inr late ↦ let same : j ≡ i = ground arith in rw same here
  ]

  NoFit-free : (total i c s : ℕ) → Scan total i c s → c + 1 < total → NoFit total (i + 1)
  NoFit-free total i c s sc lt s' le all = elim (Bool-cases (ltb (s' + total) (i + 1))) [
    | inl early ↦ sc.none_yet s' (omega tests) all
    | inr late ↦ elim sc.before [
      | inl z ↦ absurd (ground (arith, sc.ends))
      | inr taken ↦ taken (all (s - 1) (ground (arith, sc.ends)) (ground (arith, sc.ends)))
    ]
  ]

  first_of :
      (c s i : ℕ) → s + c ≡ i → (if start_of c s ==ℤ negsuc 0 then pos i else start_of c s) ≡ pos s
  first_of c s i e = ground arith

  Scan-FirstFit :
      (total i n c s : ℕ) → Scan total i c s → IsFree i → c + 1 ≡ total → i < n → FirstFit total n s
  Scan-FirstFit total i n c s sc here e lt = record {
    fits = omega (arith, sc.ends);
    free = rw (← e) (AllFree-suc s c i sc.ends sc.free here);
    first = λ s' le. sc.none_yet s' (omega (arith, sc.ends));
  }

  start_of-suc : (c s : ℕ) → start_of (suc c) s ≡ pos s
  start_of-suc c s = ground arith

  Scan-free :
      (total i c s : ℕ)
      → Scan total i c s
      → IsFree i
      → (c + 1 == total) ≡ false
      → Scan total (i + 1) (suc c) s
  Scan-free total i c s sc here more = record {
    ends = omega (arith, sc.ends);
    short = ground (arith, sc.short);
    free = λ j lo hi. AllFree-suc s c i sc.ends sc.free here j lo (omega arith);
    before = sc.before;
    none_yet = NoFit-free total i c s sc (ground (arith, sc.short));
  }

  Found-end : (total n c s : ℕ) → Scan total n c s → Found total n (negsuc 0) (start_of c s)
  Found-end total n zero s sc = inr (inl (refl, sc.none_yet, last sc.before))
    where
      last : (s ≡ 0) ⊎ ¬ IsFree (s - 1) → (n ≡ 0) ⊎ ¬ IsFree (n - 1)
      last (inl z) = inl (omega (arith, sc.ends))
      last (inr t) = let e : s ≡ n = omega (arith, sc.ends) in inr (rw (← e) t)
  Found-end total n (suc c) s sc = inr (
      inr (
        s,
        start_of-suc c s,
        record {
          below = omega (arith, sc.ends);
          short = omega (arith, sc.ends, sc.short);
          free = λ j lo hi. sc.free j lo (omega (arith, sc.ends));
          none = sc.none_yet;
        },
      ))

  find_loop-Found :
      (total n i c s k : ℕ)
      → i + k ≡ n
      → Scan total i c s
      → Found total n (negsuc 0) (find_loop total table k i c (start_of c s) m)
  unfolding find_loop
  find_loop-Found total n i c s zero e sc =
      let same : i ≡ n = omega arith in Found-end total n c s (rw (← same) sc)
  find_loop-Found total n i c s (suc k) e sc =
      elim (Bool-cases (heap_get_entry_type (m (table.entries + i)) == entry_free)) [
        | inr taken ↦ rw taken (
            find_loop-Found total n (i + 1) 0 (i + 1) k (omega arith)
              (Scan-taken total i c s sc (λ f. ground (arith, f))))
        | inl free ↦
            rw (free, first_of c s i sc.ends)
              (elim (Bool-cases (c + 1 == total)) [
                | inl enough ↦ rw enough (
                    inl (
                      s,
                      refl,
                      Scan-FirstFit total i n c s sc (eq_of_== _ _ free)
                          (eq_of_== (c + 1) total enough) (omega arith),
                    ))
                | inr more ↦
                    rw (more, ← start_of-suc c s, add_one c)
                      (find_loop-Found total n (i + 1) (suc c) s k (omega arith)
                        (Scan-free total i c s sc (eq_of_== _ _ free) more))
              ])
      ]

Scan-start : (table : HeapTable) (m : Memory) (total : ℕ) → 0 < total → Scan table m total 0 0 0
Scan-start table m total h = record {
  ends = refl;
  short = h;
  free = λ j lo hi. absurd (omega arith);
  before = inl refl;
  none_yet = λ s le all. absurd (omega arith);
}

-- For at least one block, `heap_get_start_block` answers the start of the first run of `total` free
-- blocks where the table has one. Where it has none it answers -ENOMEM if the last block is taken,
-- and otherwise the start of the free blocks at the table's end, although they are too few.
pub heap_get_start_block-Found :
    (heap : Heap) (total : ℕ) (m : Memory)
    → 0 < total
    → Found heap.table m total heap.table.length enomem (heap_get_start_block heap total m)
unfolding heap_get_start_block
heap_get_start_block-Found heap total m h = answer (
    find_loop-Found heap.table m total heap.table.length 0 0 0 heap.table.length (omega arith)
      (Scan-start heap.table m total h))
  where
    answer :
        {r : ℤ}
        → Found heap.table m total heap.table.length (negsuc 0) r
        → Found heap.table m total heap.table.length enomem (if r ==ℤ negsuc 0 then enomem else r)
    answer (inl (s, e, fit)) = inl (s, ground arith, fit)
    answer (inr (inl (e, none, last))) = inr (inl (ground arith, none, last))
    answer (inr (inr (s, e, short))) = inr (inr (s, ground arith, short))
