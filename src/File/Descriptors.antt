-- ===== src/File/Descriptors.antt =====
-- file.c: descriptors that are handed out, looked up and closed.
use enki_os.Base.{
  ℕ, zero, suc, ◌+◌, ◌-◌, ◌≤◌, ◌<◌, ◌≡◌, refl, sym, ap, inl, inr, false, ◌||◌, none, some, Option,
  List, [], ◌∷◌, arith, leb, ◌==◌, eq_of_==, Bool-cases, get_or, length, get_elem?, set,
}
use enki_os.Base.Int.{pos}
use enki_os.Base.Memory.{Memory}
use enki_os.Heap.{Heap}
use enki_os.Kheap.{kzalloc, kfree}
use enki_os.File.{
  FileDescriptor, is_free, free_slot, fill_slot, file_new_descriptor, file_get_descriptor,
  file_free_descriptor,
}

module _ {ℓ} {P : Type ℓ} where
  -- The `used` first slots of the table are taken and the others are free.
  pub record Used (used : ℕ) (slots : List (Option (FileDescriptor P))) : Type ℓ where
    pub size : length slots ≡ 512
    pub taken :
        (i : ℕ)
        → i < used
        → (d : FileDescriptor P) × (get_elem? slots i ≡ some (some d)) × (d.index ≡ i + 1)
    pub free : (i : ℕ) → used ≤ i → i < 512 → get_elem? slots i ≡ some none

  free_slot-eq :
      (n i used : ℕ) (slots : List (Option (FileDescriptor P)))
      → Used used slots
      → i ≤ used
      → used < i + n
      → i + n ≤ 512
      → free_slot n i slots ≡ some used
  unfolding free_slot is_free
  free_slot-eq zero i used slots u le lt end = absurd (omega arith)
  free_slot-eq (suc n) i used slots u le lt end = elim (Bool-cases (i == used)) [
    | inl same ↦
        let here : i ≡ used = eq_of_== i used same in
        rw (u.free i (omega arith) (omega arith)) (ap (λ x. some x) here)
    | inr other ↦
        let (d, e, _) = u.taken i (ground arith) in
        rw e (free_slot-eq n (i + 1) used slots u (ground arith) (omega arith) (omega arith))
  ]

  -- The table behind a new descriptor.
  abbrev pub taken_at :
      ℕ → ℕ → P → List (Option (FileDescriptor P)) → List (Option (FileDescriptor P))
  taken_at used block content slots =
      set slots used (some record { index = used + 1; block = block; content = content })

  -- The descriptor that is handed out for the next slot, where its block can be allocated.
  pub new-eq :
      (heap : Heap) (used : ℕ) (content : P) (slots : List (Option (FileDescriptor P))) (m : Memory)
      → Used used slots
      → used < 512
      → 0 < (kzalloc heap 16 m).0
      → file_new_descriptor heap content slots m
        ≡ some (
          pos 0,
          used + 1,
          taken_at used (kzalloc heap 16 m).0 content slots,
          (kzalloc heap 16 m).1,
        )
  unfolding file_new_descriptor fill_slot
  new-eq heap used content slots m u lt room =
      let some_block : ((kzalloc heap 16 m).0 == 0) ≡ false = ground arith in
      rw (free_slot-eq 512 0 used slots u (omega arith) (omega arith) (omega arith), some_block)
        refl

  get_or-set_self :
      (xs : List (Option (FileDescriptor P))) (i : ℕ) (v : Option (FileDescriptor P))
      → i < length xs
      → get_or (set xs i v) i none ≡ v
  get_or-set_self [] i v lt = absurd (omega arith)
  get_or-set_self (x ∷ xs) zero v lt = refl
  get_or-set_self (x ∷ xs) (suc i) v lt = get_or-set_self xs i v (omega arith)

  -- A slot that is overwritten and then gets its value back.
  set-set_back :
      (xs : List (Option (FileDescriptor P))) (i : ℕ) (v w : Option (FileDescriptor P))
      → get_elem? xs i ≡ some w
      → set (set xs i v) i w ≡ xs
  set-set_back [] i v w e = refl
  set-set_back (x ∷ xs) zero v w e =
      ap (λ o. get_or (elim o [ none ↦ [] | some y ↦ y ∷ [] ]) 0 x ∷ xs) (sym e)
  set-set_back (x ∷ xs) (suc i) v w e = ap (λ l. x ∷ l) (set-set_back xs i v w e)

  -- A descriptor below number 512 is found again.
  pub get-taken :
      (used block : ℕ) (content : P) (slots : List (Option (FileDescriptor P)))
      → length slots ≡ 512
      → used < 511
      → file_get_descriptor (used + 1) (taken_at used block content slots)
        ≡ some record { index = used + 1; block = block; content = content }
  unfolding file_get_descriptor
  get-taken used block content slots size lt =
      let valid : (used + 1 == 0 || leb 512 (used + 1)) ≡ false = ground arith in
      let back : used + 1 - 1 ≡ used = omega arith in
      rw (valid, back) (get_or-set_self slots used _ (omega arith))

  -- The last slot of the table is handed out, as number 512, which no other operation accepts.
  pub last_refused :
      (heap : Heap) (content : P) (slots : List (Option (FileDescriptor P))) (m : Memory)
      → Used 511 slots
      → 0 < (kzalloc heap 16 m).0
      → (slots' : List (Option (FileDescriptor P))) × (m' : Memory) × (file_new_descriptor heap
            content slots m
          ≡ some (pos 0, 512, slots', m'))
        × (file_get_descriptor 512 slots' ≡ none)
  unfolding file_get_descriptor
  last_refused heap content slots m u room =
      (_, _, new-eq heap 511 content slots m u (omega arith) room, refl)

  -- Freeing the descriptor that has just been handed out gives back the table as it was, and frees its
  -- block.
  pub free-taken :
      (heap : Heap) (used block : ℕ) (content : P) (slots : List (Option (FileDescriptor P)))
      (m : Memory)
      → Used used slots
      → used < 512
      → file_free_descriptor heap
          (record { index = used + 1; block = block; content = content })
          (taken_at used block content slots)
          m
        ≡ (slots, kfree heap block m)
  unfolding file_free_descriptor
  free-taken heap used block content slots m u lt =
      let back : used + 1 - 1 ≡ used = omega arith in
      rw back (
        ap (λ l. (l, kfree heap block m))
          (set-set_back slots used _ none (u.free used (omega arith) (omega arith))))
