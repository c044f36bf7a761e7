-- ===== src/Syscall/Dispatch.antt =====
-- syscall.c: the table of system calls once all are registered.
use enki_os.Base.{
  ℕ, zero, suc, ◌+◌, ◌-◌, ◌≤◌, ◌<◌, ◌≡◌, ◌∙◌, refl, sym, inl, inr, true, false, none, some, Option,
  List, [], ◌∷◌, arith, ltb, leb, ◌==◌, Bool-cases, if◌then◌else◌, length, get_elem?,
}
use enki_os.Syscall.{put, syscall_register, syscall_invoke}
use enki_os.Syscall.Calls.{register_from, syscall_register_all}

module _ {κ} {F : Type κ} where
  register-eq :
      (idx : ℕ) (fn : F) (syscalls : ℕ → Option F)
      → idx < 256
      → syscalls idx ≡ none
      → syscall_register idx fn syscalls ≡ some (put syscalls idx fn)
  unfolding syscall_register
  register-eq idx fn syscalls lt vacant =
      let inside : leb 256 idx ≡ false = ground arith in rw (inside, vacant) refl

  elem_step :
      (j idx : ℕ) (fn : F) (fns : List F) (syscalls : ℕ → Option F)
      → (if ltb j (idx + 1) then put syscalls idx fn j else get_elem? fns (j - (idx + 1)))
        ≡ (if ltb j idx then syscalls j else get_elem? (fn ∷ fns) (j - idx))
  elem_step j idx fn fns syscalls = elim (Bool-cases (ltb j idx)) [
    | inl e ↦
        let below : ltb j (idx + 1) ≡ true = ground arith in
        let other : (j == idx) ≡ false = ground arith in rw (e, below, other) refl
    | inr e ↦ elim (Bool-cases (j == idx)) [
      | inl here ↦
          let below : ltb j (idx + 1) ≡ true = ground arith in
          let first : j - idx ≡ 0 = ground arith in rw (e, below, here, first) refl
      | inr past ↦
          let above : ltb j (idx + 1) ≡ false = ground arith in
          let behind : j - idx ≡ suc (j - (idx + 1)) = ground arith in rw (e, above, behind) refl
    ]
  ]

  get_elem?_past : (xs : List F) (i : ℕ) → length xs ≤ i → get_elem? xs i ≡ none
  get_elem?_past [] i le = refl
  get_elem?_past (x ∷ xs) zero le = absurd (omega arith)
  get_elem?_past (x ∷ xs) (suc i) le = get_elem?_past xs i (omega arith)

  -- The functions that are registered from `idx` on stand in the table in their order.
  register_from-elems :
      (fns : List F) (idx : ℕ) (syscalls : ℕ → Option F)
      → idx + length fns ≤ 256
      → ((j : ℕ) → idx ≤ j → syscalls j ≡ none)
      → (t : ℕ → Option F) × (register_from idx fns syscalls ≡ some t)
        × ((j : ℕ) → t j ≡ (if ltb j idx then syscalls j else get_elem? fns (j - idx)))
  unfolding register_from
  register_from-elems [] idx syscalls le vacant = (
    syscalls,
    refl,
    λ j. elim (Bool-cases (ltb j idx)) [
      | inl e ↦ rw e refl
      | inr e ↦ rw e (vacant j (ground arith))
    ],
  )
  register_from-elems (fn ∷ fns) idx syscalls le vacant =
      let (t, e, elems) =
        register_from-elems fns (idx + 1) (put syscalls idx fn) (omega arith) (λ j lt.
          let other : (j == idx) ≡ false = ground arith in rw other (vacant j (omega arith))) in
      (
        t,
        rw (register-eq idx fn syscalls (omega arith) (vacant idx (omega arith))) e,
        λ j. elems j ∙ elem_step j idx fn fns syscalls,
      )

  -- At most 255 functions that are registered in order are invoked by their numbers from 1 on, and
  -- no other number invokes one.
  pub invoke-register_all :
      (fns : List F)
      → length fns ≤ 255
      → (t : ℕ → Option F) × (syscall_register_all fns ≡ some t)
        × ((idx : ℕ) → syscall_invoke idx t ≡ (if idx == 0 then none else get_elem? fns (idx - 1)))
  unfolding syscall_register_all syscall_invoke
  invoke-register_all fns le =
      let (t, e, elems) = register_from-elems fns 1 (λ idx. none) (omega arith) (λ j lt. refl) in
      (
        t,
        e,
        λ idx. elim (Bool-cases (leb 256 idx)) [
          | inl out ↦
              let nonzero : (idx == 0) ≡ false = ground arith in
              rw (out, nonzero) (sym (get_elem?_past fns (idx - 1) (ground arith)))
          | inr inside ↦ elim (Bool-cases (idx == 0)) [
            | inl zero_ ↦
                let low : ltb idx 1 ≡ true = ground arith in
                rw (inside, zero_) (elems idx ∙ rw low refl)
            | inr some_ ↦
                let high : ltb idx 1 ≡ false = ground arith in
                rw (inside, some_) (elems idx ∙ rw high refl)
          ]
        ],
      )
