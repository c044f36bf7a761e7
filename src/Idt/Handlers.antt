-- ===== src/Idt/Handlers.antt =====
-- idt.c: where an interrupt leads once idt_init has run.
use Prim.Native.Nat.{bit_and}
use enki_os.Base.{
  ℕ, zero, suc, ◌+◌, ◌*◌, ◌/◌, ◌%◌, ◌^◌, ◌≤◌, ◌<◌, ◌≡◌, ◌∙◌, refl, ap, inl, inr, some, Option,
  arith, ltb, leb, ◌==◌, Bool-cases, if◌then◌else◌, true, false, ◌&&◌, eq_of_==,
}
use enki_os.Base.Bits.{and_low}
use enki_os.Syscall.{IdtEntry, idt_set, idt_register_int_callback}
use enki_os.Idt.{Idt, no_entry, set_entries, register_exceptions, idt_init}

-- The entry leads to `addr` by an interrupt gate of ring 3 in the kernel's code segment.
pub record LeadsTo (addr : ℕ) (e : IdtEntry) : Type 0 where
  pub offset : e.base_low + e.base_high * 2 ^ 16 ≡ addr
  pub low : e.base_low < 2 ^ 16
  pub high : e.base_high < 2 ^ 16
  pub segment : e.selector ≡ 0x08
  pub gate : e.flags ≡ 0xEE
  pub reserved : e.reserved ≡ 0

low_half : (x : ℕ) → bit_and x 0xFFFF ≡ x % 2 ^ 16
low_half x =
    let split : x ≡ x / 2 ^ 16 * 2 ^ 16 + x % 2 ^ 16 = omega arith in
    ap (λ w. bit_and w 0xFFFF) split ∙ and_low 16 (x / 2 ^ 16) (x % 2 ^ 16) (omega arith)

set_LeadsTo :
    (i addr : ℕ) (entries : ℕ → IdtEntry) → addr < 2 ^ 32 → LeadsTo addr (idt_set i addr entries i)
unfolding idt_set
set_LeadsTo i addr entries lt =
    let same : (i == i) ≡ true = ground arith in
    let low = low_half addr in
    rw same (record {
      offset = omega (arith, low);
      low = omega (arith, low);
      high = omega arith;
      segment = refl;
      gate = refl;
      reserved = refl;
    })

set_other :
    (i j addr : ℕ) (entries : ℕ → IdtEntry)
    → (j == i) ≡ false
    → idt_set i addr entries j ≡ entries j
unfolding idt_set
set_other i j addr entries ne = rw ne refl

set_entries-below :
    (n i j : ℕ) (table : ℕ → ℕ) (entries : ℕ → IdtEntry)
    → j < i
    → set_entries n i table entries j ≡ entries j
unfolding set_entries
set_entries-below zero i j table entries lt = refl
set_entries-below (suc n) i j table entries lt =
    set_entries-below n (i + 1) j table _ (omega arith)
    ∙ set_other i j (table i) entries (ground arith)

set_entries-LeadsTo :
    (n i j : ℕ) (table : ℕ → ℕ) (entries : ℕ → IdtEntry)
    → i ≤ j
    → j < i + n
    → table j < 2 ^ 32
    → LeadsTo (table j) (set_entries n i table entries j)
unfolding set_entries
set_entries-LeadsTo zero i j table entries lo hi lt = absurd (omega arith)
set_entries-LeadsTo (suc n) i j table entries lo hi lt = elim (Bool-cases (j == i)) [
  | inl same ↦
      let e = eq_of_== j i same in
      rw (e, set_entries-below n (i + 1) i table (idt_set i (table i) entries) (omega arith))
        (set_LeadsTo i (table i) entries (rw e at lt))
  | inr other ↦
      set_entries-LeadsTo n (i + 1) j table (idt_set i (table i) entries) (ground arith)
        (omega arith) lt
]

register_exceptions-eq :
    {F : Type 0} (n i j : ℕ) (handler : F) (callbacks : ℕ → Option F)
    → i + n ≤ 512
    → register_exceptions n i handler callbacks j
      ≡ (if leb i j && ltb j (i + n) then some handler else callbacks j)
unfolding register_exceptions idt_register_int_callback
register_exceptions-eq zero i j handler callbacks le = ground arith
register_exceptions-eq (suc n) i j handler callbacks le =
    let valid : leb 512 i ≡ false = ground arith in
    ground (
      arith,
      valid,
      register_exceptions-eq n (i + 1) j handler (idt_register_int_callback i handler callbacks).1
          (omega arith),
    )

module _ {F : Type 0} (base : ℕ) (table : ℕ → ℕ) (idt_zero syscall_wrapper : ℕ)
    (exception clock : F) (callbacks : ℕ → Option F) (zero_low : idt_zero < 2 ^ 32)
    (wrapper_low : syscall_wrapper < 2 ^ 32) where
  abbrev idt : Idt F
  idt = idt_init base table idt_zero syscall_wrapper exception clock callbacks

  -- Where vector `j` leads.
  abbrev pub vector : ℕ → ℕ
  vector j = if j == 0x80 then syscall_wrapper else if j == 0 then idt_zero else table j

  idt_entry-LeadsTo : (j : ℕ) → j < 512 → table j < 2 ^ 32 → LeadsTo (vector j) (idt.entries j)
  unfolding idt_init
  idt_entry-LeadsTo j lt low = elim (Bool-cases (j == 0x80)) [
    | inl call ↦
        let e = eq_of_== j 0x80 call in rw e (set_LeadsTo 0x80 syscall_wrapper _ wrapper_low)
    | inr not_call ↦ elim (Bool-cases (j == 0)) [
      | inl first ↦
          let e = eq_of_== j 0 first in
          rw (e, set_other 0x80 0 syscall_wrapper _ refl) (set_LeadsTo 0 idt_zero _ zero_low)
      | inr later ↦
          rw
            (
              not_call,
              later,
              set_other 0x80 j syscall_wrapper _ not_call,
              set_other 0 j idt_zero _ later,
            )
            (set_entries-LeadsTo 512 0 j table (λ i. no_entry) (omega arith) lt low)
    ]
  ]

  idt_callback-eq :
      (j : ℕ)
      → idt.int_callbacks j
        ≡ (if ltb j 0x20 then some exception else if j == 0x20 then some clock else callbacks j)
  unfolding idt_init idt_register_int_callback
  idt_callback-eq j =
      ground (arith, register_exceptions-eq 0x20 0 j exception callbacks (omega arith))

  -- Once idt_init has run, vector 0x80 leads to the wrapper of the system calls, vector 0 to idt_zero and
  -- every other of the 512 to its address in the table, all open to the user; the callbacks of the
  -- exceptions, below 0x20, are the handler for exceptions, that of the timer is the clock, and every
  -- other is as it was.
  pub idt_init-LeadsTo :
      (j : ℕ)
      → j < 512
      → table j < 2 ^ 32
      → LeadsTo (vector j) (idt.entries j)
        × (idt.int_callbacks j ≡ (
            if ltb j 0x20 then some exception else if j == 0x20 then some clock else callbacks j))
  idt_init-LeadsTo j lt low = (idt_entry-LeadsTo j lt low, idt_callback-eq j)
