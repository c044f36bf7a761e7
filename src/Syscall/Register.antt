-- ===== src/Syscall/Register.antt =====
-- syscall.c and idt.c: what has been registered is what is called.
use enki_os.Base.{
  ℕ, ◌<◌, ◌≡◌, refl, inl, inr, false, none, some, Option, arith, leb, ◌==◌, eq_of_==, ==_self,
  Bool-cases, if◌then◌else◌,
}
use enki_os.Syscall.{put, syscall_register, syscall_invoke}

-- A function that is registered for a free number below 256 is the one that a call of the number runs,
-- every other number runs what it did, and to register the number again makes the kernel panic.
pub invoke-register :
    {F : Type 0} (idx other : ℕ) (fn next : F) (syscalls : ℕ → Option F)
    → idx < 256
    → syscalls idx ≡ none
    → (table : ℕ → Option F) × (syscall_register idx fn syscalls ≡ some table)
      × (syscall_invoke other table
          ≡ (if other == idx then some fn else syscall_invoke other syscalls))
      × (syscall_register idx next table ≡ none)
unfolding syscall_register syscall_invoke
invoke-register idx other fn next syscalls lt vacant =
    let valid : leb 256 idx ≡ false = ground arith in
    (
      put syscalls idx fn,
      rw (valid, vacant) refl,
      elim (Bool-cases (other == idx)) [
        | inl same ↦ rw (same, eq_of_== other idx same, valid) refl
        | inr differs ↦ rw differs refl
      ],
      rw (valid, ==_self idx) refl,
    )
