-- ===== src/Paging/Entry.antt =====
-- paging_set and paging_get on a directory whose tables lie apart.
use Prim.Native.Nat.{bit_and}
use enki_os.Base.{
  ℕ, ◌+◌, ◌*◌, ◌/◌, ◌%◌, ◌^◌, ◌≤◌, ◌<◌, ◌≡◌, ◌≢◌, ◌⊎◌, refl, ap, inl, inr, arith, ◌==◌, eq_of_==,
  Bool-cases, if◌then◌else◌,
}
use enki_os.Base.Int.{pos}
use enki_os.Base.Bits.{and_page}
use enki_os.Base.Memory.{Memory}
use enki_os.Base.Word.{load32, store32, load32-lt, load32-store32_self, load32-store32_ne}
use enki_os.Paging.{paging_set, paging_get}

-- The page that entry `i` of the directory names.
abbrev pub table_of : Memory → ℕ → ℕ → ℕ
table_of m dir i = bit_and (load32 m (dir + 4 * i)) 0xFFFFF000

-- The directory and its 1024 tables are pages of their own.
pub record IsDirectory (m : Memory) (dir : ℕ) : Type 0 where
  pub aligned : dir % 4096 ≡ 0
  pub off_dir : (i : ℕ) → i < 1024 → table_of m dir i ≢ dir
  pub apart : (i j : ℕ) → i < 1024 → j < 1024 → i ≢ j → table_of m dir i ≢ table_of m dir j

-- The word of the table that holds the entry of a virtual address.
abbrev pub slot : Memory → ℕ → ℕ → ℕ
slot m dir virt = table_of m dir (virt / 4194304) + 4 * (virt % 4194304 / 4096)

table_of-aligned : (m : Memory) (dir i : ℕ) → table_of m dir i % 4096 ≡ 0
table_of-aligned m dir i =
    omega (arith, and_page (load32 m (dir + 4 * i)) (load32-lt m (dir + 4 * i)))

pub set-eq :
    (dir virt val : ℕ) (m : Memory)
    → virt % 4096 ≡ 0
    → paging_set dir virt val m ≡ (pos 0, store32 m (slot m dir virt) val)
unfolding paging_set
set-eq dir virt val m al = ground arith

pub get-eq :
    (dir virt : ℕ) (m : Memory)
    → virt % 4096 ≡ 0
    → paging_get dir virt m ≡ load32 m (slot m dir virt)
unfolding paging_get
get-eq dir virt m al = ground arith

-- Two words of two aligned pages are apart.
pages_apart :
    (p q a b : ℕ)
    → p % 4096 ≡ 0
    → q % 4096 ≡ 0
    → p ≢ q
    → a < 1024
    → b < 1024
    → ((q + 4 * b + 4 ≤ p + 4 * a) ⊎ (p + 4 * a + 4 ≤ q + 4 * b))
pages_apart p q a b hp hq ne ha hb = ground arith

-- The slot lies in the page of its table.
pub slot_within :
    (m : Memory) (dir virt : ℕ)
    → (table_of m dir (virt / 4194304) ≤ slot m dir virt)
      × (slot m dir virt + 4 ≤ table_of m dir (virt / 4194304) + 4096)
slot_within m dir virt = omega arith

module _ {m : Memory} {dir : ℕ} (ok : IsDirectory m dir) (virt val : ℕ) (lt : virt < 2 ^ 32) where
  pub table_of-store :
      (i : ℕ) → i < 1024 → table_of (store32 m (slot m dir virt) val) dir i ≡ table_of m dir i
  table_of-store i hi =
      ap (λ w. bit_and w 0xFFFFF000)
        (load32-store32_ne m (slot m dir virt) val (dir + 4 * i) (
          pages_apart (table_of m dir (virt / 4194304)) dir (virt % 4194304 / 4096) i
            (table_of-aligned m dir (virt / 4194304)) ok.aligned
            (ok.off_dir (virt / 4194304) (omega arith)) (omega arith) hi))

  pub IsDirectory-store : IsDirectory (store32 m (slot m dir virt) val) dir
  IsDirectory-store = record {
    aligned = ok.aligned;
    off_dir = λ i hi. rw (table_of-store i hi) (ok.off_dir i hi);
    apart = λ i j hi hj ne. rw (table_of-store i hi, table_of-store j hj) (ok.apart i j hi hj ne);
  }

  slot-ne :
      (virt' : ℕ)
      → virt % 4096 ≡ 0
      → virt' % 4096 ≡ 0
      → virt' < 2 ^ 32
      → virt' ≢ virt
      → ((slot m dir virt' + 4 ≤ slot m dir virt) ⊎ (slot m dir virt + 4 ≤ slot m dir virt'))
  slot-ne virt' al al' lt' ne = elim (Bool-cases (virt / 4194304 == virt' / 4194304)) [
    | inl same ↦ let e = eq_of_== (virt / 4194304) (virt' / 4194304) same in rw e (omega arith)
    | inr other ↦
        pages_apart (table_of m dir (virt / 4194304)) (table_of m dir (virt' / 4194304)) _ _
          (table_of-aligned m dir _) (table_of-aligned m dir _)
          (ok.apart _ _ (omega arith) (omega arith) (ground arith)) (omega arith) (omega arith)
  ]

module _ {m : Memory} {dir : ℕ} (virt val virt' : ℕ) (ok : IsDirectory m dir) where
  pub get-store :
      virt < 2 ^ 32
      → virt % 4096 ≡ 0
      → virt' < 2 ^ 32
      → virt' % 4096 ≡ 0
      → paging_get dir virt' (store32 m (slot m dir virt) val)
        ≡ (if virt' == virt then val % 2 ^ 32 else paging_get dir virt' m)
  get-store lt al lt' al' =
      rw
        (
          get-eq dir virt' (store32 m (slot m dir virt) val) al',
          get-eq dir virt' m al',
          table_of-store ok virt val lt (virt' / 4194304) (omega arith),
        )
        (elim (Bool-cases (virt' == virt)) [
          | inl same ↦
              rw (same, eq_of_== virt' virt same) (load32-store32_self m (slot m dir virt) val)
          | inr other ↦ rw other (
              load32-store32_ne m (slot m dir virt) val (slot m dir virt')
                (slot-ne ok virt val lt virt' al al' lt' (ground arith)))
        ])

  -- Written at an aligned address, an entry is read back there, every other page keeps its entry, and
  -- the directory stays one.
  pub get-set :
      virt < 2 ^ 32
      → virt % 4096 ≡ 0
      → virt' < 2 ^ 32
      → virt' % 4096 ≡ 0
      → let (status, m') = paging_set dir virt val m in
        (status ≡ pos 0)
        × IsDirectory m' dir
        × (paging_get dir virt' m'
            ≡ (if virt' == virt then val % 2 ^ 32 else paging_get dir virt' m))
  get-set lt al lt' al' =
      rw (set-eq dir virt val m al)
        (refl, IsDirectory-store ok virt val lt, get-store lt al lt' al')
