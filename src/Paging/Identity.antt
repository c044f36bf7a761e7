-- ===== src/Paging/Identity.antt =====
-- paging_new: the directory that it makes maps every address to itself.
use mathlib.Core.Path.{subst}
use enki_os.Base.{
  ℕ, ◌+◌, ◌-◌, ◌*◌, ◌/◌, ◌%◌, ◌^◌, ◌≤◌, ◌<◌, ◌≡◌, ◌≢◌, ◌∙◌, ◌⊎◌, refl, sym, ap, inl, inr, arith,
  ltb, Bool-cases,
}
use Prim.Native.Nat.{bit_and}
use enki_os.Base.Bits.{and_page}
use enki_os.Base.Memory.{Memory}
use enki_os.Base.Word.{load32, store32, load32-store32_self, load32-same, store32-beyond}
use enki_os.Kheap.{kzalloc}
use enki_os.Kheap.Zeroed.{kernel_heap}
use enki_os.Kheap.Page.{Free, Page, Room, page_at, heap_blocks, kzalloc-Page}
use enki_os.Paging.{new_tables, paging_new, paging_get, paging_get_phys_addr, paging_align_to_lower}
use enki_os.Paging.Entry.{table_of, get-eq}
use enki_os.Paging.Map.{IsPageDir}
use enki_os.Paging.Tables.{Made, differ, new_tables-Made}

-- The directory at `dir` has an entry with the flags for every page, which maps it to itself.
pub record Identity (dir flags : ℕ) (m : Memory) : Type 0 where
  pub valid : IsPageDir m dir
  pub get : (a : ℕ) → a < 2 ^ 32 → a % 4096 ≡ 0 → paging_get (load32 m dir) a m ≡ a + flags

module _ (flags s eb pb : ℕ) (m m2 : Memory) (o1 o3 : ℕ × Memory) (few : flags < 4096)
    (p1 : Page 4096 eb s 1025 m o1) (made : Made 1024 0 eb (s + 1) 1 flags o1.1 m2)
    (p3 : Page 4 pb (s + 1 + 1024) 0 m2 o3) where
  abbrev final : Memory
  final = store32 o3.1 (page_at pb) (page_at eb)

  final_load : load32 final (page_at pb) ≡ page_at eb
  final_load = load32-store32_self o3.1 (page_at pb) (page_at eb) ∙ omega (arith, p1.block)

  -- The pages that were taken before are as they were.
  final_same : (c a : ℕ) → ¬ Free m2 c → page_at c ≤ a → a < page_at c + 4096 → final a ≡ m2 a
  final_same c a taken lo hi =
      let ne = differ (Free m2) c pb taken p3.was_free in
      store32-beyond o3.1 (page_at pb) (page_at eb) a (omega arith)
      ∙ p3.same a (omega arith) (ground arith)

  final_table : (j : ℕ) → j < 1024 → table_of final (page_at eb) j ≡ table_of m2 (page_at eb) j
  final_table j lt =
      ap (λ w. bit_and w 0xFFFFF000)
        (load32-same m2 final (page_at eb + 4 * j)
          (λ a lo hi. final_same eb a (made.kept eb p1.block p1.taken) (omega arith) (omega arith)))

  final_page :
      (j : ℕ)
      → j < 1024
      → (b : ℕ) × (b ≢ eb)
        × (b ≢ pb)
        × (b < heap_blocks)
        × (table_of final (page_at eb) j ≡ page_at b)
        × ((w : ℕ) → w < 1024 → load32 final (page_at b + 4 * w) ≡ j * 4194304 + w * 4096 + flags)
  final_page j lt =
      let (b, block, free, taken, named, words) = made.table j (omega arith) (omega arith) in
      (
        b,
        λ e. differ (Free o1.1) eb b p1.taken free (sym e),
        differ (Free m2) b pb taken p3.was_free,
        block,
        final_table j lt ∙ named,
        λ w small.
            load32-same m2 final (page_at b + 4 * w)
              (λ a lo hi. final_same b a taken (omega arith) (omega arith))
            ∙ words w small,
      )

  final_off : (j : ℕ) → j < 1024 → table_of final (page_at eb) j ≢ page_at eb
  final_off j lt e = let (b, ne, ne', block, named, words) = final_page j lt in ne (omega arith)

  final_outside :
      (j : ℕ)
      → j < 1024
      → ((page_at pb + 4 ≤ table_of final (page_at eb) j)
          ⊎ (table_of final (page_at eb) j + 4096 ≤ page_at pb))
  final_outside j lt =
      let (b, ne, ne', block, named, words) = final_page j lt in rw named (omega arith)

  final_apart :
      (i j : ℕ)
      → i < 1024
      → j < 1024
      → i ≢ j
      → table_of final (page_at eb) i ≢ table_of final (page_at eb) j
  final_apart i j hi hj ne same =
      let e = sym (final_table i hi) ∙ same ∙ final_table j hj in
      elim (Bool-cases (ltb i j)) [
        | inl before ↦ made.apart i j (omega arith) (ground arith) (omega arith) e
        | inr behind ↦ made.apart j i (omega arith) (ground arith) (omega arith) (sym e)
      ]

  final_get : (a : ℕ) → a < 2 ^ 32 → a % 4096 ≡ 0 → paging_get (page_at eb) a final ≡ a + flags
  final_get a lt aligned =
      let (b, ne, ne', block, named, words) = final_page (a / 4194304) (omega arith) in
      get-eq (page_at eb) a final aligned
      ∙ ap (λ t. load32 final (t + 4 * (a % 4194304 / 4096))) named
      ∙ words (a % 4194304 / 4096) (omega arith)
      ∙ omega arith

  final-Identity : Identity (page_at pb) flags final
  final-Identity = record {
    valid = record {
      directory =
          rw final_load
            (record { aligned = omega arith; off_dir = final_off; apart = final_apart });
      outside = rw final_load final_outside;
    };
    get = rw final_load final_get;
  }

-- Every 32-bit address is translated to itself.
pub Identity-phys :
    (dir flags : ℕ) (m : Memory)
    → flags < 4096
    → Identity dir flags m
    → (a : ℕ) → a < 2 ^ 32
    → paging_get_phys_addr (load32 m dir) a m ≡ a
unfolding paging_get_phys_addr paging_align_to_lower
Identity-phys dir flags m few id a lt =
    let page : ℕ = a - a % 4096 in
    let got : paging_get (load32 m dir) page m ≡ page + flags =
      id.get page (omega arith) (omega arith) in
    rw (got, and_page (page + flags) (omega arith)) (omega arith)

-- What `paging_new` does once the page for the entries has been taken.
abbrev tables_from : ℕ → ℕ → Memory → ℕ × Memory
tables_from flags entries m =
    let (dir, m') = kzalloc kernel_heap 4 (new_tables kernel_heap 1024 0 entries 0 flags m) in
    (dir, store32 m' dir entries)

paging_new-eq :
    (flags : ℕ) (m : Memory)
    → paging_new kernel_heap flags m
      ≡ tables_from flags (kzalloc kernel_heap 4096 m).0 (kzalloc kernel_heap 4096 m).1
unfolding paging_new
paging_new-eq flags m = refl

abbrev IsIdentity : ℕ → ℕ × Memory → Type 0
IsIdentity flags (dir, m) =
    Identity dir flags m × ((a : ℕ) → a < 2 ^ 32 → paging_get_phys_addr (load32 m dir) a m ≡ a)

-- Where the kernel's heap has room for 1026 pages in a row, `paging_new` makes a directory of 1024 tables,
-- each in a page of its own, that maps each page of the 4 GB to itself with the flags, and each address is
-- translated to itself.
pub paging_new-Identity :
    (flags s : ℕ) (m : Memory)
    → flags < 4096
    → Room m s 1026
    → let (dir, m') = paging_new kernel_heap flags m in
      Identity dir flags m' × ((a : ℕ) → a < 2 ^ 32 → paging_get_phys_addr (load32 m' dir) a m' ≡ a)
paging_new-Identity flags s m few room =
    let (eb, p1) = kzalloc-Page 4096 s 1025 m (omega arith) (omega arith) room in
    let m1 : Memory = (kzalloc kernel_heap 4096 m).1 in
    let m2 : Memory = new_tables kernel_heap 1024 0 (page_at eb) 0 flags m1 in
    let made =
      new_tables-Made 1024 0 eb (s + 1) 1 1025 flags 0 m1 (omega arith) p1.block p1.taken few
        (omega arith) p1.room (omega arith) in
    let (pb, p3) = kzalloc-Page 4 (s + 1 + 1024) 0 m2 (omega arith) (omega arith) made.room in
    let o3 : ℕ × Memory = kzalloc kernel_heap 4 m2 in
    let id = final-Identity flags s eb pb m m2 (kzalloc kernel_heap 4096 m) o3 few p1 made p3 in
    subst (IsIdentity flags)
      (sym (
        paging_new-eq flags m
        ∙ ap (λ p. tables_from flags p m1) p1.addr
        ∙ ap {B = ℕ × Memory} (λ d. (d, store32 o3.1 d (page_at eb))) p3.addr))
      (id, Identity-phys (page_at pb) flags _ few id)
