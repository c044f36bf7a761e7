-- ===== src/Paging/Tables.antt =====
-- paging_new: the directory's tables lie in pages of their own and map each page to itself.
use Prim.Native.Nat.{bit_and, bit_or}
use enki_os.Base.{
  ℕ, zero, suc, ◌+◌, ◌*◌, ◌≤◌, ◌<◌, ◌≡◌, ◌≢◌, ◌∙◌, refl, sym, ap, inl, inr, arith, ltb, Bool-cases,
}
use mathlib.Core.Path.{subst}
use enki_os.Base.Memory.{Memory}
use enki_os.Base.Word.{u32, load32, store32, load32-store32_self, load32-same, store32-beyond}
use enki_os.Status.{heap_address}
use enki_os.Heap.{heap_get_entry_type}
use enki_os.Heap.Table.{Blocks-same}
use enki_os.Kheap.{kzalloc, kernel_heap_table}
use enki_os.Kheap.Zeroed.{kernel_heap}
use enki_os.Kheap.Page.{Free, Page, Room, page_at, heap_blocks, kzalloc-Page}
use enki_os.Paging.{fill_table, new_tables}
use enki_os.Paging.Entry.{table_of}
use enki_os.Paging.Fresh.{Beyond, fill_table-Beyond, fill_table-at, entry_page}

-- What lies below the heap is the same, the table of its blocks included.
abbrev SameLow : Memory → Memory → Type 0
SameLow m m' = (a : ℕ) → a < heap_address → m' a ≡ m a

Free-low : {m m' : Memory} (c : ℕ) → c < heap_blocks → SameLow m m' → Free m' c → Free m c
Free-low c lt same free =
    ap heap_get_entry_type (sym (same (kernel_heap_table.entries + c) (omega arith))) ∙ free

Room-low : {m m' : Memory} {s k : ℕ} → SameLow m m' → Room m s k → Room m' s k
Room-low same room = record {
  ready = Blocks-same room.ready (λ a lo hi. same a (omega arith));
  vacant = λ j lo hi.
      ap heap_get_entry_type (same (kernel_heap_table.entries + j) (omega (arith, room.within)))
      ∙ room.vacant j lo hi;
  within = room.within;
}

-- The tables of the `n` entries from `i` on of the directory in block `eb` have been made, from memory
-- with room from `s` on.
pub record Made (n i eb s k flags : ℕ) (m m' : Memory) : Type 0 where
  pub room : Room m' (s + n) k
  pub table :
      (j : ℕ)
      → i ≤ j
      → j < i + n
      → (b : ℕ) × (b < heap_blocks)
        × Free m b
        × (¬ Free m' b)
        × (table_of m' (page_at eb) j ≡ page_at b)
        × ((w : ℕ) → w < 1024 → load32 m' (page_at b + 4 * w) ≡ j * 4194304 + w * 4096 + flags)
  pub apart :
      (j j' : ℕ)
      → i ≤ j
      → j < j'
      → j' < i + n
      → table_of m' (page_at eb) j ≢ table_of m' (page_at eb) j'
  pub kept : (c : ℕ) → c < heap_blocks → ¬ Free m c → ¬ Free m' c
  pub same :
      (c a : ℕ)
      → c < heap_blocks
      → ¬ Free m c
      → page_at c ≤ a
      → a < page_at c + 4096
      → Beyond (page_at eb + 4 * i) n a
      → m' a ≡ m a

-- A round: a page is taken, filled, and named by entry `i`.
module _ (i eb s k flags offset b : ℕ) (m : Memory) (out : ℕ × Memory) (inside : i < 1024)
    (block : eb < heap_blocks) (used : ¬ Free m eb) (few : flags < 4096)
    (at : u32 (i * 4194304) ≡ offset) (page : Page 4096 b s k m out) where
  abbrev filled : Memory
  filled = fill_table 1024 0 (page_at b) offset flags out.1

  abbrev pub round : Memory
  round = store32 filled (page_at eb + 4 * i) (bit_or (bit_or (page_at b) flags) 2)

  round_low : SameLow out.1 round
  round_low a low =
      store32-beyond filled (page_at eb + 4 * i) _ a (omega arith)
      ∙ fill_table-Beyond 1024 0 (page_at b) offset flags out.1 a (omega arith)

  round_ne : b ≢ eb
  round_ne e = used (rw e at (page.was_free))

  round_taken : ¬ Free round b
  round_taken free = page.taken (Free-low b page.block round_low free)

  round_kept : (c : ℕ) → c < heap_blocks → ¬ Free m c → ¬ Free round c
  round_kept c lt was free = page.still c lt was (Free-low c lt round_low free)

  round_free : (c : ℕ) → c < heap_blocks → Free round c → Free m c
  round_free c lt free =
      page.others c lt (λ e. round_taken (rw e at free)) (Free-low c lt round_low free)

  round-Room : Room round (s + 1) k
  round-Room = Room-low round_low page.room

  round_same :
      (c a : ℕ)
      → c < heap_blocks
      → ¬ Free m c
      → page_at c ≤ a
      → a < page_at c + 4096
      → Beyond (page_at eb + 4 * i) 1 a
      → round a ≡ m a
  round_same c a lt was lo hi out' =
      let ne : c ≢ b = λ e. was (rw (sym e) at (page.was_free)) in
      store32-beyond filled (page_at eb + 4 * i) _ a (omega arith)
      ∙ fill_table-Beyond 1024 0 (page_at b) offset flags out.1 a (ground arith)
      ∙ page.same a (omega arith) (ground arith)

  round_entry : table_of round (page_at eb) i ≡ page_at b
  round_entry =
      ap (λ w. bit_and w 0xFFFFF000)
        (load32-store32_self filled (page_at eb + 4 * i) (bit_or (bit_or (page_at b) flags) 2))
      ∙ entry_page (page_at b) flags (omega arith) (omega (arith, page.block)) few

  round_words :
      (w : ℕ) → w < 1024 → load32 round (page_at b + 4 * w) ≡ i * 4194304 + w * 4096 + flags
  round_words w lt =
      let ne = round_ne in
      load32-same filled round (page_at b + 4 * w)
        (λ a lo hi. store32-beyond filled (page_at eb + 4 * i) _ a (ground arith))
      ∙ fill_table-at 1024 0 (page_at b) offset flags w out.1 (omega arith) (omega arith) few
          (omega arith) (omega arith)
      ∙ omega arith

pub differ : (P : ℕ → Type 0) (b b' : ℕ) → ¬ P b → P b' → b ≢ b'
differ P b b' taken free same = taken (subst P (sym same) free)

-- A round and the rounds behind it.
module _ (n i eb s k flags offset b r : ℕ) (m : Memory) (out : ℕ × Memory) (m' : Memory)
    (inside : i + suc n ≤ 1024) (block : eb < heap_blocks) (used : ¬ Free m eb) (few : flags < 4096)
    (at : u32 (i * 4194304) ≡ offset) (page : Page 4096 b s r m out)
    (rest : Made n
      (i + 1)
      eb
      (s + 1)
      k
      flags
      (round i eb s r flags offset b m out (omega arith) block used few at page)
      m') where
  abbrev after : Memory
  after = round i eb s r flags offset b m out (omega arith) block used few at page

  suc_taken : ¬ Free after b
  suc_taken = round_taken i eb s r flags offset b m out (omega arith) block used few at page

  suc_ne : b ≢ eb
  suc_ne = round_ne i eb s r flags offset b m out (omega arith) block used few at page

  -- What entry `i` has got stays.
  suc_entry : table_of m' (page_at eb) i ≡ page_at b
  suc_entry =
      ap (λ w. bit_and w 0xFFFFF000)
        (load32-same after m' (page_at eb + 4 * i) (λ a lo hi.
          rest.same eb a block
            (round_kept i eb s r flags offset b m out (omega arith) block used few at page eb block
              used)
            (omega arith) (omega arith) (omega arith)))
      ∙ round_entry i eb s r flags offset b m out (omega arith) block used few at page

  suc_words : (w : ℕ) → w < 1024 → load32 m' (page_at b + 4 * w) ≡ i * 4194304 + w * 4096 + flags
  suc_words w lt =
      let ne = suc_ne in
      load32-same after m' (page_at b + 4 * w)
        (λ a lo hi. rest.same b a page.block suc_taken (omega arith) (omega arith) (ground arith))
      ∙ round_words i eb s r flags offset b m out (omega arith) block used few at page w lt

  suc_apart :
      (j j' : ℕ)
      → i ≤ j
      → j < j'
      → j' < i + suc n
      → table_of m' (page_at eb) j ≢ table_of m' (page_at eb) j'
  suc_apart j j' lo lt hi = elim (Bool-cases (ltb i j)) [
    | inl behind ↦ rest.apart j j' (ground arith) lt (omega arith)
    | inr first ↦
        let e : j ≡ i = ground arith in
        let (b', lt', free', taken', named', words') = rest.table j' (omega arith) (omega arith) in
        let ne = differ (Free after) b b' suc_taken free' in
        λ equal.
          ne (omega (arith, sym suc_entry ∙ ap (table_of m' (page_at eb)) (sym e) ∙ equal ∙ named'))
  ]

  Made-suc : Made (suc n) i eb s k flags m m'
  Made-suc = record {
    room = let e : s + 1 + n ≡ s + suc n = omega arith in rw (← e) rest.room;
    table = λ j lo hi. elim (Bool-cases (ltb i j)) [
      | inl behind ↦
          let (b', lt', free', taken', named', words') =
            rest.table j (ground arith) (omega arith) in
          (
            b',
            lt',
            round_free i eb s r flags offset b m out (omega arith) block used few at page b' lt'
                free',
            taken',
            named',
            words',
          )
      | inr first ↦
          let e : j ≡ i = ground arith in
          rw e
            (b, page.block, page.was_free, rest.kept b page.block suc_taken, suc_entry, suc_words)
    ];
    apart = suc_apart;
    kept = λ c lt was.
        rest.kept c lt
          (round_kept i eb s r flags offset b m out (omega arith) block used few at page c lt was);
    same = λ c a lt was lo hi beyond.
        rest.same c a lt
          (round_kept i eb s r flags offset b m out (omega arith) block used few at page c lt was)
          lo hi (omega arith)
        ∙ round_same i eb s r flags offset b m out (omega arith) block used few at page c a lt was
            lo hi (omega arith);
  }

-- The memory behind a round, whose page is `p`.
abbrev behind : ℕ → ℕ → ℕ → ℕ → ℕ → Memory → Memory
behind i entries offset flags p m =
    store32 (fill_table 1024 0 p offset flags m) (entries + 4 * i) (bit_or (bit_or p flags) 2)

new_tables-suc :
    (n i entries offset flags : ℕ) (m : Memory)
    → new_tables kernel_heap (suc n) i entries offset flags m
      ≡ new_tables kernel_heap n (i + 1) entries (u32 (offset + 4194304)) flags (
          behind i entries offset flags
            (kzalloc kernel_heap 4096 m).0
            (kzalloc kernel_heap 4096 m).1)
unfolding new_tables
new_tables-suc n i entries offset flags m = refl

-- The directory in block `eb`, which is taken, gets a table for each of `n` entries from `i` on, where
-- the heap has room for them.
pub new_tables-Made :
    (n i eb s k r flags offset : ℕ) (m : Memory)
    → i + n ≤ 1024
    → eb < heap_blocks
    → ¬ Free m eb
    → flags < 4096
    → u32 (i * 4194304) ≡ offset
    → Room m s r
    → r ≡ n + k
    → Made n i eb s k flags m (new_tables kernel_heap n i (page_at eb) offset flags m)
unfolding new_tables
new_tables-Made zero i eb s k r flags offset m inside block used few at room e = record {
  room = let f : s + 0 ≡ s = omega arith in let g : r ≡ k = omega arith in rw (f, ← g) room;
  table = λ j lo hi. absurd (omega arith);
  apart = λ j j' lo lt hi. absurd (omega arith);
  kept = λ c lt was. was;
  same = λ c a lt was lo hi beyond. refl;
}
new_tables-Made (suc n) i eb s k r flags offset m inside block used few at room e =
    let f : r ≡ suc (n + k) = omega arith in
    let room' : Room m s (suc (n + k)) = rw f at room in
    let (b, page) = kzalloc-Page 4096 s (n + k) m (omega arith) (omega arith) room' in
    let out : ℕ × Memory = kzalloc kernel_heap 4096 m in
    let e' =
      ap
        (λ p.
          new_tables kernel_heap n (i + 1) (page_at eb) (u32 (offset + 4194304)) flags
            (behind i (page_at eb) offset flags p out.1))
        page.addr in
    subst (Made (suc n) i eb s k flags m)
      (sym (new_tables-suc n i (page_at eb) offset flags m ∙ e'))
      (Made-suc n i eb s k flags offset b (n + k) m out _ inside block used few at page (
        new_tables-Made n (i + 1) eb (s + 1) k (n + k) flags (u32 (offset + 4194304))
          (round i eb s (n + k) flags offset b m out (omega arith) block used few at page)
          (omega arith) block
          (round_kept i eb s (n + k) flags offset b m out (omega arith) block used few at page eb
            block used)
          few (omega arith)
          (round-Room i eb s (n + k) flags offset b m out (omega arith) block used few at page)
          refl))
