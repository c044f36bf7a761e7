-- ===== src/Paging/Map.antt =====
-- paging_map, paging_map_range and paging_map_to: the pages that they map, and the translation.
use Prim.Native.Nat.{bit_or}
use enki_os.Base.{
  ℕ, zero, suc, ◌+◌, ◌-◌, ◌*◌, ◌/◌, ◌%◌, ◌^◌, ◌≤◌, ◌<◌, ◌≡◌, ◌≢◌, ◌∙◌, ◌⊎◌, refl, ap, arith,
  if◌then◌else◌,
}
use enki_os.Base.Int.{ℤ, pos}
use enki_os.Base.Bits.{and_page, or_flags}
use enki_os.Base.Memory.{Memory, in_range}
use enki_os.Base.Word.{u32, load32, store32, load32-store32_ne}
use enki_os.Status.{einvarg}
use enki_os.Paging.{
  pages_in, paging_get, paging_set, paging_map, map_loop, paging_map_to, paging_get_phys_addr,
  paging_align_to_lower,
}
use enki_os.Paging.Entry.{
  IsDirectory, table_of, slot, set-eq, slot_within, table_of-store, IsDirectory-store, get-store,
}

-- The word at `dir` is the address of a directory, and lies in none of its tables.
pub record IsPageDir (m : Memory) (dir : ℕ) : Type 0 where
  pub directory : IsDirectory m (load32 m dir)
  pub outside :
      (i : ℕ)
      → i < 1024
      → ((dir + 4 ≤ table_of m (load32 m dir) i) ⊎ (table_of m (load32 m dir) i + 4096 ≤ dir))

-- The `len` bytes from `virt` on are mapped to those from `phys` on, with the flags; every other page
-- keeps its entry.
pub record Mapped (dir virt phys len flags : ℕ) (m m' : Memory) : Type 0 where
  pub entries : load32 m' dir ≡ load32 m dir
  pub valid : IsPageDir m' dir
  pub get :
      (a : ℕ)
      → a < 2 ^ 32
      → a % 4096 ≡ 0
      → paging_get (load32 m dir) a m'
        ≡ (if in_range virt len a then phys + (a - virt) + flags else paging_get (load32 m dir) a m)

pub page_flags :
    (phys flags : ℕ) → phys % 4096 ≡ 0 → flags < 4096 → bit_or phys flags ≡ phys + flags
page_flags phys flags al lt =
    let e : phys ≡ phys / 4096 * 2 ^ 12 = omega arith in
    ap (λ p. bit_or p flags) e ∙ or_flags 12 (phys / 4096) flags lt ∙ omega arith

map-eq :
    (dir virt phys flags : ℕ) (m : Memory)
    → virt % 4096 ≡ 0
    → phys % 4096 ≡ 0
    → paging_map dir virt phys flags m ≡ paging_set (load32 m dir) virt (bit_or phys flags) m
unfolding paging_map
map-eq dir virt phys flags m al alp = ground arith

-- What a write to a table's slot leaves of the directory and its address.
module _ (dir virt val : ℕ) (m : Memory) (ok : IsPageDir m dir) (lt : virt < 2 ^ 32) where
  abbrev written : Memory
  written = store32 m (slot m (load32 m dir) virt) val

  entries-store : load32 written dir ≡ load32 m dir
  entries-store =
      load32-store32_ne m (slot m (load32 m dir) virt) val dir (
        omega (arith, slot_within m (load32 m dir) virt, ok.outside (virt / 4194304) (omega arith)))

  IsPageDir-store : IsPageDir written dir
  IsPageDir-store = record {
    directory = rw entries-store (IsDirectory-store ok.directory virt val lt);
    outside =
        λ i hi. rw (entries-store, table_of-store ok.directory virt val lt i hi) (ok.outside i hi);
  }

module _ (dir virt phys flags : ℕ) (m : Memory) (ok : IsPageDir m dir) where
  -- `paging_map` of aligned addresses maps one page.
  pub map-Mapped :
      virt < 2 ^ 32
      → virt % 4096 ≡ 0
      → phys < 2 ^ 32
      → phys % 4096 ≡ 0
      → flags < 4096
      → ((paging_map dir virt phys flags m).0 ≡ pos 0)
        × Mapped dir virt phys 4096 flags m (paging_map dir virt phys flags m).1
  map-Mapped lt al ltp alp few =
      let val : ℕ = bit_or phys flags in
      let e = map-eq dir virt phys flags m al alp ∙ set-eq (load32 m dir) virt val m al in
      rw e (
        refl,
        record {
          entries = entries-store dir virt val m ok lt;
          valid = IsPageDir-store dir virt val m ok lt;
          get = λ a lta ala. ground (
            arith,
            get-store virt val a ok.directory lt al lta ala,
            page_flags phys flags alp few,
          );
        },
      )

-- No page is mapped.
Mapped-nil :
    (dir virt phys flags : ℕ) (m : Memory) → IsPageDir m dir → Mapped dir virt phys 0 flags m m
Mapped-nil dir virt phys flags m ok = record {
  entries = refl;
  valid = ok;
  get = λ a lt al. ground arith;
}

-- One page, and the pages behind it.
Mapped-append :
    (dir virt phys len flags : ℕ) (m m1 m2 : Memory)
    → virt % 4096 ≡ 0
    → Mapped dir virt phys 4096 flags m m1
    → Mapped dir (virt + 4096) (phys + 4096) len flags m1 m2
    → Mapped dir virt phys (4096 + len) flags m m2
Mapped-append dir virt phys len flags m m1 m2 al first rest = record {
  entries = rest.entries ∙ first.entries;
  valid = rest.valid;
  get = λ a lt ala. ground (arith, first.get a lt ala, rw first.entries at (rest.get a lt ala));
}

-- One round of the loop, where the page is mapped.
map_loop-suc :
    (n dir virt phys flags : ℕ) (m : Memory) (r : ℤ)
    → (paging_map dir virt phys flags m).0 ≡ pos 0
    → map_loop (suc n) r dir virt phys flags m
      ≡ map_loop n
          (pos 0)
          dir
          (u32 (virt + 4096))
          (u32 (phys + 4096))
          flags
          (paging_map dir virt phys flags m).1
unfolding map_loop
map_loop-suc n dir virt phys flags m r e = rw e

map_loop_zero :
    (dir virt phys flags : ℕ) (m : Memory) → map_loop 0 (pos 0) dir virt phys flags m ≡ (pos 0, m)
unfolding map_loop
map_loop_zero dir virt phys flags m = refl

map_loop-Mapped :
    (n dir virt phys flags len : ℕ) (m : Memory) (r : ℤ)
    → IsPageDir m dir
    → virt % 4096 ≡ 0
    → phys % 4096 ≡ 0
    → flags < 4096
    → 4096 + n * 4096 ≡ len
    → virt + len ≤ 2 ^ 32
    → phys + len ≤ 2 ^ 32
    → ((map_loop (suc n) r dir virt phys flags m).0 ≡ pos 0)
      × Mapped dir virt phys len flags m (map_loop (suc n) r dir virt phys flags m).1
map_loop-Mapped zero dir virt phys flags len m r ok al alp few e lv lp =
    let (done, page) = map-Mapped dir virt phys flags m ok (omega arith) al (omega arith) alp few in
    let same : len ≡ 4096 = omega arith in
    rw (map_loop-suc 0 dir virt phys flags m r done, map_loop_zero, same) (refl, page)
map_loop-Mapped (suc n) dir virt phys flags len m r ok al alp few e lv lp =
    let (done, page) = map-Mapped dir virt phys flags m ok (omega arith) al (omega arith) alp few in
    let (status, rest) =
      map_loop-Mapped n dir (virt + 4096) (phys + 4096) flags (4096 + n * 4096) _ (pos 0) page.valid
        (omega arith) (omega arith) few refl (omega arith) (omega arith) in
    let v : u32 (virt + 4096) ≡ virt + 4096 = omega arith in
    let p : u32 (phys + 4096) ≡ phys + 4096 = omega arith in
    let l : len ≡ 4096 + (4096 + n * 4096) = omega arith in
    rw (map_loop-suc (suc n) dir virt phys flags m r done, v, p, l)
      (status, Mapped-append dir virt phys (4096 + n * 4096) flags m _ _ al page rest)

pages-Mapped :
    (n dir virt phys flags len : ℕ) (m : Memory)
    → IsPageDir m dir
    → virt % 4096 ≡ 0
    → phys % 4096 ≡ 0
    → flags < 4096
    → n * 4096 ≡ len
    → virt + len ≤ 2 ^ 32
    → phys + len ≤ 2 ^ 32
    → ((map_loop n (pos 0) dir virt phys flags m).0 ≡ pos 0)
      × Mapped dir virt phys len flags m (map_loop n (pos 0) dir virt phys flags m).1
pages-Mapped zero dir virt phys flags len m ok al alp few e lv lp =
    let none : len ≡ 0 = omega arith in
    rw (none, map_loop_zero) (refl, Mapped-nil dir virt phys flags m ok)
pages-Mapped (suc n) dir virt phys flags len m ok al alp few e lv lp =
    map_loop-Mapped n dir virt phys flags len m (pos 0) ok al alp few (omega arith) lv lp

map_to-eq :
    (dir virt phys phys_end flags : ℕ) (m : Memory)
    → virt % 4096 ≡ 0
    → phys % 4096 ≡ 0
    → phys_end % 4096 ≡ 0
    → phys ≤ phys_end
    → phys_end - phys < 2 ^ 31
    → paging_map_to dir virt phys phys_end flags m
      ≡ map_loop ((phys_end - phys) / 4096) (pos 0) dir virt phys flags m
unfolding paging_map_to pages_in
map_to-eq dir virt phys phys_end flags m al alp ale le short = ground arith

-- A range of 2 GB or more: `paging_map_to` returns 0, and maps nothing.
pub map_to_nothing :
    (dir virt phys phys_end flags : ℕ) (m : Memory)
    → virt % 4096 ≡ 0
    → phys % 4096 ≡ 0
    → phys_end % 4096 ≡ 0
    → phys + 2 ^ 31 ≤ phys_end
    → paging_map_to dir virt phys phys_end flags m ≡ (pos 0, m)
unfolding paging_map_to pages_in map_loop
map_to_nothing dir virt phys phys_end flags m al alp ale far = ground arith

-- `paging_map_to` of aligned addresses, in a range below 2 GB that does not wrap, returns 0 and maps the pages
-- from `virt` on to those from `phys` up to `phys_end`, and no others.
pub map_to-Mapped :
    (dir virt phys phys_end flags : ℕ) (m : Memory)
    → IsPageDir m dir
    → virt % 4096 ≡ 0
    → phys % 4096 ≡ 0
    → phys_end % 4096 ≡ 0
    → phys ≤ phys_end
    → phys_end < 2 ^ 32
    → phys_end - phys < 2 ^ 31
    → virt + (phys_end - phys) ≤ 2 ^ 32
    → flags < 4096
    → ((paging_map_to dir virt phys phys_end flags m).0 ≡ pos 0)
      × Mapped dir virt phys
          (phys_end - phys)
          flags
          m
          (paging_map_to dir virt phys phys_end flags m).1
map_to-Mapped dir virt phys phys_end flags m ok al alp ale le lt short fits few =
    rw (map_to-eq dir virt phys phys_end flags m al alp ale le short) (
      pages-Mapped ((phys_end - phys) / 4096) dir virt phys flags (phys_end - phys) m ok al alp few
        (omega arith) fits (omega arith))

-- Unaligned addresses, or an end below the start, make `paging_map_to` return -EINVARG; nothing is
-- mapped.
pub map_to_refused :
    (dir virt phys phys_end flags : ℕ) (m : Memory)
    → ((virt % 4096 ≢ 0) ⊎ (phys % 4096 ≢ 0) ⊎ (phys_end % 4096 ≢ 0) ⊎ (phys_end < phys))
    → paging_map_to dir virt phys phys_end flags m ≡ (einvarg, m)
unfolding paging_map_to
map_to_refused dir virt phys phys_end flags m bad = ground arith

-- Where a range has been mapped, `paging_get_phys_addr` translates each of its addresses.
pub get_phys_addr-Mapped :
    (dir virt phys len flags a : ℕ) (m m' : Memory)
    → Mapped dir virt phys len flags m m'
    → virt % 4096 ≡ 0
    → phys % 4096 ≡ 0
    → len % 4096 ≡ 0
    → flags < 4096
    → phys + len ≤ 2 ^ 32
    → virt + len ≤ 2 ^ 32
    → virt ≤ a
    → a < virt + len
    → paging_get_phys_addr (load32 m dir) a m' ≡ phys + (a - virt)
unfolding paging_get_phys_addr paging_align_to_lower
get_phys_addr-Mapped dir virt phys len flags a m m' mapped al alp all few lp lv lo hi =
    let page : ℕ = a - a % 4096 in
    let word : ℕ = phys + (page - virt) + flags in
    let got : paging_get (load32 m dir) page m' ≡ word =
      ground (arith, mapped.get page (omega arith) (omega arith)) in
    rw (got, and_page word (omega arith)) (omega arith)
