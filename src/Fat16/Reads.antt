-- ===== src/Fat16/Reads.antt =====
-- fat16.c: a read that goes over several clusters of a file, one call after the other.
use enki_os.Base.{
  ℕ, zero, suc, ◌+◌, ◌-◌, ◌*◌, ◌^◌, ◌≤◌, ◌<◌, ◌≡◌, ◌∙◌, refl, sym, ap, inl, inr, true, false, Bool,
  some, arith, ltb, Bool-cases, if◌then◌else◌,
}
use native.Mathlib.Nat.{suc-mul, suc-add}
use enki_os.Base.Int.{ℤ, pos}
use enki_os.Base.Memory.{Memory, in_range}
use enki_os.Disk.Stream.{Serves, Read}
use enki_os.Fat16.{FatPrivate, fat16_read_internal}
use enki_os.Fat16.Chain.{chain, entry, Linked, SameFs}
use enki_os.Fat16.Contents.{
  cluster_pos, file_byte, Readable, Copied, byte_place, Readable-same, part, call_once,
}

Linked-take :
    (image : ℕ → ℕ → ℕ) (reserved j k c : ℕ)
    → Linked image reserved (j + k) c
    → Linked image reserved j c
unfolding Linked
Linked-take image reserved zero k c linked = tt
Linked-take image reserved (suc j) k c linked =
    let (on, rest) = rw (suc-add j k) at linked in
    (on, Linked-take image reserved j k (entry image reserved c) rest)

-- The part of a read that lies in cluster `j` of the file.
cluster-Copied :
    (image : ℕ → ℕ → ℕ) (p : FatPrivate) (j c out n : ℕ) (m m' : Memory)
    → 0 < p.sect_per_cluster
    → n ≤ p.sect_per_cluster * 512
    → Read image
        (cluster_pos p.sect_per_cluster p.sector_end (chain image p.reserved_sectors j c))
        out
        n
        m
        m'
    → Copied (λ i. file_byte image p c (j * (p.sect_per_cluster * 512) + i)) out n m m'
cluster-Copied image p j c out n m m' positive le read a =
    rw (read a) (elim (Bool-cases (in_range out n a)) [
      | inl inside ↦
          let (index, place) =
            byte_place (p.sect_per_cluster * 512) j (a - out) (omega arith) (ground arith) in
          rw (inside, index, place) refl
      | inr outside ↦ rw outside refl
    ])

Copied-append :
    (f g : ℕ → ℕ) (out n k : ℕ) (m m1 m2 : Memory)
    → Copied f out n m m1
    → Copied g (out + n) k m1 m2
    → ((i : ℕ) → g i ≡ f (n + i))
    → Copied f out (n + k) m m2
Copied-append f g out n k m m1 m2 first rest next a =
    ground (arith, first a, rest a, next (a - (out + n)))

file_byte-same :
    (image : ℕ → ℕ → ℕ) (p p' : FatPrivate) (c x : ℕ)
    → SameFs p p'
    → file_byte image p' c x ≡ file_byte image p c x
file_byte-same image p p' c x fs = rw (fs.spc, fs.reserved, fs.end) refl

SameFs-trans : (p q r : FatPrivate) → SameFs p q → SameFs q r → SameFs p r
SameFs-trans p q r a b = record {
  spc = b.spc ∙ a.spc;
  reserved = b.reserved ∙ a.reserved;
  end = b.end ∙ a.end;
  clusters = b.clusters ∙ a.clusters;
  fat = b.fat ∙ a.fat;
}

if_true {ℓ} : {A : Type ℓ} (b : Bool) (x y : A) → b ≡ true → (if b then x else y) ≡ x
if_true b x y e = rw e refl

-- The offset of the next cluster.
next_offset :
    (p p1 : FatPrivate) (j : ℕ)
    → SameFs p p1
    → suc j * (p1.sect_per_cluster * 512)
      ≡ j * (p.sect_per_cluster * 512) + p.sect_per_cluster * 512
next_offset p p1 j fs = rw fs.spc (suc-mul j (p.sect_per_cluster * 512))

module _ {image : ℕ → ℕ → ℕ} (disk : ℕ) {drs : ℕ → ℕ → (ℕ → ℕ) → ℤ × (ℕ → ℕ)}
    (serves : Serves image drs) (stack : ℕ → ℕ) where
  -- What a read has done.
  abbrev Done : ℕ → ℕ → ℕ → ℕ → ℕ → FatPrivate → Memory → Type 0
  Done fuel j c total out p m =
      (p' : FatPrivate) × (m' : Memory) × SameFs p p'
      × Copied (λ i. file_byte image p c (j * (p.sect_per_cluster * 512) + i)) out total m m'
      × (fat16_read_internal disk drs stack fuel c (j * (p.sect_per_cluster * 512)) total out p m
          ≡ some (pos 0, p', m'))

  -- The last cluster of a read.
  read_last :
      (fuel j c total out : ℕ) (p : FatPrivate) (m : Memory)
      → Readable disk p
      → c < 2 ^ 16
      → Linked image p.reserved_sectors j c
      → total ≤ p.sect_per_cluster * 512
      → j * (p.sect_per_cluster * 512) + total < 2 ^ 31
      → Done (suc fuel) j c total out p m
  read_last fuel j c total out p m ok lt linked fits small =
      let last : ltb (p.sect_per_cluster * 512) total ≡ false = ground arith in
      let (p1, m1, fs, read, e) =
        call_once disk serves stack fuel j c total out p m ok lt linked small in
      let all : part (p.sect_per_cluster * 512) total ≡ total = rw last refl in
      let none_left : ltb 0 (total - total) ≡ false = ground arith in
      (
        p1,
        m1,
        fs,
        cluster-Copied image p j c out total m m1 ok.some_sectors fits (rw all at read),
        rw (all, none_left) at e,
      )

  -- A read from the start of the `j`-th cluster of a file, whose chain leads on for the `k` clusters
  -- behind that one, into which the read fits: the call returns 0 with any fuel above `k`, the bytes of
  -- the file stand at `out` and nothing else has changed.
  pub read_internal-Copied :
      (k fuel j c total out : ℕ) (p : FatPrivate) (m : Memory)
      → Readable disk p
      → c < 2 ^ 16
      → Linked image p.reserved_sectors (j + k) c
      → k < fuel
      → total ≤ p.sect_per_cluster * 512 + k * (p.sect_per_cluster * 512)
      → j * (p.sect_per_cluster * 512) + total < 2 ^ 31
      → (p' : FatPrivate) × (m' : Memory) × SameFs p p'
        × Copied (λ i. file_byte image p c (j * (p.sect_per_cluster * 512) + i)) out total m m'
        × (fat16_read_internal disk drs stack fuel c (j * (p.sect_per_cluster * 512)) total out p m
            ≡ some (pos 0, p', m'))
  read_internal-Copied k zero j c total out p m ok lt linked enough fits small =
      absurd (omega arith)
  read_internal-Copied zero (suc fuel) j c total out p m ok lt linked enough fits small =
      read_last fuel j c total out p m ok lt (Linked-take image p.reserved_sectors j 0 c linked)
        (omega arith) small
  read_internal-Copied (suc k) (suc fuel) j c total out p m ok lt linked enough fits small =
      let cs : ℕ = p.sect_per_cluster * 512 in
      let here = Linked-take image p.reserved_sectors j (suc k) c linked in
      elim (Bool-cases (ltb cs total)) [
        | inr last ↦ read_last fuel j c total out p m ok lt here (ground arith) small
        | inl more ↦
            let (p1, m1, fs, read, e) =
              call_once disk serves stack fuel j c total out p m ok lt here small in
            let whole : part cs total ≡ cs = rw more refl in
            let index : j + suc k ≡ suc j + k = omega arith in
            let next = next_offset p p1 j fs in
            let (p2, m2, fs2, rest, r) =
              read_internal-Copied k fuel (suc j) c (total - cs) (out + cs) p1 m1
                (Readable-same disk p p1 fs ok) lt (rw fs.reserved (rw index at linked))
                (omega arith) (rw fs.spc (omega (arith, suc-mul k cs, fits)))
                (ground (arith, next)) in
            let all : cs + (total - cs) ≡ total = ground arith in
            let first =
              cluster-Copied image p j c out cs m m1 ok.some_sectors (omega arith)
                (rw whole at read) in
            (
              p2,
              m2,
              SameFs-trans p p1 p2 fs fs2,
              rw all at (
                  Copied-append (λ i. file_byte image p c (j * cs + i))
                    (λ i. file_byte image p1 c (suc j * (p1.sect_per_cluster * 512) + i)) out cs
                    (total - cs) m m1 m2 first rest
                    (λ i.
                      let place : suc j * (p1.sect_per_cluster * 512) + i ≡ j * cs + (cs + i) =
                        omega (arith, next) in
                      file_byte-same image p p1 c _ fs ∙ ap (file_byte image p c) place)),
              (rw whole at e)
                  ∙ if_true (ltb 0 (total - cs)) _ _ (ground arith)
                  ∙ ap
                      (λ o.
                        fat16_read_internal disk drs stack fuel c o (total - cs) (out + cs) p1 m1)
                      (sym next)
                  ∙ r,
            )
      ]
