-- ===== src/Fat16/Chain.antt =====
-- fat16.c: the walk along a chain of clusters.
use enki_os.Base.{
  ℕ, zero, suc, ◌+◌, ◌*◌, ◌%◌, ◌^◌, ◌<◌, ◌≡◌, ◌∙◌, refl, sym, true, false, some, arith,
}
use enki_os.Base.Int.{ℤ, pos}
use enki_os.Base.Word.{u32}
use enki_os.Status.{eio}
use enki_os.Disk.{disk_stream_seek}
use enki_os.Disk.Stream.{Serves, disk_byte, disk_stream_read-Read}
use enki_os.Fat16.{FatPrivate, with_fat_read, unsigned, stops, fat16_get_fat_entry, cluster_loop}

-- The entry of a cluster in the table on the disk, which the reserved sectors stand before.
abbrev pub entry : (ℕ → ℕ → ℕ) → ℕ → ℕ → ℕ
entry image reserved c =
    disk_byte image (reserved * 512 + c * 2) % 256
    + disk_byte image (reserved * 512 + c * 2 + 1) % 256 * 2 ^ 8

-- The cluster `n` places behind `c` in its chain.
abbrev pub chain : (ℕ → ℕ → ℕ) → ℕ → ℕ → ℕ → ℕ
chain image reserved zero c = c
chain image reserved (suc n) c = chain image reserved n (entry image reserved c)

-- The first `n` entries of the chain lead on.
unfoldable pub Linked : (ℕ → ℕ → ℕ) → ℕ → ℕ → ℕ → Type 0
Linked image reserved zero c = Unit
Linked image reserved (suc n) c =
    (stops (pos (entry image reserved c)) ≡ false)
    × Linked image reserved n (entry image reserved c)

-- The same file system: the parameters, and the streams but for their position.
pub record SameFs (p p' : FatPrivate) : Type 0 where
  pub spc : p'.sect_per_cluster ≡ p.sect_per_cluster
  pub reserved : p'.reserved_sectors ≡ p.reserved_sectors
  pub end : p'.sector_end ≡ p.sector_end
  pub clusters : p'.cluster_read.disk ≡ p.cluster_read.disk
  pub fat : p'.fat_read.disk ≡ p.fat_read.disk

entry_lt : (image : ℕ → ℕ → ℕ) (reserved c : ℕ) → entry image reserved c < 2 ^ 16
entry_lt image reserved c = omega arith

module _ {image : ℕ → ℕ → ℕ} (disk : ℕ) {drs : ℕ → ℕ → (ℕ → ℕ) → ℤ × (ℕ → ℕ)}
    (serves : Serves image drs) (stack : ℕ → ℕ) where
  get_entry :
      (c : ℕ) (p : FatPrivate)
      → c < 2 ^ 16
      → p.reserved_sectors < 2 ^ 16
      → p.fat_read.disk ≡ disk
      → (p' : FatPrivate) × (fat16_get_fat_entry disk drs stack (pos c) p
          ≡ some (pos (entry image p.reserved_sectors c), p'))
        × SameFs p p'
  unfolding fat16_get_fat_entry disk_stream_seek unsigned
  get_entry c p small few same =
      let at : ℕ = p.reserved_sectors * 512 + c * 2 in
      let (m', e, read) =
        disk_stream_read-Read disk serves 3 at 0 2 stack (λ a. 0) (omega arith) (omega arith) in
      let place : u32 (p.reserved_sectors * 512 + u32 c * 2) ≡ at = omega arith in
      let lo : m' 0 ≡ disk_byte image at = ground (arith, read 0) in
      let hi : m' 1 ≡ disk_byte image (at + 1) = ground (arith, read 1) in
      (
        with_fat_read p (record { pos = at + 2; disk = disk }),
        rw (place, same, e, lo, hi) refl,
        record { spc = refl; reserved = refl; end = refl; clusters = refl; fat = sym same },
      )

  -- Where the first `n` entries lead on, the walk ends at the `n`-th cluster of the chain.
  pub cluster_loop-chain :
      (n c : ℕ) (p : FatPrivate)
      → c < 2 ^ 16
      → p.reserved_sectors < 2 ^ 16
      → p.fat_read.disk ≡ disk
      → Linked image p.reserved_sectors n c
      → (p' : FatPrivate) × (cluster_loop disk drs stack n (pos c) p
          ≡ some (pos (chain image p.reserved_sectors n c), p'))
        × SameFs p p'
  unfolding cluster_loop Linked
  cluster_loop-chain zero c p small few same linked =
      (p, refl, record { spc = refl; reserved = refl; end = refl; clusters = refl; fat = refl })
  cluster_loop-chain (suc n) c p small few same (on, linked) =
      let (p1, e1, fs1) = get_entry c p small few same in
      let (p2, e2, fs2) =
        cluster_loop-chain n (entry image p.reserved_sectors c) p1
          (entry_lt image p.reserved_sectors c) (rw fs1.reserved few) (fs1.fat ∙ same)
          (rw fs1.reserved linked) in
      (
        p2,
        rw (e1, on, e2, fs1.reserved) refl,
        record {
          spc = fs2.spc ∙ fs1.spc;
          reserved = fs2.reserved ∙ fs1.reserved;
          end = fs2.end ∙ fs1.end;
          clusters = fs2.clusters ∙ fs1.clusters;
          fat = fs2.fat ∙ fs1.fat;
        },
      )

  -- Where an entry on the way stops the walk, it returns -EIO.
  pub cluster_loop-stops :
      (n k c : ℕ) (p : FatPrivate)
      → c < 2 ^ 16
      → p.reserved_sectors < 2 ^ 16
      → p.fat_read.disk ≡ disk
      → Linked image p.reserved_sectors n c
      → stops (pos (entry image p.reserved_sectors (chain image p.reserved_sectors n c))) ≡ true
      → n < k
      → (p' : FatPrivate) × (cluster_loop disk drs stack k (pos c) p ≡ some (eio, p'))
  unfolding cluster_loop Linked
  cluster_loop-stops n zero c p small few same linked stop lt = absurd (omega arith)
  cluster_loop-stops zero (suc k) c p small few same linked stop lt =
      let (p1, e1, fs1) = get_entry c p small few same in (p1, rw (e1, stop) refl)
  cluster_loop-stops (suc n) (suc k) c p small few same (on, linked) stop lt =
      let (p1, e1, fs1) = get_entry c p small few same in
      let (p2, e2) =
        cluster_loop-stops n k (entry image p.reserved_sectors c) p1
          (entry_lt image p.reserved_sectors c) (rw fs1.reserved few) (fs1.fat ∙ same)
          (rw fs1.reserved linked) (rw fs1.reserved stop) (omega arith) in
      (p2, rw (e1, on, e2) refl)
