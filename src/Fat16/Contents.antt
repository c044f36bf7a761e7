-- ===== src/Fat16/Contents.antt =====
-- fat16.c: the bytes of a file in its clusters, and what one call of the read does.
use enki_os.Base.{
  ℕ, zero, suc, ◌+◌, ◌-◌, ◌*◌, ◌/◌, ◌%◌, ◌^◌, ◌≤◌, ◌<◌, ◌≡◌, ◌∙◌, refl, sym, true, false, some,
  arith, ltb, if◌then◌else◌,
}
use native.Mathlib.Nat.{
  mul-add-div_right, mul-add-mod_self_right, div-eq_of_lt, mod-eq_of_lt, mul-div_cancel,
  mul-mod_left,
}
use enki_os.Base.Int.{ℤ, pos, is_neg}
use enki_os.Base.Memory.{Memory, in_range}
use enki_os.Base.Word.{u32}
use enki_os.Disk.{DiskStream, disk_stream_seek, disk_stream_read}
use enki_os.Disk.Stream.{Serves, Read, disk_byte, disk_stream_read-Read}
use enki_os.Fat16.{
  FatPrivate, int_mod, with_cluster_read, fat16_cluster_to_sector, fat16_get_cluster_offset,
  fat16_read_internal,
}
use enki_os.Fat16.Chain.{chain, entry, Linked, SameFs, cluster_loop-chain}

-- Where the bytes of cluster `c` start on the disk, with `spc` sectors to a cluster.
abbrev pub cluster_pos : ℕ → ℕ → ℕ → ℕ
cluster_pos spc end c = (end + c * spc - 2 * spc) * 512

-- Byte `k` of the file whose first cluster is `c`.
abbrev pub file_byte : (ℕ → ℕ → ℕ) → FatPrivate → ℕ → ℕ → ℕ
file_byte image p c k = disk_byte image (
    cluster_pos p.sect_per_cluster p.sector_end
      (chain image p.reserved_sectors (k / (p.sect_per_cluster * 512)) c)
    + k % (p.sect_per_cluster * 512))

-- The file system that can be read: its data starts behind the room of two clusters, its clusters lie
-- below 2 GB, and its streams are on the disk.
pub record Readable (disk : ℕ) (p : FatPrivate) : Type 0 where
  pub some_sectors : 0 < p.sect_per_cluster
  pub few_reserved : p.reserved_sectors < 2 ^ 16
  pub reached : 2 * p.sect_per_cluster ≤ p.sector_end
  pub low :
      (c : ℕ)
      → c < 2 ^ 16
      → cluster_pos p.sect_per_cluster p.sector_end c + p.sect_per_cluster * 512 < 2 ^ 31
  pub clusters : p.cluster_read.disk ≡ disk
  pub fat : p.fat_read.disk ≡ disk

-- The `total` bytes at `out` are those that `byte` numbers, and nothing else has changed.
abbrev pub Copied : (ℕ → ℕ) → ℕ → ℕ → Memory → Memory → Type 0
Copied byte out total m m' = (a : ℕ) → m' a ≡ (if in_range out total a then byte (a - out) else m a)

-- Byte `i` of cluster `j` of the file.
pub byte_place : (cs j i : ℕ) → 0 < cs → i < cs → ((j * cs + i) / cs ≡ j) × ((j * cs + i) % cs ≡ i)
byte_place cs j i positive lt =
    let whole : i / cs ≡ 0 = div-eq_of_lt lt in
    (
      rw whole at (mul-add-div_right positive j i) ∙ omega arith,
      mul-add-mod_self_right j cs i ∙ mod-eq_of_lt lt,
    )

chain_lt : (image : ℕ → ℕ → ℕ) (reserved n c : ℕ) → c < 2 ^ 16 → chain image reserved n c < 2 ^ 16
chain_lt image reserved zero c lt = lt
chain_lt image reserved (suc n) c lt =
    chain_lt image reserved n (entry image reserved c) (omega arith)

start-eq :
    (disk t : ℕ) (p p1 : FatPrivate)
    → Readable disk p
    → SameFs p p1
    → t < 2 ^ 16
    → u32 (fat16_cluster_to_sector p1 t * 512 + 0) ≡ cluster_pos p.sect_per_cluster p.sector_end t
unfolding fat16_cluster_to_sector
start-eq disk t p p1 ok fs lt =
    rw (fs.spc, fs.end) (omega (arith, ok.low t lt, ok.some_sectors, ok.reached))

-- The state behind a read: the cluster stream has moved.
pub Readable-same :
    (disk : ℕ) (p p' : FatPrivate) → SameFs p p' → Readable disk p → Readable disk p'
Readable-same disk p p' fs ok = record {
  some_sectors = rw fs.spc ok.some_sectors;
  few_reserved = rw fs.reserved ok.few_reserved;
  reached = rw (fs.spc, fs.end) ok.reached;
  low = λ c lt. rw (fs.spc, fs.end) (ok.low c lt);
  clusters = fs.clusters ∙ ok.clusters;
  fat = fs.fat ∙ ok.fat;
}

-- How much of a read a call takes from the cluster that it starts.
abbrev pub part : ℕ → ℕ → ℕ
part cs total = if ltb cs total then cs else total

module _ {image : ℕ → ℕ → ℕ} (disk : ℕ) {drs : ℕ → ℕ → (ℕ → ℕ) → ℤ × (ℕ → ℕ)}
    (serves : Serves image drs) (stack : ℕ → ℕ) where
  find-eq :
      (j c : ℕ) (p : FatPrivate)
      → Readable disk p
      → c < 2 ^ 16
      → Linked image p.reserved_sectors j c
      → j * (p.sect_per_cluster * 512) < 2 ^ 31
      → (p1 : FatPrivate) × (fat16_get_cluster_offset disk drs stack c
            (j * (p.sect_per_cluster * 512))
            p
          ≡ some (pos (chain image p.reserved_sectors j c), p1))
        × SameFs p p1
  unfolding fat16_get_cluster_offset
  find-eq j c p ok lt linked small =
      let count =
        mul-div_cancel j {n = p.sect_per_cluster * 512} (omega (arith, ok.some_sectors)) in
      let (p1, e, fs) =
        cluster_loop-chain disk serves stack j c p lt ok.few_reserved ok.fat linked in
      let low : ltb (j * (p.sect_per_cluster * 512)) (2 ^ 31) ≡ true = ground arith in
      (p1, rw (low, count, e) refl, fs)

  -- A call, where the cluster is found and the disk reads.
  step-eq :
      (fuel c offset total out t at : ℕ) (p p1 : FatPrivate) (m m' : Memory) (stream : DiskStream)
      → fat16_get_cluster_offset disk drs stack c offset p ≡ some (pos t, p1)
      → offset % (p.sect_per_cluster * 512) ≡ 0
      → offset + total < 2 ^ 31
      → p.sect_per_cluster * 512 < 2 ^ 31
      → u32 (fat16_cluster_to_sector p1 t * 512 + 0) ≡ at
      → let n = part (p.sect_per_cluster * 512) total in
        disk_stream_read disk drs
            (suc n)
            (record { pos = at; disk = p1.cluster_read.disk })
            out
            n
            stack
            m
          ≡ some (pos 0, stream, m')
        → fat16_read_internal disk drs stack (suc fuel) c offset total out p m ≡ (
            let n = part (p.sect_per_cluster * 512) total in
            if ltb 0 (total - n)
            then fat16_read_internal disk drs stack fuel c
                (offset + n)
                (total - n)
                (out + n)
                (with_cluster_read p1 stream)
                m'
            else some (pos 0, with_cluster_read p1 stream, m'))
  unfolding fat16_read_internal disk_stream_seek int_mod
  step-eq fuel c offset total out t at p p1 m m' stream found aligned small cs_small start e =
      let positive : is_neg (pos t) ≡ false = ground arith in
      let low : ltb offset (2 ^ 31) ≡ true = ground arith in
      let few : ltb total (2 ^ 31) ≡ true = ground arith in
      let n : ℕ = part (p.sect_per_cluster * 512) total in
      let on : u32 (offset + n) ≡ offset + n = ground arith in
      rw (found, positive, low, few, aligned, start, e, on) refl

  pub call_once :
      (fuel j c total out : ℕ) (p : FatPrivate) (m : Memory)
      → Readable disk p
      → c < 2 ^ 16
      → Linked image p.reserved_sectors j c
      → j * (p.sect_per_cluster * 512) + total < 2 ^ 31
      → let n = part (p.sect_per_cluster * 512) total in
        (p' : FatPrivate) × (m' : Memory) × SameFs p p'
        × Read image
            (cluster_pos p.sect_per_cluster p.sector_end (chain image p.reserved_sectors j c))
            out
            n
            m
            m'
        × (fat16_read_internal disk drs stack
              (suc fuel)
              c
              (j * (p.sect_per_cluster * 512))
              total
              out
              p
              m
            ≡ (if ltb 0 (total - n)
                then fat16_read_internal disk drs stack fuel c
                    (j * (p.sect_per_cluster * 512) + n)
                    (total - n)
                    (out + n)
                    p'
                    m'
                else some (pos 0, p', m')))
  call_once fuel j c total out p m ok lt linked small =
      let cs : ℕ = p.sect_per_cluster * 512 in
      let t : ℕ = chain image p.reserved_sectors j c in
      let n : ℕ = part cs total in
      let at : ℕ = cluster_pos p.sect_per_cluster p.sector_end t in
      let (p1, found, fs) = find-eq j c p ok lt linked (omega arith) in
      let aligned : j * cs % cs ≡ 0 = mul-mod_left j cs in
      let start = start-eq disk t p p1 ok fs (chain_lt image p.reserved_sectors j c lt) in
      let place = ok.low t (chain_lt image p.reserved_sectors j c lt) in
      let (m', e, read) =
        disk_stream_read-Read disk serves (suc n) at out n stack m (omega arith)
          (ground (arith, place)) in
      (
        with_cluster_read p1 (record { pos = at + n; disk = disk }),
        m',
        record {
          spc = fs.spc;
          reserved = fs.reserved;
          end = fs.end;
          clusters = sym ok.clusters;
          fat = fs.fat;
        },
        read,
        step-eq fuel c (j * cs) total out t at p p1 m m' (record { pos = at + n; disk = disk })
            found aligned small (omega (arith, place)) start (rw (fs.clusters, ok.clusters) e),
      )
