-- ===== src/Disk/Stream.antt =====
-- disk_stream.c: a stream reads the bytes of the disk, whatever sectors they lie in.
use enki_os.Base.{
  ℕ, zero, suc, ◌+◌, ◌-◌, ◌*◌, ◌/◌, ◌%◌, ◌≤◌, ◌<◌, ◌≡◌, ◌≢◌, ◌∙◌, refl, ◌^◌, ltb, inl, inr, true,
  false, some, arith, leb, ◌==◌, ==_self, Bool-cases, if◌then◌else◌,
}
use enki_os.Base.Int.{ℤ, pos}
use enki_os.Base.Memory.{Memory, store, in_range}
use enki_os.Base.Word.{u32}
use enki_os.Status.{eio}
use enki_os.Disk.{
  DiskStream, sector_of, offset_of, undefined, copy_out, disk_read_block, disk_stream_read,
}

-- The disk transfers whole sectors: `image lba i` is byte `i` of sector `lba`.
pub record Serves (image : ℕ → ℕ → ℕ) (disk_read_sector : ℕ → ℕ → (ℕ → ℕ) → ℤ × (ℕ → ℕ))
    : Type 0 where
  pub status : (lba total : ℕ) (buf : ℕ → ℕ) → (disk_read_sector lba total buf).0 ≡ pos 0
  pub bytes :
      (lba total : ℕ) (buf : ℕ → ℕ) (i : ℕ)
      → i < 512 * total
      → (disk_read_sector lba total buf).1 i ≡ image (lba + i / 512) (i % 512)

-- Byte `p` of the disk.
abbrev pub disk_byte : (ℕ → ℕ → ℕ) → ℕ → ℕ
disk_byte image p = image (p / 512) (p % 512)

copy_out_at :
    (n i out : ℕ) (buf : ℕ → ℕ) (offset : ℕ) (m : Memory) (a : ℕ)
    → copy_out n i out buf offset m a
      ≡ (if in_range out n a then buf (offset + i + (a - out)) else m a)
unfolding copy_out
copy_out_at zero i out buf offset m a = ground arith
copy_out_at (suc n) i out buf offset m a =
    ground (arith, copy_out_at n (i + 1) (out + 1) buf offset (store m out (buf (offset + i))) a)

-- The bytes of the disk from `p` on stand at `out`, and nothing else has changed.
abbrev pub Read : (ℕ → ℕ → ℕ) → ℕ → ℕ → ℕ → Memory → Memory → Type 0
Read image p out total m m' =
    (a : ℕ) → m' a ≡ (if in_range out total a then disk_byte image (p + (a - out)) else m a)

abbrev stream_at : ℕ → ℕ → DiskStream
stream_at p disk = record { pos = p; disk = disk }

-- How many bytes of the sector at `p` a call reads.
abbrev here : ℕ → ℕ → ℕ
here p total = if leb 512 (p % 512 + total) then total - (p % 512 + total - 512) else total

module _ {image : ℕ → ℕ → ℕ} (disk : ℕ) {drs : ℕ → ℕ → (ℕ → ℕ) → ℤ × (ℕ → ℕ)}
    (serves : Serves image drs) where
  read_block-eq :
      (lba total : ℕ) (buf : ℕ → ℕ)
      → disk_read_block disk drs disk lba total buf ≡ drs lba total buf
  unfolding disk_read_block
  read_block-eq lba total buf = rw (==_self disk) refl

  in_int : (p total : ℕ) → p + total < 2 ^ 31 → undefined p (here p total) total ≡ false
  unfolding undefined offset_of
  in_int p total small = ground arith

  stream_read-suc :
      (fuel p out total : ℕ) (buf : ℕ → ℕ) (m : Memory)
      → p + total < 2 ^ 31
      → let got = (drs (p / 512) 1 buf).1 in
        let m' = copy_out (here p total) 0 out got (p % 512) m in
        disk_stream_read disk drs (suc fuel) (stream_at p disk) out total buf m ≡ (
          if leb 512 (p % 512 + total)
          then disk_stream_read disk drs fuel
              (stream_at (p + here p total) disk)
              (out + here p total)
              (total - here p total)
              got
              m'
          else some (pos 0, stream_at (p + here p total) disk, m'))
  unfolding disk_stream_read sector_of offset_of
  stream_read-suc fuel p out total buf m small =
      let low : ltb p (2 ^ 31) ≡ true = ground arith in
      let few : ltb total (2 ^ 31) ≡ true = ground arith in
      let short : ltb (here p total) (2 ^ 31) ≡ true = ground arith in
      let on : u32 (p + here p total) ≡ p + here p total = ground arith in
      rw (low, few)
        (rw (short, on)
          (rw (read_block-eq (p / 512) 1 buf, serves.status (p / 512) 1 buf, in_int p total small)
            refl))

  -- The part of the sector that a call reads.
  sector-Read :
      (p out n : ℕ) (buf : ℕ → ℕ) (m : Memory)
      → p % 512 + n ≤ 512
      → Read image p out n m (copy_out n 0 out (drs (p / 512) 1 buf).1 (p % 512) m)
  sector-Read p out n buf m le a =
      rw (copy_out_at n 0 out (drs (p / 512) 1 buf).1 (p % 512) m a)
        (elim (Bool-cases (in_range out n a)) [
          | inl inside ↦
              let i : ℕ = p % 512 + (a - out) in
              let within : i < 512 = ground arith in
              let byte = serves.bytes (p / 512) 1 buf i (omega arith) in
              let sector : p / 512 + i / 512 ≡ (p + (a - out)) / 512 = omega arith in
              let place : i % 512 ≡ (p + (a - out)) % 512 = omega arith in
              let same : p % 512 + 0 + (a - out) ≡ i = omega arith in
              rw (inside, same, byte, sector, place) refl
          | inr outside ↦ rw outside refl
        ])

  Read-append :
      (p out n k : ℕ) (m m1 m2 : Memory)
      → Read image p out n m m1
      → Read image (p + n) (out + n) k m1 m2
      → Read image p out (n + k) m m2
  Read-append p out n k m m1 m2 first rest a = ground (arith, first a, rest a)

  -- A call that goes on in the next sector.
  read_over :
      (fuel p out total n k q : ℕ) (buf : ℕ → ℕ) (m m' : Memory)
      → p + total < 2 ^ 31
      → leb 512 (p % 512 + total) ≡ true
      → total - (p % 512 + total - 512) ≡ n
      → total - n ≡ k
      → p + n + k ≡ q
      → disk_stream_read disk drs fuel
          (stream_at (p + n) disk)
          (out + n)
          k
          (drs (p / 512) 1 buf).1
          (copy_out n 0 out (drs (p / 512) 1 buf).1 (p % 512) m)
        ≡ some (pos 0, stream_at (p + n + k) disk, m')
      → disk_stream_read disk drs (suc fuel) (stream_at p disk) out total buf m
        ≡ some (pos 0, stream_at q disk, m')
  read_over fuel p out total n k q buf m m' small over en ek eq e =
      stream_read-suc fuel p out total buf m small ∙ rw (over, en, ek, e, eq) refl

  pub disk_stream_read-Read :
      (fuel p out total : ℕ) (buf : ℕ → ℕ) (m : Memory)
      → total < fuel
      → p + total < 2 ^ 31
      → (m' : Memory) × (disk_stream_read disk drs fuel
            (record { pos = p; disk = disk })
            out
            total
            buf
            m
          ≡ some (pos 0, record { pos = p + total; disk = disk }, m'))
        × Read image p out total m m'
  disk_stream_read-Read zero p out total buf m lt small = absurd (omega arith)
  disk_stream_read-Read (suc fuel) p out total buf m lt small =
      elim (Bool-cases (leb 512 (p % 512 + total))) [
        | inl over ↦
            let n : ℕ = total - (p % 512 + total - 512) in
            let fits : p % 512 + n ≤ 512 = ground arith in
            let got : ℕ → ℕ = (drs (p / 512) 1 buf).1 in
            let (m', e, rest) =
              disk_stream_read-Read fuel (p + n) (out + n) (total - n) got
                (copy_out n 0 out got (p % 512) m) (ground arith) (ground arith) in
            let all : n + (total - n) ≡ total = omega arith in
            let first = sector-Read p out n buf m fits in
            (
              m',
              read_over fuel p out total n (total - n) (p + total) buf m m' small over refl refl
                  (omega arith) e,
              λ a. ground (arith, Read-append p out n (total - n) m _ m' first rest a, all),
            )
        | inr under ↦ (
          copy_out total 0 out (drs (p / 512) 1 buf).1 (p % 512) m,
          stream_read-suc fuel p out total buf m small ∙ rw under refl,
          sector-Read p out total buf m (ground arith),
        )
      ]

-- A stream that is not on the primary disk reads nothing and returns -EIO.
pub disk_stream_read_refused :
    (disk : ℕ) (drs : ℕ → ℕ → (ℕ → ℕ) → ℤ × (ℕ → ℕ)) (fuel : ℕ) (stream : DiskStream)
    (out total : ℕ) (buf : ℕ → ℕ) (m : Memory)
    → stream.disk ≢ disk
    → disk_stream_read disk drs (suc fuel) stream out total buf m ≡ some (eio, stream, m)
unfolding disk_stream_read disk_read_block
disk_stream_read_refused disk drs fuel stream out total buf m ne =
    let other : (stream.disk == disk) ≡ false = ground arith in rw other refl
