-- ===== src/Disk/Tests.antt =====
-- The theorems of the disk stream at a disk whose byte `i` of sector `lba` is `lba + i`, modulo 256.
use enki_os.Base.{ℕ, ◌+◌, ◌*◌, ◌/◌, ◌%◌, ◌≡◌, refl, some, arith, ltb, if◌then◌else◌}
use enki_os.Base.Int.{ℤ, pos}
use enki_os.Base.Memory.{Memory}
use enki_os.Status.{eio}
use enki_os.Disk.{disk_get, disk_stream_read}
use enki_os.Disk.Stream.{disk_stream_read_refused}

abbrev image : ℕ → ℕ → ℕ
image lba i = (lba + i) % 256

abbrev read_sector : ℕ → ℕ → (ℕ → ℕ) → ℤ × (ℕ → ℕ)
read_sector lba total buf =
    (pos 0, λ i. if ltb i (512 * total) then image (lba + i / 512) (i % 512) else buf i)

abbrev zeros : Memory
zeros a = 0

other_disk : disk_get 7 read_sector 1 ≡ 0
unfolding disk_get
other_disk = refl

disk_stream_read_refused_example :
    disk_stream_read 7 read_sector 1 (record { pos = 0; disk = 0 }) 10 700 zeros zeros
    ≡ some (eio, record { pos = 0; disk = 0 }, zeros)
disk_stream_read_refused_example =
    disk_stream_read_refused 7 read_sector 0 (record { pos = 0; disk = 0 }) 10 700 zeros zeros
      (omega arith)
