-- ===== src/Status.antt =====
-- kernel/include/kernel/status.h and kernel/include/kernel/config.h: the negated error codes, as the
-- functions return them, and the sizes that the kernel is built with.
use enki_os.Base.{ℕ, ◌*◌}
use enki_os.Base.Int.{ℤ, negsuc}

abbrev pub eio : ℤ
eio = negsuc 0

abbrev pub einvarg : ℤ
einvarg = negsuc 1

abbrev pub enomem : ℤ
enomem = negsuc 2

abbrev pub heap_address : ℕ
heap_address = 0x01000000

abbrev pub heap_table_address : ℕ
heap_table_address = 0x00007E00

abbrev pub heap_size_bytes : ℕ
heap_size_bytes = 1024 * 1024 * 100

abbrev pub heap_block_size : ℕ
heap_block_size = 4096

abbrev pub sector_size : ℕ
sector_size = 512

abbrev pub ebadpath : ℤ
ebadpath = negsuc 3

abbrev pub eunimp : ℤ
eunimp = negsuc 6

abbrev pub einvfmt : ℤ
einvfmt = negsuc 8

abbrev pub efsnotus : ℤ
efsnotus = negsuc 4

abbrev pub erdonly : ℤ
erdonly = negsuc 5

abbrev pub eistkn : ℤ
eistkn = negsuc 7
