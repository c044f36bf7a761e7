-- ===== src/Libc.antt =====
-- libc/string/string.c and libc/stdlib/stdlib.c, over the byte memory of `Base.Memory`.
pub mod Chars
pub mod Bytes
pub mod Text
pub mod Itoa
mod Tests
