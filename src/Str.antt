-- ===== src/Str.antt =====
-- lib/string.c on a memory of bytes: `mem a` is the byte at address a, below 256. A string or a
-- buffer does not run past the end of the address space. Loops that a NUL ends have fuel, and a loop
-- that ran out of it returns none.
pub mod Block
pub mod Text
pub mod Number
