-- ===== src/Print.antt =====
-- lib/printfmt.c: what `vprintfmt` puts out, as a list of characters, and `snprintf`. The arguments
-- are the 32-bit words on the stack: `args i` is word i, and an `ap` is the index of the next one. An
-- `int` is its 32-bit pattern.
pub mod Parts
pub mod Loop
pub mod Ends
pub mod Plain
pub mod Buffer
pub mod Console
