-- ===== src/Print/Buffer.antt =====
-- `vsnprintf` of lib/printfmt.c, into a buffer that the format and the strings do not lie in.
use cs3510_operating_systems.Common.{
  some, ap, ℕ, List, ltb, Option, update, get_or, min, length, leb, none, ◌+◌, ◌-◌, ◌%◌, ◌==◌, ◌||◌,
  ◌∷◌, if◌then◌else◌, [], ◌&&◌,
}
use cs3510_operating_systems.State.{Ret, ret, err, inval}
use cs3510_operating_systems.Str.Block.{Memory}
use cs3510_operating_systems.Print.Loop.{vprintfmt}

pub record Sprintbuf : Type 0 where
  pub buf : ℕ
  pub ebuf : ℕ
  pub cnt : ℕ

abbrev pub Filling : Type 0
Filling = Memory × Sprintbuf

unfoldable pub sprintputch : ℕ → Filling → Filling
sprintputch ch (mem, b) =
    if ltb b.buf b.ebuf
    then (update mem b.buf (ch % 256), record b { cnt = b.cnt + 1; buf = b.buf + 1 })
    else (mem, record b { cnt = b.cnt + 1 })

unfoldable pub put_all : List ℕ → Filling → Filling
put_all [] f = f
put_all (ch ∷ chars) f = put_all chars (sprintputch ch f)

-- The buffer of n bytes at `buf` with these characters and a NUL, and the count.
unfoldable pub fill_buffer : Memory → ℕ → ℕ → Option (List ℕ) → Option (Ret × Memory)
unfolding put_all
fill_buffer mem buf n none = none
fill_buffer mem buf n (some chars) =
    let f : Filling = put_all chars (mem, record { buf = buf; ebuf = buf + n - 1; cnt = 0 }) in
    some (ret f.1.cnt, update f.0 f.1.buf 0)

-- `n` is not negative.
unfoldable pub vsnprintf :
    (fuel : ℕ) (mem : Memory) (buf n fmt ap : ℕ) (args : ℕ → ℕ) → Option (Ret × Memory)
vsnprintf fuel mem buf n fmt ap args =
    if buf == 0 || (n == 0)
    then some (err inval, mem)
    else fill_buffer mem buf n (vprintfmt mem args fuel fmt ap)

abbrev stored : ℕ → Sprintbuf → Sprintbuf
stored ch b = record b { cnt = b.cnt + 1; buf = b.buf + 1 }

abbrev counted : Sprintbuf → Sprintbuf
counted b = record b { cnt = b.cnt + 1 }

-- The bytes that these characters leave between `from` and `last`.
abbrev pub printed : Memory → ℕ → ℕ → List ℕ → ℕ → ℕ
printed mem from last chars a =
    if leb from a && ltb a (min (from + length chars) last)
    then get_or chars (a - from) 0 % 256
    else mem a
