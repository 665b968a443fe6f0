-- ===== src/Console.antt =====
-- kern/console.c: the circular input buffer, and the text display. What a
-- device's routine returns until it has no more is a list.
pub mod Queue
pub mod Screen
pub mod Keyboard
pub mod Ports
pub mod Output
use cs3510_operating_systems.Common.{
  bit_or, ltb, update, leb, ℕ, List, ◌+◌, ◌-◌, ◌*◌, ◌/◌, ◌%◌, ◌==◌, ◌!=◌, ◌∷◌, if◌then◌else◌, [],
}
use cs3510_operating_systems.Layout.{u16}

-- `cons`
pub record Cons : Type 0 where
  pub buf : ℕ → ℕ
  pub rpos : ℕ
  pub wpos : ℕ

abbrev pub consbufsize : ℕ
consbufsize = 512

-- A position behind the one at i.
abbrev pub advance : ℕ → ℕ
advance i = if i + 1 == consbufsize then 0 else i + 1

-- One round of the loop of `cons_intr`.
unfoldable pub cons_put : ℕ → Cons → Cons
cons_put c s =
    if c == 0 then s else record s { buf = update s.buf s.wpos (c % 256); wpos = advance s.wpos }

unfoldable pub cons_intr : List ℕ → Cons → Cons
cons_intr [] s = s
cons_intr (c ∷ cs) s = cons_intr cs (cons_put c s)

-- The part of `cons_getc` behind the polling.
unfoldable pub cons_take : Cons → ℕ × Cons
cons_take s =
    if s.rpos != s.wpos then (s.buf s.rpos, record s { rpos = advance s.rpos }) else (0, s)

-- `serial` and `keyboard` are what the two devices have.
unfoldable pub cons_getc : List ℕ → List ℕ → Cons → ℕ × Cons
unfolding cons_intr cons_take
cons_getc serial keyboard s = cons_take (cons_intr keyboard (cons_intr serial s))

pub record Display : Type 0 where
  pub crt_buf : ℕ → ℕ
  pub crt_pos : ℕ

abbrev pub crt_cols : ℕ
crt_cols = 80

abbrev pub crt_size : ℕ
crt_size = 2000

-- Black on white where no attribute is given.
unfoldable pub with_attribute : ℕ → ℕ
with_attribute c = if c / 256 == 0 then bit_or c 0x0700 else c

-- The switch of `cga_putc`, but for the tab.
unfoldable pub put_char : ℕ → Display → Display
put_char c s =
    if c % 256 == 8
    then (if ltb 0 s.crt_pos
        then record s {
          crt_buf = update s.crt_buf (s.crt_pos - 1) (u16 (bit_or (c / 256 * 256) 32));
          crt_pos = s.crt_pos - 1;
        }
        else s)
    else if c % 256 == 10
    then record s { crt_pos = u16 (s.crt_pos + crt_cols) - u16 (s.crt_pos + crt_cols) % crt_cols }
    else if c % 256 == 13
    then record s { crt_pos = s.crt_pos - s.crt_pos % crt_cols }
    else record s { crt_buf = update s.crt_buf s.crt_pos (u16 c); crt_pos = u16 (s.crt_pos + 1) }

-- The rows move up by one, and the last one is blank.
unfoldable pub scroll : Display → Display
scroll s =
    if leb crt_size s.crt_pos
    then record {
      crt_buf = λ i.
          if ltb i (crt_size - crt_cols)
          then s.crt_buf (i + crt_cols)
          else if ltb i crt_size
          then bit_or 0x0700 32
          else s.crt_buf i;
      crt_pos = s.crt_pos - crt_cols;
    }
    else s

unfoldable pub put_blank : Display → Display
unfolding with_attribute put_char scroll
put_blank s = scroll (put_char (with_attribute 32) s)

-- A tab is five blanks, each put out as a character of its own.
unfoldable pub cga_putc : ℕ → Display → Display
unfolding put_blank
cga_putc c s = scroll (
    if c % 256 == 9
    then put_blank (put_blank (put_blank (put_blank (put_blank s))))
    else put_char (with_attribute c) s)
