-- ===== src/Str/Number.antt =====
-- `strtol` of lib/string.c, and `printnum` of lib/printfmt.c with the characters it puts out as a list.
pub mod Digits
use cs3510_operating_systems.Common.{
  true, zero, List, ℕ, some, ltb, suc, false, none, Bool, Option, leb, ◌^◌, ◌+◌, ◌-◌, ◌*◌, ◌/◌, ◌%◌,
  ◌==◌, ◌&&◌, ◌||◌, ◌++◌, ◌∷◌, if◌then◌else◌, [],
}
use cs3510_operating_systems.Layout.{u32}
use cs3510_operating_systems.Str.Block.{Memory}

-- `while (*s == ' ' || *s == '\t') s++`
unfoldable pub skip_blanks : Memory → ℕ → ℕ → Option ℕ
skip_blanks mem zero s = none
skip_blanks mem (suc fuel) s =
    let rest = skip_blanks mem fuel (suc s) in if mem s == 32 || (mem s == 9) then rest else some s

-- The sign, and what is behind it.
unfoldable pub read_sign : Memory → ℕ → Bool × ℕ
read_sign mem s =
    if mem s == 43 then (false, suc s) else if mem s == 45 then (true, suc s) else (false, s)

-- The base that the prefix settles, and what is behind the prefix.
unfoldable pub read_prefix : Memory → ℕ → ℕ → ℕ × ℕ
read_prefix mem s base =
    if (base == 0 || (base == 16)) && (mem s == 48 && (mem (s + 1) == 120))
    then (16, s + 2)
    else if base == 0 && (mem s == 48)
    then (8, suc s)
    else if base == 0
    then (10, s)
    else (base, s)

-- The value of a digit or a letter.
unfoldable pub digit_of : ℕ → Option ℕ
digit_of c =
    if leb 48 c && leb c 57
    then some (c - 48)
    else if leb 97 c && leb c 122
    then some (c - 97 + 10)
    else if leb 65 c && leb c 90
    then some (c - 65 + 10)
    else none

-- The digit at s that the base has, if any.
unfoldable pub digit_at : Memory → ℕ → ℕ → Option ℕ
unfolding digit_of
digit_at mem base s = elim (digit_of (mem s)) [
  | none ↦ none
  | some dig ↦ if leb base dig then none else some dig
]

-- The loop on the digits: the end of the number and the pattern of the `long` read.
unfoldable pub read_digits : Memory → ℕ → ℕ → ℕ → ℕ → Option (ℕ × ℕ)
read_digits mem zero base s val = none
read_digits mem (suc fuel) base s val = elim (digit_at mem base s) [
  | none ↦ some (s, val)
  | some dig ↦ read_digits mem fuel base (suc s) (u32 (val * base + dig))
]

-- The end of the number, which goes to `*endptr`, and the pattern of the result.
unfoldable pub strtol : Memory → ℕ → ℕ → ℕ → Option (ℕ × ℕ)
unfolding skip_blanks read_sign read_prefix read_digits
strtol mem fuel s base = elim (skip_blanks mem fuel s) [
  | none ↦ none
  | some s₁ ↦
      let (neg, s₂) = read_sign mem s₁ in
      let (base', s₃) = read_prefix mem s₂ base in
      elim (read_digits mem fuel base' s₃ 0) [
        | none ↦ none
        | some (last, val) ↦ some (last, if neg then u32 (2 ^ 32 - val) else val)
      ]
]

-- `"0123456789abcdef"[d]`
unfoldable pub digit_char : ℕ → ℕ
digit_char d = if ltb d 10 then 48 + d else 87 + d

unfoldable pub repeat_char : ℕ → ℕ → List ℕ
repeat_char zero c = []
repeat_char (suc n) c = c ∷ repeat_char n c

-- The padding before the first digit: one character less than the width.
unfoldable pub padding : ℕ → ℕ → List ℕ
padding width padc = repeat_char (width - 1) padc

-- `width` is an `int` that may fall below 0, where no padding is left as with 0. A number below
-- 2 ^ 64 has at most 64 digits, so the fuel that `printnum` gives does not run out.
unfoldable pub printnum_from : ℕ → ℕ → ℕ → ℕ → ℕ → List ℕ
printnum_from zero num base width padc = []
printnum_from (suc fuel) num base width padc =
    let higher = printnum_from fuel (num / base) base (width - 1) padc in
    (if leb base num then higher else padding width padc) ++ (digit_char (num % base) ∷ [])

unfoldable pub printnum : ℕ → ℕ → ℕ → ℕ → List ℕ
printnum num base width padc = printnum_from 64 num base width padc
