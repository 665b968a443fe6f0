-- ===== src/Print/Parts.antt =====
-- The pieces that `vprintfmt` of lib/printfmt.c puts out: strings, numbers and errors.
use cs3510_operating_systems.Common.{
  leb, some, ℕ, false, ap, get_or, Bool, ltb, none, zero, List, suc, Option, length, map, ◌^◌, ◌+◌,
  ◌-◌, ◌*◌, ◌==◌, ◌!=◌, ◌&&◌, ◌||◌, ◌++◌, ◌∷◌, if◌then◌else◌, [],
}
use cs3510_operating_systems.Layout.{u32}
use cs3510_operating_systems.Str.Block.{Memory}
use cs3510_operating_systems.Str.Text.{strnlen}
use cs3510_operating_systems.Str.Number.{printnum}
use cs3510_operating_systems.Str.Number.{repeat_char}

-- Whether an `int` is below 0.
abbrev pub negative : ℕ → Bool
negative x = leb (2 ^ 31) x

abbrev pub minus_one : ℕ
minus_one = 4294967295

-- An `int` as a count: 0 where it is not positive.
abbrev pub count_of : ℕ → ℕ
count_of x = if negative x then 0 else x

-- The flags of an escape sequence.
pub record Spec : Type 0 where
  pub padc : ℕ
  pub width : ℕ
  pub precision : ℕ
  pub lflag : ℕ
  pub altflag : Bool

abbrev pub initial_spec : Spec
initial_spec = record {
  padc = b' ';
  width = minus_one;
  precision = minus_one;
  lflag = 0;
  altflag = false;
}

-- A string as the characters from its start, and what `%s` prints for NULL.
abbrev pub null_text : ℕ → ℕ
null_text i = get_or (b'(' ∷ b'n' ∷ b'u' ∷ b'l' ∷ b'l' ∷ b')' ∷ []) i 0

unfoldable pub text_at : Memory → ℕ → ℕ → ℕ
text_at mem p i = if p == 0 then null_text i else mem (p + i)

-- The characters of the string that are printed: up to the NUL, or to the precision.
unfoldable pub string_chars : (ℕ → ℕ) → ℕ → ℕ → ℕ → Option (List ℕ)
string_chars text zero precision i = none
string_chars text (suc fuel) precision i =
    let rest =
      string_chars text fuel (if negative precision then precision else precision - 1) (suc i) in
    if text i == 0
    then some []
    else if precision == 0
    then some []
    else elim rest [ none ↦ none | some cs ↦ some (text i ∷ cs) ]

-- With `#` a character that does not print is a question mark.
abbrev pub shown : Bool → ℕ → ℕ
shown alt c = if alt && (ltb c b' ' || ltb b'~' c) then b'?' else c

-- `width -= strnlen(p, precision)` where the padding comes first.
unfoldable pub pad_before : (ℕ → ℕ) → Spec → ℕ
pad_before text s =
    if ltb 0 (count_of s.width) && (s.padc != b'-')
    then u32 (s.width + 4294967296 - strnlen text 0 s.precision)
    else s.width

abbrev pub pads_first : Spec → Bool
pads_first s = ltb 0 (count_of s.width) && (s.padc != b'-')

-- The characters between their padding.
abbrev pub padded : (ℕ → ℕ) → Spec → Option (List ℕ) → Option (List ℕ)
padded text s none = none
padded text s (some cs) =
    let before : ℕ = if pads_first s then count_of (pad_before text s) else 0 in
    let left : ℕ = if pads_first s then 0 else s.width in
    some (
      repeat_char before s.padc
      ++ (map (shown s.altflag) cs ++ repeat_char (count_of left - length cs) b' '))

unfoldable pub put_string : ℕ → (ℕ → ℕ) → Spec → Option (List ℕ)
unfolding pad_before string_chars
put_string fuel text s = padded text s (string_chars text fuel s.precision 0)

-- The 64-bit pattern of an argument, and the arguments behind it.
unfoldable pub getuint : (ℕ → ℕ) → ℕ → ℕ → ℕ × ℕ
getuint args ap lflag =
    if leb 2 lflag then (args ap + args (ap + 1) * 2 ^ 32, ap + 2) else (args ap, ap + 1)

unfoldable pub getint : (ℕ → ℕ) → ℕ → ℕ → ℕ × ℕ
getint args ap lflag =
    if leb 2 lflag
    then (args ap + args (ap + 1) * 2 ^ 32, ap + 2)
    else (if negative (args ap) then args ap + 0xffffffff00000000 else args ap, ap + 1)

unfoldable pub put_number : Spec → ℕ → ℕ → List ℕ
put_number s num base = printnum num base (count_of s.width) s.padc

unfoldable pub put_signed : Spec → ℕ → List ℕ
unfolding put_number
put_signed s num =
    if leb (2 ^ 63) num then b'-' ∷ put_number s (2 ^ 64 - num) 10 else put_number s num 10

-- `error_string`: none is NULL.
unfoldable pub error_string : ℕ → Option (List ℕ)
error_string err =
    if err == 1
    then some (
        b'u' ∷ b'n' ∷ b's' ∷ b'p' ∷ b'e' ∷ b'c' ∷ b'i' ∷ b'f' ∷ b'i' ∷ b'e' ∷ b'd' ∷ b' ' ∷ b'e'
        ∷ b'r' ∷ b'r' ∷ b'o' ∷ b'r' ∷ [])
    else if err == 2
    then some (
        b'b' ∷ b'a' ∷ b'd' ∷ b' ' ∷ b'e' ∷ b'n' ∷ b'v' ∷ b'i' ∷ b'r' ∷ b'o' ∷ b'n' ∷ b'm' ∷ b'e'
        ∷ b'n' ∷ b't' ∷ [])
    else if err == 3
    then some (
        b'i' ∷ b'n' ∷ b'v' ∷ b'a' ∷ b'l' ∷ b'i' ∷ b'd' ∷ b' ' ∷ b'p' ∷ b'a' ∷ b'r' ∷ b'a' ∷ b'm'
        ∷ b'e' ∷ b't' ∷ b'e' ∷ b'r' ∷ [])
    else if err == 4
    then some (
        b'o' ∷ b'u' ∷ b't' ∷ b' ' ∷ b'o' ∷ b'f' ∷ b' ' ∷ b'm' ∷ b'e' ∷ b'm' ∷ b'o' ∷ b'r' ∷ b'y'
        ∷ [])
    else if err == 5
    then some (
        b'o' ∷ b'u' ∷ b't' ∷ b' ' ∷ b'o' ∷ b'f' ∷ b' ' ∷ b'e' ∷ b'n' ∷ b'v' ∷ b'i' ∷ b'r' ∷ b'o'
        ∷ b'n' ∷ b'm' ∷ b'e' ∷ b'n' ∷ b't' ∷ b's' ∷ [])
    else if err == 6
    then some (
        b's' ∷ b'e' ∷ b'g' ∷ b'm' ∷ b'e' ∷ b'n' ∷ b't' ∷ b'a' ∷ b't' ∷ b'i' ∷ b'o' ∷ b'n' ∷ b' '
        ∷ b'f' ∷ b'a' ∷ b'u' ∷ b'l' ∷ b't' ∷ [])
    else if err == 8
    then some (
        b'e' ∷ b'n' ∷ b'v' ∷ b' ' ∷ b'i' ∷ b's' ∷ b' ' ∷ b'n' ∷ b'o' ∷ b't' ∷ b' ' ∷ b'r' ∷ b'e'
        ∷ b'c' ∷ b'v' ∷ b'i' ∷ b'n' ∷ b'g' ∷ [])
    else if err == 9
    then some (
        b'u' ∷ b'n' ∷ b'e' ∷ b'x' ∷ b'p' ∷ b'e' ∷ b'c' ∷ b't' ∷ b'e' ∷ b'd' ∷ b' ' ∷ b'e' ∷ b'n'
        ∷ b'd' ∷ b' ' ∷ b'o' ∷ b'f' ∷ b' ' ∷ b'f' ∷ b'i' ∷ b'l' ∷ b'e' ∷ [])
    else none

abbrev pub maxerror : ℕ
maxerror = 10

-- `printfmt` of "error %d" or "%s" puts out one of these.
unfoldable pub put_error : ℕ → List ℕ
unfolding error_string put_signed
put_error e =
    let err : ℕ = if negative e then u32 (4294967296 - e) else e in
    elim (if leb maxerror err then none else error_string err) [
      | none ↦ (b'e' ∷ b'r' ∷ b'r' ∷ b'o' ∷ b'r' ∷ b' ' ∷ []) ++ put_signed initial_spec err
      | some text ↦ text
    ]
