-- ===== src/Console/Keyboard.antt =====
-- The keyboard of kern/console.c: its tables, and the state machine of `kbd_proc_data`. The reboot
-- on Ctrl-Alt-Del, a write to a port, is left out.
use cs3510_operating_systems.Common.{
  ℕ, bit_and, Option, none, bit_or, some, get_or, bit_xor, List, leb, ◌+◌, ◌-◌, ◌==◌, ◌&&◌, ◌∷◌,
  if◌then◌else◌, [],
}
use cs3510_operating_systems.Console.{Cons, cons_intr}
use cs3510_operating_systems.Layout.{flag}

abbrev pub ctl_shift : ℕ
ctl_shift = 3

abbrev pub capslock : ℕ
capslock = 8

abbrev pub e0esc : ℕ
e0esc = 64

-- An array given by entries, and what the others hold.
unfoldable pub sparse : List (ℕ × ℕ) → ℕ → ℕ → ℕ
sparse [] other code = other
sparse ((i, v) ∷ entries) other code =
    let rest = sparse entries other code in if i == code then v else rest

unfoldable pub shiftcode : ℕ → ℕ
unfolding sparse
shiftcode = sparse ((0x1d, 2) ∷ (0x2a, 1) ∷ (0x36, 1) ∷ (0x38, 4) ∷ (0x9d, 2) ∷ (0xb8, 4) ∷ []) 0

unfoldable pub togglecode : ℕ → ℕ
unfolding sparse
togglecode = sparse ((0x3a, 8) ∷ (0x45, 16) ∷ (0x46, 32) ∷ []) 0

abbrev pub key_home : ℕ
key_home = 0xe0

abbrev pub key_end : ℕ
key_end = 0xe1

abbrev pub key_up : ℕ
key_up = 0xe2

abbrev pub key_dn : ℕ
key_dn = 0xe3

abbrev pub key_lf : ℕ
key_lf = 0xe4

abbrev pub key_rt : ℕ
key_rt = 0xe5

abbrev pub key_pgup : ℕ
key_pgup = 0xe6

abbrev pub key_pgdn : ℕ
key_pgdn = 0xe7

abbrev pub key_ins : ℕ
key_ins = 0xe8

abbrev pub key_del : ℕ
key_del = 0xe9

-- `C('/')`, which wraps as a `uint8_t`.
abbrev control_slash : ℕ
control_slash = 239

abbrev pub normal_special : List (ℕ × ℕ)
normal_special =
    (0xc7, key_home)
    ∷ (0x9c, b'\n')
    ∷ (0xb5, b'/')
    ∷ (0xc8, key_up)
    ∷ (0xc9, key_pgup)
    ∷ (0xcb, key_lf)
    ∷ (0xcd, key_rt)
    ∷ (0xcf, key_end)
    ∷ (0xd0, key_dn)
    ∷ (0xd1, key_pgdn)
    ∷ (0xd2, key_ins)
    ∷ (0xd3, key_del)
    ∷ []

abbrev pub normal_first : List ℕ
normal_first =
    0 ∷ 0x1B ∷ b'1' ∷ b'2' ∷ b'3' ∷ b'4' ∷ b'5' ∷ b'6' ∷ b'7' ∷ b'8' ∷ b'9' ∷ b'0' ∷ b'-' ∷ b'=' ∷ 8
    ∷ b'\t' ∷ b'q' ∷ b'w' ∷ b'e' ∷ b'r' ∷ b't' ∷ b'y' ∷ b'u' ∷ b'i' ∷ b'o' ∷ b'p' ∷ b'[' ∷ b']'
    ∷ b'\n' ∷ 0 ∷ b'a' ∷ b's' ∷ b'd' ∷ b'f' ∷ b'g' ∷ b'h' ∷ b'j' ∷ b'k' ∷ b'l' ∷ b';' ∷ 39 ∷ b'`'
    ∷ 0 ∷ 92 ∷ b'z' ∷ b'x' ∷ b'c' ∷ b'v' ∷ b'b' ∷ b'n' ∷ b'm' ∷ b',' ∷ b'.' ∷ b'/' ∷ 0 ∷ b'*' ∷ 0
    ∷ b' ' ∷ 0 ∷ 0 ∷ 0 ∷ 0 ∷ 0 ∷ 0 ∷ 0 ∷ 0 ∷ 0 ∷ 0 ∷ 0 ∷ 0 ∷ 0 ∷ b'7' ∷ b'8' ∷ b'9' ∷ b'-' ∷ b'4'
    ∷ b'5' ∷ b'6' ∷ b'+' ∷ b'1' ∷ b'2' ∷ b'3' ∷ b'0' ∷ b'.' ∷ 0 ∷ 0 ∷ 0 ∷ 0 ∷ []

unfoldable pub normalmap : ℕ → ℕ
unfolding sparse
normalmap code = sparse normal_special (get_or normal_first code 0) code

abbrev pub shift_special : List (ℕ × ℕ)
shift_special =
    (0xc7, key_home)
    ∷ (0x9c, b'\n')
    ∷ (0xb5, b'/')
    ∷ (0xc8, key_up)
    ∷ (0xc9, key_pgup)
    ∷ (0xcb, key_lf)
    ∷ (0xcd, key_rt)
    ∷ (0xcf, key_end)
    ∷ (0xd0, key_dn)
    ∷ (0xd1, key_pgdn)
    ∷ (0xd2, key_ins)
    ∷ (0xd3, key_del)
    ∷ []

abbrev pub shift_first : List ℕ
shift_first =
    0 ∷ 27 ∷ b'!' ∷ b'@' ∷ b'#' ∷ b'$' ∷ b'%' ∷ b'^' ∷ b'&' ∷ b'*' ∷ b'(' ∷ b')' ∷ b'_' ∷ b'+' ∷ 8
    ∷ b'\t' ∷ b'Q' ∷ b'W' ∷ b'E' ∷ b'R' ∷ b'T' ∷ b'Y' ∷ b'U' ∷ b'I' ∷ b'O' ∷ b'P' ∷ b'{' ∷ b'}'
    ∷ b'\n' ∷ 0 ∷ b'A' ∷ b'S' ∷ b'D' ∷ b'F' ∷ b'G' ∷ b'H' ∷ b'J' ∷ b'K' ∷ b'L' ∷ b':' ∷ 34 ∷ b'~'
    ∷ 0 ∷ b'|' ∷ b'Z' ∷ b'X' ∷ b'C' ∷ b'V' ∷ b'B' ∷ b'N' ∷ b'M' ∷ b'<' ∷ b'>' ∷ b'?' ∷ 0 ∷ b'*' ∷ 0
    ∷ b' ' ∷ 0 ∷ 0 ∷ 0 ∷ 0 ∷ 0 ∷ 0 ∷ 0 ∷ 0 ∷ 0 ∷ 0 ∷ 0 ∷ 0 ∷ 0 ∷ b'7' ∷ b'8' ∷ b'9' ∷ b'-' ∷ b'4'
    ∷ b'5' ∷ b'6' ∷ b'+' ∷ b'1' ∷ b'2' ∷ b'3' ∷ b'0' ∷ b'.' ∷ 0 ∷ 0 ∷ 0 ∷ 0 ∷ []

unfoldable pub shiftmap : ℕ → ℕ
unfolding sparse
shiftmap code = sparse shift_special (get_or shift_first code 0) code

abbrev pub ctl_special : List (ℕ × ℕ)
ctl_special =
    (0x97, key_home)
    ∷ (0xb5, control_slash)
    ∷ (0xc8, key_up)
    ∷ (0xc9, key_pgup)
    ∷ (0xcb, key_lf)
    ∷ (0xcd, key_rt)
    ∷ (0xcf, key_end)
    ∷ (0xd0, key_dn)
    ∷ (0xd1, key_pgdn)
    ∷ (0xd2, key_ins)
    ∷ (0xd3, key_del)
    ∷ []

abbrev pub ctl_first : List ℕ
ctl_first =
    0 ∷ 0 ∷ 0 ∷ 0 ∷ 0 ∷ 0 ∷ 0 ∷ 0 ∷ 0 ∷ 0 ∷ 0 ∷ 0 ∷ 0 ∷ 0 ∷ 0 ∷ 0 ∷ 17 ∷ 23 ∷ 5 ∷ 18 ∷ 20 ∷ 25 ∷ 21
    ∷ 9 ∷ 15 ∷ 16 ∷ 0 ∷ 0 ∷ b'\r' ∷ 0 ∷ 1 ∷ 19 ∷ 4 ∷ 6 ∷ 7 ∷ 8 ∷ 10 ∷ 11 ∷ 12 ∷ 0 ∷ 0 ∷ 0 ∷ 0 ∷ 28
    ∷ 26 ∷ 24 ∷ 3 ∷ 22 ∷ 2 ∷ 14 ∷ 13 ∷ 0 ∷ 0 ∷ control_slash ∷ 0 ∷ 0 ∷ []

unfoldable pub ctlmap : ℕ → ℕ
unfolding sparse
ctlmap code = sparse ctl_special (get_or ctl_first code 0) code

-- `charcode[i][code]`
unfoldable pub charcode : ℕ → ℕ → ℕ
charcode i code = if i == 0 then normalmap code else if i == 1 then shiftmap code else ctlmap code

-- `x & ~m` on a `uint32_t`.
unfoldable pub clear_bits : ℕ → ℕ → ℕ
clear_bits x m = bit_and x (bit_xor m 0xffffffff)

unfoldable pub swap_case : ℕ → ℕ
swap_case c =
    if leb b'a' c && leb c b'z' then c - 32 else if leb b'A' c && leb c b'Z' then c + 32 else c

-- A key that was pressed: the character, and the new `shift`.
unfoldable pub key_pressed : ℕ → ℕ → ℕ × ℕ
key_pressed shift code =
    let held : ℕ = bit_xor (bit_or shift (shiftcode code)) (togglecode code) in
    let c : ℕ = charcode (bit_and held ctl_shift) code in
    (if flag held capslock then swap_case c else c, held)

-- A byte from the keyboard: the character or 0, and the new `shift`.
unfoldable pub kbd_data : ℕ → ℕ → ℕ × ℕ
unfolding clear_bits key_pressed
kbd_data shift code =
    if code == 0xe0
    then (0, bit_or shift e0esc)
    else if flag code 0x80
    then (
      0,
      clear_bits shift
          (bit_or (shiftcode (if flag shift e0esc then code else bit_and code 0x7f)) e0esc),
    )
    else if flag shift e0esc
    then key_pressed (clear_bits shift e0esc) (bit_or code 0x80)
    else key_pressed shift code

-- What the port holds, if anything; -1 is none.
unfoldable pub kbd_proc_data : ℕ → Option ℕ → Option ℕ × ℕ
unfolding kbd_data
kbd_proc_data shift none = (none, shift)
kbd_proc_data shift (some code) = let (c, held) = kbd_data shift code in (some c, held)

-- The characters that a sequence of bytes gives.
unfoldable pub kbd_run : ℕ → List ℕ → List ℕ × ℕ
unfolding kbd_data
kbd_run shift [] = ([], shift)
kbd_run shift (code ∷ more) =
    let (c, held) = kbd_data shift code in let (cs, last) = kbd_run held more in (c ∷ cs, last)

-- `kbd_intr`, with the bytes that the keyboard has.
unfoldable pub kbd_intr : List ℕ → ℕ × Cons → ℕ × Cons
unfolding kbd_run
kbd_intr bytes (shift, s) = let (cs, held) = kbd_run shift bytes in (held, cons_intr cs s)
