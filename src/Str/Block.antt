-- ===== src/Str/Block.antt =====
-- The routines of lib/string.c on blocks of bytes: memset, memmove, memcpy, memcmp and memfind.
pub mod Copy
pub mod Fill
use cs3510_operating_systems.Common.{
  bit_or, suc, ltb, Bool, ℕ, zero, update, ◌^◌, ◌+◌, ◌-◌, ◌*◌, ◌/◌, ◌%◌, ◌==◌, ◌&&◌, if◌then◌else◌,
}
use cs3510_operating_systems.Layout.{u32}

abbrev pub Memory : Type 0
Memory = ℕ → ℕ

-- `rep stosb`, ascending.
unfoldable pub rep_stosb : Memory → ℕ → ℕ → ℕ → Memory
rep_stosb mem d c zero = mem
rep_stosb mem d c (suc n) = rep_stosb (update mem d (c % 256)) (suc d) c n

-- A 32-bit store, the lowest byte first.
abbrev pub store_word : Memory → ℕ → ℕ → Memory
store_word mem d w =
    update
      (update (update (update mem d (w % 256)) (d + 1) (w / 256 % 256)) (d + 2) (w / 65536 % 256))
      (d + 3) (w / 16777216 % 256)

-- `rep stosl`, ascending, for n words.
unfoldable pub rep_stosl : Memory → ℕ → ℕ → ℕ → Memory
rep_stosl mem d c zero = mem
rep_stosl mem d c (suc n) = rep_stosl (store_word mem d c) (d + 4) c n

-- `c &= 0xFF; c = (c<<24)|(c<<16)|(c<<8)|c`
unfoldable pub repeated : ℕ → ℕ
repeated c =
    let b : ℕ = c % 256 in
    bit_or (bit_or (bit_or (u32 (b * 2 ^ 24)) (u32 (b * 2 ^ 16))) (u32 (b * 2 ^ 8))) b

unfoldable pub memset : Memory → ℕ → ℕ → ℕ → Memory
memset mem v c n =
    if n == 0
    then mem
    else if v % 4 == 0 && n % 4 == 0
    then rep_stosl mem v (repeated c) (n / 4)
    else rep_stosb mem v c n

-- `cld; rep movsb`
unfoldable pub movsb_up : Memory → ℕ → ℕ → ℕ → Memory
movsb_up mem d s zero = mem
movsb_up mem d s (suc n) = movsb_up (update mem d (mem s)) (suc d) (suc s) n

-- `std; rep movsb` from the last byte of each block, for the blocks at d and s.
unfoldable pub movsb_down : Memory → ℕ → ℕ → ℕ → Memory
movsb_down mem d s zero = mem
movsb_down mem d s (suc n) = movsb_down (update mem (d + n) (mem (s + n))) d s n

-- A 32-bit move: the word is read before it is written.
abbrev pub move_word : Memory → ℕ → ℕ → Memory
move_word mem d s =
    update (update (update (update mem d (mem s)) (d + 1) (mem (s + 1))) (d + 2) (mem (s + 2)))
      (d + 3) (mem (s + 3))

-- `cld; rep movsl`, for n words.
unfoldable pub movsl_up : Memory → ℕ → ℕ → ℕ → Memory
movsl_up mem d s zero = mem
movsl_up mem d s (suc n) = movsl_up (move_word mem d s) (d + 4) (s + 4) n

-- `std; rep movsl` from the last word of each block.
unfoldable pub movsl_down : Memory → ℕ → ℕ → ℕ → Memory
movsl_down mem d s zero = mem
movsl_down mem d s (suc n) = movsl_down (move_word mem (d + 4 * n) (s + 4 * n)) d s n

abbrev pub by_words : ℕ → ℕ → ℕ → Bool
by_words d s n = s % 4 == 0 && (d % 4 == 0 && n % 4 == 0)

unfoldable pub memmove : Memory → ℕ → ℕ → ℕ → Memory
memmove mem dst src n =
    if ltb src dst && ltb dst (src + n)
    then (if by_words dst src n then movsl_down mem dst src (n / 4) else movsb_down mem dst src n)
    else if by_words dst src n
    then movsl_up mem dst src (n / 4)
    else movsb_up mem dst src n

unfoldable pub memcpy : Memory → ℕ → ℕ → ℕ → Memory
unfolding memmove
memcpy mem dst src n = memmove mem dst src n

-- `(int) *s1 - (int) *s2`, as a sign and a size.
pub data Difference : Type 0 where
  equal : Difference
  less more : ℕ → Difference

abbrev pub difference : ℕ → ℕ → Difference
difference a b = if a == b then equal else if ltb a b then less (b - a) else more (a - b)

unfoldable pub memcmp : Memory → ℕ → ℕ → ℕ → Difference
memcmp mem s₁ s₂ zero = equal
memcmp mem s₁ s₂ (suc n) =
    let rest = memcmp mem (suc s₁) (suc s₂) n in
    if mem s₁ == mem s₂ then rest else difference (mem s₁) (mem s₂)

-- The address of the first byte that is c, or the end of the block.
unfoldable pub memfind : Memory → ℕ → ℕ → ℕ → ℕ
memfind mem s c zero = s
memfind mem s c (suc n) = let rest = memfind mem (suc s) c n in if mem s == c % 256 then s else rest
