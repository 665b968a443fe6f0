-- ===== src/Str/Text.antt =====
-- The routines of lib/string.c on strings that a NUL ends.
pub mod Length
use cs3510_operating_systems.Common.{
  update, Option, zero, some, none, ℕ, suc, ◌+◌, ◌-◌, ◌==◌, ◌!=◌, ◌&&◌, if◌then◌else◌,
}
use cs3510_operating_systems.Str.Block.{Memory, Difference, equal, difference}

-- `n` counts the characters before s.
unfoldable pub strlen_loop : Memory → ℕ → ℕ → ℕ → Option ℕ
strlen_loop mem zero s n = none
strlen_loop mem (suc fuel) s n =
    let rest = strlen_loop mem fuel (suc s) (suc n) in if mem s == 0 then some n else rest

unfoldable pub strlen : Memory → ℕ → ℕ → Option ℕ
unfolding strlen_loop
strlen mem fuel s = strlen_loop mem fuel s 0

unfoldable pub strnlen : Memory → ℕ → ℕ → ℕ
strnlen mem s zero = 0
strnlen mem s (suc size) = let rest = strnlen mem (suc s) size in if mem s == 0 then 0 else suc rest

-- The loop copies the NUL too.
unfoldable pub strcpy : Memory → ℕ → ℕ → ℕ → Option Memory
strcpy mem zero dst src = none
strcpy mem (suc fuel) dst src =
    let next : Memory = update mem dst (mem src) in
    let rest = strcpy next fuel (suc dst) (suc src) in if next dst == 0 then some next else rest

unfoldable pub strcat : Memory → ℕ → ℕ → ℕ → Option Memory
strcat mem fuel dst src = elim (strlen mem fuel dst) [
  | none ↦ none
  | some len ↦ strcpy mem fuel (dst + len) src
]

-- The source's end is read again and again, which pads the destination.
unfoldable pub strncpy : Memory → ℕ → ℕ → ℕ → Memory
strncpy mem dst src zero = mem
strncpy mem dst src (suc left) =
    let next : Memory = update mem dst (mem src) in
    let at_end = strncpy next (suc dst) src left in
    let further = strncpy next (suc dst) (suc src) left in if next src != 0 then further else at_end

-- The loop of `strlcpy`, with the memory and where the NUL goes.
unfoldable pub strlcpy_loop : Memory → ℕ → ℕ → ℕ → Memory × ℕ
strlcpy_loop mem dst src zero = (mem, dst)
strlcpy_loop mem dst src (suc left) =
    let rest = strlcpy_loop (update mem dst (mem src)) (suc dst) (suc src) left in
    if mem src != 0 then rest else (mem, dst)

unfoldable pub strlcpy : Memory → ℕ → ℕ → ℕ → Memory × ℕ
unfolding strlcpy_loop
strlcpy mem dst src zero = (mem, 0)
strlcpy mem dst src (suc left) =
    let (next, at_end) = strlcpy_loop mem dst src left in (update next at_end 0, at_end - dst)

unfoldable pub strcmp : Memory → ℕ → ℕ → ℕ → Option Difference
strcmp mem zero p q = none
strcmp mem (suc fuel) p q =
    let rest = strcmp mem fuel (suc p) (suc q) in
    if mem p != 0 && (mem p == mem q) then rest else some (difference (mem p) (mem q))

unfoldable pub strncmp : Memory → ℕ → ℕ → ℕ → Difference
strncmp mem p q zero = equal
strncmp mem p q (suc n) =
    let rest = strncmp mem (suc p) (suc q) n in
    if mem p != 0 && (mem p == mem q) then rest else difference (mem p) (mem q)

-- The pointer that is returned, NULL as none; the outer none is the fuel's. `c` is a byte.
unfoldable pub strchr : Memory → ℕ → ℕ → ℕ → Option (Option ℕ)
strchr mem zero s c = none
strchr mem (suc fuel) s c =
    let rest = strchr mem fuel (suc s) c in
    if mem s == 0 then some none else if mem s == c then some (some s) else rest

unfoldable pub strfind : Memory → ℕ → ℕ → ℕ → Option ℕ
strfind mem zero s c = none
strfind mem (suc fuel) s c =
    let rest = strfind mem fuel (suc s) c in
    if mem s == 0 then some s else if mem s == c then some s else rest
