-- ===== src/Monitor/Command.antt =====
-- `runcmd` of kern/monitor.c: the command line is cut into arguments in place, and the first one
-- names the command, which is found in the table. What the commands print is left out.
use cs3510_operating_systems.Common.{
  zero, not, ℕ, some, false, Bool, none, true, Option, update, suc, List, length, ◌-◌, ◌==◌, ◌!=◌,
  ◌&&◌, ◌||◌, ◌++◌, ◌∷◌, if◌then◌else◌, [],
}
use cs3510_operating_systems.Str.Block.{Memory, Difference, equal}
use cs3510_operating_systems.Str.Text.{strcmp}

-- `WHITESPACE`: tab, carriage return, newline and space.
abbrev pub is_white : ℕ → Bool
is_white c = c == 9 || c == 13 || c == 10 || c == 32

abbrev pub maxargs : ℕ
maxargs = 16

-- `while (*buf && strchr(WHITESPACE, *buf)) *buf++ = 0;`
unfoldable pub gobble : ℕ → Memory → ℕ → Option (Memory × ℕ)
gobble zero mem buf = none
gobble (suc fuel) mem buf =
    let rest = gobble fuel (update mem buf 0) (suc buf) in
    if mem buf != 0 && is_white (mem buf) then rest else some (mem, buf)

-- `while (*buf && !strchr(WHITESPACE, *buf)) buf++;`
unfoldable pub scan : ℕ → Memory → ℕ → Option ℕ
scan zero mem buf = none
scan (suc fuel) mem buf =
    let rest = scan fuel mem (suc buf) in
    if mem buf != 0 && not (is_white (mem buf)) then rest else some buf

-- `split` has the memory and `argv`, the last argument first; `stuck` is a loop out of fuel.
pub data Parse : Type 0 where
  split : Memory → List ℕ → Parse
  too_many : Memory → Parse
  stuck : Parse

-- The outer loop. `fuel` is for each inner one.
unfoldable pub parse : ℕ → ℕ → Memory → ℕ → List ℕ → Parse
unfolding gobble scan
parse fuel zero mem buf argv = stuck
parse fuel (suc rounds) mem buf argv = elim (gobble fuel mem buf) [
  | none ↦ stuck
  | some (mem', b) ↦
      if mem' b == 0
      then split mem' argv
      else if length argv == maxargs - 1
      then too_many mem'
      else elim (scan fuel mem' b) [ none ↦ stuck | some e ↦ parse fuel rounds mem' e (b ∷ argv) ]
]

-- What `runcmd` comes to; `run` has the index in `commands` and the arguments, the first one first.
pub data Ran : Type 0 where
  nothing too_many_args unknown out_of_fuel : Ran
  run : ℕ → Memory → List ℕ → Ran

abbrev is_equal : Option Difference → Bool
is_equal (some equal) = true
is_equal _ = false

-- `names` are the addresses of the commands' names.
unfoldable pub find_command : ℕ → Memory → ℕ → List ℕ → ℕ → Option ℕ
unfolding strcmp
find_command fuel mem arg [] i = none
find_command fuel mem arg (name ∷ names) i =
    let rest = find_command fuel mem arg names (suc i) in
    if is_equal (strcmp mem fuel arg name) then some i else rest

abbrev arguments : List ℕ → List ℕ
arguments [] = []
arguments (a ∷ argv) = arguments argv ++ a ∷ []

abbrev pub invoke_command : ℕ → List ℕ → Memory → List ℕ → Ran
invoke_command fuel names mem [] = nothing
invoke_command fuel names mem (arg ∷ args) = elim (find_command fuel mem arg names 0) [
  | none ↦ unknown
  | some i ↦ run i mem (arg ∷ args)
]

abbrev pub after_parse : ℕ → List ℕ → Parse → Ran
after_parse fuel names (split mem argv) = invoke_command fuel names mem (arguments argv)
after_parse fuel names (too_many mem) = too_many_args
after_parse fuel names stuck = out_of_fuel

unfoldable pub runcmd : ℕ → List ℕ → Memory → ℕ → Ran
unfolding parse find_command
runcmd fuel names mem buf = after_parse fuel names (parse fuel fuel mem buf [])
