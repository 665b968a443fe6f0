-- ===== src/Tests/Strings.antt =====
-- The theorems on the string routines, on a memory that holds "ab" at address 10.
use cs3510_operating_systems.Common.{arith, refl, ◌≡◌, ◌==◌, if◌then◌else◌}
use cs3510_operating_systems.Str.Block.{Memory, memmove}
use cs3510_operating_systems.Str.Block.Copy.{memmove_lem}
use cs3510_operating_systems.Str.Text.Length.{IsString}
use cs3510_operating_systems.Str.Number.{printnum}
use cs3510_operating_systems.Str.Number.Digits.{number_of, printnum_lem}

abbrev memory : Memory
memory a = if a == 10 then 97 else if a == 11 then 98 else 0

ab-IsString : IsString memory 10 2
ab-IsString = record { ends = refl; inside = λ i below. ground arith }

memmove_lem_example : memmove memory 11 10 2 12 ≡ 98
memmove_lem_example = memmove_lem memory 11 10 2 12

printnum_lem_example : number_of 16 (printnum 48879 16 0 32) 0 ≡ 48879
printnum_lem_example = printnum_lem 48879 16 32 (omega arith) (omega arith) (omega arith)
