-- ===== src/Tests/Lines.antt =====
-- The theorems on the command line, the symbol tables and formatted output.
use cs3510_operating_systems.Common.{
  ℕ, false, arith, refl, List, none, some, true, ◌*◌, ◌≤◌, ◌<◌, ◌≡◌, ◌==◌, ◌∷◌, ◌⊎◌, if◌then◌else◌,
  [],
}
use cs3510_operating_systems.Str.Block.{Memory}
use cs3510_operating_systems.Str.Text.Length.{IsString}
use cs3510_operating_systems.Monitor.Readline.{readline}
use cs3510_operating_systems.Monitor.Typed.{IsLine}
use cs3510_operating_systems.Monitor.Edited.{edited, all_edits, then_keys, readline_lem}
use cs3510_operating_systems.Monitor.Command.{parse}
use cs3510_operating_systems.Monitor.Arguments.{IsParse, parse_lem}
use cs3510_operating_systems.Stab.{Stab, stab_binsearch, of_type}
use cs3510_operating_systems.Stab.Round.{IsLastBefore}
use cs3510_operating_systems.Stab.Search.{stab_binsearch-brackets}

-- The line "a b" at address 10.
abbrev memory : Memory
memory a = if a == 10 then 97 else if a == 11 then 32 else if a == 12 then 98 else 0

line-IsString : IsString memory 10 3
line-IsString = record { ends = refl; inside = λ i below. ground arith }

parse_lem_example : IsParse memory 10 3 (parse 4 4 memory 10 [])
parse_lem_example = parse_lem memory 10 3 4 line-IsString (omega arith)

-- A character, an erase and another character.
abbrev keys : List ℕ
keys = 97 ∷ 8 ∷ 98 ∷ []

readline_lem_example :
    IsLine
      (readline true none (some 97 ∷ some 8 ∷ some 98 ∷ some 13 ∷ some 99 ∷ []) (λ j. 7))
      (98 ∷ [])
      (some 99 ∷ [])
unfolding all_edits then_keys edited
readline_lem_example = readline_lem true none keys 13 (some 99 ∷ []) (λ j. 7) refl refl

-- Three entries of one type, 100 addresses apart.
abbrev stabs : ℕ → Stab
stabs i = record { n_strx = 0; n_type = 36; n_desc = 0; n_value = 100 * i }

second-IsLastBefore : IsLastBefore stabs 36 0 3 150 1
second-IsLastBefore = record {
  fits = omega arith;
  spaced = λ i k a b c t u. omega arith;
  low = omega arith;
  high = omega arith;
  typed = refl;
  before = omega arith;
  after = λ k a b t. omega arith;
}

stab_binsearch-brackets_example :
    (right : ℕ) × (stab_binsearch stabs 36 0 3 150 ≡ some (2, right))
    × (1 < right)
    × (right ≤ 3)
    × ((right ≡ 3) ⊎ (of_type stabs 36 right ≡ true))
    × ((k : ℕ) → 1 < k → k < right → of_type stabs 36 k ≡ false)
stab_binsearch-brackets_example = stab_binsearch-brackets stabs 36 0 3 150 1 second-IsLastBefore
