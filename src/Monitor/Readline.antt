-- ===== src/Monitor/Readline.antt =====
-- `readline` of lib/readline.c. The keys that `getchar` will give are a list, with none for a read
-- error.
use cs3510_operating_systems.Common.{
  ℕ, some, Option, update, leb, Bool, List, none, suc, ltb, ◌-◌, ◌%◌, ◌==◌, ◌&&◌, ◌||◌, ◌∷◌,
  if◌then◌else◌, [], ◌++◌,
}

abbrev pub buflen : ℕ
buflen = 1024

-- The static buffer, the index of the next character, and what was echoed, the latest first.
pub record Editor : Type 0 where
  pub buf : ℕ → ℕ
  pub i : ℕ
  pub echoed : List ℕ

-- `line` is the buffer that is returned, with the keys that are left; `waiting` is a loop that has
-- used up its keys.
pub data Reading : Type 0 where
  line : Editor → List (Option ℕ) → Reading
  read_error : List (Option ℕ) → Reading
  waiting : Editor → Reading

abbrev pub is_erase : ℕ → Bool
is_erase c = c == 8 || c == 127

abbrev pub is_return : ℕ → Bool
is_return c = c == 10 || c == 13

abbrev cputchar : Bool → ℕ → List ℕ → List ℕ
cputchar echoing c out = if echoing then c ∷ out else out

abbrev pub erase : Bool → Editor → Editor
erase echoing ed = record ed { i = ed.i - 1; echoed = cputchar echoing 8 ed.echoed }

-- `c` is stored as a `char`.
abbrev pub type_char : Bool → ℕ → Editor → Editor
type_char echoing c ed = record {
  buf = update ed.buf ed.i (c % 256);
  i = suc ed.i;
  echoed = cputchar echoing c ed.echoed;
}

abbrev pub end_line : Bool → Editor → Editor
end_line echoing ed = record ed {
  buf = update ed.buf ed.i 0;
  echoed = cputchar echoing 10 ed.echoed;
}

-- The loop.
unfoldable pub read_keys : Bool → List (Option ℕ) → Editor → Reading
read_keys echoing [] ed = waiting ed
read_keys echoing (none ∷ keys) ed = read_error keys
read_keys echoing (some c ∷ keys) ed =
    let erased = read_keys echoing keys (erase echoing ed) in
    let typed = read_keys echoing keys (type_char echoing c ed) in
    let same = read_keys echoing keys ed in
    if is_erase c && ltb 0 ed.i
    then erased
    else if leb 32 c && ltb ed.i (buflen - 1)
    then typed
    else if is_return c
    then line (end_line echoing ed) keys
    else same

abbrev backwards : List ℕ → List ℕ
backwards [] = []
backwards (c ∷ text) = backwards text ++ c ∷ []

-- The prompt is printed first; the buffer keeps what an earlier call left in it.
unfoldable pub readline : Bool → Option (List ℕ) → List (Option ℕ) → (ℕ → ℕ) → Reading
unfolding read_keys
readline echoing prompt keys old =
    let out : List ℕ = elim prompt [ none ↦ [] | some text ↦ backwards text ] in
    read_keys echoing keys (record { buf = old; i = 0; echoed = out })
