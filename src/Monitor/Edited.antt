-- ===== src/Monitor/Edited.antt =====
-- The line that `readline` of lib/readline.c returns, as the user edits it.
use cs3510_operating_systems.Common.{
  ℕ, List, Option, Bool, refl, some, false, length, leb, not, true, arith, ltb, ◌≡◌, ◌==◌, ◌&&◌,
  ◌||◌, ◌∷◌, if◌then◌else◌, [],
}
use cs3510_operating_systems.Monitor.Readline.{readline, is_return}
use cs3510_operating_systems.Monitor.Typed.{typed, after_key, IsLine, readline-typed}

-- What a key does to a line, which is written with the latest character first: backspace and delete
-- take a character away, and any other is put behind the line, which holds at most 1023.
abbrev pub edit : ℕ → List ℕ → List ℕ
edit c [] = if c == 8 || c == 127 then [] else c ∷ []
edit c (x ∷ xs) =
    if c == 8 || c == 127 then xs else if ltb (length xs) 1022 then c ∷ x ∷ xs else x ∷ xs

unfoldable pub edited : List ℕ → List ℕ → List ℕ
edited [] text = text
edited (c ∷ keys) text = edited keys (edit c text)

abbrev is_empty : List ℕ → Bool
is_empty [] = true
is_empty (x ∷ xs) = false

-- A character that prints, backspace, or delete on a line that is not empty.
abbrev pub is_edit : ℕ → List ℕ → Bool
is_edit c text = (leb 32 c && ltb c 127) || (c == 8 || (c == 127 && not (is_empty text)))

unfoldable pub all_edits : List ℕ → List ℕ → Bool
all_edits [] text = true
all_edits (c ∷ keys) text = is_edit c text && all_edits keys (edit c text)

-- The keys of the line, then the rest.
unfoldable pub then_keys : List ℕ → List (Option ℕ) → List (Option ℕ)
then_keys [] rest = rest
then_keys (c ∷ keys) rest = some c ∷ then_keys keys rest

after_key-edit : (c : ℕ) (text : List ℕ) → is_edit c text ≡ true → after_key c text ≡ edit c text
after_key-edit c [] ok = ground arith
after_key-edit c (x ∷ xs) ok = ground arith

edit-not_return : (c : ℕ) (text : List ℕ) → is_edit c text ≡ true → is_return c ≡ false
edit-not_return c text ok = ground arith

typed-edited :
    (keys text : List ℕ) (c : ℕ) (rest : List (Option ℕ))
    → is_return c ≡ true
    → all_edits keys text ≡ true
    → typed (then_keys keys (some c ∷ rest)) text ≡ some (edited keys text, rest)
unfolding typed then_keys all_edits edited
typed-edited [] text c rest ends ok = rw ends refl
typed-edited (x ∷ keys) text c rest ends ok =
    let here : is_edit x text ≡ true = ground arith in
    let more : all_edits keys (edit x text) ≡ true = ground arith in
    let not_end : is_return x ≡ false = edit-not_return x text here in
    rw (not_end, after_key-edit x text here) (typed-edited keys (edit x text) c rest ends more)

-- For keys that are characters which print, backspaces, or deletes on a line that is not empty, and
-- then a return: `readline` returns the line as they edit it, where each backspace or delete takes the
-- last character away and a character that would not fit is dropped. The buffer holds it with a NUL
-- behind it, within its 1024 bytes, and the keys behind the return are left.
pub readline_lem :
    (echoing : Bool) (prompt : Option (List ℕ)) (keys : List ℕ) (c : ℕ) (rest : List (Option ℕ))
    (old : ℕ → ℕ)
    → is_return c ≡ true
    → all_edits keys [] ≡ true
    → IsLine (readline echoing prompt (then_keys keys (some c ∷ rest)) old) (edited keys []) rest
readline_lem echoing prompt keys c rest old ends ok =
    readline-typed echoing prompt (then_keys keys (some c ∷ rest)) rest old (edited keys [])
      (typed-edited keys [] c rest ends ok)
