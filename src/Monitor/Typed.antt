-- ===== src/Monitor/Typed.antt =====
-- The line that `readline` of lib/readline.c returns, against the characters that stand after
-- each key, the latest first.
use mathlib.Core.Path.{subst}
use cs3510_operating_systems.Common.{
  false, ℕ, some, Option, update, leb, Bool, List, length, none, ltb, arith, ◌%◌, ◌≤◌, ◌<◌, ◌≡◌,
  ◌==◌, ◌&&◌, ◌||◌, ◌∷◌, if◌then◌else◌, [], inr, true, inl, Bool-cases, sym, suc, refl,
}
use cs3510_operating_systems.Monitor.Readline.{
  Editor, Reading, line, read_error, waiting, is_erase, is_return, erase, type_char, end_line,
  read_keys, readline,
}

-- What a key does to the line, if it does not end it.
abbrev pub after_key : ℕ → List ℕ → List ℕ
after_key c [] = if leb 32 c then (c % 256) ∷ [] else []
after_key c (x ∷ xs) =
    if c == 8 || c == 127
    then xs
    else if leb 32 c && ltb (length xs) 1022
    then (c % 256) ∷ x ∷ xs
    else x ∷ xs

-- The line up to the first return, and the keys behind it, unless the keys end or fail before.
unfoldable pub typed : List (Option ℕ) → List ℕ → Option (List ℕ × List (Option ℕ))
typed [] text = none
typed (none ∷ keys) text = none
typed (some c ∷ keys) text =
    let rest = typed keys (after_key c text) in
    if c == 10 || c == 13 then some (text, keys) else rest

-- The buffer holds the text, the latest character first.
abbrev pub Holds : (ℕ → ℕ) → List ℕ → Type 0
Holds buf [] = Unit {0}
Holds buf (c ∷ text) = (buf (length text) ≡ c) × Holds buf text

-- A store behind the text.
Holds-update :
    (text : List ℕ) (buf : ℕ → ℕ) (n v : ℕ)
    → length text ≤ n
    → Holds buf text
    → Holds (update buf n v) text
Holds-update [] buf n v far h = tt
Holds-update (c ∷ text) buf n v far (at, h) =
    let apart : (n == length text) ≡ false = ground arith in
    (rw apart at, Holds-update text buf n v (omega arith) h)

-- A line with a NUL behind it, of a length that the buffer has room for.
abbrev pub IsLine : Reading → List ℕ → List (Option ℕ) → Type 0
IsLine (line ed rest) text keys =
    Holds ed.buf text × (ed.buf (length text) ≡ 0) × (length text < 1024) × (rest ≡ keys)
IsLine (read_error rest) text keys = ⊥
IsLine (waiting ed) text keys = ⊥

-- A key that does not end the line.
abbrev press : Bool → ℕ → Editor → Editor
press echoing c ed =
    if is_erase c && ltb 0 ed.i
    then erase echoing ed
    else if leb 32 c && ltb ed.i 1023
    then type_char echoing c ed
    else ed

read_keys-press :
    (echoing : Bool) (c : ℕ) (keys : List (Option ℕ)) (ed : Editor)
    → is_return c ≡ false
    → read_keys echoing (some c ∷ keys) ed ≡ read_keys echoing keys (press echoing c ed)
unfolding read_keys
read_keys-press echoing c keys ed goes_on = ground arith

read_keys-end_line :
    (echoing : Bool) (c : ℕ) (keys : List (Option ℕ)) (ed : Editor)
    → is_return c ≡ true
    → read_keys echoing (some c ∷ keys) ed ≡ line (end_line echoing ed) keys
unfolding read_keys
read_keys-end_line echoing c keys ed ends = ground arith

-- The editor's buffer and index stand for the text.
record Shows (ed : Editor) (text : List ℕ) : Type 0 where
  holds : Holds ed.buf text
  at : ed.i ≡ length text
  small : length text ≤ 1023

Shows-of :
    (ed ed' : Editor) (text text' : List ℕ)
    → ed ≡ ed'
    → text ≡ text'
    → Shows ed' text'
    → Shows ed text
Shows-of ed ed' text text' e e' shows =
    subst (λ t. Shows ed t) (sym e') (subst (λ d. Shows d text') (sym e) shows)

Shows-erase :
    (echoing : Bool) (ed : Editor) (x : ℕ) (xs : List ℕ)
    → Shows ed (x ∷ xs)
    → Shows (erase echoing ed) xs
Shows-erase echoing ed x xs shows =
    let (here, further) = shows.holds in
    record { holds = further; at = omega (arith, shows.at); small = omega (arith, shows.small) }

Shows-type_char :
    (echoing : Bool) (c : ℕ) (ed : Editor) (text : List ℕ)
    → length text < 1023
    → Shows ed text
    → Shows (type_char echoing c ed) (c % 256 ∷ text)
Shows-type_char echoing c ed text room shows = record {
  holds =
      let last : (ed.i == length text) ≡ true = ground (arith, shows.at) in
      (rw last refl, Holds-update text ed.buf ed.i (c % 256) (omega (arith, shows.at)) shows.holds);
  at = omega (arith, shows.at);
  small = omega arith;
}

Shows-press :
    (echoing : Bool) (c : ℕ) (ed : Editor) (text : List ℕ)
    → Shows ed text
    → Shows (press echoing c ed) (after_key c text)
Shows-press echoing c ed [] shows =
    let at : ed.i ≡ 0 = shows.at in
    elim (Bool-cases (leb 32 c)) [
      | inl y ↦
          Shows-of (press echoing c ed) (type_char echoing c ed) (after_key c []) (c % 256 ∷ [])
            (ground arith) (ground arith) (Shows-type_char echoing c ed [] (omega arith) shows)
      | inr n ↦
          Shows-of (press echoing c ed) ed (after_key c []) [] (ground arith) (ground arith) shows
    ]
Shows-press echoing c ed (x ∷ xs) shows =
    let at : ed.i ≡ suc (length xs) = shows.at in
    elim (Bool-cases (is_erase c)) [
      | inl y ↦
          Shows-of (press echoing c ed) (erase echoing ed) (after_key c (x ∷ xs)) xs (ground arith)
            (ground arith) (Shows-erase echoing ed x xs shows)
      | inr n ↦ elim (Bool-cases (leb 32 c && ltb (length xs) 1022)) [
        | inl y' ↦
            Shows-of (press echoing c ed) (type_char echoing c ed) (after_key c (x ∷ xs))
              (c % 256 ∷ x ∷ xs) (ground arith) (ground arith)
              (Shows-type_char echoing c ed (x ∷ xs) (ground arith) shows)
        | inr n' ↦
            Shows-of (press echoing c ed) ed (after_key c (x ∷ xs)) (x ∷ xs) (ground arith)
              (ground arith) shows
      ]
    ]

IsLine-end_line :
    (echoing : Bool) (ed : Editor) (text : List ℕ) (keys : List (Option ℕ))
    → Shows ed text
    → IsLine (line (end_line echoing ed) keys) text keys
IsLine-end_line echoing ed text keys shows =
    let last : (ed.i == length text) ≡ true = ground (arith, shows.at) in
    (
      Holds-update text ed.buf ed.i 0 (omega (arith, shows.at)) shows.holds,
      rw last refl,
      omega (arith, shows.small),
      refl,
    )

IsLine-read_keys :
    (echoing : Bool) (keys : List (Option ℕ)) (ed : Editor) (text : List ℕ) (out : List ℕ)
    (rest : List (Option ℕ))
    → Shows ed text
    → typed keys text ≡ some (out, rest)
    → IsLine (read_keys echoing keys ed) out rest
unfolding typed
IsLine-read_keys echoing [] ed text out rest shows end = cc
IsLine-read_keys echoing (none ∷ keys) ed text out rest shows end = cc
IsLine-read_keys echoing (some c ∷ keys) ed text out rest shows end =
    elim (Bool-cases (is_return c)) [
      | inl y ↦
          let done : some (text, keys) ≡ some (out, rest) = rw y at end in
          let same_text : text ≡ out = cc in
          let same_keys : keys ≡ rest = cc in
          rw (read_keys-end_line echoing c keys ed y, ← same_text, ← same_keys)
            (IsLine-end_line echoing ed text keys shows)
      | inr n ↦ rw (read_keys-press echoing c keys ed n) (
          IsLine-read_keys echoing keys (press echoing c ed) (after_key c text) out rest
            (Shows-press echoing c ed text shows) (ground arith))
    ]

-- `readline` against `typed`, which follows the code key by key.
pub readline-typed :
    (echoing : Bool) (prompt : Option (List ℕ)) (keys rest : List (Option ℕ)) (old : ℕ → ℕ)
    (text : List ℕ)
    → typed keys [] ≡ some (text, rest)
    → IsLine (readline echoing prompt keys old) text rest
unfolding readline
readline-typed echoing prompt keys rest old text end =
    IsLine-read_keys echoing keys _ [] text rest
      (record { holds = tt; at = refl; small = omega arith }) end
