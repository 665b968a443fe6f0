-- ===== src/Print/Loop.antt =====
-- The loop of `vprintfmt` of lib/printfmt.c, and its escape sequences.
use cs3510_operating_systems.Common.{
  leb, some, ℕ, ap, none, zero, List, suc, Option, ◌+◌, ◌-◌, ◌*◌, ◌==◌, ◌&&◌, ◌++◌, ◌∷◌,
  if◌then◌else◌, [], true,
}
use cs3510_operating_systems.Layout.{u32}
use cs3510_operating_systems.Str.Block.{Memory}
use cs3510_operating_systems.Print.Parts.{
  negative, minus_one, Spec, initial_spec, text_at, put_string, getuint, getint, put_number,
  put_signed, put_error,
}

-- What an escape sequence leaves: its characters, and where the format and the arguments go on.
pub record Piece : Type 0 where
  pub chars : List ℕ
  pub fmt : ℕ
  pub ap : ℕ

-- `process_precision`
abbrev pub with_precision : ℕ → Spec → Spec
with_precision n s =
    if negative s.width
    then record s { width = n; precision = minus_one }
    else record s { precision = n }

-- A number in the format that starts with the digit `ch`: its value, and what follows it.
unfoldable pub read_width : Memory → ℕ → ℕ → ℕ → ℕ → Option (ℕ × ℕ)
read_width mem zero fmt ch precision = none
read_width mem (suc fuel) fmt ch precision =
    let n : ℕ = u32 (precision * 10 + ch - 48) in
    let rest = read_width mem fuel (fmt + 1) (mem fmt) n in
    if leb b'0' (mem fmt) && leb (mem fmt) b'9' then rest else some (n, fmt)

-- `%s`
unfoldable pub string_piece : ℕ → (ℕ → ℕ) → Spec → ℕ → ℕ → Option Piece
unfolding put_string
string_piece fuel text s fmt ap = elim (put_string fuel text s) [
  | none ↦ none
  | some cs ↦ some (record { chars = cs; fmt = fmt; ap = ap })
]

module _ (mem : Memory) (args : ℕ → ℕ) where
  -- The conversions, which end an escape sequence. One that is not known goes back to the format
  -- behind its `%`, which is at `start`.
  unfoldable pub convert : ℕ → ℕ → ℕ → ℕ → Spec → ℕ → Option Piece
  unfolding put_number put_signed put_error string_piece text_at getint getuint
  convert fuel start fmt ch s ap =
      if ch == b'c'
      then some (record { chars = args ap ∷ []; fmt = fmt; ap = ap + 1 })
      else if ch == b'e'
      then some (record { chars = put_error (args ap); fmt = fmt; ap = ap + 1 })
      else if ch == b's'
      then string_piece fuel (text_at mem (args ap)) s fmt (ap + 1)
      else if ch == b'd'
      then (let (num, ap') = getint args ap s.lflag in
          some (record { chars = put_signed s num; fmt = fmt; ap = ap' }))
      else if ch == b'u'
      then (let (num, ap') = getuint args ap s.lflag in
          some (record { chars = put_number s num 10; fmt = fmt; ap = ap' }))
      else if ch == b'o'
      then (let (num, ap') = getuint args ap s.lflag in
          some (record { chars = put_number s num 8; fmt = fmt; ap = ap' }))
      else if ch == b'p'
      then some (record { chars = b'0' ∷ b'x' ∷ put_number s (args ap) 16; fmt = fmt; ap = ap + 1 })
      else if ch == b'x'
      then (let (num, ap') = getuint args ap s.lflag in
          some (record { chars = put_number s num 16; fmt = fmt; ap = ap' }))
      else if ch == 37
      then some (record { chars = 37 ∷ []; fmt = fmt; ap = ap })
      else some (record { chars = 37 ∷ []; fmt = start; ap = ap })

  -- The switch of `vprintfmt`, which the flags go round again.
  unfoldable pub escape : ℕ → ℕ → ℕ → Spec → ℕ → Option Piece
  unfolding convert read_width
  escape zero start fmt s ap = none
  escape (suc fuel) start fmt s ap =
      let ch : ℕ = mem fmt in
      if ch == b'-'
      then escape fuel start (fmt + 1) (record s { padc = b'-' }) ap
      else if ch == b'0'
      then escape fuel start (fmt + 1) (record s { padc = b'0' }) ap
      else if leb b'1' ch && leb ch b'9'
      then elim (read_width mem fuel (fmt + 1) ch 0) [
        | none ↦ none
        | some (n, fmt') ↦ escape fuel start fmt' (with_precision n s) ap
      ]
      else if ch == b'*'
      then escape fuel start (fmt + 1) (with_precision (args ap) s) (ap + 1)
      else if ch == b'.'
      then escape fuel start (fmt + 1) (if negative s.width then record s { width = 0 } else s) ap
      else if ch == b'#'
      then escape fuel start (fmt + 1) (record s { altflag = true }) ap
      else if ch == b'l'
      then escape fuel start (fmt + 1) (record s { lflag = s.lflag + 1 }) ap
      else convert fuel start (fmt + 1) ch s ap

  -- The characters that are put out, within the fuel.
  unfoldable pub vprintfmt : ℕ → ℕ → ℕ → Option (List ℕ)
  unfolding escape
  vprintfmt zero fmt ap = none
  vprintfmt (suc fuel) fmt ap =
      if mem fmt == 0
      then some []
      else if mem fmt == 37
      then elim (escape fuel (fmt + 1) (fmt + 1) initial_spec ap) [
        | none ↦ none
        | some piece ↦ elim (vprintfmt fuel piece.fmt piece.ap) [
          | none ↦ none
          | some cs ↦ some (piece.chars ++ cs)
        ]
      ]
      else elim (vprintfmt fuel (fmt + 1) ap) [ none ↦ none | some cs ↦ some (mem fmt ∷ cs) ]
