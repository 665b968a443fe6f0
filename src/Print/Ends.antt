-- ===== src/Print/Ends.antt =====
-- That `vprintfmt` of lib/printfmt.c ends, with how much fuel.
use cs3510_operating_systems.Common.{
  ℕ, Option, Bool, List, Bool-cases, inl, none, same, zero, suc, some, arith, ap, inr, ◌+◌, ◌≤◌,
  ◌<◌, ◌≡◌, ◌≢◌, ◌==◌, ◌∷◌, refl, leb, true, false, ◌∙◌, ◌&&◌, if◌then◌else◌, ◌++◌,
}
use cs3510_operating_systems.Str.Block.{Memory}
use cs3510_operating_systems.Print.Parts.{
  Spec, text_at, string_chars, put_string, padded, initial_spec,
}
use cs3510_operating_systems.Print.Loop.{
  Piece, read_width, convert, string_piece, escape, vprintfmt,
}

abbrev IsSome {ℓ} : {A : Type ℓ} → Option A → Type 0
IsSome none = ⊥
IsSome (some x) = Unit {0}

kept :
    (c : ℕ) (o : Option (List ℕ))
    → IsSome o
    → IsSome (elim o as (λ _. Option (List ℕ)) [ none ↦ none | some cs ↦ some (c ∷ cs) ])
kept c none h = h
kept c (some cs) h = tt

string_chars-IsSome :
    (text : ℕ → ℕ) (z fuel precision i : ℕ)
    → text z ≡ 0
    → i ≤ z
    → z < i + fuel
    → IsSome (string_chars text fuel precision i)
unfolding string_chars
string_chars-IsSome text z zero precision i nul le enough = absurd (omega arith)
string_chars-IsSome text z (suc fuel) precision i nul le enough = elim (Bool-cases (text i == 0)) [
  | inl e ↦ rw e tt
  | inr e ↦
      let ne : i ≢ z = λ same. ground (arith, ap text same) in
      elim (Bool-cases (precision == 0)) [
        | inl f ↦ rw (e, f) tt
        | inr f ↦
            rw (e, f)
              (kept (text i) _
                (string_chars-IsSome text z fuel _ (suc i) nul (omega arith) (omega arith)))
      ]
]

put_string-IsSome :
    (fuel z : ℕ) (text : ℕ → ℕ) (s : Spec) → text z ≡ 0 → z < fuel → IsSome (put_string fuel text s)
unfolding put_string
put_string-IsSome fuel z text s nul enough =
    found (string_chars text fuel s.precision 0)
      (string_chars-IsSome text z fuel s.precision 0 nul (omega arith) (omega arith))
  where
    found : (o : Option (List ℕ)) → IsSome o → IsSome (padded text s o)
    found none h = h
    found (some cs) h = tt

module _ (mem : Memory) (args : ℕ → ℕ) (first last longest : ℕ) where
  -- The format from `first` on ends at or before `last`; if it has the letter s, each argument is
  -- the address of a string shorter than `longest`, or NULL.
  pub record IsFormat : Type 0 where
    pub nul : mem last ≡ 0
    pub strings :
        (a : ℕ)
        → first ≤ a
        → a < last
        → mem a ≡ 115
        → (j : ℕ) → (z : ℕ) × (z < longest) × (text_at mem (args j) z ≡ 0)

  -- A place in the format, not before `start`.
  abbrev Inside : ℕ → Option Piece → Type 0
  Inside start none = ⊥
  Inside start (some piece) = (start ≤ piece.fmt) × (piece.fmt ≤ last)

  abbrev Behind : ℕ → Option (ℕ × ℕ) → Type 0
  Behind start none = ⊥
  Behind start (some (n, fmt)) = (start ≤ fmt) × (fmt ≤ last)

  Behind-before : (p : ℕ) → (o : Option (ℕ × ℕ)) → Behind (p + 1) o → Behind p o
  Behind-before p none h = h
  Behind-before p (some (n, fmt)) (a, b) = (omega arith, b)

  -- A character other than NUL is not the last place.
  not_last : IsFormat → (p : ℕ) → p ≤ last → mem p ≢ 0 → p < last
  not_last h p le ne = let apart : p ≢ last = λ same. ne (ap mem same ∙ h.nul) in omega arith

  read_width-Behind :
      IsFormat
      → (fuel p ch n : ℕ) → p ≤ last
      → last < p + fuel
      → Behind p (read_width mem fuel p ch n)
  unfolding read_width
  read_width-Behind h zero p ch n le enough = absurd (omega arith)
  read_width-Behind h (suc fuel) p ch n le enough =
      elim (Bool-cases (leb 48 (mem p) && leb (mem p) 57)) [
        | inl e ↦
            let more : p < last = not_last h p le (ground arith) in
            rw e
              (Behind-before p _ (read_width-Behind h fuel (p + 1) _ _ (omega arith) (omega arith)))
        | inr e ↦ rw e (omega arith, le)
      ]

  if-Inside :
      (start : ℕ)
      → (b : Bool) → (x y : Option Piece) → (b ≡ true → Inside start x)
      → (b ≡ false → Inside start y)
      → Inside start (if b then x else y)
  if-Inside start true x y then_x else_y = then_x refl
  if-Inside start false x y then_x else_y = else_y refl

  Inside-string :
      (start fmt next : ℕ)
      → (o : Option (List ℕ)) → IsSome o
      → start ≤ fmt
      → fmt ≤ last
      → Inside start (elim o as (λ _. Option Piece) [
        | none ↦ none
        | some cs ↦ some (record { chars = cs; fmt = fmt; ap = next })
      ])
  Inside-string start fmt next none h a b = absurd h
  Inside-string start fmt next (some cs) h a b = (a, b)

  convert-Inside :
      IsFormat
      → (fuel start pos ch : ℕ) → (s : Spec) → (next : ℕ) → first ≤ pos
      → start ≤ pos
      → pos ≤ last
      → mem pos ≡ ch
      → longest ≤ fuel
      → Inside start (convert mem args fuel start (pos + 1) ch s next)
  unfolding convert
  convert-Inside h fuel start pos ch s next b c d e enough =
      let known : (v : ℕ) → v ≢ 0 → (ch == v) ≡ true → (start ≤ pos + 1) × (pos + 1 ≤ last) =
        λ v nz same. let more : pos < last = not_last h pos d (ground arith) in omega arith in
      if-Inside start _ _ _ (known 99 (λ z. omega arith)) λ _.
        if-Inside start _ _ _ (known 101 (λ z. omega arith)) λ _.
          if-Inside start _ _ _ (λ same. text same (known 115 (λ z. omega arith) same))
            λ _. if-Inside start _ _ _ (known 100 (λ z. omega arith)) λ _.
              if-Inside start _ _ _ (known 117 (λ z. omega arith)) λ _.
                if-Inside start _ _ _ (known 111 (λ z. omega arith)) λ _.
                  if-Inside start _ _ _ (known 112 (λ z. omega arith)) λ _.
                    if-Inside start _ _ _ (known 120 (λ z. omega arith)) λ _.
                      if-Inside start _ _ _ (known 37 (λ z. omega arith))
                        λ _. (omega arith, omega arith)
    where
      text :
          (ch == 115) ≡ true
          → (start ≤ pos + 1) × (pos + 1 ≤ last)
          → Inside start (string_piece fuel (text_at mem (args next)) s (pos + 1) (next + 1))
      text same (low, high) =
          let (z, short, nul) = h.strings pos b (omega arith) (ground arith) next in
          Inside-string start (pos + 1) (next + 1) _
            (put_string-IsSome fuel z (text_at mem (args next)) s nul (omega arith)) low high

  after_width :
      (start next : ℕ)
      → (s : Spec) → (next_escape : ℕ → ℕ → Option Piece) → (p : ℕ) → (o : Option (ℕ × ℕ))
      → Behind p o
      → ((n fmt : ℕ) → p ≤ fmt → fmt ≤ last → Inside start (next_escape n fmt))
      → Inside start
          (elim o as (λ _. Option Piece) [ none ↦ none | some (n, fmt) ↦ next_escape n fmt ])
  after_width start next s next_escape p none b goes_on = absurd b
  after_width start next s next_escape p (some (n, fmt)) (low, high) goes_on =
      goes_on n fmt low high

  escape-Inside :
      IsFormat
      → (fuel start fmt : ℕ) → (s : Spec) → (next : ℕ) → first ≤ fmt
      → start ≤ fmt
      → fmt ≤ last
      → last + longest < fmt + fuel
      → Inside start (escape mem args fuel start fmt s next)
  unfolding escape
  escape-Inside h zero start fmt s next b c d enough = absurd (omega arith)
  escape-Inside h (suc fuel) start fmt s next b c d enough =
      let more : (v : ℕ) → v ≢ 0 → (mem fmt == v) ≡ true → fmt + 1 ≤ last =
        λ v nz same. let below : fmt < last = not_last h fmt d (ground arith) in omega arith in
      let again : fmt + 1 ≤ last
          → (s' : Spec) → (next' : ℕ)
          → Inside start (escape mem args fuel start (fmt + 1) s' next') =
        λ inside s' next'.
          escape-Inside h fuel start (fmt + 1) s' next' (omega arith) (omega arith) inside
            (omega arith) in
      if-Inside start _ _ _ (λ e. again (more 45 (λ z. omega arith) e) _ _)
        λ _.
          if-Inside start _ _ _ (λ e. again (more 48 (λ z. omega arith) e) _ _)
            λ _.
              if-Inside start (leb 49 (mem fmt) && leb (mem fmt) 57) _ _
                (λ e.
                  let below : fmt < last = not_last h fmt d (ground arith) in
                  after_width start next s _ (fmt + 1) _
                    (read_width-Behind h fuel (fmt + 1) (mem fmt) 0 (omega arith) (omega arith))
                    (λ n fmt' low high.
                      escape-Inside h fuel start fmt' _ next (omega arith) (omega arith) high
                        (omega arith)))
                λ _.
                  if-Inside start _ _ _ (λ e. again (more 42 (λ z. omega arith) e) _ _)
                    λ _.
                      if-Inside start _ _ _ (λ e. again (more 46 (λ z. omega arith) e) _ _)
                        λ _.
                          if-Inside start _ _ _ (λ e. again (more 35 (λ z. omega arith) e) _ _)
                            λ _.
                              if-Inside start _ _ _ (λ e. again (more 108 (λ z. omega arith) e) _ _)
                                λ _.
                                  convert-Inside h fuel start fmt (mem fmt) s next b c d refl
                                    (omega arith)

  after_piece :
      (start : ℕ)
      → (o : Option Piece) → (go_on : Piece → Option (List ℕ)) → Inside start o
      → ((piece : Piece) → start ≤ piece.fmt → piece.fmt ≤ last → IsSome (go_on piece))
      → IsSome (elim o as (λ _. Option (List ℕ)) [ none ↦ none | some piece ↦ go_on piece ])
  after_piece start none go_on b goes_on = absurd b
  after_piece start (some piece) go_on (low, high) goes_on = goes_on piece low high

  appended_kept :
      (cs : List ℕ)
      → (o : Option (List ℕ)) → IsSome o
      → IsSome (elim o as (λ _. Option (List ℕ)) [ none ↦ none | some ds ↦ some (cs ++ ds) ])
  appended_kept cs none h = h
  appended_kept cs (some ds) h = tt

  vprintfmt-IsSome :
      IsFormat
      → (fuel fmt next : ℕ) → first ≤ fmt
      → fmt ≤ last
      → last + longest + 1 < fmt + fuel
      → IsSome (vprintfmt mem args fuel fmt next)
  unfolding vprintfmt
  vprintfmt-IsSome h zero fmt next b d enough = absurd (omega arith)
  vprintfmt-IsSome h (suc fuel) fmt next b d enough = elim (Bool-cases (mem fmt == 0)) [
    | inl e ↦ rw e tt
    | inr e ↦
        let below : fmt < last = not_last h fmt d (ground arith) in
        elim (Bool-cases (mem fmt == 37)) [
          | inl f ↦
              rw (e, f)
                (after_piece (fmt + 1) (escape mem args fuel (fmt + 1) (fmt + 1) initial_spec next)
                  _
                  (escape-Inside h fuel (fmt + 1) (fmt + 1) initial_spec next (omega arith)
                    (omega arith) (omega arith) (omega arith))
                  (λ piece low high.
                    appended_kept piece.chars _ (
                      vprintfmt-IsSome h fuel piece.fmt piece.ap (omega arith) high (omega arith))))
          | inr f ↦
              rw (e, f)
                (kept (mem fmt) _ (
                  vprintfmt-IsSome h fuel (fmt + 1) next (omega arith) (omega arith) (omega arith)))
        ]
  ]

  IsSome-value : (o : Option (List ℕ)) → IsSome o → (cs : List ℕ) × (o ≡ some cs)
  IsSome-value none h = absurd h
  IsSome-value (some cs) h = (cs, refl)

  -- With fuel for the format and the longest of the strings, `vprintfmt` ends.
  pub vprintfmt_ends :
      IsFormat
      → (fuel next : ℕ) → first ≤ last
      → last + longest + 1 < first + fuel
      → (chars : List ℕ) × (vprintfmt mem args fuel first next ≡ some chars)
  vprintfmt_ends h fuel next le enough =
      IsSome-value _ (vprintfmt-IsSome h fuel first next (omega arith) le enough)
