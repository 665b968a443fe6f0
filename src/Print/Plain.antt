-- ===== src/Print/Plain.antt =====
-- What `vprintfmt` prints of a format without escapes, and of "%d".
use cs3510_operating_systems.Common.{
  arith, List, suc, refl, some, false, ne→==, zero, ℕ, ◌+◌, ◌-◌, ◌<◌, ◌≡◌, ◌≢◌, ◌==◌, ◌∷◌, [], true,
  leb, ap, ◌^◌,
}
use mathlib.Core.List.{append-nil}
use cs3510_operating_systems.Str.Number.{printnum}
use cs3510_operating_systems.Str.Block.{Memory}
use cs3510_operating_systems.Str.Text.Length.{
  IsString, IsString-tail, IsString-first, IsString-empty,
}
use cs3510_operating_systems.Str.Number.Digits.{number_of, printnum_lem}
use cs3510_operating_systems.Print.Parts.{negative, initial_spec, getint, put_signed, put_number}
use cs3510_operating_systems.Print.Loop.{vprintfmt, escape, convert}

-- The n characters from s on.
abbrev pub chars_from : Memory → ℕ → ℕ → List ℕ
chars_from mem s zero = []
chars_from mem s (suc n) = mem s ∷ chars_from mem (s + 1) n

-- A format without a `%` is printed as it is.
pub vprintfmt-literal :
    (n : ℕ) (mem : Memory) (args : ℕ → ℕ) (fuel fmt next : ℕ)
    → IsString mem fmt n
    → ((i : ℕ) → i < n → mem (fmt + i) ≢ 37)
    → n < fuel
    → vprintfmt mem args fuel fmt next ≡ some (chars_from mem fmt n)
unfolding vprintfmt
vprintfmt-literal n mem args zero fmt next h plain enough = absurd (omega arith)
vprintfmt-literal zero mem args (suc fuel) fmt next h plain enough =
    rw (IsString-empty mem fmt h) refl
vprintfmt-literal (suc n) mem args (suc fuel) fmt next h plain enough =
    let z : fmt + 0 ≡ fmt = omega arith in
    let p : (mem fmt == 37) ≡ false = ne→== _ _ (rw z at (plain 0 (omega arith))) in
    let shift : (i : ℕ) → fmt + 1 + i ≡ fmt + suc i = λ i. omega arith in
    let one_up : suc fmt ≡ fmt + 1 = omega arith in
    rw
      (
        IsString-first mem fmt n h,
        p,
        vprintfmt-literal n mem args fuel (fmt + 1) next (rw one_up at (IsString-tail mem fmt n h))
            (λ i below. rw (shift i) (plain (suc i) (omega arith))) (omega arith),
      )
      refl

-- The decimal digits of an `int`, behind a minus sign where it is negative.
abbrev pub IsDecimal : ℕ → List ℕ → Type 0
IsDecimal x cs =
    (negative x ≡ false → number_of 10 cs 0 ≡ x)
    × (negative x ≡ true → (ds : List ℕ) × (cs ≡ b'-' ∷ ds) × (number_of 10 ds 0 ≡ 4294967296 - x))

put_signed-IsDecimal :
    (args : ℕ → ℕ) (next : ℕ)
    → args next < 4294967296
    → IsDecimal (args next) (put_signed initial_spec (getint args next 0).0)
unfolding put_signed put_number getint
put_signed-IsDecimal args next small = (
  (λ plus.
      let low : leb (2 ^ 63) (args next) ≡ false = ground arith in
      rw (plus, low) (printnum_lem (args next) 10 b' ' (omega arith) (omega arith) (omega arith))),
  λ minus.
      let x : ℕ = args next in
      let high : leb (2 ^ 63) (x + 0xffffffff00000000) ≡ true = ground arith in
      let size : 2 ^ 64 - (x + 0xffffffff00000000) ≡ 4294967296 - x = omega arith in
      rw (minus, high, size)
        (
          printnum (4294967296 - x) 10 0 b' ',
          refl,
          printnum_lem (4294967296 - x) 10 b' ' (omega arith) (omega arith) (omega arith),
        ),
)

-- The format "%d" prints the argument in decimal.
pub vprintfmt-IsDecimal :
    (mem : Memory) (args : ℕ → ℕ) (fuel fmt next : ℕ)
    → mem fmt ≡ 37
    → mem (fmt + 1) ≡ b'd'
    → mem (fmt + 2) ≡ 0
    → args next < 4294967296
    → (cs : List ℕ) × (vprintfmt mem args (suc (suc fuel)) fmt next ≡ some cs)
      × IsDecimal (args next) cs
unfolding vprintfmt escape convert
vprintfmt-IsDecimal mem args fuel fmt next e₀ e₁ e₂ small =
    let two : fmt + 1 + 1 ≡ fmt + 2 = omega arith in
    let cs : List ℕ = put_signed initial_spec (getint args next 0).0 in
    (cs, rw (e₀, e₁, two, e₂) (ap some (append-nil cs)), put_signed-IsDecimal args next small)
