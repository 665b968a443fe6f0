-- ===== src/Str/Number/Digits.antt =====
-- What `printnum` prints.
use native.Mathlib.Nat.{
  zero-mul, mul-le-mul_left, div-lt_iff_lt-mul, mod-lt, div-add-mod', mod-eq_of_lt,
}
use cs3510_operating_systems.Layout.Laws.{scaled}
use cs3510_operating_systems.Str.Number.{repeat_char}
use cs3510_operating_systems.Common.{
  zero, List, ℕ, ltb, refl, suc, arith, ◌+◌, ◌-◌, ◌*◌, ◌≤◌, ◌<◌, ◌≡◌, ◌++◌, ◌∷◌, if◌then◌else◌, [],
  inr, leb, ap, inl, Bool-cases, ◌/◌, ◌%◌, ◌∙◌,
}
use cs3510_operating_systems.Str.Number.{digit_char, padding, printnum_from, printnum}

-- The value of a printed digit, and of a list of them in a base, the first one first.
unfoldable pub char_value : ℕ → ℕ
char_value c = if ltb c 58 then c - 48 else c - 87

unfoldable pub number_of : ℕ → List ℕ → ℕ → ℕ
unfolding char_value
number_of base [] val = val
number_of base (c ∷ cs) val = number_of base cs (val * base + char_value c)

number_of-++ :
    (base : ℕ) (xs ys : List ℕ) (val : ℕ)
    → number_of base (xs ++ ys) val ≡ number_of base ys (number_of base xs val)
unfolding number_of
number_of-++ base [] ys val = refl
number_of-++ base (x ∷ xs) ys val = number_of-++ base xs ys (val * base + char_value x)

char_value-digit_char : (d : ℕ) → d < 16 → char_value (digit_char d) ≡ d
unfolding char_value digit_char
char_value-digit_char d small = ground arith

-- The number without its last digit fits in one binary digit less.
shorter : (fuel num base : ℕ) → 2 ≤ base → num < scaled (suc fuel) 1 → num / base < scaled fuel 1
shorter fuel num base two enough =
    let x : ℕ = scaled fuel 1 in
    (div-lt_iff_lt-mul (omega arith)).1 (omega (arith, mul-le-mul_left x two))

-- With no padding, the digits spell the number.
printnum_from_lem :
    (fuel num base padc : ℕ)
    → 2 ≤ base
    → base ≤ 16
    → num < scaled fuel 1
    → number_of base (printnum_from fuel num base 0 padc) 0 ≡ num
unfolding printnum_from number_of padding repeat_char
printnum_from_lem zero num base padc two small enough = omega arith
printnum_from_lem (suc fuel) num base padc two small enough =
    let positive : 0 < base = omega arith in
    let higher = printnum_from fuel (num / base) base 0 padc in
    let last : char_value (digit_char (num % base)) ≡ num % base =
      char_value-digit_char (num % base) (omega (arith, mod-lt num positive)) in
    let fits : num / base < scaled fuel 1 = shorter fuel num base two enough in
    let whole : num / base * base + num % base ≡ num = div-add-mod' num base in
    let split : number_of base (higher ++ (digit_char (num % base) ∷ [])) 0
        ≡ number_of base higher 0 * base + num % base =
      number_of-++ base higher (digit_char (num % base) ∷ []) 0
      ∙ ap (λ v. number_of base higher 0 * base + v) last in
    elim (Bool-cases (leb base num)) [
      | inl long ↦ rw long (
          split
          ∙ ap (λ v. v * base + num % base)
              (printnum_from_lem fuel (num / base) base padc two small fits)
          ∙ whole)
      | inr short ↦
          let one_digit : num % base ≡ num = mod-eq_of_lt (ground arith) in
          let nothing : 0 * base ≡ 0 = zero-mul base in
          rw short (rw (nothing, last) (omega (arith, one_digit)))
    ]

-- `printnum` with no width prints the digits of the number in the base: read back, they give it.
pub printnum_lem :
    (num base padc : ℕ)
    → num < 18446744073709551616
    → 2 ≤ base
    → base ≤ 16
    → number_of base (printnum num base 0 padc) 0 ≡ num
unfolding printnum
printnum_lem num base padc fits two small =
    printnum_from_lem 64 num base padc two small (omega arith)
