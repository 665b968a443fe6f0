-- ===== src/Stab/Scan.antt =====
-- What `scan_back` finds.
use cs3510_operating_systems.Common.{
  zero, some, arith, true, Bool, suc, Bool-cases, inl, ℕ, none, false, inr, ◌+◌, ◌≤◌, ◌<◌, ◌≡◌,
  ◌==◌,
}
use cs3510_operating_systems.Stab.{scan_back}

-- What `scan_back` returns: the highest index that passes, or none if none does.
pub scan_back-none :
    (passes : ℕ → Bool) (l n i : ℕ)
    → scan_back passes l n ≡ none
    → l ≤ i
    → i < l + n
    → passes i ≡ false
unfolding scan_back
scan_back-none passes l zero i e low high = absurd (omega arith)
scan_back-none passes l (suc n) i e low high = elim (Bool-cases (passes (l + n))) [
  | inl yes_here ↦ absurd (ground arith)
  | inr not_here ↦ elim (Bool-cases (i == l + n)) [
    | inl last ↦ ground arith
    | inr below ↦ scan_back-none passes l n i (ground arith) low (ground arith)
  ]
]

pub record Highest (passes : ℕ → Bool) (l n m : ℕ) : Type 0 where
  pub low : l ≤ m
  pub high : m < l + n
  pub passed : passes m ≡ true
  pub last : (i : ℕ) → m < i → i < l + n → passes i ≡ false

pub scan_back-some :
    (passes : ℕ → Bool) (l n m : ℕ) → scan_back passes l n ≡ some m → Highest passes l n m
unfolding scan_back
scan_back-some passes l zero m e = absurd (ground arith)
scan_back-some passes l (suc n) m e = elim (Bool-cases (passes (l + n))) [
  | inl yes_here ↦
      let here : l + n ≡ m = ground arith in
      record {
        low = omega arith;
        high = omega arith;
        passed = rw (← here) yes_here;
        last = λ i above below. absurd (omega arith);
      }
  | inr not_here ↦
      let rest : Highest passes l n m = scan_back-some passes l n m (ground arith) in
      record {
        low = rest.low;
        high = omega (arith, rest.high);
        passed = rest.passed;
        last = λ i above below. elim (Bool-cases (i == l + n)) [
          | inl at ↦ ground arith
          | inr before ↦ rest.last i above (ground arith)
        ];
      }
]
