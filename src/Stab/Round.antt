-- ===== src/Stab/Round.antt =====
-- What one round of the search keeps.
use cs3510_operating_systems.Common.{
  arith, ap, ltb, true, sym, Bool-cases, inl, ℕ, none, false, inr, ◌+◌, ◌-◌, ◌/◌, ◌≤◌, ◌<◌, ◌≡◌,
  ◌∙◌, ◌==◌, ◌⊎◌,
}
use cs3510_operating_systems.Stab.{Stab, Region, scan_back, of_type, middle}
use cs3510_operating_systems.Layout.{u32}
use cs3510_operating_systems.Stab.Scan.{scan_back-none, Highest}

-- The entries of the type from `first` to before `count` lie two addresses apart at least, and j is the
-- last of them that does not lie behind `addr`.
pub record IsLastBefore (stabs : ℕ → Stab) (type first count addr j : ℕ) : Type 0 where
  pub fits : addr < 4294967295
  pub spaced :
      (i k : ℕ)
      → first ≤ i
      → i < k
      → k < count
      → of_type stabs type i ≡ true
      → of_type stabs type k ≡ true
      → (stabs i).n_value + 2 ≤ (stabs k).n_value
  pub low : first ≤ j
  pub high : j < count
  pub typed : of_type stabs type j ≡ true
  pub before : (stabs j).n_value ≤ addr
  pub after : (k : ℕ) → j < k → k < count → of_type stabs type k ≡ true → addr < (stabs k).n_value

module _ (stabs : ℕ → Stab) (type first count addr j : ℕ)
    (h : IsLastBefore stabs type first count addr j) where
  pub record Inv (l now : ℕ) (g : Region) : Type 0 where
    pub from : first ≤ l
    pub left_low : first ≤ g.left
    pub left_high : g.left ≤ j
    pub right_low : j < g.right
    pub right_high : g.right ≤ count
    pub right_end : (g.right ≡ count) ⊎ (of_type stabs type g.right ≡ true)
    pub behind : (k : ℕ) → first ≤ k → k < l → of_type stabs type k ≡ true → k ≤ j
    pub unmatched :
        g.any_matches ≡ false → (k : ℕ) → first ≤ k → k < l → of_type stabs type k ≡ false
    pub current : (now ≡ addr) ⊎ ((now ≡ addr + 1) × ((stabs j).n_value ≡ addr))

  -- An entry of the type up to j is not behind the address, and the others are.
  up_to_j : (m : ℕ) → first ≤ m → m ≤ j → of_type stabs type m ≡ true → (stabs m).n_value ≤ addr
  up_to_j m low high typed = elim (Bool-cases (m == j)) [
    | inl at ↦ let e : m ≡ j = ground arith in rw e h.before
    | inr other ↦ omega (arith, h.spaced m j low (ground arith) h.high typed h.typed, h.before)
  ]

  module _ (l now m : ℕ) (g : Region) (inv : Inv l now g) (going : l < g.right) where
    -- The round in which there is no entry of the type up to the middle.
    pub none-Inv :
        scan_back (of_type stabs type) l (middle stabs type l g.right + 1 - l) ≡ none
        → Inv (middle stabs type l g.right + 1) now g
    none-Inv e =
        let x : ℕ = (l + (g.right - 1)) / 2 in
        let here : (k : ℕ) → l ≤ k → k < x + 1 → of_type stabs type k ≡ false =
          λ k low high. scan_back-none (of_type stabs type) l (x + 1 - l) k e low (omega arith) in
        record {
          from = omega (arith, inv.from);
          left_low = inv.left_low;
          left_high = inv.left_high;
          right_low = inv.right_low;
          right_high = inv.right_high;
          right_end = inv.right_end;
          behind = λ k low high typed. elim (Bool-cases (ltb k l)) [
            | inl old ↦ inv.behind k low (ground arith) typed
            | inr new ↦ absurd (ground (arith, here k))
          ];
          unmatched = λ clean k low high. elim (Bool-cases (ltb k l)) [
            | inl old ↦ inv.unmatched clean k low (ground arith)
            | inr new ↦ here k (ground arith) high
          ];
          current = inv.current;
        }

    module _
        (highest : Highest (of_type stabs type) l (middle stabs type l g.right + 1 - l) m) where
      pub less-Inv :
          (stabs m).n_value < now
          → Inv (middle stabs type l g.right + 1) now (record g { left = m; any_matches = true })
      less-Inv less =
          let x : ℕ = (l + (g.right - 1)) / 2 in
          let low_m : first ≤ m = omega (arith, inv.from, highest.low) in
          let high_m : m < count = omega (arith, highest.high, inv.right_high) in
          let before_j : m ≤ j = elim (Bool-cases (ltb j m)) [
            | inl above ↦
                absurd (ground (arith, h.after m (ground arith) high_m highest.passed, inv.current))
            | inr below ↦ ground arith
          ] in
          record {
            from = omega (arith, inv.from);
            left_low = low_m;
            left_high = before_j;
            right_low = inv.right_low;
            right_high = inv.right_high;
            right_end = inv.right_end;
            behind = λ k low high typed. elim (Bool-cases (ltb m k)) [
              | inl above ↦ absurd (ground (arith, highest.last k (ground arith) (omega arith)))
              | inr below ↦ ground (arith, before_j)
            ];
            unmatched = λ clean. absurd (ground arith);
            current = inv.current;
          }

      pub greater-Inv :
          now < (stabs m).n_value → Inv l now (record g { right = m; any_matches = true })
      greater-Inv greater =
          let low_m : first ≤ m = omega (arith, inv.from, highest.low) in
          record {
            from = inv.from;
            left_low = inv.left_low;
            left_high = inv.left_high;
            right_low = elim (Bool-cases (ltb j m)) [
              | inl above ↦ ground arith
              | inr below ↦
                  absurd
                    (ground (arith, up_to_j m low_m (ground arith) highest.passed, inv.current))
            ];
            right_high = omega (arith, highest.high, inv.right_high);
            right_end = inr highest.passed;
            behind = inv.behind;
            unmatched = λ clean. absurd (ground arith);
            current = inv.current;
          }

      -- An exact match is entry j, and is found before the address is advanced.
      pub equal-now : (stabs m).n_value ≡ now → (now ≡ addr) × (m ≡ j)
      equal-now equal =
          let low_m : first ≤ m = omega (arith, inv.from, highest.low) in
          let high_m : m < count = omega (arith, highest.high, inv.right_high) in
          elim (Bool-cases (ltb j m)) [
            | inl above ↦ absurd (
                ground (
                  arith,
                  h.after m (ground arith) high_m highest.passed,
                  h.spaced j m h.low (ground arith) high_m h.typed highest.passed,
                  inv.current,
                ))
            | inr below ↦ elim (Bool-cases (m == j)) [
              | inl at ↦
                  let e : m ≡ j = ground arith in
                  (ground (arith, up_to_j m low_m (ground arith) highest.passed, inv.current), e)
              | inr other ↦ absurd (
                  ground (
                    arith,
                    h.spaced m j low_m (ground arith) h.high highest.passed h.typed,
                    h.before,
                    inv.current,
                  ))
            ]
          ]

      pub equal-Inv :
          (stabs m).n_value ≡ now
          → Inv m (u32 (now + 1)) (record g { left = m; any_matches = true })
      equal-Inv equal =
          let (now_addr, at) = equal-now equal in
          let low_m : first ≤ m = omega (arith, inv.from, highest.low) in
          record {
            from = low_m;
            left_low = low_m;
            left_high = omega (arith, at);
            right_low = inv.right_low;
            right_high = inv.right_high;
            right_end = inv.right_end;
            behind = λ k low high typed. omega (arith, at);
            unmatched = λ clean. absurd (ground arith);
            current = inr (
              omega (arith, now_addr, h.fits),
              ap (λ i. (stabs i).n_value) (sym at) ∙ equal ∙ now_addr,
            );
          }
