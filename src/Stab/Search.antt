-- ===== src/Stab/Search.antt =====
-- `stab_binsearch` on a table whose entries of the type are in order.
use cs3510_operating_systems.Common.{
  zero, leb, some, arith, Option-cases, ap, ltb, true, Bool, ==_refl, suc, Bool-cases, gt→leb, inl,
  ℕ, false, refl, inr, ne→==, ◌+◌, ◌-◌, ◌*◌, ◌≤◌, ◌<◌, ◌≡◌, ◌∙◌, ◌==◌, ◌⊎◌, if◌then◌else◌,
}
use cs3510_operating_systems.Stab.{
  Stab, Region, scan_back, of_type, middle, search_loop, close_region, stab_binsearch, close_found,
}
use cs3510_operating_systems.Layout.{u32}
use cs3510_operating_systems.Stab.Scan.{scan_back-none, scan_back-some, Highest}
use cs3510_operating_systems.Stab.Round.{
  IsLastBefore, Inv, none-Inv, less-Inv, greater-Inv, equal-now, equal-Inv,
}

module _ (stabs : ℕ → Stab) (type first count addr j : ℕ)
    (h : IsLastBefore stabs type first count addr j) where
  abbrev Here : ℕ → ℕ → Region → Type 0
  Here = Inv stabs type first count addr j h

  -- The rounds that are left, at most: two for each index, and one before an exact match.
  abbrev rounds : ℕ → ℕ → Region → ℕ
  rounds l now g = 2 * (g.right - l) + (if now == addr then 1 else 0)

  Found : Region → Type 0
  Found g = (l : ℕ) × (now : ℕ) × Here l now g × (g.right ≤ l)

  search_loop-Found :
      (fuel l now : ℕ) (g : Region)
      → Here l now g
      → rounds l now g ≤ fuel
      → 0 < fuel
      → (g' : Region) × (search_loop stabs type fuel l now g ≡ some g') × Found g'
  unfolding search_loop Found
  search_loop-Found zero l now g inv enough positive = absurd (omega arith)
  search_loop-Found (suc fuel) l now g inv enough positive =
      let n : ℕ = middle stabs type l g.right + 1 - l in
      elim (Bool-cases (ltb l g.right)) [
        | inr over ↦ rw over (g, refl, (l, now, inv, ground arith))
        | inl on ↦
            let going : l < g.right = ground arith in
            elim (Option-cases (scan_back (of_type stabs type) l n)) [
              | inl e ↦
                  rw (on, e)
                    (search_loop-Found fuel (middle stabs type l g.right + 1) now g
                      (none-Inv stabs type first count addr j h l now 0 g inv going e) (omega arith)
                      (omega arith))
              | inr (m, e) ↦
                  let highest : Highest (of_type stabs type) l n m =
                    scan_back-some (of_type stabs type) l n m e in
                  elim (Bool-cases (ltb (stabs m).n_value now)) [
                    | inl less ↦
                        rw (on, e, less)
                          (search_loop-Found fuel (middle stabs type l g.right + 1) now
                            (record g { left = m; any_matches = true })
                            (less-Inv stabs type first count addr j h l now m g inv going highest
                              (ground arith))
                            (omega arith) (omega arith))
                    | inr up ↦ elim (Bool-cases (ltb now (stabs m).n_value)) [
                      | inl greater ↦
                          rw (on, e, up, greater)
                            (search_loop-Found fuel l now
                              (record g { right = m; any_matches = true })
                              (greater-Inv stabs type first count addr j h l now m g inv going
                                highest (ground arith))
                              (omega (arith, highest.low, highest.high)) (omega arith))
                      | inr exact ↦
                          let equal : (stabs m).n_value ≡ now = ground arith in
                          let (now_addr, _) =
                            equal-now stabs type first count addr j h l now m g inv going highest
                              equal in
                          let advanced : (u32 (now + 1) == addr) ≡ false =
                            ne→== _ _ (λ z. omega (arith, now_addr, h.fits)) in
                          let first_time : (now == addr) ≡ true = ground (arith, now_addr) in
                          let enough' : 2 * (g.right - l) + 1 ≤ suc fuel =
                            rw first_time at enough in
                          rw (on, e, up, exact)
                            (search_loop-Found fuel m (u32 (now + 1))
                              (record g { left = m; any_matches = true })
                              (equal-Inv stabs type first count addr j h l now m g inv going highest
                                equal)
                              (rw advanced (omega (arith, highest.low, enough')))
                              (omega (arith, enough')))
                    ]
                  ]
            ]
      ]

close_region-last :
    (stabs : ℕ → Stab) (type j : ℕ) (g : Region)
    → g.any_matches ≡ true
    → g.left ≤ j
    → j < g.right
    → of_type stabs type j ≡ true
    → ((k : ℕ) → j < k → k < g.right → of_type stabs type k ≡ false)
    → close_region stabs type g ≡ (j + 1, g.right)
unfolding close_region
close_region-last stabs type j g matched low high typed clear =
    let passes : ℕ → Bool = of_type stabs type in
    let n : ℕ = g.right - (g.left + 1) in
    let open_region : leb g.right g.left ≡ false = gt→leb _ _ (omega arith) in
    elim (Option-cases (scan_back passes (g.left + 1) n)) [
      | inl e ↦ elim (Bool-cases (g.left == j)) [
        | inl at ↦
            let here : g.left + 1 ≡ j + 1 = ground arith in rw (matched, open_region, e, here) refl
        | inr other ↦ absurd (
            ground
              (arith, typed, scan_back-none passes (g.left + 1) n j e (ground arith) (omega arith)))
      ]
      | inr (m, e) ↦
          let highest : Highest passes (g.left + 1) n m =
            scan_back-some passes (g.left + 1) n m e in
          let here : m + 1 ≡ j + 1 = elim (Bool-cases (m == j)) [
            | inl at ↦ ground arith
            | inr other ↦ elim (Bool-cases (ltb m j)) [
              | inl below ↦
                  absurd (ground (arith, typed, highest.last j (ground arith) (omega arith)))
              | inr above ↦ absurd (
                  ground
                    (arith, highest.passed, clear m (ground arith) (omega (arith, highest.high))))
            ]
          ] in
          rw (matched, open_region, e, here) refl
    ]

-- With the entries of the type at least two addresses apart, `stab_binsearch` ends, within the fuel it
-- is given, and finds the last of them that does not lie behind the address; the region ends before
-- the next entry of the type, or with the table.
pub stab_binsearch-brackets :
    (stabs : ℕ → Stab) (type first count addr j : ℕ)
    → IsLastBefore stabs type first count addr j
    → (right : ℕ) × (stab_binsearch stabs type first count addr ≡ some (j + 1, right))
      × (j < right)
      × (right ≤ count)
      × ((right ≡ count) ⊎ (of_type stabs type right ≡ true))
      × ((k : ℕ) → j < k → k < right → of_type stabs type k ≡ false)
unfolding stab_binsearch Found
stab_binsearch-brackets stabs type first count addr j h =
    let g₀ : Region = record { left = first; right = count; any_matches = false } in
    let start : Inv stabs type first count addr j h first addr g₀ = record {
      from = omega arith;
      left_low = omega arith;
      left_high = h.low;
      right_low = h.high;
      right_high = omega arith;
      right_end = inl refl;
      behind = λ k low high typed. absurd (omega arith);
      unmatched = λ clean k low high. absurd (omega arith);
      current = inl refl;
    } in
    let (g, done, (l, now, inv, over)) =
      search_loop-Found stabs type first count addr j h (2 * (count - first) + 1) first addr g₀
        start (rw (==_refl addr) (omega arith)) (omega arith) in
    let clear : (k : ℕ) → j < k → k < g.right → of_type stabs type k ≡ false = λ k above below.
      elim (Bool-cases (of_type stabs type k)) [
        | inl typed ↦
            absurd (omega (arith, h.low, inv.behind k (omega (arith, h.low)) (omega arith) typed))
        | inr untyped ↦ untyped
      ] in
    let matched : g.any_matches ≡ true = elim (Bool-cases g.any_matches) [
      | inl yes_any ↦ yes_any
      | inr clean ↦
          absurd
            (ground (arith, inv.unmatched clean j h.low (omega (arith, inv.right_low)), h.typed))
    ] in
    let closed =
      close_region-last stabs type j g matched inv.left_high inv.right_low h.typed clear in
    (
      g.right,
      ap (close_found stabs type) done ∙ ap some closed,
      inv.right_low,
      inv.right_high,
      inv.right_end,
      clear,
    )
