-- ===== src/Stab.antt =====
-- kern/kdebug.c: the search of the symbol table. A right end, and the left end that the search
-- returns, are kept one higher than in the source, so that -1 is 0.
pub mod Scan
pub mod Round
pub mod Search
pub mod Info
use cs3510_operating_systems.Common.{
  none, Option, zero, suc, true, ℕ, some, false, Bool, ltb, ◌+◌, ◌-◌, ◌*◌, ◌/◌, ◌==◌, if◌then◌else◌,
  leb,
}
use cs3510_operating_systems.Layout.{u32}

-- `struct Stab`, less the field that nothing reads.
pub record Stab : Type 0 where
  pub n_strx : ℕ
  pub n_type : ℕ
  pub n_desc : ℕ
  pub n_value : ℕ

-- The highest index that passes of the n ones from l on: `while (m >= l && ...) m--`.
unfoldable pub scan_back : (ℕ → Bool) → ℕ → ℕ → Option ℕ
scan_back passes l zero = none
scan_back passes l (suc n) =
    let rest = scan_back passes l n in if passes (l + n) then some (l + n) else rest

pub record Region : Type 0 where
  pub left : ℕ
  pub right : ℕ
  pub any_matches : Bool

module _ (stabs : ℕ → Stab) (type : ℕ) where
  abbrev pub of_type : ℕ → Bool
  of_type i = (stabs i).n_type == type

  abbrev pub middle : ℕ → ℕ → ℕ
  middle l r = (l + (r - 1)) / 2

  -- The first loop: the region and where it searches, which goes from l up to before `right`.
  unfoldable pub search_loop : ℕ → ℕ → ℕ → Region → Option Region
  search_loop zero l addr g = none
  search_loop (suc fuel) l addr g =
      if ltb l g.right
      then elim (scan_back of_type l (middle l g.right + 1 - l)) [
        | none ↦ search_loop fuel (middle l g.right + 1) addr g
        | some m ↦ elim (ltb (stabs m).n_value addr) [
          | true ↦
              search_loop fuel (middle l g.right + 1) addr
                (record g { left = m; any_matches = true })
          | false ↦ elim (ltb addr (stabs m).n_value) [
            | true ↦ search_loop fuel l addr (record g { right = m; any_matches = true })
            | false ↦
                search_loop fuel m (u32 (addr + 1)) (record g { left = m; any_matches = true })
          ]
        ]
      ]
      else some g

  -- What follows the loop: the rightmost match in the region or its left end, and where the region
  -- ends. A region that was cut off before its start begins at its end, one before the start.
  unfoldable pub close_region : Region → ℕ × ℕ
  unfolding scan_back
  close_region g =
      if g.any_matches
      then (
        if leb g.right g.left
            then g.right
            else elim (scan_back of_type (g.left + 1) (g.right - (g.left + 1))) [
              | none ↦ g.left + 1
              | some l ↦ l + 1
            ],
        g.right,
      )
      else (g.left + 1, g.left)

  abbrev pub close_found : Option Region → Option (ℕ × ℕ)
  close_found none = none
  close_found (some g) = some (close_region g)

  -- Every round but one after an exact match narrows the region, so twice its size is enough.
  unfoldable pub stab_binsearch : ℕ → ℕ → ℕ → Option (ℕ × ℕ)
  unfolding search_loop
  stab_binsearch left right addr = close_found (
      search_loop (2 * (right - left) + 1) left addr
        (record { left = left; right = right; any_matches = false }))
