-- ===== src/Processors/Pointer.antt =====
-- Where `mpsearch1` of kern/mpconfig.c finds the table's pointer.
use cs3510_operating_systems.Common.{
  ℕ, Option, arith, none, zero, true, some, suc, false, ◌+◌, ◌*◌, ◌<◌, ◌≡◌, Bool-cases, inl, inr,
  refl, ◌/◌,
}
use mathlib.Core.Path.{subst}
use cs3510_operating_systems.Str.Block.{Memory}
use cs3510_operating_systems.Processors.{is_mp, find_mp, mpsearch1, kaddr_ok, u32}

module _ (npages : ℕ) (mem : Memory) where
  -- The place found is the first that has the signature and the checksum.
  abbrev pub IsFirstMp : (a n : ℕ) → Option ℕ → Type 0
  IsFirstMp a n none = (i : ℕ) → i < n → is_mp npages mem (a + 16 * i) ≡ false
  IsFirstMp a n (some mp) =
      (i : ℕ) × (i < n)
      × (mp ≡ a + 16 * i)
      × (is_mp npages mem mp ≡ true)
      × ((j : ℕ) → j < i → is_mp npages mem (a + 16 * j) ≡ false)

  not_next :
      (a : ℕ)
      → is_mp npages mem a ≡ false
      → (i : ℕ) → ((j : ℕ) → j < i → is_mp npages mem (a + 16 + 16 * j) ≡ false)
      → (j : ℕ) → j < suc i
      → is_mp npages mem (a + 16 * j) ≡ false
  not_next a e i before zero b =
      let place : a ≡ a + 16 * 0 = omega arith in subst (λ x. is_mp npages mem x ≡ false) place e
  not_next a e i before (suc j) b =
      let place : a + 16 + 16 * j ≡ a + 16 * suc j = omega arith in
      subst (λ x. is_mp npages mem x ≡ false) place (before j (omega arith))

  IsFirstMp-suc :
      (a : ℕ)
      → is_mp npages mem a ≡ false
      → (n : ℕ) → (found : Option ℕ) → IsFirstMp (a + 16) n found
      → IsFirstMp a (suc n) found
  IsFirstMp-suc a e n none before = not_next a e n before
  IsFirstMp-suc a e n (some mp) (i, b, place, holds, before) =
      (suc i, omega arith, omega arith, holds, not_next a e i before)

  find_mp-IsFirstMp : (n a : ℕ) → IsFirstMp a n (find_mp npages mem n a)
  unfolding find_mp
  find_mp-IsFirstMp zero a = λ i b. absurd (omega arith)
  find_mp-IsFirstMp (suc n) a = elim (Bool-cases (is_mp npages mem a)) [
    | inl e ↦ rw e (0, omega arith, omega arith, e, λ j b. absurd (omega arith))
    | inr e ↦ rw e (IsFirstMp-suc a e n _ (find_mp-IsFirstMp n (a + 16)))
  ]

  -- Where both ends are addresses that `KADDR` takes, the search gives the first place.
  pub mpsearch1_lem :
      (a len : ℕ)
      → kaddr_ok npages mem a ≡ true
      → kaddr_ok npages mem (u32 (a + len)) ≡ true
      → (found : Option ℕ) × (mpsearch1 npages mem a len ≡ some found)
        × IsFirstMp a ((len + 15) / 16) found
  unfolding mpsearch1
  mpsearch1_lem a len low high = (
    find_mp npages mem ((len + 15) / 16) a,
    rw (low, high) refl,
    find_mp-IsFirstMp ((len + 15) / 16) a,
  )
