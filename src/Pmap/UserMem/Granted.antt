-- ===== src/Pmap/UserMem/Granted.antt =====
-- When `user_mem_check` of kern/pmap.c accepts a range, by what the page tables grant.
use cs3510_operating_systems.Common.{
  ℕ, Bool, false, bit_and, true, bit_or, ◌+◌, ◌*◌, ◌/◌, ◌≤◌, ◌<◌, ◌≡◌, ◌⊎◌,
}
use cs3510_operating_systems.Layout.{flag, pte_p, pdx}
use cs3510_operating_systems.State.{Kernel}
use cs3510_operating_systems.Pmap.Table.Mapping.{HasTable, entry_of}

module _ (d perm : ℕ) (k : Kernel) where
  -- The entry for address `a` has the bit for present and all bits of `perm`.
  pub record Grants (a : ℕ) : Type 0 where
    pub t : ℕ
    pub table : HasTable k d a t
    pub present : flag (entry_of k t a) pte_p ≡ true
    pub bits : bit_and (entry_of k t a) perm ≡ perm

  -- There is no table for address `a`, or its entry has neither the bit for present nor one of
  -- `perm`.
  abbrev pub Denies : ℕ → Type 0
  Denies a =
      (flag (k.word d (pdx a)) pte_p ≡ false)
      ⊎ ((t : ℕ) × HasTable k d a t × (flag (bit_or perm pte_p) (entry_of k t a) ≡ false))

  -- `granted` tells which of the two it is for each page that contains a byte of the range.
  abbrev pub Decides : (ℕ → Bool) → (va len : ℕ) → Type 0
  Decides granted va len =
      (b : ℕ)
      → va ≤ b
      → b < va + len
      → ((granted (b / 4096 * 4096) ≡ true) × Grants (b / 4096 * 4096))
        ⊎ ((granted (b / 4096 * 4096) ≡ false) × Denies (b / 4096 * 4096))
