-- ===== src/Pmap/Entry/Early.antt =====
-- What the first page directory maps.
use cs3510_operating_systems.Common.{
  bit_or, bit_and-one, bit_or-zero, ℕ, bit_or-mod_two, true, arith, ◌^◌, ◌+◌, ◌*◌, ◌/◌, ◌%◌, ◌≤◌,
  ◌<◌, ◌≡◌, ◌∙◌, ◌⊎◌, ◌↔◌,
}
use cs3510_operating_systems.Layout.{pte_p, kernbase, flag, pdx, ptx, pgoff, pte_addr}
use cs3510_operating_systems.Layout.Laws.{bit_or-div_page}
use cs3510_operating_systems.Pmap.Entry.{entry_pgtable, entry_pgdir}

-- The two windows of four megabytes.
abbrev pub IsEarly : ℕ → Type 0
IsEarly va = (va < 4194304) ⊎ ((kernbase ≤ va) × (va < kernbase + 4194304))

flag-pte_p : (x : ℕ) → (flag x pte_p ≡ true) ↔ (x % 2 ≡ 1)
flag-pte_p x = ((λ h. ground (arith, bit_and-one x)), λ h. ground (arith, bit_and-one x))

entry_page : (i : ℕ) → pte_addr (entry_pgtable i) ≡ i * 4096
unfolding pte_addr entry_pgtable
entry_page i =
    let e : bit_or (bit_or (i * 0x1000) 1) 2 / 4096 ≡ i =
      bit_or-div_page (bit_or (i * 4096) 1) 2
      ∙ bit_or-zero (bit_or (i * 4096) 1 / 4096)
      ∙ bit_or-div_page (i * 4096) 1
      ∙ bit_or-zero (i * 4096 / 4096)
      ∙ omega arith in
    omega (arith, e)

entry_odd : (i : ℕ) → entry_pgtable i % 2 ≡ 1
unfolding entry_pgtable
entry_odd i = omega (arith, bit_or-mod_two (bit_or (i * 4096) 1) 2, bit_or-mod_two (i * 4096) 1)

-- With the table on a page boundary, the directory has an entry exactly for the first four megabytes
-- and those from `KERNBASE` on. For these it leads to the table, whose entry is present and maps the
-- address to its offset in the four megabytes.
pub entry_pgdir_lem :
    (table va : ℕ)
    → table % 4096 ≡ 0
    → va < 4294967296
    → ((flag (entry_pgdir table (pdx va)) pte_p ≡ true) ↔ IsEarly va)
      × (IsEarly va
          → (pte_addr (entry_pgdir table (pdx va)) ≡ table)
            × (flag (entry_pgtable (ptx va)) pte_p ≡ true)
            × (pte_addr (entry_pgtable (ptx va)) + pgoff va ≡ va % 4194304))
unfolding entry_pgdir pdx ptx pgoff pte_addr
entry_pgdir_lem table va aligned small =
    let i : ℕ = va / 2 ^ 22 % 2 ^ 10 in
    let (to, from) = flag-pte_p (entry_pgdir table i) in
    (
      ((λ h. ground (arith, to h)), λ h. from (ground arith)),
      λ h. (
        ground arith,
        (flag-pte_p (entry_pgtable (va / 2 ^ 12 % 2 ^ 10))).1 (entry_odd (va / 2 ^ 12 % 2 ^ 10)),
        omega (arith, entry_page (va / 2 ^ 12 % 2 ^ 10)),
      ),
    )
