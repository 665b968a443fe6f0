-- ===== src/Pmap/Entry.antt =====
-- The page directory that the kernel starts on: kern/entrypgdir.c.
pub mod Early
use cs3510_operating_systems.Common.{bit_or, ℕ, ◌^◌, ◌+◌, ◌*◌, ◌/◌, ◌==◌, if◌then◌else◌}
use cs3510_operating_systems.Layout.{pte_p, pte_w, kernbase}

-- The entries of `entry_pgtable`, which the source writes out one by one.
unfoldable pub entry_pgtable : ℕ → ℕ
entry_pgtable i = bit_or (bit_or (i * 0x1000) pte_p) pte_w

-- `table` is the physical address of `entry_pgtable`, which the linker settles.
unfoldable pub entry_pgdir : ℕ → ℕ → ℕ
entry_pgdir table i =
    if i == 0 then table + pte_p else if i == kernbase / 2 ^ 22 then table + pte_p + pte_w else 0
