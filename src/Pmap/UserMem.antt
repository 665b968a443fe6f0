-- ===== src/Pmap/UserMem.antt =====
-- `user_mem_check` of kern/pmap.c.
pub mod Range
pub mod Granted
use cs3510_operating_systems.Common.{
  ℕ, Option, Bool, if◌then◌else◌, ◌+◌, false, leb, ◌-◌, ltb, ◌/◌, zero, bit_or, suc, none, some,
}
use cs3510_operating_systems.Layout.{u32, flag, pgsize, pte_p, ulim, rounddown}
use cs3510_operating_systems.State.{ok, hang, M, pure, ◌>>=◌, fault, Ret, ret, err}
use cs3510_operating_systems.Pmap.Page.{load}
use cs3510_operating_systems.Pmap.Table.{pgdir_walk}

-- Set `user_mem_check_addr` and return the error.
unfoldable pub reject : ℕ → M Ret
reject addr k = ok (err fault) (record k { user_mem_check_addr = addr })

-- Whether the page at `lower` passes: `!((perm|PTE_P) & *page_table_entry)` rejects it.
unfoldable pub page_allows : Option ℕ → ℕ → ℕ → M Bool
unfolding pgdir_walk
page_allows pgdir lower perm = do
  found ← pgdir_walk pgdir lower false
  elim found [
    | none ↦ pure false
    | some pte ↦ (do entry ← load pte; pure (flag (bit_or perm pte_p) entry))
  ]

-- The test behind the loop.
unfoldable pub check_limit : ℕ → ℕ → M Ret
unfolding reject
check_limit va len =
    if leb ulim (u32 (va + len)) then reject (if ltb va ulim then ulim else va) else pure (ret 0)

-- The do-while loop, a round of which has passed `lower` if it goes on.
unfoldable pub check_loop : Option ℕ → ℕ → ℕ → ℕ → ℕ → ℕ → ℕ → M Ret
unfolding page_allows check_limit reject
check_loop pgdir va len perm upper zero lower = λ _. hang
check_loop pgdir va len perm upper (suc fuel) lower =
    let rest = check_loop pgdir va len perm upper fuel (u32 (lower + pgsize)) in
    do
      allowed ← page_allows pgdir lower perm
      if allowed
          then (if ltb (u32 (lower + pgsize)) upper then rest else check_limit va len)
          else reject (if ltb va lower then lower else va)

-- One round more than the address space has pages: the loop may pass the end of it once.
abbrev pub address_space_pages : ℕ
address_space_pages = 1048576

unfoldable pub user_mem_check : ℕ → ℕ → ℕ → ℕ → M Ret
unfolding rounddown
user_mem_check env va len perm k =
    let upper : ℕ = rounddown (u32 (va + len)) pgsize in
    let lower : ℕ = rounddown va pgsize in
    check_loop (k.envs env).env_pgdir va len perm upper (suc address_space_pages) lower k
