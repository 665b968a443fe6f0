-- ===== src/Syscall/Pages.antt =====
-- The system calls of kern/syscall.c on pages.
pub mod Alloc
use cs3510_operating_systems.Common.{
  ℕ, true, some, bit_or, leb, none, not, ltb, Option, Bool, ◌^◌, ◌%◌, ◌==◌, ◌&&◌, ◌||◌,
  if◌then◌else◌,
}
use cs3510_operating_systems.Layout.{flag, pgsize, pte_p, pte_u, pte_w, pte_avail, utop}
use cs3510_operating_systems.State.{
  Env, Kernel, Run, ok, M, pure, ◌>>=◌, ◌>>◌, gets, modify, fail, Ret, ret, err, inval, no_mem,
}
use cs3510_operating_systems.Pmap.Page.{PtePtr, page_alloc, page_free, load}
use cs3510_operating_systems.Pmap.Table.{page_lookup, page_remove, page_insert}
use cs3510_operating_systems.Syscall.Envs.{with_env}

-- `((int)va)%PGSIZE>0`: the remainder of a negative `int` is not positive.
unfoldable pub misaligned : ℕ → Bool
misaligned va = ltb va (2 ^ 31) && ltb 0 (va % pgsize)

-- `(int)va>=UTOP || ((int)va)%PGSIZE>0`; `UTOP` is unsigned, and so is the comparison.
unfoldable pub bad_va : ℕ → Bool
unfolding misaligned
bad_va va = leb utop va || misaligned va

-- `!x`
abbrev pub c_not : ℕ → ℕ
c_not x = if x == 0 then 1 else 0

-- `int none = !(PTE_U|PTE_P|PTE_AVAIL|PTE_W)`
unfoldable pub none_mask : ℕ
none_mask = c_not (bit_or (bit_or (bit_or pte_u pte_p) pte_avail) pte_w)

unfoldable pub bad_perm : ℕ → Bool
unfolding none_mask
bad_perm perm = not (flag perm pte_u && (flag perm pte_p && not (flag perm none_mask)))

-- `if ((r = page_insert(e->env_pgdir, pp, va, perm)) < 0)`: give the page back.
abbrev pub inserted : ℕ → Ret → M Ret
inserted pp (err _) = do page_free pp; pure (err no_mem)
inserted pp (ret _) = pure (ret 0)

unfoldable pub insert_new : ℕ → ℕ → ℕ → Option ℕ → M Ret
insert_new pp va perm pgdir = page_insert pgdir pp va perm >>= inserted pp

abbrev pub after_page_alloc : ℕ → ℕ → ℕ → Option ℕ → M Ret
after_page_alloc e va perm none = pure (err no_mem)
after_page_alloc e va perm (some pp) = gets (λ k. (k.envs e).env_pgdir) >>= insert_new pp va perm

unfoldable pub alloc_at : ℕ → ℕ → ℕ → M Ret
alloc_at e va perm = page_alloc 0 >>= after_page_alloc e va perm

unfoldable pub sys_page_alloc : ℕ → ℕ → ℕ → M Ret
unfolding bad_va bad_perm alloc_at
sys_page_alloc envid va perm = with_env envid true λ e.
    if bad_va va
    then pure (err inval)
    else if bad_perm perm
    then pure (err inval)
    else alloc_at e va perm

-- `!((*page_table_entry)&PTE_W) && perm&PTE_W`
abbrev pub widens : ℕ → ℕ → Bool
widens entry perm = not (flag entry pte_w) && flag perm pte_w

-- Map into `pgdir` what `page_lookup` found.
unfoldable pub share_page : Option ℕ → ℕ → ℕ → Option ℕ × Option PtePtr → M Ret
share_page pgdir va perm (none, pte) = pure (err inval)
share_page pgdir va perm (some pp, none) = fail
share_page pgdir va perm (some pp, some pte) = do
  entry ← load pte
  if widens entry perm then pure (err inval) else (do
    r ← page_insert pgdir pp va perm
    elim r [ err _ ↦ pure (err no_mem) | ret _ ↦ pure (ret 0) ])

unfoldable pub map_between : ℕ → ℕ → ℕ → ℕ → ℕ → M Ret
unfolding share_page
map_between src srcva dst dstva perm = do
  from ← gets (λ k. (k.envs src).env_pgdir)
  found ← page_lookup from srcva
  to ← gets (λ k. (k.envs dst).env_pgdir)
  share_page to dstva perm found

unfoldable pub sys_page_map : ℕ → ℕ → ℕ → ℕ → ℕ → M Ret
unfolding bad_va bad_perm map_between
sys_page_map srcenvid srcva dstenvid dstva perm = with_env srcenvid true λ src.
    with_env dstenvid true λ dst.
      if bad_va srcva || bad_va dstva
      then pure (err inval)
      else if bad_perm perm
      then pure (err inval)
      else map_between src srcva dst dstva perm

unfoldable pub sys_page_unmap : ℕ → ℕ → M Ret
unfolding bad_va
sys_page_unmap envid va = with_env envid true λ e.
    if bad_va va
    then pure (err inval)
    else (do pgdir ← gets (λ k. (k.envs e).env_pgdir); page_remove pgdir va; pure (ret 0))
