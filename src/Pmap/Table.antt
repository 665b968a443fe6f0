-- ===== src/Pmap/Table.antt =====
-- The two-level page tables of kern/pmap.c: walking, looking up, mapping and unmapping.
pub mod Mapping
pub mod Insert
use cs3510_operating_systems.Common.{
  ℕ, Option, some, bit_or, Bool, false, ◌∷◌, if◌then◌else◌, true, same, none,
}
use cs3510_operating_systems.Layout.{pte_p, pte_w, pte_u, flag, pgnum, pdx, ptx, pte_addr, make_pte}
use cs3510_operating_systems.State.{
  Kernel, ok, M, pure, ◌>>=◌, ◌>>◌, gets, fail, no_mem, Ret, ret, err, modify,
}
use cs3510_operating_systems.Pmap.Page.{
  PtePtr, load, store, page_alloc, page_incref, page_decref, page2pa, pa2page, kaddr,
}

abbrev pub pte_ptr : ℕ → ℕ → PtePtr
pte_ptr t i = record { table = t; index = i }

-- The entry for `va` in the table that a present directory entry points to.
unfoldable pub table_entry : PtePtr → ℕ → M (Option PtePtr)
unfolding kaddr pte_addr pgnum ptx
table_entry pde va = do
  entry ← load pde
  pgtable ← kaddr (pte_addr entry)
  pure (some (pte_ptr (pgnum pgtable) (ptx va)))

-- What `pgdir_walk` writes into the directory for a fresh table.
unfoldable pub make_pde : ℕ → ℕ
make_pde pa = bit_or (bit_or (bit_or pa pte_p) pte_u) pte_w

unfoldable pub new_table : PtePtr → ℕ → M (Option PtePtr)
unfolding page_alloc page_incref make_pde table_entry page2pa
new_table pde va = do
  got ← page_alloc 1
  elim got [
    | none ↦ pure none
    | some pp ↦ (do page_incref pp; store pde (make_pde (page2pa pp)); table_entry pde va)
  ]

-- `pgdir` is NULL only for an environment that was freed: an access through it is a fault.
unfoldable pub pgdir_walk : Option ℕ → ℕ → Bool → M (Option PtePtr)
unfolding table_entry new_table pdx
pgdir_walk none va create = fail
pgdir_walk (some pgdir) va create = do
  entry ← load (pte_ptr pgdir (pdx va))
  if flag entry pte_p
      then table_entry (pte_ptr pgdir (pdx va)) va
      else if create
      then new_table (pte_ptr pgdir (pdx va)) va
      else pure none

-- The page, and what goes to `*pte_store`.
unfoldable pub page_lookup : Option ℕ → ℕ → M (Option ℕ × Option PtePtr)
unfolding pgdir_walk pa2page pte_addr
page_lookup pgdir va = do
  found ← pgdir_walk pgdir va false
  elim found [
    | none ↦ pure (none, none)
    | some pte ↦ (do
      entry ← load pte
      if flag entry pte_p
          then (do pp ← pa2page (pte_addr entry); pure (some pp, some pte))
          else pure (none, some pte))
  ]

-- `!curenv || curenv->env_pgdir == pgdir`: whether the tables edited are those in use.
abbrev pub in_use : Option ℕ → Kernel → Bool
in_use pgdir k = elim k.curenv [ none ↦ true | some e ↦ same (k.envs e).env_pgdir pgdir ]

unfoldable pub tlb_invalidate : Option ℕ → ℕ → M (Unit {0})
tlb_invalidate pgdir va =
    modify (λ k. record k { invlpg = if in_use pgdir k then va ∷ k.invlpg else k.invlpg })

unfoldable pub clear_pte : Option ℕ → ℕ → M (Unit {0})
unfolding pgdir_walk
clear_pte pgdir va = do
  found ← pgdir_walk pgdir va false
  elim found [ none ↦ pure tt | some pte ↦ store pte 0 ]

unfoldable pub page_remove : Option ℕ → ℕ → M (Unit {0})
unfolding page_lookup page_decref clear_pte tlb_invalidate
page_remove pgdir va = do
  (page, _) ← page_lookup pgdir va
  elim page [
    | none ↦ pure tt
    | some pp ↦ (do page_decref pp; clear_pte pgdir va; tlb_invalidate pgdir va)
  ]

-- A page that `page_remove` has just put back on the free list is taken off it again.
unfoldable pub reclaim : ℕ → M (Option ℕ)
unfolding page_alloc
reclaim pp = do
  head ← gets Kernel.page_free_list
  if same head (some pp) then page_alloc 0 else pure (some pp)

unfoldable pub set_pte : PtePtr → ℕ → ℕ → M Ret
unfolding page_incref make_pte page2pa
set_pte pte pp perm = do store pte (make_pte (page2pa pp) perm); page_incref pp; pure (ret 0)

unfoldable pub page_insert : Option ℕ → ℕ → ℕ → ℕ → M Ret
unfolding pgdir_walk page_remove reclaim set_pte
page_insert pgdir pp va perm = do
  found ← pgdir_walk pgdir va true
  elim found [
    | none ↦ pure (err no_mem)
    | some pte ↦ (do
      page_remove pgdir va
      kept ← reclaim pp
      elim kept [ none ↦ fail | some pp' ↦ set_pte pte pp' perm ])
  ]
