-- ===== src/Pmap/Boot.antt =====
-- Boot-time memory of kern/pmap.c: the bump allocator, the first free list, and the static mappings.
pub mod FirstList
pub mod Setup
pub mod Region
pub mod Stacks
use cs3510_operating_systems.Common.{
  ℕ, Option, if◌then◌else◌, update, Bool, ◌+◌, ◌-◌, ◌/◌, ◌==◌, some, ◌*◌, none, true, ltb, ◌^◌,
  false, bit_or, zero, suc,
}
use cs3510_operating_systems.Layout.{
  u32, pgsize, pte_pwt, pte_pcd, pte_w, mmiolim, mpentry_paddr, kernbase, roundup, make_pte,
}
use cs3510_operating_systems.State.{
  Kernel, ok, panic, hang, M, pure, ◌>>=◌, ◌>>◌, gets, modify, fail,
}
use cs3510_operating_systems.Pmap.Page.{store}
use cs3510_operating_systems.Pmap.Table.{pgdir_walk}

-- `end` is the linker's first address behind the kernel.
unfoldable pub boot_alloc : ℕ → ℕ → M ℕ
unfolding roundup
boot_alloc end n k =
    let start : ℕ = if k.nextfree == 0 then roundup end pgsize else k.nextfree in
    if n == 0
    then ok start (record k { nextfree = start })
    else ok start (record k { nextfree = roundup (u32 (start + n)) pgsize })

unfoldable pub free_boot_page : ℕ → Kernel → Kernel
free_boot_page i k = record k {
  pages = update k.pages i (record { pp_link = k.page_free_list; pp_ref = 0 });
  page_free_list = some i;
}

-- `n` rounds of a loop of `page_init`, from page `i`.
unfoldable pub free_range : (ℕ → Bool) → ℕ → ℕ → Kernel → Kernel
unfolding free_boot_page
free_range skip i zero k = k
free_range skip i (suc n) k = free_range skip (suc i) n (if skip i then k else free_boot_page i k)

-- `sizeof(struct Env)` and `NENV`.
abbrev pub sizeof_env : ℕ
sizeof_env = 124

abbrev pub nenv : ℕ
nenv = 1024

-- The first page that the second loop frees. The source adds the size in bytes to a pointer to
-- `struct Env`, so it is scaled by the size once more.
unfoldable pub low_page : ℕ → ℕ
unfolding roundup
low_page envs_va =
    (roundup (u32 (envs_va + nenv * sizeof_env * sizeof_env)) pgsize - kernbase) / pgsize

abbrev pub is_mpentry : ℕ → Bool
is_mpentry i = i == mpentry_paddr / 2 ^ 12

unfoldable pub page_init : ℕ → ℕ → M (Unit {0})
unfolding free_range low_page
page_init npages_basemem envs_va k =
    let k₁ : Kernel =
      free_range is_mpentry 1 (npages_basemem - 1) (record k { page_free_list = none }) in
    let low : ℕ = low_page envs_va in
    if ltb (roundup (u32 (envs_va + nenv * sizeof_env * sizeof_env)) pgsize) kernbase
    then panic
    else ok tt (free_range (λ _. false) low (k₁.npages - low) k₁)

-- One round of the loop of `boot_map_region`.
unfoldable pub map_page : Option ℕ → ℕ → ℕ → ℕ → ℕ → M (Unit {0})
unfolding pgdir_walk make_pte
map_page pgdir va pa perm offset = do
  found ← pgdir_walk pgdir (u32 (va + offset)) true
  elim found [ none ↦ fail | some pte ↦ store pte (make_pte (u32 (pa + offset)) perm) ]

unfoldable pub boot_map_loop : Option ℕ → ℕ → ℕ → ℕ → ℕ → ℕ → ℕ → M (Unit {0})
unfolding map_page
boot_map_loop pgdir va size pa perm zero offset = λ _. hang
boot_map_loop pgdir va size pa perm (suc fuel) offset =
    let rest = boot_map_loop pgdir va size pa perm fuel (u32 (offset + pgsize)) in
    if ltb offset size then map_page pgdir va pa perm offset >> rest else pure tt

unfoldable pub boot_map_region : Option ℕ → ℕ → ℕ → ℕ → ℕ → M (Unit {0})
unfolding boot_map_loop
boot_map_region pgdir va size pa perm = boot_map_loop pgdir va size pa perm (size / pgsize + 2) 0

unfoldable pub mmio_map_region : ℕ → ℕ → M ℕ
unfolding boot_map_region roundup
mmio_map_region pa size = do
  base ← gets Kernel.mmio_next
  kern_pgdir ← gets Kernel.kern_pgdir
  let rounded_size = roundup size pgsize
  modify (λ k. record k { mmio_next = u32 (base + rounded_size) })
  (if ltb mmiolim (u32 (base + rounded_size)) then fail else pure tt)
  boot_map_region kern_pgdir base rounded_size pa (bit_or (bit_or pte_pcd pte_pwt) pte_w)
  pure base
