-- ===== src/Pmap/Boot/Setup.antt =====
-- `mem_init` and `mem_init_mp` of kern/pmap.c, less the self tests between their parts.
use cs3510_operating_systems.Common.{
  ℕ, ltb, bit_or, zero, false, suc, some, none, ◌^◌, ◌+◌, ◌-◌, ◌*◌, ◌/◌, ◌!=◌, if◌then◌else◌,
}
use cs3510_operating_systems.Layout.{
  ncpu_max, u32, pgsize, pte_p, pte_u, pte_w, upages, uenvs, uvpt, kernbase, kstacktop, kstksize,
  kstkgap, extphysmem, roundup, pdx, pgnum,
}
use cs3510_operating_systems.State.{
  Kernel, Env, Trapframe, PageInfo, ok, M, pure, ◌>>=◌, ◌>>◌, gets, modify, fail, free,
}
use cs3510_operating_systems.Pmap.Page.{store, clear_page}
use cs3510_operating_systems.Pmap.Table.{pte_ptr}
use cs3510_operating_systems.Pmap.Boot.{boot_alloc, boot_map_region, page_init, sizeof_env, nenv}

-- `sizeof(struct PageInfo)`.
abbrev pub sizeof_page_info : ℕ
sizeof_page_info = 8

-- `cmos r` is the byte that the clock's chip answers for its register `r`.
unfoldable pub nvram_read : (ℕ → ℕ) → ℕ → ℕ
nvram_read cmos r = bit_or (cmos r) (cmos (r + 1) * 2 ^ 8)

-- The number of pages of base memory.
unfoldable pub i386_detect_memory : (ℕ → ℕ) → M ℕ
unfolding nvram_read
i386_detect_memory cmos k =
    let base : ℕ = nvram_read cmos 0x15 * 1024 / pgsize in
    let ext : ℕ = nvram_read cmos 0x17 * 1024 / pgsize in
    ok base (record k { npages = if ext != 0 then extphysmem / pgsize + ext else base })

-- `PADDR`: the physical address of a kernel address.
unfoldable pub paddr_of : ℕ → M ℕ
paddr_of va = if ltb va kernbase then fail else pure (va - kernbase)

abbrev pub zero_info : PageInfo
zero_info = record { pp_link = none; pp_ref = 0 }

abbrev pub zero_tf : Trapframe
zero_tf = record {
  tf_regs = record {
    reg_edi = 0;
    reg_esi = 0;
    reg_ebp = 0;
    reg_oesp = 0;
    reg_ebx = 0;
    reg_edx = 0;
    reg_ecx = 0;
    reg_eax = 0;
  };
  tf_es = 0;
  tf_ds = 0;
  tf_trapno = 0;
  tf_err = 0;
  tf_eip = 0;
  tf_cs = 0;
  tf_eflags = 0;
  tf_esp = 0;
  tf_ss = 0;
}

-- `ENV_FREE` is 0.
abbrev pub zero_env : Env
zero_env = record {
  env_tf = zero_tf;
  env_link = none;
  env_id = 0;
  env_parent_id = 0;
  env_type = 0;
  env_status = free;
  env_runs = 0;
  env_cpunum = 0;
  env_pgdir = none;
  env_pgfault_upcall = 0;
  env_ipc_recving = false;
  env_ipc_dstva = 0;
  env_ipc_value = 0;
  env_ipc_from = 0;
  env_ipc_perm = 0;
}

-- The array's first `n` elements set to `v`.
abbrev pub fill {ℓ} : {A : Type ℓ} → (ℕ → A) → ℕ → A → ℕ → A
fill f n v i = if ltb i n then v else f i

unfoldable pub new_directory : ℕ → M (Unit {0})
unfolding boot_alloc paddr_of clear_page pdx
new_directory end = do
  va ← boot_alloc end pgsize
  pa ← paddr_of va
  clear_page pa
  modify (λ k. record k { kern_pgdir = some (pgnum pa) })
  store (pte_ptr (pgnum pa) (pdx uvpt)) (bit_or (bit_or pa pte_u) pte_p)

-- The kernel addresses of `pages` and `envs`.
unfoldable pub new_arrays : ℕ → M (ℕ × ℕ)
unfolding boot_alloc
new_arrays end = do
  npages ← gets Kernel.npages
  pages_va ← boot_alloc end (u32 (npages * sizeof_page_info))
  modify (λ k. record k { pages = fill k.pages npages zero_info })
  envs_va ← boot_alloc end (nenv * sizeof_env)
  modify (λ k. record k { envs = fill k.envs nenv zero_env })
  pure (pages_va, envs_va)

-- `mem_init` up to the first self test.
unfoldable pub start_memory : (ℕ → ℕ) → ℕ → M (ℕ × ℕ)
unfolding i386_detect_memory new_directory new_arrays page_init
start_memory cmos end = do
  npages_basemem ← i386_detect_memory cmos
  new_directory end
  (pages_va, envs_va) ← new_arrays end
  page_init npages_basemem envs_va
  pure (pages_va, envs_va)

-- `boot_map_region` in `kern_pgdir` for the kernel address `va`.
unfoldable pub map_kernel_range : (at size va perm : ℕ) → M (Unit {0})
unfolding paddr_of
map_kernel_range at size va perm = do
  pa ← paddr_of va
  kern_pgdir ← gets Kernel.kern_pgdir
  boot_map_region kern_pgdir at size pa perm

-- The lowest address of the stack of CPU `i`.
abbrev pub kstack_va : ℕ → ℕ
kstack_va i = kstacktop - kstksize - i * (kstksize + kstkgap)

-- The loop from CPU `i`, with `n` to go; `kstacks` is the address of `percpu_kstacks`.
unfoldable pub map_stacks : (kstacks n i : ℕ) → M (Unit {0})
unfolding map_kernel_range
map_stacks kstacks zero i = pure tt
map_stacks kstacks (suc n) i = do
  map_kernel_range (kstack_va i) kstksize (kstacks + i * kstksize) pte_w
  map_stacks kstacks n (suc i)

unfoldable pub mem_init_mp : ℕ → M (Unit {0})
unfolding map_stacks
mem_init_mp kstacks = map_stacks kstacks ncpu_max 0

-- `mem_init` from the first mapping to the last.
unfoldable pub map_kernel : (pages_va envs_va bootstack kstacks : ℕ) → M (Unit {0})
unfolding map_kernel_range mem_init_mp roundup
map_kernel pages_va envs_va bootstack kstacks = do
  npages ← gets Kernel.npages
  map_kernel_range upages (roundup (u32 (npages * sizeof_page_info)) pgsize) pages_va pte_u
  map_kernel_range uenvs (roundup (nenv * sizeof_env) pgsize) envs_va pte_u
  map_kernel_range (kstacktop - kstksize) kstksize bootstack pte_w
  kern_pgdir ← gets Kernel.kern_pgdir
  boot_map_region kern_pgdir kernbase (2 ^ 32 - kernbase) 0 pte_w
  mem_init_mp kstacks
