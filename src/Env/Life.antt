-- ===== src/Env/Life.antt =====
-- How environments of kern/env.c come and go.
pub mod Fresh
pub mod Slots
use cs3510_operating_systems.Common.{
  bit_or, false, same, zero, Option, not, ℕ, none, some, suc, update, leb, ◌^◌, ◌+◌, ◌-◌, ◌*◌, ◌/◌,
  ◌==◌, ◌&&◌, ◌||◌, if◌then◌else◌,
}
use cs3510_operating_systems.Layout.{
  u32, flag, pgsize, pte_p, pte_u, pte_w, uvpt, utop, ustacktop, pdx, pgnum, pte_addr, pgaddr,
  rounddown, roundup,
}
use cs3510_operating_systems.State.{
  PushRegs, Trapframe, Env, EnvStatus, free, dying, runnable, running, Kernel, Run, ok, left, panic,
  M, pure, ◌>>=◌, ◌>>◌, gets, modify, fail, Ret, ret, err, no_mem, no_free_env,
}
use cs3510_operating_systems.Pmap.Page.{
  alloc_zero, page_alloc, page_incref, page_decref, page2pa, pa2page, page2kva, kaddr, load, store,
}
use cs3510_operating_systems.Pmap.Table.{pte_ptr, page_remove, page_insert}
use cs3510_operating_systems.Env.Sched.{
  nenv, set_env, set_status, status_of, is_running, paddr, lcr3, sched_yield,
}

abbrev pub no_regs : PushRegs
no_regs = record {
  reg_edi = 0;
  reg_esi = 0;
  reg_ebp = 0;
  reg_oesp = 0;
  reg_ebx = 0;
  reg_edx = 0;
  reg_ecx = 0;
  reg_eax = 0;
}

-- `envs[i]` goes to the front of the free list with no id.
unfoldable pub free_slot : ℕ → Kernel → Kernel
free_slot i k = record k {
  envs =
      update k.envs i
        (record (k.envs i) { env_status = free; env_id = 0; env_link = k.env_free_list });
  env_free_list = some i;
}

-- The loop of `env_init`, with `n` slots to go: those below `n`, from the top down.
unfoldable pub free_slots : ℕ → Kernel → Kernel
unfolding free_slot
free_slots zero k = k
free_slots (suc n) k = free_slots n (free_slot n k)

-- `env_init_percpu`, which follows, only loads segment registers.
unfoldable pub env_init : M (Unit {0})
env_init = modify (λ k. free_slots nenv (record k { env_free_list = none }))

-- `memmove(e->env_pgdir, kern_pgdir, PGSIZE)`, then the directory's entry for itself.
unfoldable pub fill_pgdir : ℕ → ℕ → M (Unit {0})
fill_pgdir p kern = do
  modify (λ k. record k { word = update k.word p (k.word kern) })
  store (pte_ptr p (pdx uvpt)) (bit_or (bit_or (u32 (p * pgsize)) pte_p) pte_u)

unfoldable pub copy_kern_pgdir : ℕ → Option ℕ → M Ret
unfolding fill_pgdir
copy_kern_pgdir p none = fail
copy_kern_pgdir p (some kern) = do fill_pgdir p kern; pure (ret 0)

unfoldable pub env_setup_vm : ℕ → M Ret
unfolding copy_kern_pgdir
env_setup_vm e = do
  got ← page_alloc alloc_zero
  elim got [
    | none ↦ pure (err no_mem)
    | some p ↦ (do
      page_incref p
      page2kva p
      modify (λ k. set_env e (record (k.envs e) { env_pgdir = some p }) k)
      kern_pgdir ← gets Kernel.kern_pgdir
      copy_kern_pgdir p kern_pgdir)
  ]

-- The generation part of a new id: `x & ~(NENV - 1)` clears the index, and a pattern that is
-- negative as an `int32_t`, or 0, gives way to the first generation.
unfoldable pub next_generation : ℕ → ℕ
next_generation env_id =
    let generation : ℕ = u32 (env_id + 2 ^ 12) / nenv * nenv in
    if generation == 0 || leb (2 ^ 31) generation then 2 ^ 12 else generation

abbrev pub fl_if : ℕ
fl_if = 0x200

-- Cleared registers, and the user segments with privilege level 3.
abbrev pub user_tf : Trapframe
user_tf = record {
  tf_regs = no_regs;
  tf_es = 0x23;
  tf_ds = 0x23;
  tf_trapno = 0;
  tf_err = 0;
  tf_eip = 0;
  tf_cs = 0x1b;
  tf_eflags = fl_if;
  tf_esp = ustacktop;
  tf_ss = 0x23;
}

-- What `env_alloc` writes into slot `e`.
unfoldable pub new_env : ℕ → ℕ → Env → Env
unfolding next_generation
new_env e parent_id old = record old {
  env_id = bit_or (next_generation old.env_id) e;
  env_parent_id = parent_id;
  env_type = 0;
  env_status = runnable;
  env_runs = 0;
  env_tf = user_tf;
  env_pgfault_upcall = 0;
  env_ipc_recving = false;
}

-- Commit the allocation of slot `e`.
abbrev pub commit_slot : ℕ → ℕ → Kernel → Kernel
commit_slot e parent_id k = record (set_env e (new_env e parent_id (k.envs e)) k) {
  env_free_list = (k.envs e).env_link;
}

unfoldable pub take_slot : ℕ → Option ℕ → M (Ret × Option ℕ)
unfolding new_env
take_slot parent_id none = pure (err no_free_env, none)
take_slot parent_id (some e) = do
  made ← env_setup_vm e
  elim made [
    | err x ↦ pure (err x, none)
    | ret _ ↦ (do modify (commit_slot e parent_id); pure (ret 0, some e))
  ]

-- The result and the new environment.
unfoldable pub env_alloc : ℕ → M (Ret × Option ℕ)
unfolding take_slot
env_alloc parent_id = gets Kernel.env_free_list >>= take_slot parent_id

-- The loop of `region_alloc`, with the pages that are left.
unfoldable pub alloc_pages : ℕ → ℕ → ℕ → M (Unit {0})
alloc_pages e zero lower = pure tt
alloc_pages e (suc n) lower =
    let rest = alloc_pages e n (u32 (lower + pgsize)) in
    do
      got ← page_alloc 0
      elim got [
        | none ↦ fail
        | some pp ↦ (do
          pgdir ← gets (λ k. (k.envs e).env_pgdir)
          status ← page_insert pgdir pp lower (bit_or pte_u pte_w)
          elim status [ err _ ↦ fail | ret _ ↦ rest ])
      ]

unfoldable pub region_alloc : ℕ → ℕ → ℕ → M (Unit {0})
region_alloc e va len =
    let lower : ℕ = rounddown va pgsize in
    let upper : ℕ = roundup (u32 (va + len)) pgsize in
    alloc_pages e ((upper - lower) / pgsize) lower

-- The entries of one page table, from `pteno` on.
unfoldable pub free_entries : Option ℕ → ℕ → ℕ → ℕ → ℕ → M (Unit {0})
free_entries pgdir pdeno pt zero pteno = pure tt
free_entries pgdir pdeno pt (suc n) pteno =
    let rest = free_entries pgdir pdeno pt n (suc pteno) in
    do
      entry ← load (pte_ptr pt pteno)
      (if flag entry pte_p then page_remove pgdir (pgaddr pdeno pteno 0) else pure tt)
      rest

-- The user part of a page directory, from `pdeno` on.
unfoldable pub free_tables : Option ℕ → ℕ → ℕ → M (Unit {0})
free_tables none n pdeno = fail
free_tables (some pgdir) zero pdeno = pure tt
free_tables (some pgdir) (suc n) pdeno =
    let rest = free_tables (some pgdir) n (suc pdeno) in
    do
      entry ← load (pte_ptr pgdir pdeno)
      (if flag entry pte_p
          then (do
            pt ← kaddr (pte_addr entry)
            free_entries (some pgdir) pdeno (pgnum pt) 1024 0
            store (pte_ptr pgdir pdeno) 0
            pp ← pa2page (pte_addr entry)
            page_decref pp)
          else pure tt)
      rest

-- The end of `env_free`.
unfoldable pub release_slot : ℕ → Kernel → Kernel
release_slot e k = record k {
  envs = update k.envs e (record (k.envs e) { env_status = free; env_link = k.env_free_list });
  env_free_list = some e;
}

unfoldable pub env_free : ℕ → M (Unit {0})
unfolding release_slot
env_free e = do
  current ← gets Kernel.curenv
  (if same current (some e)
      then (do kern_pgdir ← gets Kernel.kern_pgdir; pa ← paddr kern_pgdir; lcr3 pa)
      else pure tt)
  pgdir ← gets (λ k. (k.envs e).env_pgdir)
  free_tables pgdir (utop / 2 ^ 22) 0
  pa ← paddr pgdir
  modify (λ k. set_env e (record (k.envs e) { env_pgdir = none }) k)
  pp ← pa2page pa
  page_decref pp
  modify (release_slot e)

unfoldable pub env_destroy : ℕ → M (Unit {0})
env_destroy e = do
  current ← gets Kernel.curenv
  status ← gets (λ k. status_of k e)
  if is_running status && not (same current (some e)) then modify (set_status e dying) else (do
    env_free e
    current' ← gets Kernel.curenv
    if same current' (some e)
        then (do modify (λ k. record k { curenv = none }); sched_yield)
        else pure tt)
