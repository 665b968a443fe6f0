-- ===== src/Env/Life/Fresh.antt =====
-- What `env_alloc` hands out, and what becomes of the ids that it replaces.
use cs3510_operating_systems.Common.{
  List, arith, bit_or, ℕ, update, some, ◌^◌, ◌+◌, ◌*◌, ◌%◌, ◌<◌, ◌≡◌, ◌∷◌, ap, false, ◌≢◌, ◌∙◌, has,
  none, Option, refl, [],
}
use cs3510_operating_systems.Layout.{u32, pgsize, pte_p, pte_u, pdx, uvpt}
use cs3510_operating_systems.State.{Kernel, ok, ret, bad_env, no_mem, no_free_env, err}
use cs3510_operating_systems.Pmap.Page.{alloc_zero, page_incref, set_page}
use cs3510_operating_systems.Pmap.Page.FreeList.{
  FreeList, Chain-update, taken, page_alloc-cons, page2kva-ok, page_alloc_exhausted,
}
use cs3510_operating_systems.Env.Sched.{set_env}
use cs3510_operating_systems.Env.Lookup.{envx, envid2env}
use cs3510_operating_systems.Env.Lookup.Accept.{envid2env_unchecked}
use cs3510_operating_systems.Env.Life.Slots.{new_id_lem, SlotChain, SlotChain-update}
use mathlib.Core.Path.{subst, sym}
use cs3510_operating_systems.State.{Trapframe}
use cs3510_operating_systems.Env.Life.{
  next_generation, fill_pgdir, copy_kern_pgdir, env_setup_vm, new_env, env_alloc, commit_slot,
  take_slot, status_of, runnable, user_tf,
}

-- The state behind a successful `env_setup_vm` with page `p`.
set_up : ℕ → ℕ → ℕ → Kernel → Kernel
set_up e p kern k =
    let k₁ : Kernel = taken alloc_zero p k in
    let k₂ : Kernel =
      set_page p (record (k₁.pages p) { pp_ref = ((k₁.pages p).pp_ref + 1) % 2 ^ 16 }) k₁ in
    let k₃ : Kernel = set_env e (record (k₂.envs e) { env_pgdir = some p }) k₂ in
    let filled : ℕ → ℕ → ℕ = update k₃.word p (k₃.word kern) in
    record k₃ {
      word =
          update filled p
            (update (filled p) (pdx uvpt) (bit_or (bit_or (u32 (p * pgsize)) pte_p) pte_u));
    }

env_setup_vm-ok :
    (e p kern : ℕ) (ps : List ℕ) (k : Kernel)
    → FreeList k (p ∷ ps)
    → k.kern_pgdir ≡ some kern
    → env_setup_vm e k ≡ ok (ret 0) (set_up e p kern k)
unfolding env_setup_vm copy_kern_pgdir fill_pgdir page_incref set_up
env_setup_vm-ok e p kern ps k free_pages has_kern =
    let k₁ : Kernel = taken alloc_zero p k in
    let k₂ : Kernel =
      set_page p (record (k₁.pages p) { pp_ref = ((k₁.pages p).pp_ref + 1) % 2 ^ 16 }) k₁ in
    let inside : p < k.npages = free_pages.bounded p (ground arith) in
    rw
      (page_alloc-cons alloc_zero p ps k free_pages, page2kva-ok p k₂ inside free_pages.addressable)
      (ap (λ o. copy_kern_pgdir p o (set_env e (record (k₂.envs e) { env_pgdir = some p }) k₂))
        has_kern)

-- The state behind a successful `env_alloc`.
allocated : ℕ → ℕ → ℕ → ℕ → Kernel → Kernel
allocated e parent_id p kern k = commit_slot e parent_id (set_up e p kern k)

env_alloc-ok :
    (parent_id e p kern : ℕ) (es ps : List ℕ) (k : Kernel)
    → SlotChain k.envs k.env_free_list (e ∷ es)
    → FreeList k (p ∷ ps)
    → k.kern_pgdir ≡ some kern
    → env_alloc parent_id k ≡ ok (ret 0, some e) (allocated e parent_id p kern k)
unfolding env_alloc allocated
env_alloc-ok parent_id e p kern es ps k slots free_pages has_kern =
    ap (λ o. take_slot parent_id o k) slots.0
    ∙ rw (env_setup_vm-ok e p kern ps k free_pages has_kern)

env_alloc_page :
    (e p kern : ℕ) (k : Kernel)
    → p ≢ kern
    → ((set_up e p kern k).word p (pdx uvpt) ≡ bit_or (bit_or (u32 (p * pgsize)) pte_p) pte_u)
      × ((i : ℕ) → i ≢ pdx uvpt → (set_up e p kern k).word p i ≡ k.word kern i)
unfolding set_up
env_alloc_page e p kern k ne = (ground arith, λ i ni. ground arith)

set_up-env_link :
    (e p kern : ℕ) (k : Kernel) → ((set_up e p kern k).envs e).env_link ≡ (k.envs e).env_link
unfolding set_up
set_up-env_link e p kern k = ground arith

set_up-SlotChain :
    (e p kern : ℕ) (es : List ℕ) (k : Kernel)
    → has e es ≡ false
    → SlotChain k.envs (k.envs e).env_link es
    → SlotChain (set_up e p kern k).envs (k.envs e).env_link es
unfolding set_up
set_up-SlotChain e p kern es k out c =
    SlotChain-update k.envs e (record (k.envs e) { env_pgdir = some p }) (k.envs e).env_link es out
      c

allocated-SlotChain :
    (parent_id e p kern : ℕ) (es : List ℕ) (k : Kernel)
    → has e es ≡ false
    → SlotChain k.envs (k.envs e).env_link es
    → let k' = allocated e parent_id p kern k in SlotChain k'.envs k'.env_free_list es
unfolding allocated
allocated-SlotChain parent_id e p kern es k out c =
    let s : Kernel = set_up e p kern k in
    rw (set_up-env_link e p kern k) (
      SlotChain-update s.envs e (new_env e parent_id (s.envs e)) (k.envs e).env_link es out
        (set_up-SlotChain e p kern es k out c))

allocated-FreeList :
    (parent_id e p kern : ℕ) (ps : List ℕ) (k : Kernel)
    → FreeList k (p ∷ ps)
    → FreeList (allocated e parent_id p kern k) ps
unfolding allocated set_up
allocated-FreeList parent_id e p kern ps k free_pages =
    let k₁ : Kernel = taken alloc_zero p k in
    let l : Option ℕ = (k.pages p).pp_link in
    let out : has p ps ≡ false = free_pages.chain.2 in
    record {
      chain =
          Chain-update k₁.pages p
            (record (k₁.pages p) { pp_ref = ((k₁.pages p).pp_ref + 1) % 2 ^ 16 }) l ps out
            (Chain-update k.pages p (record (k.pages p) { pp_link = none }) l ps out
              free_pages.chain.3);
      bounded = λ q h. free_pages.bounded q (ground arith);
      addressable = free_pages.addressable;
    }

-- What `env_alloc` promises of the new environment `e`, whose directory is page `p`.
pub record IsFresh (k k' : Kernel) (parent_id e p kern : ℕ) : Type 0 where
  pub id : (k'.envs e).env_id ≡ bit_or (next_generation (k.envs e).env_id) e
  pub parent : (k'.envs e).env_parent_id ≡ parent_id
  pub status : status_of k' e ≡ runnable
  pub registers : (k'.envs e).env_tf ≡ user_tf
  pub recving : (k'.envs e).env_ipc_recving ≡ false
  pub upcall : (k'.envs e).env_pgfault_upcall ≡ 0
  pub pgdir : (k'.envs e).env_pgdir ≡ some p
  pub counted : (k'.pages p).pp_ref ≡ 1
  pub self_map : k'.word p (pdx uvpt) ≡ bit_or (bit_or (u32 (p * pgsize)) pte_p) pte_u
  pub kernel_map : (i : ℕ) → i ≢ pdx uvpt → k'.word p i ≡ k.word kern i
  pub others : (j : ℕ) → j ≢ e → k'.envs j ≡ k.envs j

-- What `env_alloc` makes of a free slot and a free page.
pub env_alloc-IsFresh :
    (parent_id e p kern : ℕ) (es ps : List ℕ) (k : Kernel)
    → SlotChain k.envs k.env_free_list (e ∷ es)
    → FreeList k (p ∷ ps)
    → k.kern_pgdir ≡ some kern
    → p ≢ kern
    → (k' : Kernel) × (env_alloc parent_id k ≡ ok (ret 0, some e) k')
      × IsFresh k k' parent_id e p kern
      × SlotChain k'.envs k'.env_free_list es
      × FreeList k' ps
unfolding allocated set_up new_env
env_alloc-IsFresh parent_id e p kern es ps k slots free_pages has_kern ne = (
  allocated e parent_id p kern k,
  env_alloc-ok parent_id e p kern es ps k slots free_pages has_kern,
  record {
    id = ground arith;
    parent = ground arith;
    status = ground arith;
    registers = ground arith;
    recving = ground arith;
    upcall = ground arith;
    pgdir = ground arith;
    counted = ground arith;
    self_map = (env_alloc_page e p kern k ne).0;
    kernel_map = (env_alloc_page e p kern k ne).1;
    others = λ j nj. ground arith;
  },
  allocated-SlotChain parent_id e p kern es k slots.2 slots.3,
  allocated-FreeList parent_id e p kern ps k free_pages,
)

-- What the processor loads for an environment that has not run yet: flat user segments, interrupts
-- enabled, the stack pointer at the top of the user stack, and 0 in every other register.
abbrev pub first_frame : Trapframe
first_frame = record {
  tf_regs = record {
    reg_edi = 0;
    reg_esi = 0;
    reg_ebp = 0;
    reg_oesp = 0;
    reg_ebx = 0;
    reg_edx = 0;
    reg_ecx = 0;
    reg_eax = 0;
  };
  tf_es = 0x23;
  tf_ds = 0x23;
  tf_trapno = 0;
  tf_err = 0;
  tf_eip = 0;
  tf_cs = 0x1b;
  tf_eflags = 0x200;
  tf_esp = 0xeebfe000;
  tf_ss = 0x23;
}

-- With a free slot below 1024, whose last id is not negative, and a free page, `env_alloc` takes the
-- first of each. The environment is runnable; its id is positive, names the slot and is not the
-- slot's last one; its frame has user segments, interrupts enabled, the top of the user stack and no
-- other register set; it has no page fault upcall and no pending receive. Its directory is that page,
-- counted once, and a copy of the kernel's but for the entry of the directory itself. The rest of the
-- free slots and pages stay free, and other environments are as before.
pub env_alloc_makes :
    (parent_id e p kern : ℕ) (es ps : List ℕ) (k : Kernel)
    → SlotChain k.envs k.env_free_list (e ∷ es)
    → FreeList k (p ∷ ps)
    → k.kern_pgdir ≡ some kern
    → p ≢ kern
    → e < 1024
    → (k.envs e).env_id < 2147483648
    → (k' : Kernel) × (env_alloc parent_id k ≡ ok (ret 0, some e) k')
      × IsFresh k k' parent_id e p kern
      × (0 < (k'.envs e).env_id)
      × ((k'.envs e).env_id < 2147483648)
      × (envx (k'.envs e).env_id ≡ e)
      × ((k'.envs e).env_id ≢ (k.envs e).env_id)
      × ((k'.envs e).env_tf ≡ first_frame)
      × SlotChain k'.envs k'.env_free_list es
      × FreeList k' ps
env_alloc_makes parent_id e p kern es ps k slots free_pages has_kern ne small lt =
    let (k', made, fresh, chain, left) =
      env_alloc-IsFresh parent_id e p kern es ps k slots free_pages has_kern ne in
    let (pos, top, slot, other) = new_id_lem (k.envs e).env_id e lt small in
    (
      k',
      made,
      fresh,
      subst (λ i. 0 < i) (sym fresh.id) pos,
      subst (λ i. i < 2147483648) (sym fresh.id) top,
      ap envx fresh.id ∙ slot,
      (λ same_id. other (sym fresh.id ∙ same_id)),
      fresh.registers,
      chain,
      left,
    )

-- Where `env_alloc` succeeds on a slot that an earlier environment had, the id of that environment is
-- refused from then on, and the new id leads to the slot: `envid2env` tells the two apart.
pub env_alloc_refuses_old_id :
    (parent_id e p kern : ℕ) (es ps : List ℕ) (k : Kernel)
    → SlotChain k.envs k.env_free_list (e ∷ es)
    → FreeList k (p ∷ ps)
    → k.kern_pgdir ≡ some kern
    → p ≢ kern
    → e < 1024
    → let old = (k.envs e).env_id in
      let id = bit_or (next_generation old) e in
      old < 2147483648
      → old ≢ 0
      → envx old ≡ e
      → (k' : Kernel) × (env_alloc parent_id k ≡ ok (ret 0, some e) k')
        × (envid2env old false k' ≡ ok (err bad_env, none) k')
        × (envid2env id false k' ≡ ok (ret 0, some e) k')
env_alloc_refuses_old_id parent_id e p kern es ps k slots free_pages has_kern ne small lt nz at =
    let old : ℕ = (k.envs e).env_id in
    let (k', made, fresh, _, _) =
      env_alloc-IsFresh parent_id e p kern es ps k slots free_pages has_kern ne in
    let (pos, _, slot, other) = new_id_lem old e lt small in
    (
      k',
      made,
      (envid2env_unchecked k' old nz).1 λ (used, same_id). other (ground (arith, fresh.id)),
      rw slot at (
          (envid2env_unchecked k' (bit_or (next_generation old) e) (λ z. omega arith)).0
            (rw (slot, fresh.status, fresh.id) (refl, refl))),
    )

-- Without a free slot, or without a free page, `env_alloc` fails with the error for that and changes
-- nothing.
pub env_alloc_fails :
    (parent_id : ℕ) (k : Kernel)
    → (k.env_free_list ≡ none → env_alloc parent_id k ≡ ok (err no_free_env, none) k)
      × ((e : ℕ)
          → k.env_free_list ≡ some e
          → FreeList k []
          → env_alloc parent_id k ≡ ok (err no_mem, none) k)
unfolding env_alloc env_setup_vm
env_alloc_fails parent_id k = (
  (λ no_slot. ap (λ o. take_slot parent_id o k) no_slot),
  λ e first no_page.
      ap (λ o. take_slot parent_id o k) first ∙ rw (page_alloc_exhausted alloc_zero k no_page),
)
