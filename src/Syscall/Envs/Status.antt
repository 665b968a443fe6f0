-- ===== src/Syscall/Envs/Status.antt =====
-- The calls on environments, behind the lookup of the id.
use cs3510_operating_systems.Common.{
  some, List, true, none, ℕ, bit_or, arith, Bool, ◌≡◌, ◌≢◌, ◌∷◌, ap, ◌∙◌, refl, inl, inr, ◌⊎◌,
}
use cs3510_operating_systems.State.{
  EnvStatus, not_runnable, Kernel, ◌>>◌, ok, M, Ret, ret, err, bad_env, inval, modify, pure,
  runnable,
}
use cs3510_operating_systems.Pmap.Page.FreeList.{FreeList}
use cs3510_operating_systems.Env.Sched.{set_status, status_of}
use cs3510_operating_systems.Env.Lookup.{envx, envid2env}
use cs3510_operating_systems.Env.Lookup.Accept.{IsCurrentId, MayManage, envid2env_checked}
use cs3510_operating_systems.Env.Life.{next_generation}
use cs3510_operating_systems.Env.Life.Slots.{SlotChain}
use cs3510_operating_systems.Env.Life.Fresh.{env_alloc-IsFresh}
use cs3510_operating_systems.Syscall.Envs.{
  current, with_env, copy_tf, after_alloc, sys_exofork, status_of_code, sys_env_set_status,
  set_known_status, fork_from,
}

pub with_env_found :
    (envid e : ℕ) (checkperm : Bool) (f : ℕ → M Ret) (k : Kernel)
    → envid2env envid checkperm k ≡ ok (ret 0, some e) k
    → with_env envid checkperm f k ≡ f e k
unfolding with_env
with_env_found envid e checkperm f k h = rw h

pub with_env_refused :
    (envid : ℕ) (checkperm : Bool) (f : ℕ → M Ret) (k : Kernel)
    → envid2env envid checkperm k ≡ ok (err bad_env, none) k
    → with_env envid checkperm f k ≡ ok (err bad_env) k
unfolding with_env
with_env_refused envid checkperm f k h = rw h

code-status :
    (code : ℕ) (s : EnvStatus)
    → ((code ≡ 2) × (s ≡ runnable)) ⊎ ((code ≡ 4) × (s ≡ not_runnable))
    → status_of_code code ≡ some s
code-status code s (inl (c, e)) = rw (c, e) refl
code-status code s (inr (c, e)) = rw (c, e) refl

-- For an id other than 0, which stands for the caller: `sys_env_set_status` refuses every code but 2
-- and 4, before it looks at the id; with 2 it makes an environment that the caller may manage
-- runnable, with 4 not runnable, and it refuses any other id. Where it refuses, it changes nothing.
pub sys_env_set_status_lem :
    (envid code c : ℕ) (k : Kernel)
    → k.curenv ≡ some c
    → envid ≢ 0
    → (code ≢ 2 → code ≢ 4 → sys_env_set_status envid code k ≡ ok (err inval) k)
      × ((s : EnvStatus)
          → ((code ≡ 2) × (s ≡ runnable)) ⊎ ((code ≡ 4) × (s ≡ not_runnable))
          → (IsCurrentId k envid × MayManage k c (envx envid)
              → sys_env_set_status envid code k ≡ ok (ret 0) (set_status (envx envid) s k))
            × (¬ (IsCurrentId k envid × MayManage k c (envx envid))
                → sys_env_set_status envid code k ≡ ok (err bad_env) k))
unfolding sys_env_set_status
sys_env_set_status_lem envid code c k cur nz =
    let (found, refused) = envid2env_checked k c envid cur nz in
    (
      (λ n₂ n₄.
          let unknown : status_of_code code ≡ none = ground arith in
          ap (λ o. set_known_status envid o k) unknown),
      λ s named.
          let e : status_of_code code ≡ some s = code-status code s named in
          (
            (λ h.
                ap (λ o. set_known_status envid o k) e
                ∙ with_env_found envid (envx envid) true
                    (λ e. do modify (set_status e s); pure (ret 0)) k (found h)),
            λ h.
                ap (λ o. set_known_status envid o k) e
                ∙ with_env_refused envid true (λ e. do modify (set_status e s); pure (ret 0)) k
                    (refused h),
          ),
    )

-- `sys_exofork` with a free slot and a free page returns the new environment's id. The child is a
-- fresh environment but for its status, which is not runnable, and its registers, which are the
-- caller's with 0 as the result; the caller is its parent, and no other environment changes.
pub sys_exofork_lem :
    (c e p kern : ℕ) (es ps : List ℕ) (k : Kernel)
    → k.curenv ≡ some c
    → c ≢ e
    → SlotChain k.envs k.env_free_list (e ∷ es)
    → FreeList k (p ∷ ps)
    → k.kern_pgdir ≡ some kern
    → p ≢ kern
    → (k' : Kernel) × (sys_exofork k ≡ ok (ret (bit_or (next_generation (k.envs e).env_id) e)) k')
      × ((k'.envs e).env_id ≡ bit_or (next_generation (k.envs e).env_id) e)
      × ((k'.envs e).env_parent_id ≡ (k.envs c).env_id)
      × (status_of k' e ≡ not_runnable)
      × ((k'.envs e).env_tf
          ≡ let tf = (k.envs c).env_tf in
            let regs = tf.tf_regs in record tf { tf_regs = record regs { reg_eax = 0 } })
      × ((k'.envs e).env_pgdir ≡ some p)
      × ((j : ℕ) → j ≢ e → k'.envs j ≡ k.envs j)
unfolding sys_exofork current after_alloc copy_tf
sys_exofork_lem c e p kern es ps k cur ne slots free_pages has_kern apart =
    let (k₁, made, fresh, _, _) =
      env_alloc-IsFresh (k.envs c).env_id e p kern es ps k slots free_pages has_kern apart in
    let same_caller : k₁.envs c ≡ k.envs c = fresh.others c ne in
    let k' : Kernel = unfold copy_tf in copy_tf e c k₁ in
    let id : (k'.envs e).env_id ≡ bit_or (next_generation (k.envs e).env_id) e =
      ground (arith, fresh.id) in
    (
      k',
      ap (λ o. fork_from o k) cur ∙ rw made (ap (λ i. ok (ret i) k') id),
      id,
      ground (arith, fresh.parent),
      ground arith,
      ground (arith, same_caller),
      ground (arith, fresh.pgdir),
      λ j nj. ground (arith, fresh.others j nj),
    )
