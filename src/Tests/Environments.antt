-- ===== src/Tests/Environments.antt =====
-- The theorems on environments and the scheduler, run on the sample.
use cs3510_operating_systems.Common.{
  false, true, bit_or, arith, none, some, refl, ℕ, ◌≡◌, ◌∷◌, [], ◌<◌, ◌≢◌,
}
use cs3510_operating_systems.State.{Kernel, ok, left, user, ret, err, bad_env, running, runnable}
use cs3510_operating_systems.Pmap.Page.FreeList.{FreeList}
use cs3510_operating_systems.Env.Sched.{sched_yield, env_run, status_of}
use cs3510_operating_systems.Env.Sched.Order.{IsFirst, sched_yield_next}
use cs3510_operating_systems.Env.Sched.Switch.{OnlyCurrent, env_run-OnlyCurrent}
use cs3510_operating_systems.Env.Lookup.{envid2env, envx}
use cs3510_operating_systems.Env.Lookup.Accept.{IsCurrentId, MayManage, envid2env_checked}
use cs3510_operating_systems.Env.Life.{env_alloc, next_generation}
use cs3510_operating_systems.Env.Life.Slots.{SlotChain}
use cs3510_operating_systems.Env.Life.Fresh.{
  IsFresh, first_frame, env_alloc_makes, env_alloc_refuses_old_id,
}
use cs3510_operating_systems.Tests.Sample.{sample, sample-FreeList, sample-SlotChain}

envid2env_checked_example :
    ((IsCurrentId sample 4097 × MayManage sample 0 1)
      → envid2env 4097 true sample ≡ ok (ret 0, some 1) sample)
    × (¬ (IsCurrentId sample 4097 × MayManage sample 0 1)
        → envid2env 4097 true sample ≡ ok (err bad_env, none) sample)
envid2env_checked_example = envid2env_checked sample 0 4097 refl (λ e. omega arith)

env_alloc_makes_example :
    (k' : Kernel) × (env_alloc 4096 sample ≡ ok (ret 0, some 2) k')
    × IsFresh sample k' 4096 2 4 6
    × (0 < (k'.envs 2).env_id)
    × ((k'.envs 2).env_id < 2147483648)
    × (envx (k'.envs 2).env_id ≡ 2)
    × ((k'.envs 2).env_id ≢ 4098)
    × ((k'.envs 2).env_tf ≡ first_frame)
    × SlotChain k'.envs k'.env_free_list []
    × FreeList k' (5 ∷ [])
env_alloc_makes_example =
    env_alloc_makes 4096 2 4 6 [] (5 ∷ []) sample sample-SlotChain sample-FreeList refl
      (λ e. omega arith) (omega arith) (omega arith)

env_alloc_refuses_old_id_example :
    (k' : Kernel) × (env_alloc 4096 sample ≡ ok (ret 0, some 2) k')
    × (envid2env 4098 false k' ≡ ok (err bad_env, none) k')
    × (envid2env (bit_or (next_generation 4098) 2) false k' ≡ ok (ret 0, some 2) k')
env_alloc_refuses_old_id_example =
    env_alloc_refuses_old_id 4096 2 4 6 [] (5 ∷ []) sample sample-SlotChain sample-FreeList refl
      (λ e. omega arith) (omega arith) (omega arith) (λ e. omega arith) refl

abbrev no_slot : Kernel
no_slot = record sample { env_free_list = none }

sched_yield_next_example :
    (e : ℕ) × IsFirst sample 1023 1 e × (sched_yield {A = ℕ} sample ≡ env_run e sample)
sched_yield_next_example =
    sched_yield_next ℕ sample 0 1 refl (omega arith) (omega arith) (λ e. omega arith) refl

abbrev demoted : Kernel
demoted = record sample { curenv = some 1 }

env_run-OnlyCurrent_example :
    (k' : Kernel) × (env_run {A = ℕ} 1 sample ≡ left (user 1) k')
    × OnlyCurrent k'
    × (status_of k' 1 ≡ running)
    × (status_of k' 0 ≡ runnable)
env_run-OnlyCurrent_example =
    let (k', runs, only, _, status, _, _, _, others) =
      env_run-OnlyCurrent ℕ 1 1 sample (λ e run. ground arith) refl in
    (k', runs, only, status, others 0 (λ e. omega arith))
