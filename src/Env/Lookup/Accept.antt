-- ===== src/Env/Lookup/Accept.antt =====
-- What `envid2env` accepts.
use cs3510_operating_systems.Common.{some, none, ℕ, arith, true, false, ◌≡◌, ◌≢◌, ◌⊎◌}
use cs3510_operating_systems.State.{Kernel, ok, ret, err, bad_env}
use cs3510_operating_systems.Env.Sched.{status_of}
use cs3510_operating_systems.Env.Lookup.{envx, is_free, envid2env}

-- The environment in the slot of `envid` is in use under this very id.
abbrev pub IsCurrentId : Kernel → ℕ → Type 0
IsCurrentId k envid =
    (is_free (status_of k (envx envid)) ≡ false) × ((k.envs (envx envid)).env_id ≡ envid)

-- The current environment is `c`, and is the environment in slot `e` or its parent.
abbrev pub MayManage : Kernel → ℕ → ℕ → Type 0
MayManage k c e = (c ≡ e) ⊎ ((k.envs e).env_parent_id ≡ (k.envs c).env_id)

-- With permission checked and an id that is not 0, `envid2env` returns 0 with the environment in the
-- id's slot if that environment is in use under this id and is the current one or a child of it,
-- and `-E_BAD_ENV` with NULL otherwise; it changes nothing.
pub envid2env_checked :
    (k : Kernel) (c envid : ℕ)
    → k.curenv ≡ some c
    → envid ≢ 0
    → ((IsCurrentId k envid × MayManage k c (envx envid))
        → envid2env envid true k ≡ ok (ret 0, some (envx envid)) k)
      × (¬ (IsCurrentId k envid × MayManage k c (envx envid))
          → envid2env envid true k ≡ ok (err bad_env, none) k)
unfolding envid2env
envid2env_checked k c envid cur ne = (λ h. ground arith, λ h. ground arith)

-- Without the check the id alone decides.
pub envid2env_unchecked :
    (k : Kernel) (envid : ℕ)
    → envid ≢ 0
    → (IsCurrentId k envid → envid2env envid false k ≡ ok (ret 0, some (envx envid)) k)
      × (¬ IsCurrentId k envid → envid2env envid false k ≡ ok (err bad_env, none) k)
unfolding envid2env
envid2env_unchecked k envid ne = (λ h. ground arith, λ h. ground arith)
