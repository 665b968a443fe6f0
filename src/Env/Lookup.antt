-- ===== src/Env/Lookup.antt =====
-- `envid2env` of kern/env.c.
pub mod Accept
use cs3510_operating_systems.Common.{
  some, Option, false, none, ℕ, Bool, true, ◌%◌, ◌==◌, ◌!=◌, ◌||◌, if◌then◌else◌,
}
use cs3510_operating_systems.State.{
  Env, EnvStatus, free, dying, runnable, running, not_runnable, Kernel, Run, ok, panic, M, Ret, ret,
  err, bad_env,
}
use cs3510_operating_systems.Env.Sched.{nenv, status_of}

-- `ENVX`, the slot that an id names.
abbrev pub envx : ℕ → ℕ
envx envid = envid % nenv

abbrev pub is_free : EnvStatus → Bool
is_free free = true
is_free _ = false

-- `e != curenv && e->env_parent_id != curenv->env_id`; with no current environment the parent's id
-- is read through NULL.
unfoldable pub not_permitted : ℕ → M Bool
not_permitted e k = elim k.curenv [
  | none ↦ panic
  | some c ↦ if c == e then ok false k else ok ((k.envs e).env_parent_id != (k.envs c).env_id) k
]

-- The result and what goes to `*env_store`.
unfoldable pub envid2env : ℕ → Bool → M (Ret × Option ℕ)
unfolding not_permitted
envid2env envid checkperm k =
    let e : ℕ = envx envid in
    if envid == 0
    then ok (ret 0, k.curenv) k
    else if is_free (status_of k e) || ((k.envs e).env_id != envid)
    then ok (err bad_env, none) k
    else if checkperm
    then elim (not_permitted e k) [
      | ok refused k' ↦ if refused then ok (err bad_env, none) k' else ok (ret 0, some e) k'
      | other ↦ panic
    ]
    else ok (ret 0, some e) k
