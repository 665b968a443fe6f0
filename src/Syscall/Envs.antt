-- ===== src/Syscall/Envs.antt =====
-- The system calls of kern/syscall.c on environments.
pub mod Status
use cs3510_operating_systems.Common.{ℕ, true, some, bit_or, none, Option, Bool, ◌==◌, if◌then◌else◌}
use cs3510_operating_systems.Layout.{flag, pte_u, utop}
use cs3510_operating_systems.State.{
  PushRegs, Trapframe, Env, EnvStatus, runnable, not_runnable, Kernel, Run, ok, M, pure, ◌>>=◌,
  ◌>>◌, gets, modify, fail, Ret, ret, err, bad_env, inval,
}
use cs3510_operating_systems.Pmap.UserMem.{user_mem_check}
use cs3510_operating_systems.Env.Sched.{set_env, set_status, sched_yield}
use cs3510_operating_systems.Env.Lookup.{envid2env}
use cs3510_operating_systems.Env.Life.{env_alloc, env_destroy}

-- A pointer that is followed: NULL is a fault.
abbrev pub deref : Option ℕ → M ℕ
deref none = fail
deref (some e) = pure e

unfoldable pub current : M ℕ
current = gets Kernel.curenv >>= deref

-- `if ((r = envid2env(envid, &e, checkperm)) < 0) return r;` before the rest of a call.
abbrev pub after_lookup : (ℕ → M Ret) → Ret × Option ℕ → M Ret
after_lookup f (err x, e) = pure (err x)
after_lookup f (ret _, e) = deref e >>= f

unfoldable pub with_env : ℕ → Bool → (ℕ → M Ret) → M Ret
with_env envid checkperm f = envid2env envid checkperm >>= after_lookup f

-- `user_mem_assert` of kern/pmap.c.
unfoldable pub user_mem_assert : ℕ → ℕ → ℕ → ℕ → M (Unit {0})
user_mem_assert env va len perm = do
  r ← user_mem_check env va len (bit_or perm pte_u)
  elim r [ err _ ↦ env_destroy env | ret _ ↦ pure tt ]

-- `print` stands for the console's `cprintf("%.*s", len, s)`.
unfoldable pub sys_cputs : (ℕ → ℕ → M (Unit {0})) → ℕ → ℕ → M (Unit {0})
sys_cputs print s len = do e ← current; user_mem_assert e s len pte_u; print s len

unfoldable pub sys_getenvid : M Ret
sys_getenvid = do e ← current; id ← gets (λ k. (k.envs e).env_id); pure (ret id)

unfoldable pub sys_env_destroy : ℕ → M Ret
sys_env_destroy envid = with_env envid true (λ e. do env_destroy e; pure (ret 0))

unfoldable pub sys_yield : M (Unit {0})
sys_yield = sched_yield

-- The child starts where the parent is, sees 0, and does not run yet.
unfoldable pub copy_tf : ℕ → ℕ → Kernel → Kernel
copy_tf child parent k =
    let tf : Trapframe = (k.envs parent).env_tf in
    let regs : PushRegs = tf.tf_regs in
    set_env child
      (record (k.envs child) {
        env_status = not_runnable;
        env_tf = record tf { tf_regs = record regs { reg_eax = 0 } };
      })
      k

unfoldable pub after_alloc : ℕ → Ret × Option ℕ → M Ret
unfolding copy_tf
after_alloc parent (err x, e) = pure (err x)
after_alloc parent (ret _, e) = do
  child ← deref e
  modify (copy_tf child parent)
  id ← gets (λ k. (k.envs child).env_id)
  pure (ret id)

abbrev pub fork_from : Option ℕ → M Ret
fork_from none = fail
fork_from (some parent) = do
  id ← gets (λ k. (k.envs parent).env_id)
  made ← env_alloc id
  after_alloc parent made

unfoldable pub sys_exofork : M Ret
sys_exofork = gets Kernel.curenv >>= fork_from

-- The statuses that a call may set, by their code.
abbrev pub status_of_code : ℕ → Option EnvStatus
status_of_code code =
    if code == 2 then some runnable else if code == 4 then some not_runnable else none

abbrev pub set_known_status : ℕ → Option EnvStatus → M Ret
set_known_status envid none = pure (err inval)
set_known_status envid (some s) =
    with_env envid true (λ e. do modify (set_status e s); pure (ret 0))

unfoldable pub sys_env_set_status : ℕ → ℕ → M Ret
sys_env_set_status envid status = set_known_status envid (status_of_code status)

unfoldable pub set_upcall : ℕ → ℕ → Kernel → Kernel
set_upcall e func k = set_env e (record (k.envs e) { env_pgfault_upcall = func }) k

unfoldable pub sys_env_set_pgfault_upcall : ℕ → ℕ → M Ret
unfolding set_upcall
sys_env_set_pgfault_upcall envid func =
    with_env envid true (λ e. do modify (set_upcall e func); pure (ret 0))
