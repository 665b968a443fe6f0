-- ===== src/Env/Sched.antt =====
-- The scheduler of kern/sched.c, and `env_run` of kern/env.c.
pub mod Order
pub mod Switch
use cs3510_operating_systems.Common.{
  Bool, Option, suc, ℕ, false, zero, update, true, some, none, same, ◌+◌, ◌*◌, ◌%◌, ◌||◌,
  if◌then◌else◌,
}
use cs3510_operating_systems.Layout.{u32, pgsize}
use cs3510_operating_systems.State.{
  Env, EnvStatus, free, dying, runnable, running, not_runnable, Kernel, Exit, user, halted,
  in_monitor, Run, left, panic, M, ◌>>=◌, ◌>>◌, gets, modify, fail, ok,
}

abbrev pub nenv : ℕ
nenv = 1024

abbrev pub is_runnable : EnvStatus → Bool
is_runnable runnable = true
is_runnable _ = false

abbrev pub is_running : EnvStatus → Bool
is_running running = true
is_running _ = false

abbrev pub set_env : ℕ → Env → Kernel → Kernel
set_env e env k = record k { envs = update k.envs e env }

abbrev pub set_status : ℕ → EnvStatus → Kernel → Kernel
set_status e s k = set_env e (record (k.envs e) { env_status = s }) k

abbrev pub status_of : Kernel → ℕ → EnvStatus
status_of k e = (k.envs e).env_status

-- `PADDR` of a page's kernel address; it panics on NULL.
abbrev pub paddr : Option ℕ → M ℕ
paddr none = fail
paddr (some p) = ok (u32 (p * pgsize))

abbrev pub lcr3 : ℕ → M (Unit {0})
lcr3 pa = modify (λ k. record k { cr3 = pa })

abbrev pub unlock_kernel : M (Unit {0})
unlock_kernel = modify (λ k. record k { kernel_lock = 0 })

-- The running environment, if there is one and it is running, goes back to being runnable.
unfoldable pub preempt : Kernel → Kernel
preempt k = elim k.curenv [
  | none ↦ k
  | some c ↦ if is_running (status_of k c) then set_status c runnable k else k
]

-- `curenv = e` and what is recorded of the run.
unfoldable pub switch_to : ℕ → Kernel → Kernel
switch_to e k =
    let env : Env = k.envs e in
    record k {
      curenv = some e;
      envs =
          update k.envs e (record env { env_status = running; env_runs = u32 (env.env_runs + 1) });
    }

-- `env_pop_tf` notes the CPU and leaves for user mode.
unfoldable pub env_pop_tf : {A : Type 0} → ℕ → M A
env_pop_tf e k = left (user e) (set_env e (record (k.envs e) { env_cpunum = k.cpunum }) k)

unfoldable pub env_run : {A : Type 0} → ℕ → M A
unfolding preempt switch_to env_pop_tf
env_run e = do
  modify preempt
  modify (switch_to e)
  pgdir ← gets (λ k. (k.envs e).env_pgdir)
  pa ← paddr pgdir
  lcr3 pa
  unlock_kernel
  env_pop_tf e

abbrev pub is_live : EnvStatus → Bool
is_live runnable = true
is_live running = true
is_live dying = true
is_live _ = false

-- Whether any of `n` environments from `i` on keeps the system alive.
unfoldable pub any_live : Kernel → ℕ → ℕ → Bool
any_live k i zero = false
any_live k i (suc n) = is_live (status_of k i) || any_live k (suc i) n

abbrev pub cpu_halted : ℕ
cpu_halted = 2

unfoldable pub halt_cpu : {A : Type 0} → M A
halt_cpu = do
  modify (λ k. record k { curenv = none })
  pgdir ← gets Kernel.kern_pgdir
  pa ← paddr pgdir
  lcr3 pa
  modify (λ k. record k { cpu_status = cpu_halted })
  unlock_kernel
  left halted

unfoldable pub sched_halt : {A : Type 0} → M A
sched_halt k = if any_live k 0 nenv then halt_cpu k else left in_monitor k

-- The search loop, with the rounds that `ct` leaves.
unfoldable pub sched_loop : {A : Type 0} → ℕ → ℕ → M A
sched_loop zero i k = sched_halt k
sched_loop (suc rounds) i k =
    let rest = sched_loop rounds ((i + 1) % nenv) k in
    if same k.curenv (some i)
    then (if is_running (status_of k i) then env_run i k else sched_halt k)
    else if is_runnable (status_of k i)
    then env_run i k
    else rest

-- The source compares `i` with `cpu_env - envs` where `cpu_env` is NULL too; that difference is
-- taken for no index.
unfoldable pub sched_yield : {A : Type 0} → M A
sched_yield k = sched_loop nenv (elim k.curenv [ none ↦ 0 | some c ↦ (c + 1) % nenv ]) k
