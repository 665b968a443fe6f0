-- ===== src/Env/Sched/Switch.antt =====
-- What `env_run` leaves behind when it enters user mode.
use cs3510_operating_systems.Common.{
  some, update, refl, arith, ℕ, true, ◌+◌, ◌*◌, ◌≡◌, ◌≢◌, false, ◌∙◌, ap,
}
use cs3510_operating_systems.State.{
  EnvStatus, runnable, running, Kernel, left, user, and_then, ◌>>◌,
}
use cs3510_operating_systems.Layout.{u32}
use cs3510_operating_systems.Env.Sched.{
  is_running, status_of, paddr, lcr3, unlock_kernel, preempt, switch_to, env_pop_tf, env_run,
}

-- At most the current environment is marked as running.
abbrev pub OnlyCurrent : Kernel → Type 0
OnlyCurrent k = (e : ℕ) → is_running (status_of k e) ≡ true → k.curenv ≡ some e

-- What a context switch makes of the status of an environment that is not chosen.
abbrev preempted : EnvStatus → EnvStatus
preempted running = runnable
preempted s = s

-- The state in which environment `e` is entered.
entered : ℕ → ℕ → Kernel → Kernel
entered e pgdir k =
    let k' : Kernel = switch_to e (preempt k) in
    record k' {
      cr3 = u32 (pgdir * 4096);
      kernel_lock = 0;
      envs = update k'.envs e (record (k'.envs e) { env_cpunum = k'.cpunum });
    }

-- What `preempt` leaves alone, and what it does to a status.
preempt-env_pgdir : (k : Kernel) (e : ℕ) → ((preempt k).envs e).env_pgdir ≡ (k.envs e).env_pgdir
unfolding preempt
preempt-env_pgdir k e = ground arith

preempt-env_runs : (k : Kernel) (e : ℕ) → ((preempt k).envs e).env_runs ≡ (k.envs e).env_runs
unfolding preempt
preempt-env_runs k e = ground arith

preempt-status_of :
    (k : Kernel) (j : ℕ) → OnlyCurrent k → status_of (preempt k) j ≡ preempted (status_of k j)
unfolding preempt
preempt-status_of k j only = ground (arith, only j)

not-running-preempted : (s : EnvStatus) → is_running (preempted s) ≡ false
not-running-preempted s = ground arith

-- What `switch_to` makes of the chosen environment and of another one.
record Switched (k : Kernel) (e : ℕ) : Type 0 where
  current : (switch_to e k).curenv ≡ some e
  status : status_of (switch_to e k) e ≡ running
  runs : ((switch_to e k).envs e).env_runs ≡ u32 ((k.envs e).env_runs + 1)
  pgdir : ((switch_to e k).envs e).env_pgdir ≡ (k.envs e).env_pgdir
  others : (j : ℕ) → j ≢ e → status_of (switch_to e k) j ≡ status_of k j

switch_to-Switched : (k : Kernel) (e : ℕ) → Switched k e
unfolding switch_to
switch_to-Switched k e = record {
  current = refl;
  status = ground arith;
  runs = ground arith;
  pgdir = ground arith;
  others = λ j ne. ground arith;
}

-- `env_run` enters user mode in an environment that has a page directory: it is the current one and
-- marked as running, its directory is loaded, the kernel lock is free, the number of its runs grows
-- by one, any other environment that was running is runnable, and again no environment but the
-- current one is marked as running.
pub env_run-OnlyCurrent :
    (A : Type 0) (e pgdir : ℕ) (k : Kernel)
    → OnlyCurrent k
    → (k.envs e).env_pgdir ≡ some pgdir
    → (k' : Kernel) × (env_run {A = A} e k ≡ left (user e) k')
      × OnlyCurrent k'
      × (k'.curenv ≡ some e)
      × (status_of k' e ≡ running)
      × ((k'.envs e).env_runs ≡ u32 ((k.envs e).env_runs + 1))
      × (k'.cr3 ≡ u32 (pgdir * 4096))
      × (k'.kernel_lock ≡ 0)
      × ((j : ℕ) → j ≢ e → status_of k' j ≡ preempted (status_of k j))
unfolding env_run entered env_pop_tf
env_run-OnlyCurrent A e pgdir k only has_dir =
    let s : Switched (preempt k) e = switch_to-Switched (preempt k) e in
    (
      entered e pgdir k,
      ap
          (λ o.
            and_then (paddr o (switch_to e (preempt k)))
              (λ pa. lcr3 pa >> (unlock_kernel >> env_pop_tf {A = A} e)))
          (s.pgdir ∙ preempt-env_pgdir k e ∙ has_dir),
      (λ j run. ground (
        arith,
        s.current,
        s.others j,
        preempt-status_of k j only,
        not-running-preempted (status_of k j),
      )),
      s.current,
      ground (arith, s.status),
      ground (arith, s.runs, preempt-env_runs k e),
      refl,
      refl,
      λ j ne. ground (arith, s.others j ne, preempt-status_of k j only),
    )
