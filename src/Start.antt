-- ===== src/Start.antt =====
-- kern/init.c: `boot_aps` on the boot processor, and `mp_main` with the entry code of kern/mpentry.S
-- on the others, one access to shared memory at a time.
pub mod Stacks
pub mod Ends
pub mod Fair
use cs3510_operating_systems.Common.{
  ℕ, List, ltb, update, suc, not, ◌+◌, ◌*◌, ◌==◌, ◌∷◌, if◌then◌else◌, [],
}
use cs3510_operating_systems.Layout.{kstksize}

-- Where `boot_aps` is: at the test of its loop, before `lapic_startap`, in the loop that waits for
-- the status, or behind its end.
pub data Place : Type 0 where
  at_test at_startap at_wait at_end : Place

-- Where another processor is: not started, before it loads its stack pointer, in `mp_main` before it
-- sets its status, or behind that.
pub data Ap : Type 0 where
  asleep woken on_stack running : Ap

-- `c` is the index of the loop, and `esp` the stack pointers.
pub record Booting : Type 0 where
  pub place : Place
  pub c : ℕ
  pub mpentry_kstack : ℕ
  pub ap : ℕ → Ap
  pub esp : ℕ → ℕ
  pub cpu_status : ℕ → ℕ

-- What happens next: a step of the boot processor, or of processor `x`.
pub data Event : Type 0 where
  boot : Event
  other : ℕ → Event

module _ (ncpu self percpu_kstacks : ℕ) where
  abbrev pub stack_top : ℕ → ℕ
  stack_top c = percpu_kstacks + c * kstksize + kstksize

  -- `self` is `cpunum()`. A processor's number is its index in `cpus`, as `mp_init` sets it.
  unfoldable pub boot_at : Place → Booting → Booting
  boot_at at_test m =
      if not (ltb m.c ncpu)
      then record m { place = at_end }
      else if m.c == self
      then record m { c = suc m.c }
      else record m { mpentry_kstack = stack_top m.c; place = at_startap }
  boot_at at_startap m = record m { ap = update m.ap m.c woken; place = at_wait }
  boot_at at_wait m = if m.cpu_status m.c == 1 then record m { c = suc m.c; place = at_test } else m
  boot_at at_end m = m

  unfoldable pub ap_at : Ap → ℕ → Booting → Booting
  ap_at asleep x m = m
  ap_at woken x m = record m { esp = update m.esp x m.mpentry_kstack; ap = update m.ap x on_stack }
  ap_at on_stack x m = record m { cpu_status = update m.cpu_status x 1; ap = update m.ap x running }
  ap_at running x m = m

  unfoldable pub step : Event → Booting → Booting
  unfolding boot_at ap_at
  step boot m = boot_at m.place m
  step (other x) m = ap_at (m.ap x) x m

  unfoldable pub run_events : List Event → Booting → Booting
  unfolding step
  run_events [] m = m
  run_events (e ∷ es) m = run_events es (step e m)
