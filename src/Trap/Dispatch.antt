-- ===== src/Trap/Dispatch.antt =====
-- `trap_dispatch` and `trap` of kern/trap.c. `getc` and `print` stand for the console's `cons_getc`
-- and `cprintf`, `monitor` for the kernel monitor, and `fault_va` for what the processor has in CR2;
-- that the frame is printed and that the interrupt controller is told are left out.
use cs3510_operating_systems.Common.{
  some, none, false, ℕ, Bool, true, ◌%◌, ◌==◌, if◌then◌else◌, Option,
}
use cs3510_operating_systems.Layout.{flag}
use cs3510_operating_systems.State.{
  PushRegs, Trapframe, EnvStatus, dying, Kernel, halted, M, pure, fail, left, modify, gets, ◌>>=◌,
  ◌>>◌,
}
use cs3510_operating_systems.Env.Sched.{cpu_halted, status_of, is_running, env_run, sched_yield}
use cs3510_operating_systems.Env.Life.{fl_if, env_destroy, env_free}
use cs3510_operating_systems.Syscall.Envs.{deref}
use cs3510_operating_systems.Syscall.Dispatch.{syscall, to_eax}
use cs3510_operating_systems.Trap.Gates.{gd_kt}
use cs3510_operating_systems.Trap.Fault.{
  Frame, on_stack, of_env, frame_at, set_frame, page_fault_handler,
}

abbrev pub is_dying : EnvStatus → Bool
is_dying dying = true
is_dying _ = false

abbrev cpu_started : ℕ
cpu_started = 1

-- `xchg` on the CPU's status.
abbrev pub start_cpu : M ℕ
start_cpu = do
  old ← gets Kernel.cpu_status
  modify (λ k. record k { cpu_status = cpu_started })
  pure old

-- The state is the one that the CPU finds after the wait for others, so a lock that is not free is
-- its own, on which `spin_lock` panics.
abbrev pub lock_kernel : M (Unit {0})
lock_kernel = do
  locked ← gets Kernel.kernel_lock
  if locked == 0 then modify (λ k. record k { kernel_lock = 1 }) else fail

abbrev pub set_eax : ℕ → Trapframe → Trapframe
set_eax v tf =
    let regs : PushRegs = tf.tf_regs in record tf { tf_regs = record regs { reg_eax = v } }

-- From user mode: the lock, and the frame moves from the stack to the environment.
unfoldable pub enter_kernel : Trapframe → M Frame
enter_kernel tf = do
  lock_kernel
  c ← gets Kernel.curenv
  e ← deref c
  status ← gets (λ k. status_of k e)
  (if is_dying status
      then (do env_free e; modify (λ k. record k { curenv = none }); sched_yield {A = Unit {0}})
      else pure tt)
  modify (set_frame (of_env e) (λ _. tf))
  pure (of_env e)

-- What `trap` does once a trap is handled.
abbrev pub resume_with : {A : Type 0} → Option ℕ → M A
resume_with none = sched_yield
resume_with (some e) = λ k. if is_running (status_of k e) then env_run e k else sched_yield k

unfoldable pub resume : {A : Type 0} → M A
resume = gets Kernel.curenv >>= resume_with

module _ (getc : M ℕ) (print : ℕ → ℕ → M (Unit {0})) (monitor : Frame → M (Unit {0}))
    (fault_va : ℕ) where
  unfoldable pub handle_syscall : Frame → M (Unit {0})
  handle_syscall frame = do
    regs ← gets (λ k. (frame_at frame k).tf_regs)
    r ←
        syscall getc print regs.reg_eax regs.reg_edx regs.reg_ecx regs.reg_ebx regs.reg_edi
          regs.reg_esi
    modify (set_frame frame (set_eax (to_eax r)))

  unfoldable pub unexpected : ℕ → M (Unit {0})
  unexpected cs =
      if cs == gd_kt then fail else (do c ← gets Kernel.curenv; e ← deref c; env_destroy e)

  unfoldable pub trap_dispatch : Frame → M (Unit {0})
  unfolding handle_syscall unexpected
  trap_dispatch frame = gets (frame_at frame) >>= λ tf.
      if tf.tf_trapno == 39
      then pure tt
      else if tf.tf_trapno == 3
      then monitor frame
      else if tf.tf_trapno == 14
      then page_fault_handler fault_va frame
      else if tf.tf_trapno == 48
      then handle_syscall frame
      else if tf.tf_trapno == 32
      then sched_yield
      else unexpected tf.tf_cs

  -- `trap` up to the dispatch; `eflags` is the processor's register.
  unfoldable pub handle : ℕ → Trapframe → M (Unit {0})
  unfolding enter_kernel trap_dispatch
  handle eflags tf = do
    old ← start_cpu
    (if old == cpu_halted then lock_kernel else pure tt)
    (if flag eflags fl_if then fail else pure tt)
    frame ← if tf.tf_cs % 4 == 3 then enter_kernel tf else pure (on_stack tf)
    trap_dispatch frame

  -- `panicked` tells whether some CPU has called `panic`.
  unfoldable pub trap : {A : Type 0} → Bool → ℕ → Trapframe → M A
  unfolding handle resume
  trap panicked eflags tf = if panicked then left halted else (handle eflags tf >> resume)
