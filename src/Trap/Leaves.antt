-- ===== src/Trap/Leaves.antt =====
-- What `trap` of kern/trap.c does for a system call: the frame is saved in the environment and the
-- call's result is in its `eax` when it runs again.
use cs3510_operating_systems.Common.{
  true, some, false, Bool, ℕ, refl, ◌%◌, ◌≡◌, ◌≢◌, arith, ap, ◌∙◌, ne→==, ==_refl, ◌==◌,
  if◌then◌else◌,
}
use cs3510_operating_systems.Layout.{flag}
use cs3510_operating_systems.Env.Life.{fl_if}
use cs3510_operating_systems.Syscall.Dispatch.{syscall, to_eax}
use cs3510_operating_systems.State.{
  Trapframe, Kernel, ok, M, pure, fail, ◌>>=◌, ◌>>◌, and_then, running, PushRegs, Ret,
}
use cs3510_operating_systems.Env.Sched.{status_of, env_run, cpu_halted}
use cs3510_operating_systems.Trap.Fault.{Frame, set_frame, on_stack, of_env}
use cs3510_operating_systems.Trap.Dispatch.{
  trap, handle, trap_dispatch, lock_kernel, resume, resume_with, enter_kernel, handle_syscall,
  set_eax,
}

-- A frame with this value in `eax`.
abbrev pub with_result : ℕ → Trapframe → Trapframe
with_result v tf = record tf { tf_regs = record (tf.tf_regs) { reg_eax = v } }

-- The state in which a trap from user mode is handled.
abbrev pub saved : ℕ → Trapframe → Kernel → Kernel
saved e tf k = set_frame (of_env e) (λ _. tf) (record k { cpu_status = 1; kernel_lock = 1 })

enter_kernel-saved :
    (tf : Trapframe) (k : Kernel) (e : ℕ)
    → k.kernel_lock ≡ 0
    → k.curenv ≡ some e
    → status_of k e ≡ running
    → enter_kernel tf (record k { cpu_status = 1 }) ≡ ok (of_env e) (saved e tf k)
unfolding enter_kernel
enter_kernel-saved tf k e unlocked cur run = ground arith

resume-running :
    (A : Type 0) (k : Kernel) (e : ℕ)
    → k.curenv ≡ some e
    → status_of k e ≡ running
    → resume {A = A} k ≡ env_run e k
unfolding resume
resume-running A k e cur run = ap (λ c. resume_with c k) cur ∙ (rw run refl)

module _ (getc : M ℕ) (print : ℕ → ℕ → M (Unit {0})) (monitor : Frame → M (Unit {0}))
    (fault_va : ℕ) where
  abbrev pub ask : PushRegs → M Ret
  ask regs =
      syscall getc print regs.reg_eax regs.reg_edx regs.reg_ecx regs.reg_ebx regs.reg_edi
        regs.reg_esi

  handle_syscall-ask :
      (e : ℕ) (k k' : Kernel) (r : Ret)
      → ask ((k.envs e).env_tf.tf_regs) k ≡ ok r k'
      → handle_syscall getc print monitor fault_va (of_env e) k
        ≡ ok tt (set_frame (of_env e) (set_eax (to_eax r)) k')
  unfolding handle_syscall
  handle_syscall-ask e k k' r made = rw made refl

  -- Where no test of `trap` stops it.
  abbrev past_tests : Bool → Bool → Bool → Trapframe → M (Unit {0})
  past_tests halted enabled user tf = do
    (if halted then lock_kernel else pure tt)
    (if enabled then fail else pure tt)
    frame ← if user then enter_kernel tf else pure (on_stack tf)
    trap_dispatch getc print monitor fault_va frame

  past_tests-enter :
      (halted enabled user : Bool) (tf : Trapframe) (k : Kernel)
      → halted ≡ false
      → enabled ≡ false
      → user ≡ true
      → past_tests halted enabled user tf k
        ≡ and_then (enter_kernel tf k) (trap_dispatch getc print monitor fault_va)
  past_tests-enter false false true tf k h i u = refl
  past_tests-enter _ _ false tf k h i u = cc
  past_tests-enter _ true _ tf k h i u = cc
  past_tests-enter true _ _ tf k h i u = cc

  saved-tf : (e : ℕ) (tf : Trapframe) (k : Kernel) → ((saved e tf k).envs e).env_tf ≡ tf
  saved-tf e tf k = rw (==_refl e) refl

  trap_dispatch-syscall :
      (e : ℕ) (k k' : Kernel) (tf : Trapframe) (r : Ret)
      → (k.envs e).env_tf ≡ tf
      → tf.tf_trapno ≡ 48
      → ask tf.tf_regs k ≡ ok r k'
      → trap_dispatch getc print monitor fault_va (of_env e) k
        ≡ ok tt (set_frame (of_env e) (set_eax (to_eax r)) k')
  unfolding trap_dispatch
  trap_dispatch-syscall e k k' tf r at call made =
      let number : (k.envs e).env_tf.tf_trapno ≡ 48 = ap Trapframe.tf_trapno at ∙ call in
      rw number (handle_syscall-ask e k k' r (ap (λ t. ask (Trapframe.tf_regs t) k) at ∙ made))

  handle-syscall :
      (eflags : ℕ) (tf : Trapframe) (k k' : Kernel) (e : ℕ) (r : Ret)
      → k.cpu_status ≢ cpu_halted
      → k.kernel_lock ≡ 0
      → k.curenv ≡ some e
      → status_of k e ≡ running
      → flag eflags fl_if ≡ false
      → tf.tf_cs % 4 ≡ 3
      → tf.tf_trapno ≡ 48
      → ask tf.tf_regs (saved e tf k) ≡ ok r k'
      → handle getc print monitor fault_va eflags tf k
        ≡ ok tt (set_frame (of_env e) (set_eax (to_eax r)) k')
  unfolding handle
  handle-syscall eflags tf k k' e r awake unlocked cur run off user call made =
      past_tests-enter (k.cpu_status == cpu_halted) (flag eflags fl_if) (tf.tf_cs % 4 == 3) tf
        (record k { cpu_status = 1 }) (ne→== k.cpu_status cpu_halted awake) off (ground arith)
      ∙ ap (λ r. and_then r (trap_dispatch getc print monitor fault_va))
          (enter_kernel-saved tf k e unlocked cur run)
      ∙ trap_dispatch-syscall e (saved e tf k) k' tf r (saved-tf e tf k) call made

  -- A system call from user mode, on a CPU that runs environment `e` with the lock free and
  -- interrupts off, is carried out on the state with the frame saved and the lock taken. If the
  -- call returns and `e` still runs, the trap ends in `env_run` of `e`, with the call's result in
  -- the saved `eax`.
  pub trap_syscall :
      (A : Type 0) (eflags : ℕ) (tf : Trapframe) (k k' : Kernel) (e : ℕ) (r : Ret)
      → k.cpu_status ≢ cpu_halted
      → k.kernel_lock ≡ 0
      → k.curenv ≡ some e
      → status_of k e ≡ running
      → flag eflags fl_if ≡ false
      → tf.tf_cs % 4 ≡ 3
      → tf.tf_trapno ≡ 48
      → ask tf.tf_regs (saved e tf k) ≡ ok r k'
      → k'.curenv ≡ some e
      → status_of k' e ≡ running
      → trap getc print monitor fault_va {A = A} false eflags tf k
        ≡ env_run e (set_frame (of_env e) (with_result (to_eax r)) k')
  unfolding trap
  trap_syscall A eflags tf k k' e r awake unlocked cur run off user call made cur' run' =
      ap (λ r. and_then r (λ u. resume {A = A}))
        (handle-syscall eflags tf k k' e r awake unlocked cur run off user call made)
      ∙ resume-running A (set_frame (of_env e) (set_eax (to_eax r)) k') e cur'
          (rw (==_refl e, status_of) run')
