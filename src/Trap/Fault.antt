-- ===== src/Trap/Fault.antt =====
-- `page_fault_handler` of kern/trap.c. A trap frame is the one on the kernel's stack, or that of an
-- environment. `fault_va` stands for what the processor has in CR2.
use cs3510_operating_systems.Common.{
  ltb, ℕ, bit_or, leb, List, ◌+◌, ◌-◌, ◌==◌, ◌&&◌, ◌∷◌, if◌then◌else◌, [],
}
use cs3510_operating_systems.Layout.{pgsize, pte_u, pte_w, uxstacktop, u32}
use cs3510_operating_systems.State.{PushRegs, Trapframe, Kernel, M, pure, modify, gets, ◌>>=◌, ◌>>◌}
use cs3510_operating_systems.Env.Sched.{set_env, env_run}
use cs3510_operating_systems.Env.Life.{env_destroy}
use cs3510_operating_systems.Syscall.Envs.{current, user_mem_assert}
use cs3510_operating_systems.Trap.UserStack.{store_user, store_words}

pub data Frame : Type 0 where
  on_stack : Trapframe → Frame
  of_env : ℕ → Frame

abbrev pub frame_at : Frame → Kernel → Trapframe
frame_at (on_stack tf) k = tf
frame_at (of_env e) k = (k.envs e).env_tf

-- A change of the frame; one on the stack is not looked at again.
abbrev pub set_frame : Frame → (Trapframe → Trapframe) → Kernel → Kernel
set_frame (on_stack tf) f k = k
set_frame (of_env e) f k = set_env e (record (k.envs e) { env_tf = f (k.envs e).env_tf }) k

abbrev pub sizeof_utrapframe : ℕ
sizeof_utrapframe = 52

-- Where the frame for the upcall goes: below the top of the exception stack, or, where the fault was
-- on that stack, below the word under its top.
unfoldable pub upcall_esp : ℕ → ℕ
upcall_esp esp =
    let top : ℕ =
      if ltb esp uxstacktop && leb (uxstacktop - pgsize) esp then esp - 4 else uxstacktop in
    top - sizeof_utrapframe

abbrev pub regs_words : PushRegs → List ℕ
regs_words r =
    r.reg_edi ∷ r.reg_esi ∷ r.reg_ebp ∷ r.reg_oesp ∷ r.reg_ebx ∷ r.reg_edx ∷ r.reg_ecx ∷ r.reg_eax
    ∷ []

-- The stores to `*utf`.
unfoldable pub push_utf : ℕ → ℕ → ℕ → Trapframe → M (Unit {0})
unfolding store_words
push_utf utf fault_va orig_esp tf = do
  store_words utf (fault_va ∷ tf.tf_err ∷ regs_words tf.tf_regs)
  store_user (u32 (utf + 48)) orig_esp
  store_user (u32 (utf + 40)) tf.tf_eip
  store_user (u32 (utf + 44)) tf.tf_eflags

-- The handler behind the check of the stack.
unfoldable pub push_and_run : {A : Type 0} → ℕ → ℕ → ℕ → Frame → ℕ → M A
unfolding push_utf
push_and_run utf fault_va orig_esp frame e = do
  tf ← gets (frame_at frame)
  push_utf utf fault_va orig_esp tf
  upcall ← gets (λ k. (k.envs e).env_pgfault_upcall)
  modify (set_frame frame (λ tf. record tf { tf_eip = upcall }))
  env_run e

-- The handler from the upcall on, in environment `e`.
unfoldable pub enter_upcall : {A : Type 0} → ℕ → Frame → ℕ → M A
unfolding push_and_run upcall_esp
enter_upcall fault_va frame e = do
  orig_esp ← gets (λ k. (frame_at frame k).tf_esp)
  let utf = upcall_esp orig_esp
  modify (set_frame frame (λ tf. record tf { tf_esp = utf }))
  user_mem_assert e utf (uxstacktop - utf) (bit_or pte_w pte_u)
  push_and_run utf fault_va orig_esp frame e

-- An environment without an upcall is destroyed.
unfoldable pub require_upcall : ℕ → ℕ → M (Unit {0})
require_upcall upcall e = if upcall == 0 then env_destroy e else pure tt

unfoldable pub page_fault_handler : {A : Type 0} → ℕ → Frame → M A
unfolding enter_upcall require_upcall
page_fault_handler fault_va frame = do
  e ← current
  upcall ← gets (λ k. (k.envs e).env_pgfault_upcall)
  require_upcall upcall e
  e' ← current
  enter_upcall fault_va frame e'
