-- ===== src/Syscall/Ipc.antt =====
-- Messages between environments: `sys_ipc_try_send` and `sys_ipc_recv` of kern/syscall.c.
pub mod Deliver
use cs3510_operating_systems.Common.{
  ℕ, true, false, not, ltb, ◌%◌, ◌!=◌, ◌&&◌, if◌then◌else◌, none, Option, some,
}
use cs3510_operating_systems.Layout.{pgsize, utop}
use cs3510_operating_systems.State.{
  PushRegs, Trapframe, Env, EnvStatus, runnable, not_runnable, Kernel, Run, ok, M, pure, ◌>>=◌,
  ◌>>◌, gets, modify, fail, Ret, ret, err, inval, ipc_not_recv,
}
use cs3510_operating_systems.Pmap.UserMem.{user_mem_check}
use cs3510_operating_systems.Pmap.Table.{page_lookup}
use cs3510_operating_systems.Env.Sched.{set_env, sched_yield}
use cs3510_operating_systems.Syscall.Envs.{current, with_env}
use cs3510_operating_systems.Syscall.Pages.{bad_perm, share_page}

unfoldable pub set_ipc_perm : ℕ → ℕ → Kernel → Kernel
set_ipc_perm e perm k = set_env e (record (k.envs e) { env_ipc_perm = perm }) k

-- The assignments behind a message that got through.
unfoldable pub deliver : ℕ → ℕ → ℕ → Kernel → Kernel
deliver target sender value k =
    let env : Env = k.envs target in
    let tf : Trapframe = env.env_tf in
    let regs : PushRegs = tf.tf_regs in
    set_env target
      (record env {
        env_ipc_recving = false;
        env_ipc_from = (k.envs sender).env_id;
        env_ipc_value = value;
        env_tf = record tf { tf_regs = record regs { reg_eax = 0 } };
        env_status = runnable;
      })
      k

abbrev pub after_check : ℕ → ℕ → ℕ → ℕ → Ret → M Ret
after_check sender target srcva perm (err _) = pure (err inval)
after_check sender target srcva perm (ret _) = do
  from ← gets (λ k. (k.envs sender).env_pgdir)
  found ← page_lookup from srcva
  to ← gets (λ k. (k.envs target).env_pgdir)
  dstva ← gets (λ k. (k.envs target).env_ipc_dstva)
  share_page to dstva perm found

unfoldable pub send_page : ℕ → ℕ → ℕ → M Ret
send_page target srcva perm = do
  sender ← current
  checked ← user_mem_check sender srcva pgsize perm
  after_check sender target srcva perm checked

-- `target->env_ipc_perm = perm`, where the page got through.
unfoldable pub note_perm : ℕ → ℕ → Ret → M Ret
note_perm target perm (err x) = pure (err x)
note_perm target perm (ret _) = do modify (set_ipc_perm target perm); pure (ret 0)

-- The page that goes with the message, if both sides want one.
unfoldable pub send_mapping : ℕ → ℕ → ℕ → M Ret
unfolding send_page set_ipc_perm
send_mapping target srcva perm = do
  dstva ← gets (λ k. (k.envs target).env_ipc_dstva)
  if ltb srcva utop && ltb dstva utop
      then (if srcva % pgsize != 0
          then pure (err inval)
          else if bad_perm perm
          then pure (err inval)
          else send_page target srcva perm >>= note_perm target perm)
      else (do modify (set_ipc_perm target 0); pure (ret 0))

abbrev pub deliver_from : ℕ → ℕ → Option ℕ → M Ret
deliver_from target value none = fail
deliver_from target value (some sender) = do modify (deliver target sender value); pure (ret 0)

abbrev pub after_mapping : ℕ → ℕ → Ret → M Ret
after_mapping target value (err x) = pure (err x)
after_mapping target value (ret _) = gets Kernel.curenv >>= deliver_from target value

unfoldable pub send_to : ℕ → ℕ → ℕ → ℕ → M Ret
unfolding send_mapping
send_to target value srcva perm = do
  recving ← gets (λ k. (k.envs target).env_ipc_recving)
  if not recving
      then pure (err ipc_not_recv)
      else (send_mapping target srcva perm >>= after_mapping target value)

unfoldable pub sys_ipc_try_send : ℕ → ℕ → ℕ → ℕ → M Ret
unfolding send_to
sys_ipc_try_send envid value srcva perm =
    with_env envid false (λ target. send_to target value srcva perm)

-- What `sys_ipc_recv` notes before it gives up the CPU.
unfoldable pub await : ℕ → ℕ → Kernel → Kernel
await e dstva k =
    set_env e
      (record (k.envs e) {
        env_ipc_dstva = if ltb dstva utop then dstva else utop;
        env_ipc_recving = true;
        env_status = not_runnable;
      })
      k

unfoldable pub recv_as : ℕ → Option ℕ → M Ret
recv_as dstva none = fail
recv_as dstva (some e) = do modify (await e dstva); sched_yield {A = Unit {0}}; pure (ret 0)

unfoldable pub sys_ipc_recv : ℕ → M Ret
sys_ipc_recv dstva =
    if ltb dstva utop && (dstva % pgsize != 0)
    then pure (err inval)
    else gets Kernel.curenv >>= recv_as dstva
