-- ===== src/Tests/Calls.antt =====
-- The theorems on the system calls, run on the sample.
use cs3510_operating_systems.Common.{false, bit_or, arith, refl, ◌≡◌, ◌∷◌, [], inr, ℕ, true, ◌≢◌}
use cs3510_operating_systems.Env.Sched.{env_run}
use cs3510_operating_systems.Env.Sched.Order.{IsFirst}
use cs3510_operating_systems.State.{Kernel, ok, ret, not_runnable, runnable, and_then, pure}
use cs3510_operating_systems.Layout.{utop}
use cs3510_operating_systems.Env.Sched.{status_of, set_status}
use cs3510_operating_systems.Env.Life.{next_generation}
use cs3510_operating_systems.Syscall.Envs.{sys_exofork, sys_env_set_status}
use cs3510_operating_systems.Syscall.Envs.Status.{sys_exofork_lem, sys_env_set_status_lem}
use cs3510_operating_systems.Syscall.Ipc.{sys_ipc_try_send, sys_ipc_recv}
use cs3510_operating_systems.Syscall.Ipc.Deliver.{sys_ipc_try_send_delivers, sys_ipc_recv_lem}
use cs3510_operating_systems.Tests.Sample.{
  sample, sample-FreeList, sample-SlotChain, receiver_found,
}

sys_env_set_status_lem_example :
    sys_env_set_status 4097 4 sample ≡ ok (ret 0) (set_status 1 not_runnable sample)
sys_env_set_status_lem_example =
    ((sys_env_set_status_lem 4097 4 0 sample refl (λ e. omega arith)).1 not_runnable
        (inr (refl, refl))).0
      ((refl, refl), inr refl)

sys_exofork_lem_example :
    (k' : Kernel) × (sys_exofork sample ≡ ok (ret (bit_or (next_generation 4098) 2)) k')
    × (status_of k' 2 ≡ not_runnable)
sys_exofork_lem_example =
    let (k', done, _, _, status, _, _, _) =
      sys_exofork_lem 0 2 4 6 [] (5 ∷ []) sample refl (λ e. omega arith) sample-SlotChain
        sample-FreeList refl (λ e. omega arith) in
    (k', done, status)

sys_ipc_try_send_delivers_example :
    (k' : Kernel) × (sys_ipc_try_send 4099 42 utop 0 sample ≡ ok (ret 0) k')
    × ((k'.envs 3).env_ipc_recving ≡ false)
    × (status_of k' 3 ≡ runnable)
    × ((k'.envs 3).env_ipc_value ≡ 42)
sys_ipc_try_send_delivers_example =
    let (k', done, recving, status, value, _, _, _, _, _) =
      sys_ipc_try_send_delivers 4099 3 42 utop 0 sample receiver_found 0 refl refl refl in
    (k', done, recving, status, value)

sys_ipc_recv_lem_example :
    (k' : Kernel) × (e : ℕ) × IsFirst k' 1023 1 e
    × (sys_ipc_recv 4096 sample ≡ and_then (env_run {A = Unit {0}} e k') (λ _. pure (ret 0)))
    × ((k'.envs 0).env_ipc_recving ≡ true)
    × (status_of k' 0 ≡ not_runnable)
    × ((k'.envs 0).env_ipc_dstva ≡ 4096)
    × ((i : ℕ) → i ≢ 0 → k'.envs i ≡ sample.envs i)
sys_ipc_recv_lem_example =
    sys_ipc_recv_lem 0 1 4096 sample refl (omega arith) (omega arith) (λ e. omega arith) refl
      (λ l. refl)
