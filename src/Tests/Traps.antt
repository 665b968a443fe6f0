-- ===== src/Tests/Traps.antt =====
-- The theorems on traps and on the user library.
use cs3510_operating_systems.Common.{ℕ, refl, false, true, arith, ◌≡◌, ◌==◌, ◌∷◌, if◌then◌else◌, []}
use cs3510_operating_systems.State.{M, pure, Trapframe, Kernel, Ret, ret, err, ipc_not_recv}
use cs3510_operating_systems.Env.Sched.{env_run}
use cs3510_operating_systems.Env.Life.{user_tf, no_regs}
use cs3510_operating_systems.Syscall.Envs.{sys_getenvid, current}
use cs3510_operating_systems.Syscall.Dispatch.{syscall}
use cs3510_operating_systems.Trap.Fault.{Frame, of_env, set_frame}
use cs3510_operating_systems.Trap.Dispatch.{trap}
use cs3510_operating_systems.Trap.Leaves.{saved, with_result, trap_syscall}
use cs3510_operating_systems.User.System.{
  Call, call_exofork, call_page_map, call_page_alloc, call_env_set_runnable,
  call_env_set_pgfault_upcall, call_ipc_try_send, call_yield, UserEnv, System, Proc,
}
use cs3510_operating_systems.Layout.{pdx, pgnum}
use cs3510_operating_systems.User.Fork.{fork}
use cs3510_operating_systems.User.CopyOnWrite.{all_safe, fork_shares_safely}
use cs3510_operating_systems.User.Ipc.{ipc_send, WasTaken, ipc_send-WasTaken}
use cs3510_operating_systems.Tests.Sample.{sample}

abbrev no_keys : M ℕ
no_keys = pure 0

abbrev no_screen : ℕ → ℕ → M (Unit {0})
no_screen s len = pure tt

abbrev no_monitor : Frame → M (Unit {0})
no_monitor frame = pure tt

-- The environment that runs asks for its id.
abbrev id_call : Trapframe
id_call = record user_tf { tf_trapno = 48; tf_regs = record no_regs { reg_eax = 2 } }

abbrev in_user_mode : Kernel
in_user_mode = record sample { kernel_lock = 0 }

trap_syscall_example :
    trap no_keys no_screen no_monitor 0 {A = ℕ} false 0 id_call in_user_mode
    ≡ env_run 0 (set_frame (of_env 0) (with_result 4096) (saved 0 id_call in_user_mode))
unfolding syscall sys_getenvid current
trap_syscall_example =
    trap_syscall no_keys no_screen no_monitor 0 ℕ 0 id_call in_user_mode
      (saved 0 id_call in_user_mode) 0 (ret 4096) (λ e. omega arith) refl refl refl refl refl refl
      refl refl refl

abbrev plain_env : UserEnv
plain_env = record {
  env_id = 4096;
  env_type = 0;
  env_pgfault_upcall = 64;
  env_ipc_value = 0;
  env_ipc_from = 0;
  env_ipc_perm = 0;
}

-- A kernel that makes environment 4097 and takes a message at the second try; one page is mapped.
abbrev answers : Call → ℕ → Ret × ℕ
answers call_exofork s = (ret 4097, s)
answers (call_ipc_try_send to value va perm) s =
    if s == 0 then (err ipc_not_recv, 1) else (ret 0, s)
answers c s = (ret 0, s)

abbrev small_system : System ℕ
small_system = record {
  answer = answers;
  uvpd_entry = λ s i. if i == 954 then 7 else 0;
  uvpt_entry = λ s pn. if pn == 976900 then 7 else 0;
  env = λ s i. plain_env;
  move = λ dst src n s. s;
}

abbrev program : Proc ℕ
program = record { sys = 0; thisenv = 0; pgfault_handler = 32; calls = [] }

abbrev forked : Proc ℕ
forked = record program {
  calls =
      call_env_set_runnable 4097
      ∷ call_env_set_pgfault_upcall 4097 64
      ∷ call_page_alloc 4097 4005556224 7
      ∷ call_page_map 4097 4001382400 0 4001382400 2053
      ∷ call_page_map 0 4001382400 4097 4001382400 2053
      ∷ call_exofork
      ∷ [];
}

fork_shares_safely_example : all_safe forked.calls ≡ true
unfolding fork pdx pgnum
fork_shares_safely_example =
    fork_shares_safely small_system 64 32 program forked (ret 4097) refl refl

abbrev sent : Proc ℕ
sent = record program {
  sys = 1;
  calls =
      call_ipc_try_send 4097 5 4005560320 0
      ∷ call_yield
      ∷ call_ipc_try_send 4097 5 4005560320 0
      ∷ [];
}

ipc_send-WasTaken_example : WasTaken small_system (call_ipc_try_send 4097 5 4005560320 0) sent
unfolding ipc_send
ipc_send-WasTaken_example = ipc_send-WasTaken small_system 2 4097 5 0 0 program sent refl
