-- ===== src/Syscall/Dispatch.antt =====
-- `syscall` of kern/syscall.c, and the errors of inc/error.h as the numbers that user code sees.
use cs3510_operating_systems.Common.{ℕ, ◌^◌, ◌-◌, ◌==◌, if◌then◌else◌}
use cs3510_operating_systems.State.{
  M, pure, ◌>>=◌, Error, bad_env, inval, no_mem, no_free_env, fault, ipc_not_recv, Ret, ret, err,
}
use cs3510_operating_systems.Syscall.Envs.{
  sys_cputs, sys_getenvid, sys_env_destroy, sys_yield, sys_exofork, sys_env_set_status,
  sys_env_set_pgfault_upcall,
}
use cs3510_operating_systems.Syscall.Pages.{sys_page_alloc, sys_page_map, sys_page_unmap}
use cs3510_operating_systems.Syscall.Ipc.{sys_ipc_try_send, sys_ipc_recv}

abbrev pub error_code : Error → ℕ
error_code bad_env = 2
error_code inval = 3
error_code no_mem = 4
error_code no_free_env = 5
error_code fault = 6
error_code ipc_not_recv = 8

-- The pattern of the `int32_t` that goes back in `reg_eax`.
abbrev pub to_eax : Ret → ℕ
to_eax (ret n) = n
to_eax (err e) = 2 ^ 32 - error_code e

-- `getc` and `print` stand for the console's `cons_getc` and `cprintf`.
unfoldable pub syscall :
    (getc : M ℕ) (print : ℕ → ℕ → M (Unit {0})) (syscallno a1 a2 a3 a4 a5 : ℕ) → M Ret
syscall getc print syscallno a1 a2 a3 a4 a5 =
    if syscallno == 0
    then (sys_cputs print a1 a2 >>= λ _. pure (ret syscallno))
    else if syscallno == 1
    then (getc >>= λ c. pure (ret c))
    else if syscallno == 2
    then sys_getenvid
    else if syscallno == 3
    then sys_env_destroy a1
    else if syscallno == 4
    then sys_page_alloc a1 a2 a3
    else if syscallno == 5
    then sys_page_map a1 a2 a3 a4 a5
    else if syscallno == 6
    then sys_page_unmap a1 a2
    else if syscallno == 7
    then sys_exofork
    else if syscallno == 8
    then sys_env_set_status a1 a2
    else if syscallno == 9
    then sys_env_set_pgfault_upcall a1 a2
    else if syscallno == 10
    then (sys_yield >>= λ _. pure (ret 0))
    else if syscallno == 11
    then sys_ipc_try_send a1 a2 a3 a4
    else if syscallno == 12
    then sys_ipc_recv a1
    else pure (err inval)
