-- ===== src/State.antt =====
-- The kernel's state as one CPU sees it: `struct PageInfo` and the page table words
-- (inc/memlayout.h), `struct Trapframe` (inc/trap.h), `struct Env` (inc/env.h), the CPU's entry of
-- `cpus` (kern/cpu.h), and how a kernel function can end.
use cs3510_operating_systems.Common.{ℕ, Bool, Option, List}

pub record PageInfo : Type 0 where
  pub pp_link : Option ℕ
  pub pp_ref : ℕ

pub record PushRegs : Type 0 where
  pub reg_edi : ℕ
  pub reg_esi : ℕ
  pub reg_ebp : ℕ
  pub reg_oesp : ℕ
  pub reg_ebx : ℕ
  pub reg_edx : ℕ
  pub reg_ecx : ℕ
  pub reg_eax : ℕ

pub record Trapframe : Type 0 where
  pub tf_regs : PushRegs
  pub tf_es : ℕ
  pub tf_ds : ℕ
  pub tf_trapno : ℕ
  pub tf_err : ℕ
  pub tf_eip : ℕ
  pub tf_cs : ℕ
  pub tf_eflags : ℕ
  pub tf_esp : ℕ
  pub tf_ss : ℕ

pub data EnvStatus : Type 0 where
  free dying runnable running not_runnable : EnvStatus

-- A pointer into `pages` or `envs` is the index, or NULL. `env_pgdir` is the number of the page
-- that holds the directory. `env_id` is the pattern of an `int32_t`.
pub record Env : Type 0 where
  pub env_tf : Trapframe
  pub env_link : Option ℕ
  pub env_id : ℕ
  pub env_parent_id : ℕ
  pub env_type : ℕ
  pub env_status : EnvStatus
  pub env_runs : ℕ
  pub env_cpunum : ℕ
  pub env_pgdir : Option ℕ
  pub env_pgfault_upcall : ℕ
  pub env_ipc_recving : Bool
  pub env_ipc_dstva : ℕ
  pub env_ipc_value : ℕ
  pub env_ipc_from : ℕ
  pub env_ipc_perm : ℕ

-- `word n i` is the i-th 32-bit word of physical page n: entry i, if the page is a page table.
-- `invlpg` lists the addresses whose TLB entry was flushed, the latest first. `nextfree` is the
-- static variable of `boot_alloc`, and `mmio_next` the `base` of `mmio_map_region`.
pub record Kernel : Type 0 where
  pub npages : ℕ
  pub pages : ℕ → PageInfo
  pub page_free_list : Option ℕ
  pub word : ℕ → ℕ → ℕ
  pub kern_pgdir : Option ℕ
  pub user_mem_check_addr : ℕ
  pub envs : ℕ → Env
  pub env_free_list : Option ℕ
  pub curenv : Option ℕ
  pub cpunum : ℕ
  pub cpu_status : ℕ
  pub cr3 : ℕ
  pub invlpg : List ℕ
  pub kernel_lock : ℕ
  pub nextfree : ℕ
  pub mmio_next : ℕ

-- inc/error.h, less the codes that no kernel function returns.
pub data Error : Type 0 where
  bad_env inval no_mem no_free_env fault ipc_not_recv : Error

-- An `int` result: a value that is not negative, or minus an error code.
pub data Ret : Type 0 where
  ret : ℕ → Ret
  err : Error → Ret

-- The ways out of the kernel that do not return to the caller: to user mode in an environment,
-- by halting the CPU, or into the monitor's endless loop.
pub data Exit : Type 0 where
  user : ℕ → Exit
  halted : Exit
  in_monitor : Exit

-- `panic` is `panic()`, a failed assertion, or a kernel access through NULL. `hang` is a model
-- loop that ran out of rounds.
pub data Run (A : Type 0) : Type 0 where
  ok : A → Kernel → Run A
  left : Exit → Kernel → Run A
  panic : Run A
  hang : Run A

abbrev pub M : Type 0 → Type 0
M A = Kernel → Run A

abbrev pub pure : {A : Type 0} → A → M A
pure = ok

module _ {A B : Type 0} where
  abbrev pub and_then : Run A → (A → M B) → Run B
  and_then (ok a k) f = f a k
  and_then (left e k) f = left e k
  and_then panic f = panic
  and_then hang f = hang

  infixl 5 ◌>>=◌ ◌>>◌
  abbrev pub ◌>>=◌ : M A → (A → M B) → M B
  m >>= f = λ k. and_then (m k) f

  abbrev pub ◌>>◌ : M A → M B → M B
  m >> n = m >>= λ _. n

-- A field of the state, and a change of it.
abbrev pub gets : {A : Type 0} → (Kernel → A) → M A
gets f k = ok (f k) k

abbrev pub modify : (Kernel → Kernel) → M (Unit {0})
modify f k = ok tt (f k)

abbrev pub fail : {A : Type 0} → M A
fail k = panic
