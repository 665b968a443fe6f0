-- ===== src/User/System.antt =====
-- What a user program sees of the system: the calls of lib/syscall.c, the page tables at `uvpd` and
-- `uvpt`, the environments at `envs`, and its own memory. The kernel is a parameter, so that what
-- is proved holds whatever it answers.
use cs3510_operating_systems.Common.{ℕ, List, ◌∷◌, zero, suc}
use cs3510_operating_systems.State.{Ret, ret, err}

pub data Call : Type 0 where
  call_page_alloc : (envid va perm : ℕ) → Call
  call_page_map : (srcenv srcva dstenv dstva perm : ℕ) → Call
  call_page_unmap : (envid va : ℕ) → Call
  call_exofork call_getenvid call_yield : Call
  call_env_set_pgfault_upcall : (envid func : ℕ) → Call
  call_env_set_runnable : ℕ → Call
  call_ipc_try_send : (envid value va perm : ℕ) → Call
  call_ipc_recv : ℕ → Call

-- The fields of a `struct Env` that user code reads.
pub record UserEnv : Type 0 where
  pub env_id : ℕ
  pub env_type : ℕ
  pub env_pgfault_upcall : ℕ
  pub env_ipc_value : ℕ
  pub env_ipc_from : ℕ
  pub env_ipc_perm : ℕ

-- `answer` carries a call out. `move` is `memmove` in the program's memory.
pub record System (S : Type 0) : Type 0 where
  pub answer : Call → S → Ret × S
  pub uvpd_entry : S → ℕ → ℕ
  pub uvpt_entry : S → ℕ → ℕ
  pub env : S → ℕ → UserEnv
  pub move : (dst src n : ℕ) → S → S

-- `thisenv` is an index into `envs`, `pgfault_handler` the variable `_pgfault_handler`, and `calls`
-- the calls made so far, the latest first.
pub record Proc (S : Type 0) : Type 0 where
  pub sys : S
  pub thisenv : ℕ
  pub pgfault_handler : ℕ
  pub calls : List Call

-- `panicked` is `panic()`, which ends the program. `unfinished` is a loop that ran out of rounds.
pub data Outcome (S A : Type 0) : Type 0 where
  done : A → Proc S → Outcome S A
  panicked unfinished : Outcome S A

abbrev pub U : Type 0 → Type 0 → Type 0
U S A = Proc S → Outcome S A

abbrev pub pure : {S A : Type 0} → A → U S A
pure = done

abbrev pub user_panic : {S A : Type 0} → U S A
user_panic p = panicked

module _ {S A B : Type 0} where
  abbrev pub and_then : Outcome S A → (A → U S B) → Outcome S B
  and_then (done a p) f = f a p
  and_then panicked f = panicked
  and_then unfinished f = unfinished

  infixl 5 ◌>>=◌ ◌>>◌
  abbrev pub ◌>>=◌ : U S A → (A → U S B) → U S B
  m >>= f = λ p. and_then (m p) f

  abbrev pub ◌>>◌ : U S A → U S B → U S B
  m >> n = m >>= λ _. n

abbrev pub reads : {S A : Type 0} → (Proc S → A) → U S A
reads f p = done (f p) p

abbrev pub changes : {S : Type 0} → (Proc S → Proc S) → U S (Unit {0})
changes f p = done tt (f p)

abbrev pub answered : {S : Type 0} → Proc S → Call → Ret × S → Outcome S Ret
answered p c (r, s) = done r (record p { sys = s; calls = c ∷ p.calls })

unfoldable pub invoke : {S : Type 0} → System S → Call → U S Ret
invoke system c p = answered p c (system.answer c p.sys)

-- `syscall` of lib/syscall.c with `check`: a positive result is a panic.
abbrev pub checked : {S : Type 0} → Ret → U S Ret
checked (ret zero) = pure (ret 0)
checked (ret (suc n)) = user_panic
checked (err e) = pure (err e)

unfoldable pub invoke_checked : {S : Type 0} → System S → Call → U S Ret
unfolding invoke
invoke_checked system c = invoke system c >>= checked
