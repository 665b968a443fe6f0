-- ===== src/Syscall/Ipc/Deliver.antt =====
-- What a message without a page does, and how a receiver waits.
use cs3510_operating_systems.Common.{
  ltb, ap, arith, ℕ, false, some, refl, true, ◌+◌, ◌%◌, ◌<◌, ◌≡◌, ◌≢◌, ◌∙◌, ◌&&◌, if◌then◌else◌,
  ◌!=◌,
}
use cs3510_operating_systems.Layout.{utop, pgsize}
use cs3510_operating_systems.Env.Lookup.{envid2env}
use cs3510_operating_systems.Env.Sched.{env_run, is_runnable, status_of}
use cs3510_operating_systems.Env.Sched.Order.{IsFirst, sched_yield_next}
use cs3510_operating_systems.Syscall.Envs.Status.{with_env_found}
use cs3510_operating_systems.Syscall.Ipc.{
  await, deliver, deliver_from, set_ipc_perm, send_to, send_mapping, recv_as, sys_ipc_recv,
  sys_ipc_try_send,
}
use cs3510_operating_systems.State.{
  runnable, not_runnable, Kernel, ok, ret, err, inval, ipc_not_recv, and_then, pure,
}

-- One side wants no page.
abbrev pub NoPage : ℕ → ℕ → Type 0
NoPage srcva dstva = (ltb srcva utop && ltb dstva utop) ≡ false

module _ (envid e value srcva perm : ℕ) (k : Kernel)
    (found : envid2env envid false k ≡ ok (ret 0, some e) k) where
  -- A send to an environment that is not receiving fails with the error for that, whatever the
  -- other arguments, and changes nothing.
  pub sys_ipc_try_send_refused :
      (k.envs e).env_ipc_recving ≡ false
      → sys_ipc_try_send envid value srcva perm k ≡ ok (err ipc_not_recv) k
  unfolding sys_ipc_try_send send_to
  sys_ipc_try_send_refused closed = with_env_found envid e false _ k found ∙ rw closed refl

  send_to_waiting :
      (k.envs e).env_ipc_recving ≡ true
      → NoPage srcva (k.envs e).env_ipc_dstva
      → send_to e value srcva perm k ≡ deliver_from e value k.curenv (set_ipc_perm e 0 k)
  unfolding send_to send_mapping
  send_to_waiting waits no_page = ground arith

  -- A send without a page to a receiving environment wakes it: it no longer receives, is runnable,
  -- has the value and the sender's id, no page permissions, and 0 as the result of its own call;
  -- no other environment and no page table changes.
  pub sys_ipc_try_send_delivers :
      (c : ℕ)
      → k.curenv ≡ some c
      → (k.envs e).env_ipc_recving ≡ true
      → NoPage srcva (k.envs e).env_ipc_dstva
      → (k' : Kernel) × (sys_ipc_try_send envid value srcva perm k ≡ ok (ret 0) k')
        × ((k'.envs e).env_ipc_recving ≡ false)
        × (status_of k' e ≡ runnable)
        × ((k'.envs e).env_ipc_value ≡ value)
        × ((k'.envs e).env_ipc_from ≡ (k.envs c).env_id)
        × ((k'.envs e).env_ipc_perm ≡ 0)
        × ((k'.envs e).env_tf.tf_regs.reg_eax ≡ 0)
        × ((j : ℕ) → j ≢ e → k'.envs j ≡ k.envs j)
        × (k'.word ≡ k.word)
  unfolding sys_ipc_try_send set_ipc_perm deliver
  sys_ipc_try_send_delivers c cur waits no_page =
      let k₁ : Kernel = set_ipc_perm e 0 k in
      let same_sender : (k₁.envs c).env_id ≡ (k.envs c).env_id = ground arith in
      (
        deliver e c value k₁,
        with_env_found envid e false _ k found
            ∙ send_to_waiting waits no_page
            ∙ ap (λ o. deliver_from e value o k₁) cur,
        ground arith,
        ground arith,
        ground arith,
        ground (arith, same_sender),
        ground arith,
        ground arith,
        λ j nj. ground arith,
        refl,
      )

-- `sys_ipc_recv` refuses an address below `UTOP` that is not on a page boundary, and changes
-- nothing.
pub sys_ipc_recv_refuses :
    (dstva : ℕ) (k : Kernel)
    → dstva < utop
    → dstva % pgsize ≢ 0
    → sys_ipc_recv dstva k ≡ ok (err inval) k
unfolding sys_ipc_recv
sys_ipc_recv_refuses dstva k l bad = ground arith

-- With an address at or above `UTOP` or on a page boundary, and where another environment than the
-- caller is runnable: `sys_ipc_recv` notes the address, or `UTOP` for none, and that the caller
-- receives and is not runnable, changes no other environment, and runs the first runnable one behind
-- the caller.
pub sys_ipc_recv_lem :
    (c j dstva : ℕ) (k : Kernel)
    → k.curenv ≡ some c
    → c < 1024
    → j < 1024
    → j ≢ c
    → is_runnable (status_of k j) ≡ true
    → (dstva < utop → dstva % pgsize ≡ 0)
    → (k' : Kernel) × (e : ℕ) × IsFirst k' 1023 ((c + 1) % 1024) e
      × (sys_ipc_recv dstva k ≡ and_then (env_run {A = Unit {0}} e k') (λ _. pure (ret 0)))
      × ((k'.envs c).env_ipc_recving ≡ true)
      × (status_of k' c ≡ not_runnable)
      × ((k'.envs c).env_ipc_dstva ≡ (if ltb dstva utop then dstva else utop))
      × ((i : ℕ) → i ≢ c → k'.envs i ≡ k.envs i)
unfolding sys_ipc_recv await recv_as
sys_ipc_recv_lem c j dstva k cur inside inside' ne run aligned =
    let k' : Kernel = await c dstva k in
    let accepted : (ltb dstva utop && (dstva % pgsize != 0)) ≡ false = ground arith in
    let run' : is_runnable (status_of k' j) ≡ true = ground arith in
    let (e, first, runs) = sched_yield_next (Unit {0}) k' c j cur inside inside' ne run' in
    (
      k',
      e,
      first,
      rw accepted (ap (λ o. recv_as dstva o k) cur) ∙ ap (λ r. and_then r (λ _. pure (ret 0))) runs,
      ground arith,
      ground arith,
      ground arith,
      λ i ni. ground arith,
    )
