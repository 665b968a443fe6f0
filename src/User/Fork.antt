-- ===== src/User/Fork.antt =====
-- `set_pgfault_handler` of lib/pgfault.c and copy-on-write fork of lib/fork.c.
use cs3510_operating_systems.Common.{
  true, zero, suc, ℕ, not, false, bit_or, Bool, ◌+◌, ◌-◌, ◌*◌, ◌==◌, ◌!=◌, ◌||◌, if◌then◌else◌,
}
use cs3510_operating_systems.Layout.{
  flag, pte_p, pte_u, pte_w, pgsize, utop, uxstacktop, pgnum, pdx, u32,
}
use cs3510_operating_systems.Env.Lookup.{envx}
use cs3510_operating_systems.Syscall.Dispatch.{to_eax}
use cs3510_operating_systems.State.{Ret, ret, err}
use cs3510_operating_systems.User.System.{
  call_page_alloc, call_page_map, call_page_unmap, call_exofork, call_getenvid,
  call_env_set_pgfault_upcall, call_env_set_runnable, System, U, pure, user_panic, reads, changes,
  invoke, invoke_checked, ◌>>=◌, ◌>>◌,
}

abbrev pub pte_cow : ℕ
pte_cow = 0x800

abbrev fec_wr : ℕ
fec_wr = 2

abbrev pftemp : ℕ
pftemp = 0x7ff000

abbrev pub rw_perm : ℕ
rw_perm = bit_or (bit_or pte_p pte_u) pte_w

-- A test `r < 0` and a test `r` on a result.
abbrev pub fails : Ret → Bool
fails (ret n) = false
fails (err e) = true

abbrev pub is_not_0 : Ret → Bool
is_not_0 (ret n) = n != 0
is_not_0 (err e) = true

-- `if (r < 0) panic(...)` and `if (r) panic(...)`.
abbrev pub must_hold : {S : Type 0} → Ret → U S (Unit {0})
must_hold r = if fails r then user_panic else pure tt

abbrev pub must_be_0 : {S : Type 0} → Ret → U S (Unit {0})
must_be_0 r = if is_not_0 r then user_panic else pure tt

-- What `duppage` maps a page with.
unfoldable pub dup_perm : ℕ → ℕ
dup_perm entry =
    let perm : ℕ = bit_or pte_p pte_u in
    if flag entry pte_w || flag entry pte_cow then bit_or perm pte_cow else perm

module _ {S : Type 0} (system : System S) where
  abbrev pub save_handler : ℕ → U S (Unit {0})
  save_handler handler = changes (λ p. record p { pgfault_handler = handler })

  -- `upcall` is the address of `_pgfault_upcall` of lib/pfentry.S.
  unfoldable pub set_pgfault_handler : (upcall handler : ℕ) → U S (Unit {0})
  set_pgfault_handler upcall handler p =
      let id : ℕ = (system.env p.sys p.thisenv).env_id in
      let first =
        invoke_checked system (call_page_alloc id (uxstacktop - pgsize) rw_perm) >>= (λ made.
          if fails made
          then pure tt
          else (invoke_checked system (call_env_set_pgfault_upcall id upcall)
              >> save_handler handler)) in
      (if p.pgfault_handler == 0 then first else save_handler handler) p

  -- The handler `pgfault`, on the fault's address and error code. The results of its calls are not
  -- looked at.
  unfoldable pub pgfault : (addr code : ℕ) → U S (Unit {0})
  pgfault addr code = do
    entry ← reads (λ p. system.uvpt_entry p.sys (pgnum addr))
    (if not (flag code fec_wr) || not (flag entry pte_cow) then user_panic else pure tt)
    let pg_addr = u32 (pgnum addr * pgsize)
    invoke_checked system (call_page_alloc 0 pftemp rw_perm)
    changes (λ p. record p { sys = system.move pftemp pg_addr pgsize p.sys })
    invoke_checked system (call_page_map 0 pftemp 0 pg_addr rw_perm)
    invoke_checked system (call_page_unmap 0 pftemp)
    pure tt

  unfoldable pub duppage : (envid pn : ℕ) → U S (Unit {0})
  unfolding dup_perm invoke_checked
  duppage envid pn = reads (λ p. system.uvpt_entry p.sys pn) >>= λ entry.
      let va : ℕ = u32 (pn * pgsize) in
      let perm : ℕ = dup_perm entry in
      (invoke_checked system (call_page_map 0 va envid va perm) >>= must_hold)
      >> (invoke_checked system (call_page_map envid va 0 va perm) >>= must_be_0)

  -- The inner loop, with `n` entries of table `i` to go, from `j` on.
  unfoldable pub dup_entries : (pid i n j : ℕ) → U S (Unit {0})
  unfolding duppage
  dup_entries pid i zero j = pure tt
  dup_entries pid i (suc n) j =
      let rest = dup_entries pid i n (suc j) in
      let pn : ℕ = i * 1024 + j in
      reads (λ p. system.uvpt_entry p.sys pn) >>= (λ entry.
        if pn == pgnum (uxstacktop - pgsize)
        then rest
        else if flag entry pte_p
        then (duppage pid pn >> rest)
        else rest)

  -- The outer loop, with `n` tables to go, from `i` on.
  unfoldable pub dup_tables : (pid n i : ℕ) → U S (Unit {0})
  unfolding dup_entries
  dup_tables pid zero i = pure tt
  dup_tables pid (suc n) i =
      let rest = dup_tables pid n (suc i) in
      reads (λ p. system.uvpd_entry p.sys i)
      >>= (λ entry. if flag entry pte_p then (dup_entries pid i 1024 0 >> rest) else rest)

  unfoldable pub start_child : ℕ → U S Ret
  start_child pid = do
    invoke_checked system (call_page_alloc pid (uxstacktop - pgsize) rw_perm) >>= must_hold
    upcall ← reads (λ p. (system.env p.sys p.thisenv).env_pgfault_upcall)
    invoke_checked system (call_env_set_pgfault_upcall pid upcall) >>= must_be_0
    invoke_checked system (call_env_set_runnable pid) >>= must_be_0
    pure (ret pid)

  unfoldable pub in_child : U S Ret
  in_child = do
    self ← invoke system call_getenvid
    changes (λ p. record p { thisenv = envx (to_eax self) })
    pure (ret 0)

  -- `if (pid > 0)`: a failure goes the way of the child.
  unfoldable pub after_exofork : Ret → U S Ret
  unfolding dup_tables start_child in_child
  after_exofork (err e) = in_child
  after_exofork (ret pid) =
      if pid == 0 then in_child else (dup_tables pid (pdx utop) 0 >> start_child pid)

  -- `upcall` and `handler` are the addresses of `_pgfault_upcall` and `pgfault`.
  unfoldable pub fork : (upcall handler : ℕ) → U S Ret
  unfolding set_pgfault_handler after_exofork
  fork upcall handler = do
    set_pgfault_handler upcall handler
    pid ← invoke system call_exofork
    after_exofork pid
