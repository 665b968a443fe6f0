-- ===== src/User/CopyOnWrite.antt =====
-- What `fork` of lib/fork.c maps into a child.
use cs3510_operating_systems.Common.{
  not, List, Bool, ℕ, true, ltb, refl, ◌-◌, ◌<◌, ◌≡◌, ◌≢◌, ◌==◌, ◌!=◌, ◌&&◌, ◌∷◌, [], arith, ◌*◌,
  zero, inl, false, inr, suc, Bool-cases, ◌+◌, ◌||◌, if◌then◌else◌, sym, ap, ◌∙◌,
}
use cs3510_operating_systems.Layout.{pdx, pgnum, flag, pte_p, pte_w, pgsize, utop, uxstacktop, u32}
use cs3510_operating_systems.State.{Ret, ret, err, Error}
use cs3510_operating_systems.Syscall.Dispatch.{to_eax}
use cs3510_operating_systems.Env.Lookup.{envx}
use cs3510_operating_systems.User.System.{
  Call, call_page_map, call_page_alloc, call_exofork, call_getenvid, call_env_set_runnable,
  call_env_set_pgfault_upcall, System, Proc, Outcome, answered, done, panicked, unfinished, U, pure,
  reads, changes, invoke, checked, invoke_checked, and_then, ◌>>=◌, ◌>>◌,
}
use cs3510_operating_systems.User.Fork.{
  pte_cow, rw_perm, fails, save_handler, set_pgfault_handler, must_hold, must_be_0, dup_perm,
  duppage, dup_entries, dup_tables, start_child, in_child, after_exofork, fork,
}

-- A call that shares no memory for writing: a page goes to its own address, below `UTOP`, is not
-- the exception stack, and cannot be written to at the place it goes to.
abbrev pub shares_safely : Call → Bool
shares_safely (call_page_map src va dst va' perm) =
    va == va' && ltb va utop && va != uxstacktop - pgsize && not (flag perm pte_w)
shares_safely c = true

abbrev pub all_safe : List Call → Bool
all_safe [] = true
all_safe (c ∷ cs) = shares_safely c && all_safe cs

abbrev safe_outcome : {S A : Type 0} → Outcome S A → Bool
safe_outcome (done a p) = all_safe p.calls
safe_outcome panicked = true
safe_outcome unfinished = true

-- A piece of code that makes only such calls.
abbrev Safe : {S A : Type 0} → U S A → Type 0
Safe {S = S} m = (p : Proc S) → all_safe p.calls ≡ true → safe_outcome (m p) ≡ true

Safe-and_then :
    {S A B : Type 0} (r : Outcome S A) (f : A → U S B)
    → safe_outcome r ≡ true
    → ((a : A) → Safe (f a))
    → safe_outcome (and_then r f) ≡ true
Safe-and_then (done a p) f h k = k a p h
Safe-and_then panicked f h k = refl
Safe-and_then unfinished f h k = refl

module _ {S : Type 0} (system : System S) where
  invoke-Safe : (c : Call) → shares_safely c ≡ true → Safe (invoke system c)
  unfolding invoke
  invoke-Safe c safe p h = ground arith

  checked-Safe : (r : Ret) → Safe {S = S} (checked r)
  checked-Safe r p h = ground arith

  invoke_checked-Safe : (c : Call) → shares_safely c ≡ true → Safe (invoke_checked system c)
  unfolding invoke_checked
  invoke_checked-Safe c safe p h =
      Safe-and_then (invoke system c p) checked (invoke-Safe c safe p h) checked-Safe

  try_then-Safe :
      {A : Type 0} (c : Call) (f : Ret → U S A)
      → shares_safely c ≡ true
      → ((r : Ret) → Safe (f r))
      → Safe (invoke_checked system c >>= f)
  try_then-Safe c f safe k p h =
      Safe-and_then (invoke_checked system c p) f (invoke_checked-Safe c safe p h) k

  must_hold-Safe : (r : Ret) → Safe {S = S} (must_hold r)
  must_hold-Safe r p h = ground arith

  must_be_0-Safe : (r : Ret) → Safe {S = S} (must_be_0 r)
  must_be_0-Safe r p h = ground arith

  dup_perm-pte_w : (entry : ℕ) → flag (dup_perm entry) pte_w ≡ false
  unfolding dup_perm
  dup_perm-pte_w entry = elim (Bool-cases (flag entry pte_w || flag entry pte_cow)) [
    | inl e ↦ rw e refl
    | inr e ↦ rw e refl
  ]

  page_map-shares_safely :
      (src dst pn entry : ℕ)
      → pn < 977920
      → pn ≢ 977919
      → shares_safely
          (call_page_map src (u32 (pn * pgsize)) dst (u32 (pn * pgsize)) (dup_perm entry))
        ≡ true
  page_map-shares_safely src dst pn entry below apart =
      let small : u32 (pn * 4096) ≡ pn * 4096 = omega arith in
      rw (dup_perm-pte_w entry) (ground arith)

  duppage-Safe : (envid pn : ℕ) → pn < 977920 → pn ≢ 977919 → Safe (duppage system envid pn)
  unfolding duppage
  duppage-Safe envid pn below apart p h =
      let entry : ℕ = system.uvpt_entry p.sys pn in
      let va : ℕ = u32 (pn * pgsize) in
      Safe-and_then
        ((invoke_checked system (call_page_map 0 va envid va (dup_perm entry)) >>= must_hold) p)
        (λ u. invoke_checked system (call_page_map envid va 0 va (dup_perm entry)) >>= must_be_0)
        (try_then-Safe (call_page_map 0 va envid va (dup_perm entry)) must_hold
          (page_map-shares_safely 0 envid pn entry below apart) must_hold-Safe p h)
        (λ u.
          try_then-Safe (call_page_map envid va 0 va (dup_perm entry)) must_be_0
            (page_map-shares_safely envid 0 pn entry below apart) must_be_0-Safe)

  if-Safe :
      {A : Type 0} (b : Bool) (m n : U S A)
      → (b ≡ true → Safe m)
      → (b ≡ false → Safe n)
      → Safe (if b then m else n)
  if-Safe true m n hm hn = hm refl
  if-Safe false m n hm hn = hn refl

  then-Safe : {A B : Type 0} (m : U S A) (n : U S B) → Safe m → Safe n → Safe (m >> n)
  then-Safe m n hm hn p h = Safe-and_then (m p) (λ u. n) (hm p h) (λ u. hn)

  dup_entries-Safe : (pid i n j : ℕ) → i < 955 → j + n ≡ 1024 → Safe (dup_entries system pid i n j)
  unfolding dup_entries pgnum
  dup_entries-Safe pid i zero j inside sum p h = h
  dup_entries-Safe pid i (suc n) j inside sum p h =
      let pn : ℕ = i * 1024 + j in
      let present : Bool = flag (system.uvpt_entry p.sys pn) pte_p in
      let rest = dup_entries system pid i n (suc j) in
      let safe = dup_entries-Safe pid i n (suc j) inside (omega arith) in
      if-Safe (pn == 977919) rest (if present then duppage system pid pn >> rest else rest)
        (λ e. safe)
        (λ e.
          if-Safe present (duppage system pid pn >> rest) rest
            (λ e'.
              then-Safe (duppage system pid pn) rest
                (duppage-Safe pid pn (omega arith) (ground arith)) safe)
            (λ e'. safe))
        p h

  dup_tables-Safe : (pid n i : ℕ) → i + n ≡ 955 → Safe (dup_tables system pid n i)
  unfolding dup_tables
  dup_tables-Safe pid zero i sum p h = h
  dup_tables-Safe pid (suc n) i sum p h =
      let table = dup_entries system pid i 1024 0 in
      let rest = dup_tables system pid n (suc i) in
      let safe = dup_tables-Safe pid n (suc i) (omega arith) in
      if-Safe (flag (system.uvpd_entry p.sys i) pte_p) (table >> rest) rest
        (λ e. then-Safe table rest (dup_entries-Safe pid i 1024 0 (omega arith) refl) safe)
        (λ e. safe) p h

  start_child-Safe : (pid : ℕ) → Safe (start_child system pid)
  unfolding start_child
  start_child-Safe pid p h =
      let try_ : (Ret → U S (Unit {0})) → Call → U S (Unit {0}) =
        λ check c. invoke_checked system c >>= check in
      let last = try_ must_be_0 (call_env_set_runnable pid) >> pure (ret pid) in
      let set : ℕ → U S Ret =
        λ upcall. try_ must_be_0 (call_env_set_pgfault_upcall pid upcall) >> last in
      let last_safe : Safe last =
        then-Safe (try_ must_be_0 (call_env_set_runnable pid)) (pure (ret pid))
          (try_then-Safe (call_env_set_runnable pid) must_be_0 refl must_be_0-Safe) (λ p h. h) in
      let set_safe : (upcall : ℕ) → Safe (set upcall) = λ upcall.
        then-Safe (try_ must_be_0 (call_env_set_pgfault_upcall pid upcall)) last
          (try_then-Safe (call_env_set_pgfault_upcall pid upcall) must_be_0 refl must_be_0-Safe)
          last_safe in
      let stack : Call = call_page_alloc pid (uxstacktop - pgsize) rw_perm in
      let upcall : U S ℕ = reads (λ p. (system.env p.sys p.thisenv).env_pgfault_upcall) in
      then-Safe (try_ must_hold stack) (upcall >>= set)
        (try_then-Safe stack must_hold refl must_hold-Safe)
        (λ p. set_safe (system.env p.sys p.thisenv).env_pgfault_upcall p) p h

  in_child-Safe : Safe (in_child system)
  unfolding in_child
  in_child-Safe p h =
      Safe-and_then (invoke system call_getenvid p)
        (λ self. changes (λ p. record p { thisenv = envx (to_eax self) }) >> pure (ret 0))
        (invoke-Safe call_getenvid refl p h) (λ self p h. h)

  after_exofork-Safe : (r : Ret) → Safe (after_exofork system r)
  unfolding after_exofork pdx
  after_exofork-Safe (err e) = in_child-Safe
  after_exofork-Safe (ret pid) =
      if-Safe (pid == 0) (in_child system) (dup_tables system pid 955 0 >> start_child system pid)
        (λ e. in_child-Safe)
        (λ e.
          then-Safe (dup_tables system pid 955 0) (start_child system pid)
            (dup_tables-Safe pid 955 0 refl) (start_child-Safe pid))

  set_pgfault_handler-Safe : (upcall handler : ℕ) → Safe (set_pgfault_handler system upcall handler)
  unfolding set_pgfault_handler
  set_pgfault_handler-Safe upcall handler p h =
      let id : ℕ = (system.env p.sys p.thisenv).env_id in
      let save : U S (Unit {0}) = save_handler system handler in
      let set : U S (Unit {0}) =
        invoke_checked system (call_env_set_pgfault_upcall id upcall) >> save in
      let stack : Call = call_page_alloc id (uxstacktop - pgsize) rw_perm in
      let after : Ret → U S (Unit {0}) = λ made. if fails made then pure tt else set in
      if-Safe (p.pgfault_handler == 0) (invoke_checked system stack >>= after) save
        (λ e. try_then-Safe stack after refl (λ made.
          if-Safe (fails made) (pure tt) set (λ e p h. h)
            (λ e.
              then-Safe (invoke_checked system (call_env_set_pgfault_upcall id upcall)) save
                (invoke_checked-Safe (call_env_set_pgfault_upcall id upcall) refl) (λ p h. h))))
        (λ e p h. h) p h

  -- Whatever the kernel answers, every mapping that `fork` asks for, into the child or back into
  -- the parent, puts a page at its own address below `UTOP`, leaves out the exception stack, and
  -- does not let the page be written to.
  pub fork_shares_safely :
      (upcall handler : ℕ) (p p' : Proc S) (r : Ret)
      → all_safe p.calls ≡ true
      → fork system upcall handler p ≡ done r p'
      → all_safe p'.calls ≡ true
  unfolding fork
  fork_shares_safely upcall handler p p' r h end =
      let safe =
        Safe-and_then (set_pgfault_handler system upcall handler p)
          (λ u. invoke system call_exofork >>= after_exofork system)
          (set_pgfault_handler-Safe upcall handler p h)
          (λ u p h.
            Safe-and_then (invoke system call_exofork p) (after_exofork system)
              (invoke-Safe call_exofork refl p h) after_exofork-Safe) in
      ap safe_outcome (sym end) ∙ safe

  refused_after :
      (o : Outcome S (Unit {0})) (p' : Proc S) (r : Ret)
      → ((s : S) → (e : Error) × (s' : S) × (system.answer call_exofork s ≡ (err e, s')))
      → and_then o (λ u. invoke system call_exofork >>= after_exofork system) ≡ done r p'
      → r ≡ ret 0
  unfolding after_exofork in_child invoke
  refused_after panicked p' r refuses end = cc
  refused_after unfinished p' r refuses end = cc
  refused_after (done u q) p' r refuses end =
      let (e, s, at) = refuses q.sys in
      let child : in_child system (record q { sys = s; calls = call_exofork ∷ q.calls })
          ≡ done r p' =
        ap (λ a. and_then (answered q call_exofork a) (after_exofork system)) (sym at) ∙ end in
      cc

  -- Where the kernel refuses to make an environment, `fork` still answers 0 in the caller, as it
  -- does in a child.
  pub fork_refused :
      (upcall handler : ℕ) (p p' : Proc S) (r : Ret)
      → ((s : S) → (e : Error) × (s' : S) × (system.answer call_exofork s ≡ (err e, s')))
      → fork system upcall handler p ≡ done r p'
      → r ≡ ret 0
  unfolding fork
  fork_refused upcall handler p p' r refuses end =
      refused_after (set_pgfault_handler system upcall handler p) p' r refuses end
