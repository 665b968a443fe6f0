-- ===== src/User/Ipc.antt =====
-- lib/ipc.c: receiving, sending until the receiver takes it, and finding an environment by type.
use cs3510_operating_systems.Common.{
  List, Bool-cases, arith, refl, false, zero, inl, inr, suc, true, ℕ, Bool, ◌+◌, ◌<◌, ◌≡◌, ◌≢◌,
  ◌==◌, ◌∷◌, ◌⊎◌, if◌then◌else◌, ap, sym,
}
use cs3510_operating_systems.Layout.{utop}
use cs3510_operating_systems.Env.Sched.{nenv}
use cs3510_operating_systems.State.{Ret, ret, err, ipc_not_recv, Error}
use cs3510_operating_systems.User.System.{
  Call, call_ipc_recv, call_ipc_try_send, call_yield, System, Proc, done, panicked, unfinished, U,
  pure, user_panic, reads, invoke, invoke_checked, ◌>>=◌, ◌>>◌, UserEnv,
}

-- `if (pg == NULL) pg = UTOP`: no page.
abbrev no_page : ℕ → ℕ
no_page pg = if pg == 0 then utop else pg

-- What `ipc_recv` gives back: the result, and what it stores for the sender's id and the
-- permission where the caller asks for them.
pub record Received : Type 0 where
  pub result : Ret
  pub from_env : ℕ
  pub perm : ℕ

-- The value is an `int32_t` of any sign, so it stands as its pattern.
abbrev received : UserEnv → Received
received this = record {
  result = ret this.env_ipc_value;
  from_env = this.env_ipc_from;
  perm = this.env_ipc_perm;
}

abbrev is_not_recv : Error → Bool
is_not_recv ipc_not_recv = true
is_not_recv _ = false

module _ {S : Type 0} (system : System S) where
  abbrev after_recv : Ret → U S Received
  after_recv (err e) = pure (record { result = err e; from_env = 0; perm = 0 })
  after_recv (ret n) = reads (λ p. received (system.env p.sys p.thisenv))

  unfoldable pub ipc_recv : ℕ → U S Received
  unfolding invoke_checked
  ipc_recv pg = invoke_checked system (call_ipc_recv (no_page pg)) >>= after_recv

  -- What a round does with the answer: go on, return or panic.
  abbrev after_send : U S (Unit {0}) → Ret → U S (Unit {0})
  after_send rest (err e) = if is_not_recv e then (invoke system call_yield >> rest) else user_panic
  after_send rest (ret zero) = pure tt
  after_send rest (ret (suc n)) = invoke system call_yield >> rest

  -- The loop, for a number of rounds.
  unfoldable pub ipc_send : (rounds to_env value pg perm : ℕ) → U S (Unit {0})
  unfolding invoke
  ipc_send zero to_env value pg perm = λ p. unfinished
  ipc_send (suc rounds) to_env value pg perm =
      let rest = ipc_send rounds to_env value pg perm in
      invoke system (call_ipc_try_send to_env value (no_page pg) perm) >>= after_send rest

  -- The loop, with `n` environments to go, from `i` on.
  unfoldable find_env : S → ℕ → ℕ → ℕ → ℕ
  find_env s type zero i = 0
  find_env s type (suc n) i =
      let rest = find_env s type n (suc i) in
      if (system.env s i).env_type == type then (system.env s i).env_id else rest

  unfoldable pub ipc_find_env : ℕ → S → ℕ
  unfolding find_env
  ipc_find_env type s = find_env s type nenv 0

  -- The call made last was answered by 0.
  abbrev pub WasTaken : Call → Proc S → Type 0
  WasTaken c p =
      (s : S) × (cs : List Call) × (system.answer c s ≡ (ret 0, p.sys)) × (p.calls ≡ c ∷ cs)

  after_send-WasTaken :
      (c : Call) (p p' : Proc S) (rest : U S (Unit {0})) (a : Ret) (s : S)
      → system.answer c p.sys ≡ (a, s)
      → after_send rest a (record p { sys = s; calls = c ∷ p.calls }) ≡ done tt p'
      → ((q : Proc S) → rest q ≡ done tt p' → WasTaken c p')
      → WasTaken c p'
  unfolding invoke
  after_send-WasTaken c p p' rest (ret zero) s got end again =
      let same_proc : record p { sys = s; calls = c ∷ p.calls } ≡ p' = cc in
      let same_sys : s ≡ p'.sys = ap Proc.sys same_proc in
      (p.sys, p.calls, rw same_sys at got, ap Proc.calls (sym same_proc))
  after_send-WasTaken c p p' rest (ret (suc n)) s got end again = again _ end
  after_send-WasTaken c p p' rest (err e) s got end again = elim (Bool-cases (is_not_recv e)) [
    | inl t ↦ again _ (rw t at end)
    | inr f ↦ let stopped : panicked ≡ done tt p' = rw f at end in cc
  ]

  -- `ipc_send` returns only after the kernel has taken the message: the call that it made last is
  -- the send of this value, page and permission to that environment, and it was answered by 0.
  pub ipc_send-WasTaken :
      (rounds to_env value pg perm : ℕ) (p p' : Proc S)
      → ipc_send rounds to_env value pg perm p ≡ done tt p'
      → WasTaken (call_ipc_try_send to_env value (if pg == 0 then utop else pg) perm) p'
  unfolding ipc_send invoke
  ipc_send-WasTaken zero to_env value pg perm p p' end = cc
  ipc_send-WasTaken (suc n) to_env value pg perm p p' end =
      let c : Call = call_ipc_try_send to_env value (no_page pg) perm in
      let (a, s) = system.answer c p.sys in
      after_send-WasTaken c p p' (ipc_send n to_env value pg perm) a s refl end
        (λ q. ipc_send-WasTaken n to_env value pg perm q p')

  -- Environment `e` is the first of the type.
  abbrev pub IsFirstOf : S → ℕ → ℕ → Type 0
  IsFirstOf s type e =
      (e < 1024)
      × ((system.env s e).env_type ≡ type)
      × ((j : ℕ) → j < e → (system.env s j).env_type ≢ type)

  find_env_lem :
      (s : S) (type n i : ℕ)
      → i + n ≡ 1024
      → ((j : ℕ) → j < i → (system.env s j).env_type ≢ type)
      → ((e : ℕ) × IsFirstOf s type e × (find_env s type n i ≡ (system.env s e).env_id))
        ⊎ (((e : ℕ) → e < 1024 → (system.env s e).env_type ≢ type) × (find_env s type n i ≡ 0))
  unfolding find_env
  find_env_lem s type zero i sum before = inr (λ e b. before e (omega arith), refl)
  find_env_lem s type (suc n) i sum before = elim (Bool-cases ((system.env s i).env_type == type)) [
    | inl y ↦ inl (i, (omega arith, ground arith, before), rw y refl)
    | inr differs ↦ rw differs (
        find_env_lem s type n (suc i) (omega arith) (λ j b. elim (Bool-cases (j == i)) [
          | inl e ↦ let at : j ≡ i = ground arith in rw at (ground arith)
          | inr e ↦ before j (ground arith)
        ]))
  ]

  -- `ipc_find_env` gives the id of the first environment of the type, and 0 if there is none.
  pub ipc_find_env_lem :
      (s : S) (type : ℕ)
      → ((e : ℕ) × IsFirstOf s type e × (ipc_find_env type s ≡ (system.env s e).env_id))
        ⊎ (((e : ℕ) → e < 1024 → (system.env s e).env_type ≢ type) × (ipc_find_env type s ≡ 0))
  unfolding ipc_find_env
  ipc_find_env_lem s type = find_env_lem s type 1024 0 refl (λ j b. absurd (omega arith))
