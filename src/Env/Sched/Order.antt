-- ===== src/Env/Sched/Order.antt =====
-- Which environment `sched_yield` chooses.
use cs3510_operating_systems.Common.{
  Option, suc, ℕ, false, zero, arith, true, some, none, ◌+◌, ◌%◌, ◌<◌, ◌≡◌, if◌then◌else◌, refl,
  ◌≢◌, inr, Option-cases, Bool-cases, inl, ◌-◌, ◌∙◌,
}
use cs3510_operating_systems.State.{Kernel, Run}
use cs3510_operating_systems.Env.Sched.{
  nenv, is_runnable, is_running, status_of, env_run, sched_halt, sched_loop, sched_yield,
}

-- The first of `n` environments in circular order from `i` that is runnable.
find_runnable : Kernel → ℕ → ℕ → Option ℕ
find_runnable k zero i = none
find_runnable k (suc n) i =
    let rest = find_runnable k n ((i + 1) % nenv) in
    if is_runnable (status_of k i) then some i else rest

find_runnable-some :
    (k : Kernel) (n i e : ℕ) → find_runnable k n i ≡ some e → is_runnable (status_of k e) ≡ true
unfolding find_runnable
find_runnable-some k zero i e h = cc
find_runnable-some k (suc n) i e h = ground (arith, find_runnable-some k n ((i + 1) % nenv) e)

find_runnable-none :
    (k : Kernel) (n i m : ℕ)
    → find_runnable k n i ≡ none
    → i < 1024
    → m < n
    → is_runnable (status_of k ((i + m) % 1024)) ≡ false
unfolding find_runnable
find_runnable-none k zero i m h inside below = absurd (omega arith)
find_runnable-none k (suc n) i zero h inside below =
    let e : (i + 0) % 1024 ≡ i = omega arith in rw e (ground arith)
find_runnable-none k (suc n) i (suc m) h inside below =
    let e : (i + suc m) % 1024 ≡ ((i + 1) % 1024 + m) % 1024 = omega arith in
    rw e (find_runnable-none k n ((i + 1) % 1024) m (ground arith) (omega arith) (omega arith))

-- The loop without a current environment: the first runnable one, if any.
sched_loop_idle :
    (A : Type 0) (k : Kernel) (n i : ℕ)
    → k.curenv ≡ none
    → sched_loop {A = A} n i k
      ≡ elim (find_runnable k n i) [ none ↦ sched_halt k | some e ↦ env_run e k ]
unfolding sched_loop find_runnable
sched_loop_idle A k zero i idle = refl
sched_loop_idle A k (suc n) i idle = ground (arith, sched_loop_idle A k n ((i + 1) % nenv) idle)

-- What happens when the search comes round to the current environment.
abbrev come_round : {A : Type 0} → Kernel → ℕ → Run A
come_round k c = if is_running (status_of k c) then env_run c k else sched_halt k

-- The loop `r` places before the current environment `c`.
sched_loop_before :
    (A : Type 0) (k : Kernel) (c r n i : ℕ)
    → k.curenv ≡ some c
    → r < n
    → r < 1024
    → i < 1024
    → (i + r) % 1024 ≡ c
    → sched_loop {A = A} n i k
      ≡ elim (find_runnable k r i) [ none ↦ come_round k c | some e ↦ env_run e k ]
unfolding sched_loop find_runnable
sched_loop_before A k c r zero i cur f small inside at = absurd (omega arith)
sched_loop_before A k c zero (suc n) i cur f small inside at =
    let e : i ≡ c = omega arith in rw e (ground arith)
sched_loop_before A k c (suc r) (suc n) i cur f small inside at =
    let ne : c ≢ i = λ e. omega arith in
    ground (
      arith,
      ne,
      sched_loop_before A k c r n ((i + 1) % 1024) cur (omega arith) (omega arith) (omega arith)
          (omega arith),
    )

-- `e` is the first runnable one of `n` environments in circular order from `i`.
abbrev pub IsFirst : Kernel → ℕ → ℕ → ℕ → Type 0
IsFirst k n i e =
    (m : ℕ) × (m < n)
    × (e ≡ (i + m) % 1024)
    × (is_runnable (status_of k e) ≡ true)
    × ((l : ℕ) → l < m → is_runnable (status_of k ((i + l) % 1024)) ≡ false)

find_runnable-IsFirst :
    (k : Kernel) (n i e : ℕ) → find_runnable k n i ≡ some e → i < 1024 → IsFirst k n i e
unfolding find_runnable
find_runnable-IsFirst k zero i e h inside = cc
find_runnable-IsFirst k (suc n) i e h inside = elim (Bool-cases (is_runnable (status_of k i))) [
  | inl y ↦
      let e' : i ≡ e = ground arith in
      (0, omega arith, omega arith, rw (← e') y, λ l b. absurd (omega arith))
  | inr no_run ↦
      let (m, below, at, run, before) =
        find_runnable-IsFirst k n ((i + 1) % 1024) e (ground arith) (omega arith) in
      (
        suc m,
        omega arith,
        omega arith,
        run,
        elim [
          | zero ↦ λ b. let z : (i + 0) % 1024 ≡ i = omega arith in rw z no_run
          | suc l ↦ λ b.
              let z : (i + suc l) % 1024 ≡ ((i + 1) % 1024 + l) % 1024 = omega arith in
              rw z (before l (omega arith))
        ],
      )
]

sched_yield_from :
    (A : Type 0) (k : Kernel) (c : ℕ)
    → k.curenv ≡ some c
    → c < 1024
    → sched_yield {A = A} k ≡ elim (find_runnable k 1023 ((c + 1) % 1024)) [
      | none ↦ come_round k c
      | some e ↦ env_run e k
    ]
unfolding sched_yield
sched_yield_from A k c cur inside =
    let start : elim k.curenv as (λ _. ℕ) [ none ↦ 0 | some c ↦ (c + 1) % nenv ] ≡ (c + 1) % 1024 =
      ground arith in
    rw start (
      sched_loop_before A k c 1023 1024 ((c + 1) % 1024) cur (omega arith) (omega arith)
        (omega arith) (omega arith))

-- If an environment other than the current one is runnable, `sched_yield` runs one: the first in
-- circular order behind the current one.
pub sched_yield_next :
    (A : Type 0) (k : Kernel) (c j : ℕ)
    → k.curenv ≡ some c
    → c < 1024
    → j < 1024
    → j ≢ c
    → is_runnable (status_of k j) ≡ true
    → (e : ℕ) × IsFirst k 1023 ((c + 1) % 1024) e × (sched_yield {A = A} k ≡ env_run e k)
sched_yield_next A k c j cur inside inside' ne run =
    let from = sched_yield_from A k c cur inside in
    elim (Option-cases (find_runnable k 1023 ((c + 1) % 1024))) [
      | inr (e, h) ↦
          (e, find_runnable-IsFirst k 1023 ((c + 1) % 1024) e h (omega arith), from ∙ rw h)
      | inl h ↦
          let m : ℕ = (j + 1023 - c) % 1024 in
          let at : ((c + 1) % 1024 + m) % 1024 ≡ j = omega arith in
          let stopped : is_runnable (status_of k j) ≡ false =
            rw at at (find_runnable-none k 1023 ((c + 1) % 1024) m h (omega arith) (omega arith)) in
          absurd (ground arith)
    ]

-- If no other environment is runnable, `sched_yield` goes on with the current one exactly if that
-- is still marked as running, and halts the CPU otherwise, also where the current one is runnable.
pub sched_yield_alone :
    (A : Type 0) (k : Kernel) (c : ℕ)
    → k.curenv ≡ some c
    → c < 1024
    → ((j : ℕ) → j < 1024 → j ≢ c → is_runnable (status_of k j) ≡ false)
    → sched_yield {A = A} k ≡ (if is_running (status_of k c) then env_run c k else sched_halt k)
sched_yield_alone A k c cur inside others =
    let from = sched_yield_from A k c cur inside in
    elim (Option-cases (find_runnable k 1023 ((c + 1) % 1024))) [
      | inl h ↦ from ∙ rw h
      | inr (e, h) ↦
          let (m, below, at, run, _) =
            find_runnable-IsFirst k 1023 ((c + 1) % 1024) e h (omega arith) in
          let stopped : is_runnable (status_of k e) ≡ false =
            others e (omega arith) (λ same_one. omega arith) in
          absurd (ground arith)
    ]
