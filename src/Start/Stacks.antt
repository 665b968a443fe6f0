-- ===== src/Start/Stacks.antt =====
-- That the processors which `boot_aps` of kern/init.c starts have a stack each.
use cs3510_operating_systems.Common.{
  ℕ, arith, ◌≤◌, ◌<◌, ◌≡◌, ◌≢◌, refl, List, ◌∷◌, ◌⊎◌, [], inr, inl,
}
use cs3510_operating_systems.Start.{
  at_test, other, boot, at_startap, at_end, at_wait, asleep, woken, on_stack, running, Place, Ap,
  Booting, stack_top, boot_at, ap_at, asleep, at_wait, woken, at_startap, on_stack, at_end, running,
  step, run_events, Event,
}

module _ (ncpu self percpu_kstacks : ℕ) where
  -- What holds of processor `x`, wherever it is.
  abbrev pub Fine : Booting → ℕ → Type 0
  Fine m x =
      (m.ap x ≡ asleep
        → x ≢ self
        → (m.cpu_status x ≢ 1) × (m.c ≤ x) × (x ≡ m.c → m.place ≢ at_wait))
      × (m.ap x ≡ woken → (x ≡ m.c) × (m.place ≡ at_wait) × (m.cpu_status x ≢ 1))
      × (m.ap x ≡ on_stack
          → (x ≡ m.c)
            × (m.place ≡ at_wait)
            × (m.cpu_status x ≢ 1)
            × (m.esp x ≡ stack_top ncpu self percpu_kstacks x))
      × (m.ap x ≡ running
          → ((m.c ≤ x) → (x ≡ m.c) × (m.place ≡ at_wait))
            × (m.cpu_status x ≡ 1)
            × (m.esp x ≡ stack_top ncpu self percpu_kstacks x))

  -- What holds of the loop.
  abbrev pub Loop : Booting → Type 0
  Loop m =
      (m.place ≡ at_wait
        → (m.mpentry_kstack ≡ stack_top ncpu self percpu_kstacks m.c) × (m.c ≢ self) × (m.c < ncpu))
      × (m.place ≡ at_startap
          → (m.mpentry_kstack ≡ stack_top ncpu self percpu_kstacks m.c)
            × (m.c ≢ self)
            × (m.c < ncpu))
      × (m.place ≡ at_end → ncpu ≤ m.c)
      × (m.ap self ≡ asleep)
      × (m.c ≤ ncpu)

  boot-Loop :
      (p : Place)
      → (m : Booting) → m.place ≡ p
      → Loop m
      → Loop (boot_at ncpu self percpu_kstacks p m)
  unfolding boot_at
  boot-Loop at_test m e l = ground arith
  boot-Loop at_startap m e l = ground arith
  boot-Loop at_wait m e l = ground arith
  boot-Loop at_end m e l = ground arith

  boot-Fine :
      (p : Place)
      → (m : Booting) → m.place ≡ p
      → Loop m
      → (x : ℕ) → Fine m x
      → Fine (boot_at ncpu self percpu_kstacks p m) x
  unfolding boot_at
  boot-Fine at_test m e l x f = ground arith
  boot-Fine at_startap m e l x f = ground arith
  boot-Fine at_wait m e l x f = ground arith
  boot-Fine at_end m e l x f = ground arith

  ap-Loop :
      (a : Ap)
      → (i : ℕ) → (m : Booting) → m.ap i ≡ a
      → Loop m
      → Loop (ap_at ncpu self percpu_kstacks a i m)
  unfolding ap_at
  ap-Loop asleep i m e l = ground arith
  ap-Loop woken i m e l = ground arith
  ap-Loop on_stack i m e l = ground arith
  ap-Loop running i m e l = ground arith

  ap-Fine :
      (a : Ap)
      → (i : ℕ) → (m : Booting) → m.ap i ≡ a
      → Loop m
      → Fine m i
      → (x : ℕ) → Fine m x
      → Fine (ap_at ncpu self percpu_kstacks a i m) x
  unfolding ap_at
  ap-Fine asleep i m e l g x f = ground arith
  ap-Fine woken i m e l g x f = ground arith
  ap-Fine on_stack i m e l g x f = ground arith
  ap-Fine running i m e l g x f = ground arith

  pub step-Loop : (e : Event) → (m : Booting) → Loop m → Loop (step ncpu self percpu_kstacks e m)
  unfolding step
  step-Loop boot m l = boot-Loop m.place m refl l
  step-Loop (other i) m l = ap-Loop (m.ap i) i m refl l

  pub step-Fine :
      (e : Event)
      → (m : Booting) → Loop m
      → ((x : ℕ) → Fine m x)
      → (x : ℕ) → Fine (step ncpu self percpu_kstacks e m) x
  unfolding step
  step-Fine boot m l f x = boot-Fine m.place m refl l x (f x)
  step-Fine (other i) m l f x = ap-Fine (m.ap i) i m refl l (f i) x (f x)

  pub run_events-Fine :
      (es : List Event)
      → (m : Booting) → Loop m
      → ((x : ℕ) → Fine m x)
      → Loop (run_events ncpu self percpu_kstacks es m)
        × ((x : ℕ) → Fine (run_events ncpu self percpu_kstacks es m) x)
  unfolding run_events
  run_events-Fine [] m l f = (l, f)
  run_events-Fine (e ∷ es) m l f =
      run_events-Fine es (step ncpu self percpu_kstacks e m) (step-Loop e m l) (step-Fine e m l f)

  -- The state at the call of `boot_aps`.
  pub record IsStart (m : Booting) : Type 0 where
    pub place : m.place ≡ at_test
    pub first : m.c ≡ 0
    pub alone : (x : ℕ) → m.ap x ≡ asleep
    pub unset : (x : ℕ) → x ≢ self → m.cpu_status x ≢ 1

  pub start-Loop : (m : Booting) → IsStart m → Loop m
  start-Loop m s = ground (arith, s.place, s.first, s.alone self)

  pub start-Fine : (m : Booting) → IsStart m → (x : ℕ) → Fine m x
  start-Fine m s x = ground (arith, s.place, s.first, s.alone x, s.unset x)

  Fine-stack :
      (m : Booting)
      → (x : ℕ) → Loop m
      → Fine m x
      → (m.ap x ≡ on_stack) ⊎ (m.ap x ≡ running)
      → (m.esp x ≡ stack_top ncpu self percpu_kstacks x) × (x ≢ self) × (x < ncpu)
  Fine-stack m x l f (inl here) = ground arith
  Fine-stack m x l f (inr here) = ground arith

  Fine-end :
      (a : Ap)
      → (m : Booting) → (x : ℕ) → m.ap x ≡ a
      → Loop m
      → Fine m x
      → m.place ≡ at_end
      → x < ncpu
      → x ≢ self
      → (m.ap x ≡ running) × (m.esp x ≡ stack_top ncpu self percpu_kstacks x)
  Fine-end asleep m x e l f done below ne = ground arith
  Fine-end woken m x e l f done below ne = ground arith
  Fine-end on_stack m x e l f done below ne = ground arith
  Fine-end running m x e l f done below ne = ground arith

  -- A processor that has loaded its stack pointer has that of its own stack, whatever happens in
  -- which order after the call of `boot_aps`, and it is one of the other processors.
  pub own_stack :
      (es : List Event)
      → (m : Booting) → (x : ℕ) → IsStart m
      → ((run_events ncpu self percpu_kstacks es m).ap x ≡ on_stack)
        ⊎ ((run_events ncpu self percpu_kstacks es m).ap x ≡ running)
      → ((run_events ncpu self percpu_kstacks es m).esp x ≡ stack_top ncpu self percpu_kstacks x)
        × (x ≢ self)
        × (x < ncpu)
  own_stack es m x s here =
      let (l, f) = run_events-Fine es m (start-Loop m s) (start-Fine m s) in
      Fine-stack (run_events ncpu self percpu_kstacks es m) x l (f x) here

  -- Where `boot_aps` has returned, whatever happened in which order, each of the other processors
  -- has set its status and runs on its own stack.
  pub all_running :
      (es : List Event)
      → (m : Booting) → (x : ℕ) → IsStart m
      → (run_events ncpu self percpu_kstacks es m).place ≡ at_end
      → x < ncpu
      → x ≢ self
      → ((run_events ncpu self percpu_kstacks es m).ap x ≡ running)
        × ((run_events ncpu self percpu_kstacks es m).esp x ≡ stack_top ncpu self percpu_kstacks x)
  all_running es m x s done below ne =
      let (l, f) = run_events-Fine es m (start-Loop m s) (start-Fine m s) in
      Fine-end _ (run_events ncpu self percpu_kstacks es m) x refl l (f x) done below ne
