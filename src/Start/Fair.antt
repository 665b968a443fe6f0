-- ===== src/Start/Fair.antt =====
-- That `boot_aps` of kern/init.c returns, if each processor goes on.
use cs3510_operating_systems.Common.{
  ℕ, Bool-cases, inl, inr, ◌<◌, ◌≡◌, ◌⊎◌, ap, refl, suc, zero, arith, ◌+◌, ◌-◌, ◌*◌, ◌∙◌, ◌==◌,
  same, ◌≤◌, ◌≢◌,
}
use mathlib.Core.Path.{subst, sym}
use cs3510_operating_systems.Start.{
  at_test, other, boot, at_startap, at_end, at_wait, asleep, woken, on_stack, running, Place, Ap,
  Booting, Event, boot_at, ap_at, step,
}
use cs3510_operating_systems.Start.Stacks.{
  Fine, Loop, IsStart, start-Loop, start-Fine, step-Loop, step-Fine,
}
use cs3510_operating_systems.Start.Ends.{
  rank, boot_at-rank, startap-rank, wait-rank, woken-rank, on_stack-rank, step-boot, step-other,
  rank_at, rank_of, rank_of-more, step-end, rank_at, next_at, awaited, rank-step, rank-none,
}

module _ (ncpu self percpu_kstacks : ℕ) where
  -- A step changes nothing, or it brings the loop on.
  abbrev Progress : Event → Booting → Type 0
  Progress e m =
      (step ncpu self percpu_kstacks e m ≡ m)
      ⊎ (rank ncpu self percpu_kstacks (step ncpu self percpu_kstacks e m)
          < rank ncpu self percpu_kstacks m)

  from_place :
      (p : Place)
      → (m : Booting) → m.place ≡ p
      → {n : ℕ} → n < rank_at ncpu self percpu_kstacks p m
      → n < rank ncpu self percpu_kstacks m
  from_place p m e {n} b = subst (λ p. n < rank_at ncpu self percpu_kstacks p m) (sym e) b

  from_wait :
      (a : Ap)
      → (m : Booting) → m.place ≡ at_wait
      → m.ap m.c ≡ a
      → {n : ℕ} → n < 6 * (ncpu - m.c) - 5 + rank_of ncpu self percpu_kstacks a
      → n < rank ncpu self percpu_kstacks m
  from_wait a m e g {n} b =
      from_place at_wait m e
        (subst (λ a. n < 6 * (ncpu - m.c) - 5 + rank_of ncpu self percpu_kstacks a) (sym g) b)

  boot-Progress :
      (p : Place) → (m : Booting) → m.place ≡ p → Loop ncpu self percpu_kstacks m → Progress boot m
  unfolding step boot_at
  boot-Progress at_test m e l = inr (
      from_place at_test m e (
        step-boot ncpu self percpu_kstacks at_test m e
          (boot_at-rank ncpu self percpu_kstacks m l e)))
  boot-Progress at_startap m e l = inr (
      from_place at_startap m e (
        step-boot ncpu self percpu_kstacks at_startap m e
          (startap-rank ncpu self percpu_kstacks m l e)))
  boot-Progress at_wait m e l = elim (Bool-cases (m.cpu_status m.c == 1)) [
    | inl up ↦
        let less =
          step-boot ncpu self percpu_kstacks at_wait m e
            (wait-rank ncpu self percpu_kstacks m l e (ground arith)) in
        inr (
          from_place at_wait m e
            (omega (arith, less, rank_of-more ncpu self percpu_kstacks (m.ap m.c))))
    | inr not_yet ↦
        let waits : boot_at ncpu self percpu_kstacks at_wait m ≡ m = rw not_yet refl in
        inl (ap (λ p. boot_at ncpu self percpu_kstacks p m) e ∙ waits)
  ]
  boot-Progress at_end m e l = inl (step-end ncpu self percpu_kstacks m e)

  awaited-Progress :
      (m : Booting)
      → Loop ncpu self percpu_kstacks m
      → m.place ≡ at_wait
      → (m.ap m.c ≡ woken) ⊎ (m.ap m.c ≡ on_stack)
      → Progress (other m.c) m
  awaited-Progress m l e (inl g) = inr (
      from_wait woken m e g
        (step-other ncpu self percpu_kstacks woken m g (woken-rank ncpu self percpu_kstacks m l e)))
  awaited-Progress m l e (inr g) = inr (
      from_wait on_stack m e g (
        step-other ncpu self percpu_kstacks on_stack m g
          (on_stack-rank ncpu self percpu_kstacks m l e)))

  other-Progress :
      (a : Ap)
      → (x : ℕ) → (m : Booting) → m.ap x ≡ a
      → Loop ncpu self percpu_kstacks m
      → Fine ncpu self percpu_kstacks m x
      → Progress (other x) m
  unfolding step ap_at
  other-Progress asleep x m g l f = inl (ap (λ a. ap_at ncpu self percpu_kstacks a x m) g)
  other-Progress running x m g l f = inl (ap (λ a. ap_at ncpu self percpu_kstacks a x m) g)
  other-Progress woken x m g l f =
      let at : x ≡ m.c = ground arith in
      let e : m.place ≡ at_wait = ground arith in
      subst (λ y. Progress (other y) m) (sym at)
        (awaited-Progress m l e (inl (ap m.ap (sym at) ∙ g)))
  other-Progress on_stack x m g l f =
      let at : x ≡ m.c = ground arith in
      let e : m.place ≡ at_wait = ground arith in
      subst (λ y. Progress (other y) m) (sym at)
        (awaited-Progress m l e (inr (ap m.ap (sym at) ∙ g)))

  step-Progress :
      (e : Event)
      → (m : Booting) → Loop ncpu self percpu_kstacks m
      → ((x : ℕ) → Fine ncpu self percpu_kstacks m x)
      → Progress e m
  step-Progress boot m l f = boot-Progress m.place m refl l
  step-Progress (other x) m l f = other-Progress (m.ap x) x m refl l (f x)

  -- The state after the first `n` of the events `s`.
  unfoldable pub after : (ℕ → Event) → ℕ → Booting → Booting
  after s zero m = m
  after s (suc n) m = step ncpu self percpu_kstacks (s n) (after s n m)

  -- Again and again the boot processor makes a step, and so does each of the others.
  abbrev pub IsFair : (ℕ → Event) → Type 0
  IsFair s =
      ((n : ℕ) → (k : ℕ) × (s (n + k) ≡ boot))
      × ((x n : ℕ) → x < ncpu → x ≢ self → (k : ℕ) × (s (n + k) ≡ other x))

  after-Fine :
      (s : ℕ → Event)
      → (n : ℕ) → (m : Booting) → IsStart ncpu self percpu_kstacks m
      → Loop ncpu self percpu_kstacks (after s n m)
        × ((x : ℕ) → Fine ncpu self percpu_kstacks (after s n m) x)
  unfolding after
  after-Fine s zero m start =
      (start-Loop ncpu self percpu_kstacks m start, start-Fine ncpu self percpu_kstacks m start)
  after-Fine s (suc n) m start =
      let (l, f) = after-Fine s n m start in
      (
        step-Loop ncpu self percpu_kstacks (s n) (after s n m) l,
        step-Fine ncpu self percpu_kstacks (s n) (after s n m) l f,
      )

  -- The event that brings the loop on comes again.
  next_comes :
      (s : ℕ → Event)
      → IsFair s
      → (p : Place) → (m : Booting) → m.place ≡ p
      → Loop ncpu self percpu_kstacks m
      → (n : ℕ) → (k : ℕ) × (s (n + k) ≡ next_at ncpu self percpu_kstacks p m)
  next_comes s fair at_test m e l n = fair.0 n
  next_comes s fair at_startap m e l n = fair.0 n
  next_comes s fair at_end m e l n = fair.0 n
  next_comes s fair at_wait m e l n = awaited_comes (m.ap m.c)
    where
      awaited_comes : (a : Ap) → (k : ℕ) × (s (n + k) ≡ awaited ncpu self percpu_kstacks a m.c)
      awaited_comes running = fair.0 n
      awaited_comes asleep = fair.1 m.c n (ground arith) (ground arith)
      awaited_comes woken = fair.1 m.c n (ground arith) (ground arith)
      awaited_comes on_stack = fair.1 m.c n (ground arith) (ground arith)

  -- Until that event comes, nothing changes or the rank goes down.
  goes_down :
      (s : ℕ → Event)
      → (m : Booting) → IsStart ncpu self percpu_kstacks m
      → (r k n : ℕ) → rank ncpu self percpu_kstacks (after s n m) ≤ suc r
      → s (n + k) ≡ next_at ncpu self percpu_kstacks (after s n m).place (after s n m)
      → (i : ℕ) × (rank ncpu self percpu_kstacks (after s i m) ≤ r)
  unfolding after
  goes_down s m start r zero n b e =
      let (l, f) = after-Fine s n m start in
      let here : s n ≡ next_at ncpu self percpu_kstacks (after s n m).place (after s n m) =
        ap s (omega arith) ∙ e in
      (
        suc n,
        subst
            (λ x. rank ncpu self percpu_kstacks (step ncpu self percpu_kstacks x (after s n m)) ≤ r)
            (sym here)
            (rank-step ncpu self percpu_kstacks (after s n m).place r (after s n m) refl l
              (f (after s n m).c) b),
      )
  goes_down s m start r (suc k) n b e =
      let (l, f) = after-Fine s n m start in
      elim (step-Progress (s n) (after s n m) l f) [
        | inr less ↦ (suc n, omega (arith, less, b))
        | inl same ↦
            let later : s (suc n + k)
                ≡ next_at ncpu self percpu_kstacks (after s n m).place (after s n m) =
              ap s (omega arith) ∙ e in
            goes_down s m start r k (suc n)
              (subst (λ x. rank ncpu self percpu_kstacks x ≤ suc r) (sym same) b)
              (subst (λ x. s (suc n + k) ≡ next_at ncpu self percpu_kstacks x.place x) (sym same)
                later)
      ]

  comes_down :
      (s : ℕ → Event)
      → IsFair s
      → (m : Booting) → IsStart ncpu self percpu_kstacks m
      → (r n : ℕ) → rank ncpu self percpu_kstacks (after s n m) ≤ r
      → (i : ℕ) × ((after s i m).place ≡ at_end)
  comes_down s fair m start zero n b =
      let (l, f) = after-Fine s n m start in
      (n, rank-none ncpu self percpu_kstacks (after s n m).place (after s n m) refl l b)
  comes_down s fair m start (suc r) n b =
      let (l, f) = after-Fine s n m start in
      let (k, e) = next_comes s fair (after s n m).place (after s n m) refl l n in
      let (i, less) = goes_down s m start r k n b e in comes_down s fair m start r i less

  -- In any order of steps in which the boot processor and each of the others make a step again and
  -- again, `boot_aps` returns.
  pub boot_aps_returns :
      (s : ℕ → Event)
      → (m : Booting) → IsStart ncpu self percpu_kstacks m
      → IsFair s
      → (n : ℕ) × ((after s n m).place ≡ at_end)
  boot_aps_returns s m start fair =
      comes_down s fair m start (rank ncpu self percpu_kstacks (after s 0 m)) 0 (omega arith)
