-- ===== src/Start/Ends.antt =====
-- That `boot_aps` of kern/init.c can return.
use cs3510_operating_systems.Common.{
  ℕ, suc, ap, refl, ◌+◌, ◌-◌, ◌*◌, ◌<◌, ◌≡◌, ◌≢◌, Bool-cases, arith, ==_refl, inl, ltb, inr, ◌==◌,
  ◌≤◌,
}
use mathlib.Core.Path.{subst, sym}
use cs3510_operating_systems.Start.{
  at_test, other, boot, at_startap, at_end, at_wait, asleep, woken, on_stack, running, Place, Ap,
  Booting, Event, boot_at, ap_at, step,
}
use cs3510_operating_systems.Start.Stacks.{Fine, Loop}

module _ (ncpu self percpu_kstacks : ℕ) where
  -- The waiting boot processor needs the processor that it waits for.
  abbrev pub awaited : Ap → ℕ → Event
  awaited running c = boot
  awaited asleep c = other c
  awaited woken c = other c
  awaited on_stack c = other c

  abbrev pub next_at : Place → Booting → Event
  next_at at_test m = boot
  next_at at_startap m = boot
  next_at at_wait m = awaited (m.ap m.c) m.c
  next_at at_end m = boot

  abbrev pub rank_of : Ap → ℕ
  rank_of asleep = 3
  rank_of woken = 3
  rank_of on_stack = 2
  rank_of running = 1

  -- How many steps that bring the loop on are left at most.
  abbrev pub rank_at : Place → Booting → ℕ
  rank_at at_test m = 6 * (ncpu - m.c) + 1
  rank_at at_startap m = 6 * (ncpu - m.c) - 1
  rank_at at_wait m = 6 * (ncpu - m.c) - 5 + rank_of (m.ap m.c)
  rank_at at_end m = 0

  abbrev pub rank : Booting → ℕ
  rank m = rank_at m.place m

  pub boot_at-rank :
      (m : Booting)
      → Loop ncpu self percpu_kstacks m
      → m.place ≡ at_test
      → rank (boot_at ncpu self percpu_kstacks at_test m) < 6 * (ncpu - m.c) + 1
  unfolding boot_at
  boot_at-rank m l e = elim (Bool-cases (ltb m.c ncpu)) [
    | inr out ↦ rw out (omega arith)
    | inl more ↦ elim (Bool-cases (m.c == self)) [
      | inl here ↦ rw (more, here, e) (ground arith)
      | inr more' ↦ rw (more, more') (ground arith)
    ]
  ]

  pub startap-rank :
      (m : Booting)
      → Loop ncpu self percpu_kstacks m
      → m.place ≡ at_startap
      → rank (boot_at ncpu self percpu_kstacks at_startap m) < 6 * (ncpu - m.c) - 1
  unfolding boot_at
  startap-rank m l e = rw (==_refl m.c) (ground arith)

  pub wait-rank :
      (m : Booting)
      → Loop ncpu self percpu_kstacks m
      → m.place ≡ at_wait
      → m.cpu_status m.c ≡ 1
      → rank (boot_at ncpu self percpu_kstacks at_wait m) < 6 * (ncpu - m.c) - 5 + 1
  unfolding boot_at
  wait-rank m l e s = rw s (ground arith)

  pub woken-rank :
      (m : Booting)
      → Loop ncpu self percpu_kstacks m
      → m.place ≡ at_wait
      → rank (ap_at ncpu self percpu_kstacks woken m.c m) < 6 * (ncpu - m.c) - 5 + 3
  unfolding ap_at
  woken-rank m l e = rw (e, ==_refl m.c) (ground arith)

  pub on_stack-rank :
      (m : Booting)
      → Loop ncpu self percpu_kstacks m
      → m.place ≡ at_wait
      → rank (ap_at ncpu self percpu_kstacks on_stack m.c m) < 6 * (ncpu - m.c) - 5 + 2
  unfolding ap_at
  on_stack-rank m l e = rw (e, ==_refl m.c) (ground arith)

  pub step-boot :
      (p : Place)
      → (m : Booting) → m.place ≡ p
      → {n : ℕ} → rank (boot_at ncpu self percpu_kstacks p m) < n
      → rank (step ncpu self percpu_kstacks boot m) < n
  unfolding step
  step-boot p m e {n} b = subst (λ p. rank (boot_at ncpu self percpu_kstacks p m) < n) (sym e) b

  pub step-other :
      (a : Ap)
      → (m : Booting) → m.ap m.c ≡ a
      → {n : ℕ} → rank (ap_at ncpu self percpu_kstacks a m.c m) < n
      → rank (step ncpu self percpu_kstacks (other m.c) m) < n
  unfolding step
  step-other a m e {n} b = subst (λ a. rank (ap_at ncpu self percpu_kstacks a m.c m) < n) (sym e) b

  -- While the loop waits, that step brings it on.
  awaited-rank :
      (a : Ap)
      → (m : Booting) → m.ap m.c ≡ a
      → Loop ncpu self percpu_kstacks m
      → Fine ncpu self percpu_kstacks m m.c
      → m.place ≡ at_wait
      → rank (step ncpu self percpu_kstacks (awaited a m.c) m) < 6 * (ncpu - m.c) - 5 + rank_of a
  awaited-rank asleep m g l f e = absurd (ground arith)
  awaited-rank woken m g l f e = step-other woken m g (woken-rank m l e)
  awaited-rank on_stack m g l f e = step-other on_stack m g (on_stack-rank m l e)
  awaited-rank running m g l f e = step-boot at_wait m e (wait-rank m l e (ground arith))

  next-rank :
      (p : Place)
      → (m : Booting) → m.place ≡ p
      → Loop ncpu self percpu_kstacks m
      → Fine ncpu self percpu_kstacks m m.c
      → p ≢ at_end
      → rank (step ncpu self percpu_kstacks (next_at p m) m) < rank_at p m
  next-rank at_test m e l f ne = step-boot at_test m e (boot_at-rank m l e)
  next-rank at_startap m e l f ne = step-boot at_startap m e (startap-rank m l e)
  next-rank at_wait m e l f ne = awaited-rank (m.ap m.c) m refl l f e
  next-rank at_end m e l f ne = absurd (ne refl)

  pub rank_of-more : (a : Ap) → 0 < rank_of a
  rank_of-more asleep = omega arith
  rank_of-more woken = omega arith
  rank_of-more on_stack = omega arith
  rank_of-more running = omega arith

  pub rank-none :
      (p : Place)
      → (m : Booting) → m.place ≡ p
      → Loop ncpu self percpu_kstacks m
      → rank_at p m ≤ 0
      → p ≡ at_end
  rank-none at_test m e l b = absurd (omega arith)
  rank-none at_startap m e l b = absurd (ground arith)
  rank-none at_wait m e l b = absurd (omega (arith, rank_of-more (m.ap m.c)))
  rank-none at_end m e l b = refl

  pub step-end : (m : Booting) → m.place ≡ at_end → step ncpu self percpu_kstacks boot m ≡ m
  unfolding step boot_at
  step-end m e = ap (λ p. boot_at ncpu self percpu_kstacks p m) e

  pub rank-step :
      (p : Place)
      → (n : ℕ) → (m : Booting) → m.place ≡ p
      → Loop ncpu self percpu_kstacks m
      → Fine ncpu self percpu_kstacks m m.c
      → rank_at p m ≤ suc n
      → rank (step ncpu self percpu_kstacks (next_at p m) m) ≤ n
  rank-step at_end n m e l f b =
      subst (λ (x : Booting). rank x ≤ n) (sym (step-end m e))
        (subst (λ p. rank_at p m ≤ n) (sym e) (omega arith))
  rank-step at_test n m e l f b = omega (arith, next-rank at_test m e l f (λ x. ground arith))
  rank-step at_startap n m e l f b = omega (arith, next-rank at_startap m e l f (λ x. ground arith))
  rank-step at_wait n m e l f b = omega (arith, next-rank at_wait m e l f (λ x. ground arith))
