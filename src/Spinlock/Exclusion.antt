-- ===== src/Spinlock/Exclusion.antt =====
-- Several CPUs at one lock, a round of one of them at a time.
use cs3510_operating_systems.Common.{some, Bool, ℕ, false, update, true, ◌≡◌, ◌≢◌, ◌⊎◌, arith}
use cs3510_operating_systems.Spinlock.{
  Spinlock, spin_initlock, holding, acquired, spinning, spin_lock, spin_again, spin_unlock,
}

-- The lock, and which CPUs have returned from `spin_lock` and not yet unlocked.
pub record Machine : Type 0 where
  pub lock : Spinlock
  pub inside : ℕ → Bool

-- What a CPU that is not inside, or one that is, can do next.
pub data Step (m : Machine) : Machine → Type 0 where
  enter :
      (me : ℕ) (lk : Spinlock)
      → m.inside me ≡ false
      → (spin_lock me m.lock ≡ acquired lk) ⊎ (spin_again me m.lock ≡ acquired lk)
      → Step m (record { lock = lk; inside = update m.inside me true })
  wait :
      (me : ℕ) (lk : Spinlock)
      → m.inside me ≡ false
      → (spin_lock me m.lock ≡ spinning lk) ⊎ (spin_again me m.lock ≡ spinning lk)
      → Step m (record { lock = lk; inside = m.inside })
  leave :
      (me : ℕ) (lk : Spinlock)
      → m.inside me ≡ true
      → spin_unlock me m.lock ≡ some lk
      → Step m (record { lock = lk; inside = update m.inside me false })

pub data Reachable : Machine → Type 0 where
  start : Reachable (record { lock = spin_initlock; inside = λ _. false })
  next : {m m' : Machine} → Reachable m → Step m m' → Reachable m'

-- Who is inside is noted as holding the lock, and the lock word is set.
abbrev pub Noted : Machine → Type 0
Noted m = (i : ℕ) → m.inside i ≡ true → (m.lock.locked ≢ 0) × (m.lock.cpu ≡ some i)

-- A round that gets the lock found the lock word clear.
spin-acquired :
    (me : ℕ) (l lk : Spinlock)
    → (spin_lock me l ≡ acquired lk) ⊎ (spin_again me l ≡ acquired lk)
    → (l.locked ≡ 0) × (lk.locked ≡ 1) × (lk.cpu ≡ some me)
unfolding spin_lock spin_again
spin-acquired me l lk got = ground arith

-- A round that does not get it leaves it held, by the same CPU.
spin-spinning :
    (me : ℕ) (l lk : Spinlock)
    → (spin_lock me l ≡ spinning lk) ⊎ (spin_again me l ≡ spinning lk)
    → (lk.locked ≡ 1) × (lk.cpu ≡ l.cpu)
unfolding spin_lock spin_again
spin-spinning me l lk got = ground arith

-- Only the CPU that is noted can unlock.
spin_unlock-holder : (me : ℕ) (l lk : Spinlock) → spin_unlock me l ≡ some lk → l.cpu ≡ some me
unfolding spin_unlock holding
spin_unlock-holder me l lk got = ground arith

Step-Noted : (m m' : Machine) → Step m m' → Noted m → Noted m'
Step-Noted m m' (enter me lk out got) noted =
    λ i here. ground (arith, spin-acquired me m.lock lk got, noted i)
Step-Noted m m' (wait me lk out got) noted =
    λ i here. ground (arith, spin-spinning me m.lock lk got, noted i here)
Step-Noted m m' (leave me lk here' got) noted =
    λ i here. ground (arith, spin_unlock-holder me m.lock lk got, noted i)

Reachable-Noted : (m : Machine) → Reachable m → Noted m
Reachable-Noted m start = λ i here. absurd (ground arith)
Reachable-Noted m (next {m = before} reached step) =
    Step-Noted before m step (Reachable-Noted before reached)

-- However the rounds of the CPUs interleave from the initialised lock on, no two CPUs are at once
-- between the return of `spin_lock` and `spin_unlock`.
pub spin_lock-exclusive :
    (m : Machine) (i j : ℕ) → Reachable m → m.inside i ≡ true → m.inside j ≡ true → i ≡ j
spin_lock-exclusive m i j reached in₁ in₂ =
    let noted : Noted m = Reachable-Noted m reached in ground (arith, noted i in₁, noted j in₂)
