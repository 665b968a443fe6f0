-- ===== src/Spinlock.antt =====
-- kern/spinlock.c: the lock word and the CPU that is noted as holding it. The call chain that is kept
-- for messages is left out.
pub mod Exclusion
use cs3510_operating_systems.Common.{
  Option, same, none, ℕ, not, Bool, some, ◌!=◌, ◌&&◌, if◌then◌else◌,
}

pub record Spinlock : Type 0 where
  pub locked : ℕ
  pub cpu : Option ℕ

-- A name is kept for messages only.
unfoldable pub spin_initlock : Spinlock
spin_initlock = record { locked = 0; cpu = none }

unfoldable pub holding : ℕ → Spinlock → Bool
holding me lk = lk.locked != 0 && same lk.cpu (some me)

-- `xchg`: the old value, and the lock with the new one.
abbrev pub exchange : ℕ → Spinlock → ℕ × Spinlock
exchange v lk = (lk.locked, record lk { locked = v })

-- What a CPU sees of one round of the loop of `spin_lock`: it has the lock, goes round again, or
-- panics because it has the lock already.
pub data Attempt : Type 0 where
  acquired spinning : Spinlock → Attempt
  already_holding : Attempt

abbrev pub after_exchange : ℕ → ℕ × Spinlock → Attempt
after_exchange me (old, lk) =
    if old != 0 then spinning lk else acquired (record lk { cpu = some me })

-- The first round, which tests who holds the lock, and a later one.
unfoldable pub spin_lock : ℕ → Spinlock → Attempt
unfolding holding
spin_lock me lk = if holding me lk then already_holding else after_exchange me (exchange 1 lk)

unfoldable pub spin_again : ℕ → Spinlock → Attempt
spin_again me lk = after_exchange me (exchange 1 lk)

-- The lock that is left, or none where the CPU does not hold it, which panics.
unfoldable pub spin_unlock : ℕ → Spinlock → Option Spinlock
unfolding holding
spin_unlock me lk =
    if not (holding me lk)
    then none
    else (let (old, released) = exchange 0 (record lk { cpu = none }) in some released)
