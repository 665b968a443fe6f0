-- ===== src/Tests/Devices.antt =====
-- The theorems on the console and the lock.
use cs3510_operating_systems.Spinlock.{Spinlock, spin_initlock, spin_lock, holding}
use cs3510_operating_systems.Spinlock.Exclusion.{
  Machine, Reachable, start, next, enter, spin_lock-exclusive,
}
use cs3510_operating_systems.Common.{
  arith, refl, ◌<◌, ◌≡◌, ◌∷◌, [], inl, true, some, update, false, ℕ,
}
use cs3510_operating_systems.Console.{Cons, Display, cons_take, cga_putc}
use cs3510_operating_systems.Console.Queue.{Holds, cons_queue}
use cs3510_operating_systems.Console.Ports.{cons_putc}
use cs3510_operating_systems.Console.Output.{written_to, on_serial, on_printer, cons_putc_lem}

-- One character waits in the last cell.
abbrev one_waiting : Cons
one_waiting = record { buf = λ _. 65; rpos = 511; wpos = 0 }

one_waiting-Holds : Holds one_waiting (65 ∷ [])
one_waiting-Holds = record { pending = ground arith; start = omega arith; room = omega arith }

cons_queue_example : (s : Cons) × (cons_take one_waiting ≡ (65, s)) × Holds s []
cons_queue_example = ((cons_queue one_waiting (65 ∷ []) one_waiting-Holds).3) 65 [] refl

abbrev last_cell : Display
last_cell = record { crt_buf = λ _. 32; crt_pos = 1999 }

cons_putc_lem_example :
    (on_serial (cons_putc (λ i p. 32) 980 9 (record { reads = 0; outs = [] }, last_cell)).0
      ≡ 32 ∷ 32 ∷ 32 ∷ 32 ∷ 32 ∷ 9 ∷ [])
    × (on_printer (cons_putc (λ i p. 32) 980 9 (record { reads = 0; outs = [] }, last_cell)).0
        ≡ 32 ∷ 32 ∷ 32 ∷ 32 ∷ 32 ∷ 9 ∷ [])
    × ((cons_putc (λ i p. 32) 980 9 (record { reads = 0; outs = [] }, last_cell)).1
        ≡ cga_putc 9 last_cell)
    × ((cons_putc (λ i p. 32) 980 9 (record { reads = 0; outs = [] }, last_cell)).1.crt_pos < 2000)
unfolding written_to
cons_putc_lem_example =
    cons_putc_lem (λ i p. 32) 980 9 (record { reads = 0; outs = [] }) last_cell (inl refl)
      (omega arith)

abbrev held : Spinlock
held = record { locked = 1; cpu = some 1 }

-- CPU 1 has taken the lock.
abbrev one_inside : Machine
one_inside = record { lock = held; inside = update (λ _. false) 1 true }

one_inside-Reachable : Reachable one_inside
unfolding spin_initlock spin_lock holding
one_inside-Reachable = next start (enter 1 held refl (inl refl))

abbrev cpu_one : ℕ
cpu_one = 1

spin_lock-exclusive_example : cpu_one ≡ cpu_one
spin_lock-exclusive_example =
    spin_lock-exclusive one_inside cpu_one cpu_one one_inside-Reachable refl refl

-- The key `a` with shift held.
