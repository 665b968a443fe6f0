-- ===== src/Tests/Starting.antt =====
-- The theorems on starting the processors, with two of them.
use cs3510_operating_systems.Common.{
  List, inl, arith, refl, ◌<◌, ◌≡◌, ◌≢◌, ◌==◌, ◌∷◌, if◌then◌else◌, [], ℕ, ◌%◌, ◌+◌,
}
use cs3510_operating_systems.Start.{
  boot, other, at_test, at_end, asleep, running, Event, Booting, run_events,
}
use cs3510_operating_systems.Start.Stacks.{IsStart, own_stack, all_running}
use cs3510_operating_systems.Start.Fair.{IsFair, after, boot_aps_returns}

abbrev two : Booting
two = record {
  place = at_test;
  c = 0;
  mpentry_kstack = 0;
  ap = λ x. asleep;
  esp = λ x. 0;
  cpu_status = λ x. if x == 0 then 1 else 0;
}

two-IsStart : IsStart 2 0 4027580416 two
two-IsStart = record { place = refl; first = refl; alone = λ x. refl; unset = λ x ne. ground arith }

-- Processor 1 has loaded its stack pointer.
abbrev half_way : List Event
half_way = boot ∷ boot ∷ boot ∷ other 1 ∷ []

abbrev whole_way : List Event
whole_way = boot ∷ boot ∷ boot ∷ other 1 ∷ boot ∷ other 1 ∷ boot ∷ boot ∷ []

own_stack_example :
    ((run_events 2 0 4027580416 half_way two).esp 1 ≡ 4027645952) × (◌≢◌ {A = ℕ} 1 0) × (1 < 2)
unfolding run_events
own_stack_example = own_stack 2 0 4027580416 half_way two 1 two-IsStart (inl refl)

all_running_example :
    ((run_events 2 0 4027580416 whole_way two).ap 1 ≡ running)
    × ((run_events 2 0 4027580416 whole_way two).esp 1 ≡ 4027645952)
unfolding run_events
all_running_example =
    all_running 2 0 4027580416 whole_way two 1 two-IsStart refl (omega arith) (λ e. omega arith)

-- The two processors take turns.
abbrev in_turn : ℕ → Event
in_turn n = if n % 2 == 0 then boot else other 1

in_turn-IsFair : IsFair 2 0 4027580416 in_turn
in_turn-IsFair = (
  (λ n. let even : (n + n) % 2 ≡ 0 = omega arith in (n, rw even refl)),
  λ x n b ne.
      let odd : (n + (n + 1)) % 2 ≡ 1 = omega arith in
      let one : x ≡ 1 = omega arith in (n + 1, rw (odd, one) refl),
)

boot_aps_returns_example : (n : ℕ) × ((after 2 0 4027580416 in_turn n two).place ≡ at_end)
boot_aps_returns_example = boot_aps_returns 2 0 4027580416 in_turn two two-IsStart in_turn-IsFair
