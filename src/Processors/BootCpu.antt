-- ===== src/Processors/BootCpu.antt =====
-- Where `bootcpu` points after the loop of `mp_init` in kern/mpconfig.c.
use cs3510_operating_systems.Common.{
  ℕ, Bool, ltb, Bool-cases, inr, inl, suc, zero, arith, false, true, not, ◌+◌, ◌≤◌, ◌<◌, ◌≡◌, ◌==◌,
  ◌&&◌, if◌then◌else◌,
}
use cs3510_operating_systems.Layout.{flag}
use cs3510_operating_systems.Str.Block.{Memory}
use cs3510_operating_systems.Processors.{Cpus, read_entries, add_cpu, note_boot}
use cs3510_operating_systems.Processors.Listing.{at_most_eight}

module _ (npages : ℕ) (mem : Memory) where
  -- With `k` processors before: whether each entry that is flagged as the boot processor's is one of
  -- the first eight.
  unfoldable pub boots_early : (n p k : ℕ) → Bool
  boots_early zero p k = true
  boots_early (suc n) p k =
      let other = boots_early n (p + 8) k in
      let next = boots_early n (p + 20) (suc k) in
      if mem p == 0
      then (if flag (mem (p + 3)) 2 && not (ltb k 8) then false else next)
      else if ltb (mem p) 5
      then other
      else true

  -- The array has `k` processors, or is full, and `bootcpu` is one of its elements.
  record InArray (k : ℕ) (c : Cpus) : Type 0 where
    number : c.ncpu ≡ at_most_eight npages mem k
    inside : c.bootcpu < 8

  add_cpu-InArray : (k : ℕ) → (c : Cpus) → InArray k c → InArray (suc k) (add_cpu npages mem c)
  unfolding add_cpu
  add_cpu-InArray k c i =
      let number = i.number in
      elim (Bool-cases (ltb c.ncpu 8)) [
        | inl e ↦ rw e record { number = ground (arith, i.number); inside = i.inside }
        | inr e ↦ rw e record { number = ground (arith, i.number); inside = i.inside }
      ]

  entry-InArray :
      (flags k : ℕ)
      → (c : Cpus) → InArray k c
      → (flag flags 2 && not (ltb k 8)) ≡ false
      → InArray (suc k) (add_cpu npages mem (note_boot npages mem flags c))
  unfolding note_boot
  entry-InArray flags k c i early = elim (Bool-cases (flag flags 2)) [
    | inl e ↦ rw e (
        add_cpu-InArray k (record c { bootcpu = c.ncpu })
          record { number = i.number; inside = ground (arith, i.number) })
    | inr e ↦ rw e (add_cpu-InArray k c i)
  ]

  read_entries-InArray :
      (n p k : ℕ)
      → (c : Cpus) → InArray k c
      → boots_early n p k ≡ true
      → (read_entries npages mem n p c).bootcpu < 8
  unfolding read_entries boots_early
  read_entries-InArray zero p k c i early = i.inside
  read_entries-InArray (suc n) p k c i early = elim (Bool-cases (mem p == 0)) [
    | inl e ↦ elim (Bool-cases (flag (mem (p + 3)) 2 && not (ltb k 8))) [
      | inl late ↦ absurd (ground arith)
      | inr fine ↦ rw e (
          read_entries-InArray n (p + 20) (suc k) _ (entry-InArray (mem (p + 3)) k c i fine)
            (ground arith))
    ]
    | inr e ↦ elim (Bool-cases (ltb (mem p) 5)) [
      | inl f ↦ rw (e, f) (read_entries-InArray n (p + 8) k c i (ground arith))
      | inr f ↦ rw (e, f) i.inside
    ]
  ]

  -- From an array that is filled from the front, and `bootcpu` at its start.
  pub bootcpu_inside :
      (n p : ℕ)
      → (c : Cpus) → c.ncpu ≤ 8
      → c.bootcpu ≡ 0
      → boots_early n p c.ncpu ≡ true
      → (read_entries npages mem n p c).bootcpu < 8
  bootcpu_inside n p c b z early =
      read_entries-InArray n p c.ncpu c record { number = ground arith; inside = omega arith } early
