-- ===== src/Processors/Listing.antt =====
-- How the loop of `mp_init` in kern/mpconfig.c reads the entries of the table.
use cs3510_operating_systems.Common.{
  ℕ, Bool, ltb, update, true, false, zero, suc, ◌+◌, ◌≤◌, ◌<◌, ◌≡◌, ◌==◌, if◌then◌else◌, inl,
  Bool-cases, refl, inr, arith, ◌&&◌, ap, ◌∙◌,
}
use cs3510_operating_systems.Str.Block.{Memory}
use cs3510_operating_systems.Processors.{Cpus, read_entries, add_cpu, note_boot, flag}

-- The array `cpus` is filled from the front, each processor with its own index.
pub record IsListed (c : Cpus) : Type 0 where
  pub ncpu_le : c.ncpu ≤ 8
  pub first : c.cpu_id 0 ≡ 0
  pub own : (i : ℕ) → i < c.ncpu → c.cpu_id i ≡ i

module _ (npages : ℕ) (mem : Memory) where
  -- How many processor entries there are among `n` entries, before one of an unknown kind.
  unfoldable pub processors : (n p : ℕ) → ℕ
  processors zero p = 0
  processors (suc n) p =
      let other = processors n (p + 8) in
      let next = suc (processors n (p + 20)) in
      if mem p == 0 then next else if ltb (mem p) 5 then other else 0

  -- Whether each of `n` entries is of a known kind.
  unfoldable pub all_known : (n p : ℕ) → Bool
  all_known zero p = true
  all_known (suc n) p =
      let other = all_known n (p + 8) in
      let next = all_known n (p + 20) in
      if mem p == 0 then next else if ltb (mem p) 5 then other else false

  abbrev pub at_most_eight : ℕ → ℕ
  at_most_eight n = if ltb n 8 then n else 8

  -- What a processor entry does to the record: `d` comes after `c`.
  record AddsOne (c d : Cpus) : Type 0 where
    listed : IsListed d
    number : d.ncpu ≡ at_most_eight (suc c.ncpu)
    multi : d.ismp ≡ c.ismp
    address : d.lapicaddr ≡ c.lapicaddr

  listed_longer :
      (c : Cpus)
      → IsListed c
      → ltb c.ncpu 8 ≡ true
      → IsListed (record c { ncpu = suc c.ncpu; cpu_id = update c.cpu_id c.ncpu c.ncpu })
  listed_longer c l e = record {
    ncpu_le = ground arith;
    first = elim (Bool-cases (c.ncpu == 0)) [ inl z ↦ rw z (ground arith) | inr z ↦ rw z l.first ];
    own = λ i b. elim (Bool-cases (c.ncpu == i)) [
      | inl z ↦ rw z (ground arith)
      | inr z ↦ rw z (l.own i (ground arith))
    ];
  }

  add_cpu-AddsOne : (c : Cpus) → IsListed c → AddsOne c (add_cpu npages mem c)
  unfolding add_cpu
  add_cpu-AddsOne c l =
      let b : c.ncpu ≤ 8 = l.ncpu_le in
      elim (Bool-cases (ltb c.ncpu 8)) [
        | inl e ↦ rw e record {
          listed = listed_longer c l e;
          number = ground arith;
          multi = refl;
          address = refl;
        }
        | inr e ↦ rw e record { listed = l; number = ground arith; multi = refl; address = refl }
      ]

  note_boot-AddsOne :
      (flags : ℕ)
      → (c : Cpus) → IsListed c
      → AddsOne c (add_cpu npages mem (note_boot npages mem flags c))
  unfolding note_boot
  note_boot-AddsOne flags c l = elim (Bool-cases (flag flags 2)) [
    | inl e ↦ rw e (
        again c (
          add_cpu-AddsOne (record c { bootcpu = c.ncpu })
            record { ncpu_le = l.ncpu_le; first = l.first; own = l.own }))
    | inr e ↦ rw e (add_cpu-AddsOne c l)
  ]
    where
      again : (c : Cpus) → {d : Cpus} → AddsOne (record c { bootcpu = c.ncpu }) d → AddsOne c d
      again c a = record {
        listed = a.listed;
        number = a.number;
        multi = a.multi;
        address = a.address;
      }

  more_than_eight :
      {k m : ℕ}
      → k ≤ 8
      → (n : ℕ) → m ≡ at_most_eight (suc k)
      → at_most_eight (m + n) ≡ at_most_eight (k + suc n)
  more_than_eight b n e = ground arith

  -- What reading `n` entries at `p` makes of `c`.
  pub record Reads (n p : ℕ) (c d : Cpus) : Type 0 where
    pub listed : IsListed d
    pub number : d.ncpu ≡ at_most_eight (c.ncpu + processors n p)
    pub multi : d.ismp ≡ (c.ismp && all_known n p)
    pub address : d.lapicaddr ≡ c.lapicaddr

  Reads-processor :
      (n p : ℕ)
      → (c : Cpus) → {d r : Cpus} → IsListed c
      → (mem p == 0) ≡ true
      → AddsOne c d
      → Reads n (p + 20) d r
      → Reads (suc n) p c r
  unfolding processors all_known
  Reads-processor n p c l e a r =
      let b : c.ncpu ≤ 8 = l.ncpu_le in
      record {
        listed = r.listed;
        number = rw e (r.number ∙ more_than_eight b (processors n (p + 20)) a.number);
        multi = rw e (r.multi ∙ ap (λ b. b && all_known n (p + 20)) a.multi);
        address = r.address ∙ a.address;
      }

  Reads-other :
      (n p : ℕ)
      → (c : Cpus) → {r : Cpus} → (mem p == 0) ≡ false
      → ltb (mem p) 5 ≡ true
      → Reads n (p + 8) c r
      → Reads (suc n) p c r
  unfolding processors all_known
  Reads-other n p c e f r = record {
    listed = r.listed;
    number = rw (e, f) r.number;
    multi = rw (e, f) r.multi;
    address = r.address;
  }

  Reads-unknown :
      (n p : ℕ)
      → (c : Cpus) → IsListed c
      → (mem p == 0) ≡ false
      → ltb (mem p) 5 ≡ false
      → Reads (suc n) p c (record c { ismp = false })
  unfolding processors all_known
  Reads-unknown n p c l e f =
      let b : c.ncpu ≤ 8 = l.ncpu_le in
      record {
        listed = record { ncpu_le = l.ncpu_le; first = l.first; own = l.own };
        number = rw (e, f) (ground arith);
        multi = rw (e, f) (ground arith);
        address = refl;
      }

  pub read_entries-Reads :
      (n p : ℕ) → (c : Cpus) → IsListed c → Reads n p c (read_entries npages mem n p c)
  unfolding read_entries processors all_known
  read_entries-Reads zero p c l =
      let b : c.ncpu ≤ 8 = l.ncpu_le in
      record { listed = l; number = ground arith; multi = ground arith; address = refl }
  read_entries-Reads (suc n) p c l = elim (Bool-cases (mem p == 0)) [
    | inl e ↦
        let a = note_boot-AddsOne (mem (p + 3)) c l in
        rw e (Reads-processor n p c l e a (read_entries-Reads n (p + 20) _ a.listed))
    | inr e ↦ elim (Bool-cases (ltb (mem p) 5)) [
      | inl f ↦ rw (e, f) (Reads-other n p c e f (read_entries-Reads n (p + 8) c l))
      | inr f ↦ rw (e, f) (Reads-unknown n p c l e f)
    ]
  ]
