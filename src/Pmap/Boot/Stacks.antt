-- ===== src/Pmap/Boot/Stacks.antt =====
-- The kernel stacks that `mem_init_mp` of kern/pmap.c maps.
use cs3510_operating_systems.Common.{
  ℕ, arith, some, ◌+◌, ◌-◌, ◌*◌, ◌%◌, ◌≤◌, ◌<◌, ◌≡◌, Option, ap, ◌∙◌, refl, zero, suc, ◌≢◌, inl,
  inr, ltb, Bool-cases,
}
use mathlib.Core.Path.{subst, sym}
use cs3510_operating_systems.Layout.{ptx, pdx, make_pte, u32}
use cs3510_operating_systems.State.{Kernel, ok, Run, and_then}
use cs3510_operating_systems.Pmap.Table.Mapping.{HasTable, HasTable-frame}
use cs3510_operating_systems.Pmap.Boot.Region.{Maps, HasTable-pdx, boot_map_region-Maps}
use cs3510_operating_systems.Pmap.Boot.{boot_map_region}
use cs3510_operating_systems.Pmap.Boot.Setup.{
  map_kernel_range, map_stacks, mem_init_mp, kstack_va, paddr_of,
}

module _ (d t : ℕ) where
  -- The state in which `mem_init_mp` starts: a table for the addresses below KSTACKTOP is there.
  pub record HasStackTable (k : Kernel) : Type 0 where
    pub directory : k.kern_pgdir ≡ some d
    pub table : HasTable k d 0xefc00000 t

  paddr_of_kernel :
      (va : ℕ) → (k : Kernel) → 4026531840 ≤ va → paddr_of va k ≡ ok (va - 4026531840) k
  unfolding paddr_of
  paddr_of_kernel va k b = ground arith

  -- The addresses of the stack of CPU `i`.
  kstack_place :
      (i : ℕ)
      → i < 8
      → (kstack_va i % 4194304 + 4096 * 8 ≤ 4194304)
        × (kstack_va i + 4096 * 8 ≤ 4294967296)
        × (kstack_va i % 4096 ≡ 0)
        × (pdx (kstack_va i) ≡ pdx 0xefc00000)
        × (ptx (kstack_va i) ≡ 1016 - 16 * i)
  unfolding pdx ptx
  kstack_place i b = (omega arith, omega arith, omega arith, omega arith, omega arith)

  map_kernel_range_lem :
      (at size va perm : ℕ)
      → (k : Kernel) → {r : Run (Unit {0})} → 4026531840 ≤ va
      → k.kern_pgdir ≡ some d
      → boot_map_region (some d) at size (va - 4026531840) perm k ≡ r
      → map_kernel_range at size va perm k ≡ r
  unfolding map_kernel_range
  map_kernel_range_lem at size va perm k b dir got =
      rw (paddr_of_kernel va k b)
        (ap (λ (p : Option ℕ). boot_map_region p at size (va - 4026531840) perm k) dir ∙ got)

  -- Writing into the stacks' table keeps it, and the directory.
  HasStackTable-Maps :
      (j n pa perm : ℕ)
      → (k k' : Kernel) → HasStackTable k
      → Maps t j n pa perm k k'
      → HasStackTable k'
  HasStackTable-Maps j n pa perm k k' h m =
      let (words, e) = m.rest in
      record {
        directory = ap Kernel.kern_pgdir e ∙ h.directory;
        table =
            HasTable-frame k k' d 0xefc00000 t
              (ap (λ (f : ℕ → ℕ). f (pdx 0xefc00000)) (m.others d (λ x. h.table.apart (sym x))))
              (ap Kernel.npages e) h.table;
      }

  -- One round of the loop.
  map_stack-Maps :
      (kstacks i : ℕ)
      → (k : Kernel) → i < 8
      → 4026531840 ≤ kstacks
      → HasStackTable k
      → (k' : Kernel) × (map_kernel_range (kstack_va i) 32768 (kstacks + i * 32768) 2 k ≡ ok tt k')
        × Maps t (1016 - 16 * i) 8 (kstacks + i * 32768 - 4026531840) 2 k k'
        × HasStackTable k'
  unfolding map_kernel_range
  map_stack-Maps kstacks i k b high h =
      let (low, top, aligned, at_dir, at_table) = kstack_place i b in
      let table = HasTable-pdx d t 0xefc00000 (kstack_va i) k at_dir h.table in
      let (k', got, maps) =
        boot_map_region-Maps d t 8 (kstack_va i) (kstacks + i * 32768 - 4026531840) 2 k low top
          aligned table in
      let done = subst (λ x. Maps t x 8 (kstacks + i * 32768 - 4026531840) 2 k k') at_table maps in
      (
        k',
        map_kernel_range_lem _ _ _ _ k (omega arith) h.directory got,
        done,
        HasStackTable-Maps _ _ _ _ k k' h done,
      )

-- The stacks of the CPUs from `i` on are mapped in table `t`, and nothing else has changed.
pub record Stacks (t kstacks i : ℕ) (k k' : Kernel) : Type 0 where
  pub mapped :
      (c o : ℕ)
      → i ≤ c
      → c < 8
      → o < 8
      → k'.word t (1016 - 16 * c + o)
        ≡ make_pte (u32 (kstacks + c * 32768 - 4026531840 + 4096 * o)) 2
  pub guards : (e : ℕ) → e % 16 < 8 → k'.word t e ≡ k.word t e
  pub below : (e : ℕ) → e < 904 → k'.word t e ≡ k.word t e
  pub above : (e : ℕ) → 1024 - 16 * i ≤ e → k'.word t e ≡ k.word t e
  pub others : (p : ℕ) → p ≢ t → k'.word p ≡ k.word p

Stacks-none : (t kstacks : ℕ) → (k : Kernel) → Stacks t kstacks 8 k k
Stacks-none t kstacks k = record {
  mapped = λ c o low high b. absurd (omega arith);
  guards = λ e b. refl;
  below = λ e b. refl;
  above = λ e b. refl;
  others = λ p ne. refl;
}

guard_kept :
    (t i e pa : ℕ)
    → (k k' : Kernel) → i < 8
    → e % 16 < 8
    → Maps t (1016 - 16 * i) 8 pa 2 k k'
    → k'.word t e ≡ k.word t e
guard_kept t i e pa k k' b g m = elim (Bool-cases (ltb e (1016 - 16 * i))) [
  | inl p ↦ m.below e (ground arith)
  | inr p ↦ m.above e (ground arith)
]

Stacks-more :
    (t kstacks i : ℕ)
    → (k k₁ k' : Kernel) → i < 8
    → Maps t (1016 - 16 * i) 8 (kstacks + i * 32768 - 4026531840) 2 k k₁
    → Stacks t kstacks (suc i) k₁ k'
    → Stacks t kstacks i k k'
Stacks-more t kstacks i k k₁ k' b m s = record {
  mapped = λ c o low high o_b. elim (Bool-cases (ltb i c)) [
    | inl p ↦ s.mapped c o (ground arith) high o_b
    | inr p ↦
        let e : c ≡ i = ground arith in
        rw e (s.above (1016 - 16 * i + o) (omega arith) ∙ m.inside o o_b)
  ];
  guards = λ e g. s.guards e g ∙ guard_kept t i e _ k k₁ b g m;
  below = λ e g. s.below e g ∙ m.below e (omega arith);
  above = λ e g. s.above e (omega arith) ∙ m.above e (omega arith);
  others = λ p ne. s.others p ne ∙ m.others p ne;
}

module _ (d t : ℕ) where
  map_stacks-Stacks :
      (kstacks n i : ℕ)
      → (k : Kernel) → i + n ≡ 8
      → 4026531840 ≤ kstacks
      → HasStackTable d t k
      → (k' : Kernel) × (map_stacks kstacks n i k ≡ ok tt k') × Stacks t kstacks i k k'
  unfolding map_stacks
  map_stacks-Stacks kstacks zero i k b high h =
      let e : 8 ≡ i = omega arith in
      (k, refl, subst (λ x. Stacks t kstacks x k k) e (Stacks-none t kstacks k))
  map_stacks-Stacks kstacks (suc n) i k b high h =
      let (k₁, got, maps, h₁) = map_stack-Maps d t kstacks i k (omega arith) high h in
      let (k', rest, stacks) = map_stacks-Stacks kstacks n (suc i) k₁ (omega arith) high h₁ in
      (
        k',
        ap (λ (r : Run (Unit {0})). and_then r (λ _. map_stacks kstacks n (suc i))) got ∙ rest,
        Stacks-more t kstacks i k k₁ k' (omega arith) maps stacks,
      )

  -- Where the kernel's directory has a table for the addresses below KSTACKTOP, and `percpu_kstacks`
  -- is a kernel address, `mem_init_mp` ends, and maps the stacks.
  pub mem_init_mp-Stacks :
      (kstacks : ℕ)
      → (k : Kernel) → 4026531840 ≤ kstacks
      → HasStackTable d t k
      → (k' : Kernel) × (mem_init_mp kstacks k ≡ ok tt k') × Stacks t kstacks 0 k k'
  unfolding mem_init_mp
  mem_init_mp-Stacks kstacks k high h = map_stacks-Stacks kstacks 8 0 k refl high h
