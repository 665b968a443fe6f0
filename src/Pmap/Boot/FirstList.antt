-- ===== src/Pmap/Boot/FirstList.antt =====
-- The free list that `page_init` builds.
use cs3510_operating_systems.Common.{
  ℕ, has, suc, leb, Bool, arith, false, not, inr, List, zero, inl, Bool-cases, ltb, ◌+◌, ◌≤◌, ◌≡◌,
  ◌&&◌, ◌||◌, ◌∷◌, if◌then◌else◌, refl, ==_refl, none, ge→ltb, true, ◌-◌, ◌*◌, ◌<◌, ◌≢◌, ◌⊎◌, ◌↔◌,
  [], ◌/◌,
}
use cs3510_operating_systems.Layout.{roundup, rounddown}
use cs3510_operating_systems.State.{PageInfo, Kernel}
use cs3510_operating_systems.Pmap.Page.FreeList.{Chain, Chain-update}
use cs3510_operating_systems.Pmap.Boot.{
  free_boot_page, free_range, page_init, low_page, kernbase, u32, nenv, sizeof_env, pgsize, ok,
  is_mpentry,
}

-- The pages that a loop puts before `ps`, the last one first.
listed : (ℕ → Bool) → ℕ → ℕ → List ℕ → List ℕ
listed skip i zero ps = ps
listed skip i (suc n) ps = listed skip (suc i) n (if skip i then ps else i ∷ ps)

has-listed :
    (skip : ℕ → Bool) (i n : ℕ) (ps : List ℕ) (p : ℕ)
    → has p (listed skip i n ps) ≡ ((leb i p && (ltb p (i + n) && not (skip p))) || has p ps)
unfolding listed
has-listed skip i zero ps p = ground arith
has-listed skip i (suc n) ps p =
    ground (arith, has-listed skip (suc i) n (if skip i then ps else i ∷ ps) p)

-- One round keeps the chain.
one_round :
    (skip : ℕ → Bool) (i : ℕ) (k : Kernel) (ps : List ℕ)
    → has i ps ≡ false
    → Chain k.pages k.page_free_list ps
    → let k' = if skip i then k else free_boot_page i k in
      Chain k'.pages k'.page_free_list (if skip i then ps else i ∷ ps)
unfolding free_boot_page
one_round skip i k ps out c = elim (Bool-cases (skip i)) [
  | inl s ↦ rw s c
  | inr s ↦
      let info : PageInfo = record { pp_link = k.page_free_list; pp_ref = 0 } in
      rw s (
        refl,
        rw (==_refl i),
        out,
        rw (==_refl i) (Chain-update k.pages i info k.page_free_list ps out c),
      )
]

free_range-Chain :
    (skip : ℕ → Bool) (i n : ℕ) (k : Kernel) (ps : List ℕ)
    → ((j : ℕ) → i ≤ j → has j ps ≡ false)
    → Chain k.pages k.page_free_list ps
    → let k' = free_range skip i n k in Chain k'.pages k'.page_free_list (listed skip i n ps)
unfolding free_range free_boot_page listed
free_range-Chain skip i zero k ps out c = c
free_range-Chain skip i (suc n) k ps out c =
    free_range-Chain skip (suc i) n (if skip i then k else free_boot_page i k)
      (if skip i then ps else i ∷ ps) (λ j h. ground (arith, out j))
      (one_round skip i k ps (out i (omega arith)) c)

free_range-npages :
    (skip : ℕ → Bool) (i n : ℕ) (k : Kernel) → (free_range skip i n k).npages ≡ k.npages
unfolding free_range free_boot_page
free_range-npages skip i zero k = refl
free_range-npages skip i (suc n) k =
    ground (arith, free_range-npages skip (suc i) n (if skip i then k else free_boot_page i k))

-- The pages of base memory but page 0 and the page of the startup code of the other CPUs, and those
-- of memory from `low` on.
abbrev pub IsFreeAtBoot : (npages_basemem low npages p : ℕ) → Type 0
IsFreeAtBoot npages_basemem low npages p =
    ((0 < p) × (p < npages_basemem) × (p ≢ 7)) ⊎ ((low ≤ p) × (p < npages))

-- The list that `page_init` makes, by the place where its second loop starts.
page_init-exact :
    (npages_basemem envs_va : ℕ) (k : Kernel)
    → npages_basemem ≤ low_page envs_va
    → kernbase ≤ roundup (u32 (envs_va + nenv * sizeof_env * sizeof_env)) pgsize
    → (k' : Kernel) × (ps : List ℕ) × (page_init npages_basemem envs_va k ≡ ok tt k')
      × Chain k'.pages k'.page_free_list ps
      × ((p : ℕ) → (has p ps ≡ true) ↔ IsFreeAtBoot npages_basemem (low_page envs_va) k.npages p)
unfolding page_init
page_init-exact nb envs_va k below inside =
    let low : ℕ = low_page envs_va in
    let k₀ : Kernel = record k { page_free_list = none } in
    let k₁ : Kernel = free_range is_mpentry 1 (nb - 1) k₀ in
    let k₂ : Kernel = free_range (λ _. false) low (k.npages - low) k₁ in
    let ps₁ : List ℕ = listed is_mpentry 1 (nb - 1) [] in
    let ps₂ : List ℕ = listed (λ _. false) low (k.npages - low) ps₁ in
    let size : k₁.npages ≡ k.npages = free_range-npages is_mpentry 1 (nb - 1) k₀ in
    let test : ltb (roundup (u32 (envs_va + nenv * sizeof_env * sizeof_env)) pgsize) kernbase
        ≡ false =
      ge→ltb _ _ inside in
    (
      k₂,
      ps₂,
      rw (test, size),
      free_range-Chain (λ _. false) low (k.npages - low) k₁ ps₁
          (λ j h. ground (arith, has-listed is_mpentry 1 (nb - 1) [] j))
          (free_range-Chain is_mpentry 1 (nb - 1) k₀ [] (λ j h. refl) refl),
      λ p. (
        (λ h. ground (
          arith,
          has-listed (λ _. false) low (k.npages - low) ps₁ p,
          has-listed is_mpentry 1 (nb - 1) [] p,
        )),
        λ h. ground (
          arith,
          has-listed (λ _. false) low (k.npages - low) ps₁ p,
          has-listed is_mpentry 1 (nb - 1) [] p,
        ),
      ),
    )

-- The page of the first byte behind the array `envs`, rounded up: what the kernel has allocated
-- before `page_init` lies below it.
abbrev pub envs_end : ℕ → ℕ
envs_end envs_va = (envs_va - 4026531840 + 1024 * 124 + 4095) / 4096

low_page-range :
    (envs_va : ℕ)
    → 4026531840 ≤ envs_va
    → envs_va + 16777216 ≤ 4294967296
    → (envs_end envs_va ≤ low_page envs_va)
      × (low_page envs_va ≤ (envs_va - 4026531840 + 16777216) / 4096)
      × (4026531840 ≤ roundup (u32 (envs_va + nenv * sizeof_env * sizeof_env)) pgsize)
unfolding low_page roundup rounddown
low_page-range envs_va low high = (omega arith, omega arith, omega arith)

-- Where `envs` is at a kernel address, at least 16 MB below the end of the address space, and base
-- memory ends below the end of `envs`, `page_init` links each free page once and with no reference.
-- These are pages of base memory but page 0 and page 7, where the other CPUs start, and pages of
-- memory behind `envs`; each such page of base memory is among them, and each page from 16 MB behind
-- the start of `envs` on.
pub page_init_lem :
    (npages_basemem envs_va : ℕ) (k : Kernel)
    → 4026531840 ≤ envs_va
    → envs_va + 16777216 ≤ 4294967296
    → npages_basemem ≤ envs_end envs_va
    → (k' : Kernel) × (ps : List ℕ) × (page_init npages_basemem envs_va k ≡ ok tt k')
      × Chain k'.pages k'.page_free_list ps
      × ((p : ℕ) → has p ps ≡ true → IsFreeAtBoot npages_basemem (envs_end envs_va) k.npages p)
      × ((p : ℕ)
          → IsFreeAtBoot npages_basemem ((envs_va - 4026531840 + 16777216) / 4096) k.npages p
          → has p ps ≡ true)
page_init_lem nb envs_va k low high below =
    let (after, before, inside) = low_page-range envs_va low high in
    let (k', ps, done, chain, exact) = page_init-exact nb envs_va k (omega arith) inside in
    (
      k',
      ps,
      done,
      chain,
      (λ p h. wider (envs_end envs_va) (low_page envs_va) nb k.npages p after ((exact p).0 h)),
      λ p free. (exact p).1 (wider (low_page envs_va) _ nb k.npages p before free),
    )
  where
    wider : (a b nb n p : ℕ) → a ≤ b → IsFreeAtBoot nb b n p → IsFreeAtBoot nb a n p
    wider a b nb n p le (inl base) = inl base
    wider a b nb n p le (inr (from, inside)) = inr (omega arith, inside)
