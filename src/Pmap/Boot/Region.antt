-- ===== src/Pmap/Boot/Region.antt =====
-- `boot_map_region` of kern/pmap.c on a region that one page table covers.
use cs3510_operating_systems.Common.{
  ℕ, update, arith, suc, refl, ◌+◌, ◌*◌, ◌%◌, ◌≤◌, ◌<◌, ◌≡◌, ◌≢◌, ==_refl, some, ne→==, true, sym,
  zero, ◌∙◌, false, ltb, ◌/◌,
}
use mathlib.Core.Path.{subst}
use cs3510_operating_systems.Layout.{u32, pdx, ptx, make_pte}
use cs3510_operating_systems.State.{Kernel, ok}
use cs3510_operating_systems.Pmap.Table.Mapping.{HasTable, pgdir_walk_hit, HasTable-frame}
use cs3510_operating_systems.Pmap.Boot.{map_page, boot_map_loop, boot_map_region}

-- The only difference of `k'` from `k` is in table `t`: its `n` entries from index `j` on map the
-- pages from `pa` on.
pub record Maps (t j n pa perm : ℕ) (k k' : Kernel) : Type 0 where
  pub inside : (o : ℕ) → o < n → k'.word t (j + o) ≡ make_pte (u32 (pa + 4096 * o)) perm
  pub below : (i : ℕ) → i < j → k'.word t i ≡ k.word t i
  pub above : (i : ℕ) → j + n ≤ i → k'.word t i ≡ k.word t i
  pub rest : (words : ℕ → ℕ → ℕ) × (k' ≡ record k { word = words })
  pub others : (p : ℕ) → p ≢ t → k'.word p ≡ k.word p

abbrev pub set_entry : ℕ → ℕ → ℕ → Kernel → Kernel
set_entry t j v k = record k { word = update k.word t (update (k.word t) j v) }

Maps-none : (t j pa perm : ℕ) → (k : Kernel) → Maps t j 0 pa perm k k
Maps-none t j pa perm k = record {
  inside = λ o b. absurd (omega arith);
  below = λ i b. refl;
  above = λ i b. refl;
  rest = (k.word, refl);
  others = λ p ne. refl;
}

set_entry_here : (t j v : ℕ) → (k : Kernel) → (set_entry t j v k).word t j ≡ v
set_entry_here t j v k = rw (==_refl t, ==_refl j) refl

set_entry_else : (t j v i : ℕ) → (k : Kernel) → j ≢ i → (set_entry t j v k).word t i ≡ k.word t i
set_entry_else t j v i k ne = rw (==_refl t, ne→== j i ne) refl

Maps-more :
    (t j n pa perm : ℕ)
    → (k k' : Kernel)
    → Maps t (suc j) n (pa + 4096) perm (set_entry t j (make_pte (u32 pa) perm) k) k'
    → Maps t j (suc n) pa perm k k'
Maps-more t j n pa perm k k' m = record {
  inside = inside;
  below = λ i b. m.below i (omega arith) ∙ set_entry_else t j _ i k (omega arith);
  above = λ i b. m.above i (omega arith) ∙ set_entry_else t j _ i k (omega arith);
  rest = m.rest;
  others = λ p ne. m.others p ne ∙ rw (ne→== t p (λ e. ne (sym e))) refl;
}
  where
    inside : (o : ℕ) → o < suc n → k'.word t (j + o) ≡ make_pte (u32 (pa + 4096 * o)) perm
    inside zero b =
        let e : j + 0 ≡ j = omega arith in
        let f : pa + 4096 * 0 ≡ pa = omega arith in
        rw (e, f) (m.below j (omega arith) ∙ set_entry_here t j _ k)
    inside (suc o) b =
        let e : j + suc o ≡ suc j + o = omega arith in
        let f : pa + 4096 * suc o ≡ pa + 4096 + 4096 * o = omega arith in
        rw (e, f) (m.inside o (omega arith))

Maps-next :
    (t j j₁ j₂ n pa pa' perm : ℕ)
    → (k k' : Kernel) → j₁ ≡ j
    → j₂ ≡ suc j
    → pa' ≡ pa + 4096
    → Maps t j₂ n pa' perm (set_entry t j₁ (make_pte (u32 pa) perm) k) k'
    → Maps t j (suc n) pa perm k k'
Maps-next t j j₁ j₂ n pa pa' perm k k' e₁ e₂ e₃ m =
    let entry : ℕ → Kernel = λ (x : ℕ). set_entry t x (make_pte (u32 pa) perm) k in
    Maps-more t j n pa perm k k' (
      subst (λ x. Maps t x n (pa + 4096) perm (entry j) k') e₂
        (subst (λ x. Maps t j₂ n x perm (entry j) k') e₃
          (subst (λ x. Maps t j₂ n pa' perm (entry x) k') e₁ m)))

-- The place of page `o` of the region.
page_place :
    (va o n : ℕ)
    → o < n
    → va % 4194304 + 4096 * n ≤ 4194304
    → va + 4096 * n ≤ 4294967296
    → va % 4096 ≡ 0
    → (pdx (u32 (va + 4096 * o)) ≡ pdx va) × (ptx (u32 (va + 4096 * o)) ≡ ptx va + o)
unfolding pdx ptx
page_place va o n b low high aligned = (omega arith, omega arith)

module _ (d t : ℕ) where
  map_page_hit :
      (va pa perm o : ℕ)
      → (k : Kernel) → HasTable k d (u32 (va + o)) t
      → map_page (some d) va pa perm o k
        ≡ ok tt (set_entry t (ptx (u32 (va + o))) (make_pte (u32 (pa + o)) perm) k)
  unfolding map_page
  map_page_hit va pa perm o k h = rw (pgdir_walk_hit k d (u32 (va + o)) t h true) refl

  pub HasTable-pdx :
      (va va' : ℕ) → (k : Kernel) → pdx va' ≡ pdx va → HasTable k d va t → HasTable k d va' t
  HasTable-pdx va va' k e h = record {
    present = rw e h.present;
    table = rw e h.table;
    inside = h.inside;
    apart = h.apart;
  }

  HasTable-set_entry :
      (va j v : ℕ) → (k : Kernel) → HasTable k d va t → HasTable (set_entry t j v k) d va t
  HasTable-set_entry va j v k h =
      HasTable-frame k (set_entry t j v k) d va t (rw (ne→== t d h.apart) refl) refl h

  -- One round of the loop, where a page is left.
  boot_map_loop-round :
      (va pa perm size fuel o : ℕ)
      → (k : Kernel) → ltb o size ≡ true
      → HasTable k d (u32 (va + o)) t
      → boot_map_loop (some d) va size pa perm (suc fuel) o k
        ≡ boot_map_loop
            (some d)
            va
            size
            pa
            perm
            fuel
            (u32 (o + 4096))
            (set_entry t (ptx (u32 (va + o))) (make_pte (u32 (pa + o)) perm) k)
  unfolding boot_map_loop
  boot_map_loop-round va pa perm size fuel o k more h =
      rw (more, map_page_hit va pa perm o k h) refl

  boot_map_loop-moved :
      (va pa perm fuel s s' o o' : ℕ)
      → (k k' : Kernel) → s ≡ s'
      → o ≡ o'
      → boot_map_loop (some d) va s pa perm fuel o k ≡ ok tt k'
      → boot_map_loop (some d) va s' pa perm fuel o' k ≡ ok tt k'
  boot_map_loop-moved va pa perm fuel s s' o o' k k' e f got =
      subst (λ x. boot_map_loop (some d) va s' pa perm fuel x k ≡ ok tt k') f
        (subst (λ x. boot_map_loop (some d) va x pa perm fuel o k ≡ ok tt k') e got)

  boot_map_loop-Maps :
      (m o fuel va pa perm : ℕ)
      → (k : Kernel) → m < fuel
      → va % 4194304 + 4096 * (o + m) ≤ 4194304
      → va + 4096 * (o + m) ≤ 4294967296
      → va % 4096 ≡ 0
      → HasTable k d va t
      → (k' : Kernel) × (boot_map_loop (some d) va (4096 * (o + m)) pa perm fuel (4096 * o) k
          ≡ ok tt k')
        × Maps t (ptx va + o) m (pa + 4096 * o) perm k k'
  unfolding boot_map_loop
  boot_map_loop-Maps zero o (suc fuel) va pa perm k f low high aligned h =
      let e : ltb (4096 * o) (4096 * (o + 0)) ≡ false = ground arith in
      (k, rw e refl, Maps-none t (ptx va + o) (pa + 4096 * o) perm k)
  boot_map_loop-Maps zero o zero va pa perm k f low high aligned h = absurd (omega arith)
  boot_map_loop-Maps (suc m) o zero va pa perm k f low high aligned h = absurd (omega arith)
  boot_map_loop-Maps (suc m) o (suc fuel) va pa perm k f low high aligned h =
      let (at_dir, at_table) = page_place va o (o + suc m) (omega arith) low high aligned in
      let more : ltb (4096 * o) (4096 * (o + suc m)) ≡ true = ground arith in
      let here = HasTable-pdx va (u32 (va + 4096 * o)) k at_dir h in
      let step = boot_map_loop-round va pa perm (4096 * (o + suc m)) fuel (4096 * o) k more here in
      let size : 4096 * (suc o + m) ≡ 4096 * (o + suc m) = omega arith in
      let offset : 4096 * suc o ≡ u32 (4096 * o + 4096) = omega arith in
      let (k', got, maps) =
        boot_map_loop-Maps m (suc o) fuel va pa perm _ (omega arith) (omega arith) (omega arith)
          aligned
          (HasTable-set_entry va (ptx (u32 (va + 4096 * o))) (make_pte (u32 (pa + 4096 * o)) perm) k
            h) in
      (
        k',
        step ∙ boot_map_loop-moved va pa perm fuel _ _ _ _ _ k' size offset got,
        Maps-next t (ptx va + o) _ _ m (pa + 4096 * o) _ perm k k' at_table (omega arith)
            (omega arith) maps,
      )

  -- Where a table covers the region of `n` pages, `boot_map_region` ends, maps its pages there in
  -- order, and writes nothing else.
  pub boot_map_region-Maps :
      (n va pa perm : ℕ)
      → (k : Kernel) → va % 4194304 + 4096 * n ≤ 4194304
      → va + 4096 * n ≤ 4294967296
      → va % 4096 ≡ 0
      → HasTable k d va t
      → (k' : Kernel) × (boot_map_region (some d) va (4096 * n) pa perm k ≡ ok tt k')
        × Maps t (ptx va) n pa perm k k'
  unfolding boot_map_region
  boot_map_region-Maps n va pa perm k low high aligned h =
      let fuel : n < 4096 * n / 4096 + 2 = omega arith in
      let (k', got, maps) =
        boot_map_loop-Maps n 0 _ va pa perm k fuel (omega arith) (omega arith) aligned h in
      let first : ptx va + 0 ≡ ptx va = omega arith in
      let page : pa + 4096 * 0 ≡ pa = omega arith in
      (
        k',
        boot_map_loop-moved va pa perm _ (4096 * (0 + n)) (4096 * n) (4096 * 0) 0 k k' (omega arith)
            (omega arith) got,
        subst (λ x. Maps t x n pa perm k k') first
            (subst (λ x. Maps t (ptx va + 0) n x perm k k') page maps),
      )
