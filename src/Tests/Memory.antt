-- ===== src/Tests/Memory.antt =====
-- The theorems on pages, page tables and memory checks, run on the sample.
use cs3510_operating_systems.Common.{
  List, true, has, arith, ℕ, refl, none, some, ◌≡◌, ◌≢◌, ◌∷◌, ◌⊎◌, ◌↔◌, if◌then◌else◌, [], Bool,
  ◌==◌,
}
use cs3510_operating_systems.State.{Kernel, ok, ret, panic}
use cs3510_operating_systems.Layout.{pgnum, pte_addr, ptx, flag}
use cs3510_operating_systems.Pmap.Page.{page_alloc, page_free}
use cs3510_operating_systems.Pmap.Page.FreeList.{
  FreeList, Chain, page_alloc_takes_first, page_free_lem,
}
use cs3510_operating_systems.Pmap.Table.{page_insert, page_remove, page_lookup, pte_ptr}
use cs3510_operating_systems.Pmap.Table.Insert.{
  page_insert_fresh, page_insert_again, page_insert_replaces, page_remove_lem,
}
use cs3510_operating_systems.Pmap.Boot.{page_init}
use cs3510_operating_systems.Pmap.Boot.FirstList.{IsFreeAtBoot, envs_end, page_init_lem}
use cs3510_operating_systems.Tests.Sample.{
  sample, sample-FreeList, mapped-HasTable, absent-HasTable, mapped-OldCounted,
}

page_alloc_takes_first_example :
    (k' : Kernel) × (page_alloc 1 sample ≡ ok (some 4) k')
    × FreeList k' (5 ∷ [])
    × (k'.pages 4 ≡ record { pp_link = none; pp_ref = 0 })
    × ((q : ℕ) → q ≢ 4 → k'.pages q ≡ sample.pages q)
    × ((i : ℕ) → k'.word 4 i ≡ (if flag 1 1 then 0 else sample.word 4 i))
    × ((q i : ℕ) → q ≢ 4 → k'.word q i ≡ sample.word q i)
page_alloc_takes_first_example = page_alloc_takes_first 1 4 (5 ∷ []) sample sample-FreeList

page_free_lem_example :
    ((page_free 7 sample ≡ panic)
      ↔ (((sample.pages 7).pp_link ≢ none) ⊎ ((sample.pages 7).pp_ref ≢ 0)))
    × (page_free 7 sample ≢ panic
        → (k' : Kernel) × (page_free 7 sample ≡ ok tt k') × FreeList k' (7 ∷ 4 ∷ 5 ∷ []))
page_free_lem_example = page_free_lem 7 (4 ∷ 5 ∷ []) sample sample-FreeList refl (omega arith)

page_insert_fresh_example :
    (k' : Kernel) × (page_insert (some 1) 7 8192 6 sample ≡ ok (ret 0) k')
    × (page_lookup (some 1) 8192 k' ≡ ok (some 7, some (pte_ptr 2 2)) k')
unfolding ptx pgnum pte_addr
page_insert_fresh_example =
    let (k', done, found, _, _, _, _) =
      page_insert_fresh sample 1 7 8192 2 6 absent-HasTable (omega arith) (omega arith)
        (omega arith) refl refl in
    (k', done, found)

page_insert_again_example :
    (k' : Kernel) × (page_insert (some 1) 3 4096 4 sample ≡ ok (ret 0) k')
    × ((p : ℕ) → k'.pages p ≡ sample.pages p)
unfolding ptx pgnum pte_addr
page_insert_again_example =
    let (k', done, _, _, pages, _) =
      page_insert_again sample 1 4096 2 4 mapped-HasTable (omega arith) (omega arith) refl
        mapped-OldCounted refl in
    (k', done, pages)

page_insert_replaces_example :
    (k' : Kernel) × (page_insert (some 1) 7 4096 6 sample ≡ ok (ret 0) k')
    × (page_lookup (some 1) 4096 k' ≡ ok (some 7, some (pte_ptr 2 1)) k')
    × (k'.page_free_list ≡ some 3)
unfolding ptx pgnum pte_addr
page_insert_replaces_example =
    let (k', done, found, _, _, list) =
      page_insert_replaces sample 1 7 4096 2 6 mapped-HasTable (omega arith) (omega arith)
        (omega arith) refl mapped-OldCounted refl (λ e. omega arith) in
    (k', done, found, list)

page_remove_lem_example :
    (k' : Kernel) × (page_remove (some 1) 4096 sample ≡ ok tt k')
    × (page_lookup (some 1) 4096 k' ≡ ok (none, some (pte_ptr 2 1)) k')
    × (k'.page_free_list ≡ some 3)
unfolding ptx pgnum pte_addr
page_remove_lem_example =
    let (k', done, gone, _, list, _) =
      page_remove_lem sample 1 4096 2 mapped-HasTable refl mapped-OldCounted in
    (k', done, gone, list)

abbrev large : Kernel
large = record sample { npages = 5000 }

page_init_lem_example :
    (k' : Kernel) × (ps : List ℕ) × (page_init 10 4028628992 large ≡ ok tt k')
    × Chain k'.pages k'.page_free_list ps
    × ((p : ℕ) → has p ps ≡ true → IsFreeAtBoot 10 (envs_end 4028628992) 5000 p)
    × ((p : ℕ) → IsFreeAtBoot 10 4608 5000 p → has p ps ≡ true)
page_init_lem_example = page_init_lem 10 4028628992 large (omega arith) (omega arith) (omega arith)

abbrev is_first : ℕ → Bool
is_first a = a == 4096
