-- ===== src/Pmap/Table/Insert.antt =====
-- `page_insert` and `page_remove` against what is mapped, and the reference counts they keep.
use cs3510_operating_systems.Common.{
  ℕ, inl, true, some, Bool-cases, ==_refl, inr, none, arith, ne→==, refl, ◌^◌, ◌*◌, ◌%◌, ◌≤◌, ◌<◌,
  ◌≡◌, ◌==◌, if◌then◌else◌, same, false, ◌+◌, ◌≢◌, update,
}
use cs3510_operating_systems.Layout.{u16, flag, pte_p, pgnum, ptx, pte_addr, make_pte}
use cs3510_operating_systems.Layout.Laws.{pte_addr-make_pte, make_pte-present}
use cs3510_operating_systems.State.{Kernel, ok, ret}
use cs3510_operating_systems.Pmap.Page.{page2pa}
use cs3510_operating_systems.Pmap.Page.FreeList.{freed}
use cs3510_operating_systems.Pmap.Table.{pte_ptr, page_lookup, page_remove, page_insert}
use cs3510_operating_systems.Pmap.Table.Mapping.{
  HasTable, HasTable-frame, entry_of, page_lookup_absent, page_lookup_present, dropped,
  page_decref_last, page_decref_more, unmapped, page_remove_present, page_remove_absent, mapped,
  page_insert_after, reclaim_elsewhere, reclaim_first,
}

-- What is mapped at `va` is a page of memory that counts this reference and is not free.
pub record OldCounted (k : Kernel) (t va : ℕ) : Type 0 where
  pub inside : pgnum (pte_addr (entry_of k t va)) < k.npages
  pub counted : 0 < (k.pages (pgnum (pte_addr (entry_of k t va)))).pp_ref
  pub fits : (k.pages (pgnum (pte_addr (entry_of k t va)))).pp_ref < 2 ^ 16
  pub unlinked : (k.pages (pgnum (pte_addr (entry_of k t va)))).pp_link ≡ none

entry_page :
    (pp perm : ℕ) → pp < 1048576 → perm < 4096 → pgnum (pte_addr (make_pte (page2pa pp) perm)) ≡ pp
unfolding page2pa pgnum
entry_page pp perm small low =
    let e : pp * 4096 % 2 ^ 32 ≡ pp * 4096 = omega arith in
    rw (e, pte_addr-make_pte pp perm low) (omega arith)

HasTable-mapped :
    (k : Kernel) (d pp va t perm : ℕ) → HasTable k d va t → HasTable (mapped pp va t perm k) d va t
HasTable-mapped k d pp va t perm h =
    HasTable-frame k (mapped pp va t perm k) d va t (rw (ne→== t d h.apart)) refl h

page_lookup-mapped :
    (k : Kernel) (d pp va t perm : ℕ)
    → HasTable k d va t
    → k.npages ≤ 1048576
    → pp < k.npages
    → perm < 4096
    → page_lookup (some d) va (mapped pp va t perm k)
      ≡ ok (some pp, some (pte_ptr t (ptx va))) (mapped pp va t perm k)
page_lookup-mapped k d pp va t perm h small inside low =
    let k' : Kernel = mapped pp va t perm k in
    let e : entry_of k' t va ≡ make_pte (page2pa pp) perm = rw (==_refl t, ==_refl (ptx va)) in
    page_lookup_present k' d va t (HasTable-mapped k d pp va t perm h) pp
      (rw e (make_pte-present (page2pa pp) perm)) (rw e (entry_page pp perm (omega arith) low))
      inside

-- The state behind `page_remove` of a counted page.
abbrev removed : ℕ → ℕ → ℕ → ℕ → Kernel → Kernel
removed d va t q k =
    if (k.pages q).pp_ref == 1
    then unmapped d va t (freed q (dropped q k))
    else unmapped d va t (dropped q k)

page_remove_counted :
    (k : Kernel) (d va t : ℕ)
    → HasTable k d va t
    → flag (entry_of k t va) pte_p ≡ true
    → OldCounted k t va
    → page_remove (some d) va k ≡ ok tt (removed d va t (pgnum (pte_addr (entry_of k t va))) k)
page_remove_counted k d va t h e old =
    let q : ℕ = pgnum (pte_addr (entry_of k t va)) in
    elim (Bool-cases ((k.pages q).pp_ref == 1)) [
      | inl one ↦ rw one (
          page_remove_present k (freed q (dropped q k)) d va t q h e refl old.inside
            (page_decref_last q k (ground arith) old.unlinked)
            (HasTable-frame k (freed q (dropped q k)) d va t refl refl h))
      | inr more ↦ rw more (
          page_remove_present k (dropped q k) d va t q h e refl old.inside
            (page_decref_more q k (ground (arith, old.counted)) old.fits)
            (HasTable-frame k (dropped q k) d va t refl refl h))
    ]

HasTable-removed :
    (k : Kernel) (d va t q : ℕ) → HasTable k d va t → HasTable (removed d va t q k) d va t
HasTable-removed k d va t q h =
    HasTable-frame k (removed d va t q k) d va t (ground (arith, h.apart)) (ground arith) h

-- Unmapping a page whose references are counted: the address has no page afterwards, the page has
-- one reference less, it is first on the free list exactly if that was its last, and every other
-- entry of the table is as before.
pub page_remove_lem :
    (k : Kernel) (d va t : ℕ)
    → HasTable k d va t
    → flag (entry_of k t va) pte_p ≡ true
    → OldCounted k t va
    → let q = pgnum (pte_addr (entry_of k t va)) in
      (k' : Kernel) × (page_remove (some d) va k ≡ ok tt k')
      × (page_lookup (some d) va k' ≡ ok (none, some (pte_ptr t (ptx va))) k')
      × ((k'.pages q).pp_ref + 1 ≡ (k.pages q).pp_ref)
      × (k'.page_free_list ≡ (if (k.pages q).pp_ref == 1 then some q else k.page_free_list))
      × ((i : ℕ) → i ≢ ptx va → k'.word t i ≡ k.word t i)
page_remove_lem k d va t h e old =
    let q : ℕ = pgnum (pte_addr (entry_of k t va)) in
    let k' : Kernel = removed d va t q k in
    let cleared : entry_of k' t va ≡ 0 = ground arith in
    (
      k',
      page_remove_counted k d va t h e old,
      page_lookup_absent k' d va t (HasTable-removed k d va t q h) (rw cleared),
      ground (arith, old.counted, old.fits),
      ground arith,
      λ i ne. ground arith,
    )

-- Mapping a page at an address whose table exists and where none is mapped: the address has the page
-- afterwards, with the permissions asked for, and the page one reference more; the free list and the
-- contents of every page but the table are as before. The page is in memory and not on top of the
-- free list, and the permissions leave the page number alone.
pub page_insert_fresh :
    (k : Kernel) (d pp va t perm : ℕ)
    → HasTable k d va t
    → k.npages ≤ 1048576
    → pp < k.npages
    → perm < 4096
    → flag (entry_of k t va) pte_p ≡ false
    → same k.page_free_list (some pp) ≡ false
    → (k' : Kernel) × (page_insert (some d) pp va perm k ≡ ok (ret 0) k')
      × (page_lookup (some d) va k' ≡ ok (some pp, some (pte_ptr t (ptx va))) k')
      × (entry_of k' t va ≡ make_pte (page2pa pp) perm)
      × ((k'.pages pp).pp_ref ≡ u16 ((k.pages pp).pp_ref + 1))
      × (k'.page_free_list ≡ k.page_free_list)
      × ((n i : ℕ) → n ≢ t → k'.word n i ≡ k.word n i)
page_insert_fresh k d pp va t perm h small inside low e apart = (
  mapped pp va t perm k,
  page_insert_after k k k d pp va t perm h (page_remove_absent k d va t h e)
      (reclaim_elsewhere pp k apart),
  page_lookup-mapped k d pp va t perm h small inside low,
  ground arith,
  ground arith,
  refl,
  λ n i nt. ground arith,
)

-- Mapping again the page that is mapped at the address, which `page_remove` may first have freed:
-- its reference count and link and the free list are as before, and only the permissions change.
pub page_insert_again :
    (k : Kernel) (d va t perm : ℕ)
    → HasTable k d va t
    → k.npages ≤ 1048576
    → perm < 4096
    → flag (entry_of k t va) pte_p ≡ true
    → OldCounted k t va
    → let pp = pgnum (pte_addr (entry_of k t va)) in
      same k.page_free_list (some pp) ≡ false
      → (k' : Kernel) × (page_insert (some d) pp va perm k ≡ ok (ret 0) k')
        × (page_lookup (some d) va k' ≡ ok (some pp, some (pte_ptr t (ptx va))) k')
        × (entry_of k' t va ≡ make_pte (page2pa pp) perm)
        × ((p : ℕ) → k'.pages p ≡ k.pages p)
        × (k'.page_free_list ≡ k.page_free_list)
page_insert_again k d va t perm h small low e old apart =
    let pp : ℕ = pgnum (pte_addr (entry_of k t va)) in
    let k₁ : Kernel = removed d va t pp k in
    let k₂ : Kernel = record k₁ {
      page_free_list = (k₁.pages pp).pp_link;
      pages = update k₁.pages pp (record (k₁.pages pp) { pp_link = none });
    } in
    let h₁ : HasTable k₁ d va t = HasTable-removed k d va t pp h in
    let gone : page_remove (some d) va k ≡ ok tt k₁ = page_remove_counted k d va t h e old in
    elim (Bool-cases ((k.pages pp).pp_ref == 1)) [
      | inl one ↦ (
        mapped pp va t perm k₂,
        page_insert_after k k₁ k₂ d pp va t perm h gone (reclaim_first pp k₁ (ground arith)),
        page_lookup-mapped k₂ d pp va t perm (HasTable-frame k₁ k₂ d va t refl refl h₁)
            (ground arith) (ground (arith, old.inside)) low,
        ground arith,
        (λ p. ground (arith, old.unlinked)),
        ground arith,
      )
      | inr more ↦ (
        mapped pp va t perm k₁,
        page_insert_after k k₁ k₁ d pp va t perm h gone (reclaim_elsewhere pp k₁ (ground arith)),
        page_lookup-mapped k₁ d pp va t perm h₁ (ground arith) (ground (arith, old.inside)) low,
        ground arith,
        (λ p. ground (arith, old.unlinked, old.fits, old.counted)),
        ground arith,
      )
    ]

-- Mapping a page over another one: the address has the new page afterwards, which gains a
-- reference, and the old page loses one and is first on the free list exactly if that was its last.
pub page_insert_replaces :
    (k : Kernel) (d pp va t perm : ℕ)
    → HasTable k d va t
    → k.npages ≤ 1048576
    → pp < k.npages
    → perm < 4096
    → flag (entry_of k t va) pte_p ≡ true
    → OldCounted k t va
    → same k.page_free_list (some pp) ≡ false
    → let q = pgnum (pte_addr (entry_of k t va)) in
      q ≢ pp
      → (k' : Kernel) × (page_insert (some d) pp va perm k ≡ ok (ret 0) k')
        × (page_lookup (some d) va k' ≡ ok (some pp, some (pte_ptr t (ptx va))) k')
        × ((k'.pages pp).pp_ref ≡ u16 ((k.pages pp).pp_ref + 1))
        × ((k'.pages q).pp_ref + 1 ≡ (k.pages q).pp_ref)
        × (k'.page_free_list ≡ (if (k.pages q).pp_ref == 1 then some q else k.page_free_list))
page_insert_replaces k d pp va t perm h small inside low e old apart ne =
    let q : ℕ = pgnum (pte_addr (entry_of k t va)) in
    let k₁ : Kernel = removed d va t q k in
    (
      mapped pp va t perm k₁,
      page_insert_after k k₁ k₁ d pp va t perm h (page_remove_counted k d va t h e old)
          (reclaim_elsewhere pp k₁ (ground arith)),
      page_lookup-mapped k₁ d pp va t perm (HasTable-removed k d va t q h) (ground arith)
          (ground arith) low,
      ground arith,
      ground (arith, old.counted, old.fits),
      ground arith,
    )
