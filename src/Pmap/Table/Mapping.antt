-- ===== src/Pmap/Table/Mapping.antt =====
-- What the page table operations do where the table that covers the address exists.
use cs3510_operating_systems.Common.{
  ℕ, true, none, Bool, false, gt→leb, some, ◌<◌, ◌≡◌, ◌≢◌, ==_refl, arith, same, update, ◌^◌, ◌+◌,
  ◌-◌, ◌%◌, ◌==◌, ◌∷◌, if◌then◌else◌,
}
use cs3510_operating_systems.Layout.{u16, flag, pte_p, pgnum, pdx, ptx, pte_addr, make_pte}
use cs3510_operating_systems.State.{Kernel, ok, ret}
use cs3510_operating_systems.Pmap.Page.{
  set_page, page2pa, pa2page, kaddr, page_alloc, page_free, page_incref, page_decref,
}
use cs3510_operating_systems.Pmap.Page.FreeList.{freed}
use cs3510_operating_systems.Pmap.Table.{
  pte_ptr, pgdir_walk, page_lookup, in_use, tlb_invalidate, clear_pte, page_remove, reclaim,
  set_pte, page_insert,
}

-- Page `t` of memory is the table for `va` under the directory in page `d`.
pub record HasTable (k : Kernel) (d va t : ℕ) : Type 0 where
  pub present : flag (k.word d (pdx va)) pte_p ≡ true
  pub table : pgnum (pte_addr (k.word d (pdx va))) ≡ t
  pub inside : t < k.npages
  pub apart : t ≢ d

abbrev pub entry_of : Kernel → ℕ → ℕ → ℕ
entry_of k t va = k.word t (ptx va)

-- A frame: the walk reads the directory's entry and the size of memory, and nothing else.
pub HasTable-frame :
    (k k' : Kernel) (d va t : ℕ)
    → k'.word d (pdx va) ≡ k.word d (pdx va)
    → k'.npages ≡ k.npages
    → HasTable k d va t
    → HasTable k' d va t
HasTable-frame k k' d va t same_entry same_size h = record {
  present = rw same_entry h.present;
  table = rw same_entry h.table;
  inside = rw same_size h.inside;
  apart = h.apart;
}

module _ (k : Kernel) (d va t : ℕ) (h : HasTable k d va t) where
  -- `pgdir_walk` finds the entry, whether it may create one or not.
  pub pgdir_walk_hit :
      (create : Bool) → pgdir_walk (some d) va create k ≡ ok (some (pte_ptr t (ptx va))) k
  unfolding pgdir_walk kaddr
  pgdir_walk_hit create = rw (h.present, h.table, gt→leb k.npages t h.inside, h.table)

  pub page_lookup_absent :
      flag (entry_of k t va) pte_p ≡ false
      → page_lookup (some d) va k ≡ ok (none, some (pte_ptr t (ptx va))) k
  unfolding page_lookup
  page_lookup_absent e = rw (pgdir_walk_hit false, e)

  pub page_lookup_present :
      (q : ℕ)
      → flag (entry_of k t va) pte_p ≡ true
      → pgnum (pte_addr (entry_of k t va)) ≡ q
      → q < k.npages
      → page_lookup (some d) va k ≡ ok (some q, some (pte_ptr t (ptx va))) k
  unfolding page_lookup pa2page
  page_lookup_present q e n inside = rw (pgdir_walk_hit false, e, n, gt→leb k.npages q inside)

-- The record of a page with one reference less.
abbrev pub dropped : ℕ → Kernel → Kernel
dropped q k = set_page q (record (k.pages q) { pp_ref = u16 ((k.pages q).pp_ref + 2 ^ 16 - 1) }) k

-- `page_decref` frees the page at its last reference, and only then.
pub page_decref_last :
    (q : ℕ) (k : Kernel)
    → (k.pages q).pp_ref ≡ 1
    → (k.pages q).pp_link ≡ none
    → page_decref q k ≡ ok tt (freed q (dropped q k))
unfolding page_decref page_free
page_decref_last q k one unlinked =
    let e : ((k.pages q).pp_ref + 2 ^ 16 - 1) % 2 ^ 16 ≡ 0 = omega arith in
    rw (e, ==_refl q, unlinked)

pub page_decref_more :
    (q : ℕ) (k : Kernel)
    → 1 < (k.pages q).pp_ref
    → (k.pages q).pp_ref < 2 ^ 16
    → page_decref q k ≡ ok tt (dropped q k)
unfolding page_decref
page_decref_more q k more small =
    let e : (((k.pages q).pp_ref + 2 ^ 16 - 1) % 2 ^ 16 == 0) ≡ false = ground arith in rw e

-- The state with the entry for `va` cleared and its TLB entry flushed.
abbrev pub unmapped : ℕ → ℕ → ℕ → Kernel → Kernel
unmapped d va t k = record k {
  word = update k.word t (update (k.word t) (ptx va) 0);
  invlpg = if in_use (some d) k then va ∷ k.invlpg else k.invlpg;
}

-- `page_remove` of a mapped page drops one reference, clears the entry and flushes.
pub page_remove_present :
    (k k' : Kernel) (d va t q : ℕ)
    → HasTable k d va t
    → flag (entry_of k t va) pte_p ≡ true
    → pgnum (pte_addr (entry_of k t va)) ≡ q
    → q < k.npages
    → page_decref q k ≡ ok tt k'
    → HasTable k' d va t
    → page_remove (some d) va k ≡ ok tt (unmapped d va t k')
unfolding page_remove clear_pte tlb_invalidate
page_remove_present k k' d va t q h e n inside dec h' =
    rw (page_lookup_present k d va t h q e n inside, dec, pgdir_walk_hit k' d va t h' false)

pub page_remove_absent :
    (k : Kernel) (d va t : ℕ)
    → HasTable k d va t
    → flag (entry_of k t va) pte_p ≡ false
    → page_remove (some d) va k ≡ ok tt k
unfolding page_remove
page_remove_absent k d va t h e = rw (page_lookup_absent k d va t h e)

-- The state that `page_insert` ends in once `pp` is not on the free list.
abbrev pub mapped : ℕ → ℕ → ℕ → ℕ → Kernel → Kernel
mapped pp va t perm k = record k {
  word = update k.word t (update (k.word t) (ptx va) (make_pte (page2pa pp) perm));
  pages = update k.pages pp (record (k.pages pp) { pp_ref = u16 ((k.pages pp).pp_ref + 1) });
}

pub page_insert_after :
    (k k₁ k₂ : Kernel) (d pp va t perm : ℕ)
    → HasTable k d va t
    → page_remove (some d) va k ≡ ok tt k₁
    → reclaim pp k₁ ≡ ok (some pp) k₂
    → page_insert (some d) pp va perm k ≡ ok (ret 0) (mapped pp va t perm k₂)
unfolding page_insert set_pte page_incref
page_insert_after k k₁ k₂ d pp va t perm h removed reclaimed =
    rw (pgdir_walk_hit k d va t h true, removed, reclaimed)

pub reclaim_elsewhere :
    (pp : ℕ) (k : Kernel) → same k.page_free_list (some pp) ≡ false → reclaim pp k ≡ ok (some pp) k
unfolding reclaim
reclaim_elsewhere pp k e = rw e

pub reclaim_first :
    (pp : ℕ) (k : Kernel)
    → k.page_free_list ≡ some pp
    → reclaim pp k
      ≡ ok (some pp) (record k {
        page_free_list = (k.pages pp).pp_link;
        pages = update k.pages pp (record (k.pages pp) { pp_link = none });
      })
unfolding reclaim page_alloc
reclaim_first pp k e = rw (e, ==_refl pp)
