-- ===== src/Pmap/Page.antt =====
-- The physical page allocator of kern/pmap.c, and the conversions of kern/pmap.h.
pub mod FreeList
use cs3510_operating_systems.Common.{
  ℕ, ◌+◌, ◌-◌, ◌*◌, ◌^◌, Option, none, some, leb, ◌==◌, ◌!=◌, if◌then◌else◌, update, is_some,
}
use cs3510_operating_systems.Layout.{u16, u32, flag, pgsize, pgnum}
use cs3510_operating_systems.State.{PageInfo, Kernel, ok, panic, M, pure, ◌>>=◌, ◌>>◌, gets, modify}

abbrev pub alloc_zero : ℕ
alloc_zero = 1

-- A `pte_t *`: the page that holds the table, and the index in it.
pub record PtePtr : Type 0 where
  pub table : ℕ
  pub index : ℕ

-- `pp - pages` times the page size.
unfoldable pub page2pa : ℕ → ℕ
page2pa pp = u32 (pp * pgsize)

unfoldable pub pa2page : ℕ → M ℕ
unfolding pgnum
pa2page pa = λ k. if leb k.npages (pgnum pa) then panic else ok (pgnum pa) k

-- A kernel address is kept as the physical address that it stands for.
unfoldable pub kaddr : ℕ → M ℕ
unfolding pgnum
kaddr pa = λ k. if leb k.npages (pgnum pa) then panic else ok pa k

unfoldable pub page2kva : ℕ → M ℕ
page2kva pp = kaddr (page2pa pp)

abbrev pub set_page : ℕ → PageInfo → Kernel → Kernel
set_page pp info k = record k { pages = update k.pages pp info }

-- `*pte`, and `*pte = v`.
abbrev pub load : PtePtr → M ℕ
load p = gets (λ k. k.word p.table p.index)

abbrev pub store : PtePtr → ℕ → M (Unit {0})
store p v =
    modify (λ k. record k { word = update k.word p.table (update (k.word p.table) p.index v) })

-- `memset(page, 0, PGSIZE)` at the kernel address of a page.
unfoldable pub clear_page : ℕ → M (Unit {0})
unfolding pgnum
clear_page pa = modify (λ k. record k { word = update k.word (pgnum pa) (λ _. 0) })

abbrev pub unlink : ℕ → Kernel → Kernel
unlink r k = record k {
  page_free_list = (k.pages r).pp_link;
  pages = update k.pages r (record (k.pages r) { pp_link = none });
}

unfoldable pub page_alloc : ℕ → M (Option ℕ)
unfolding page2kva kaddr page2pa clear_page
page_alloc alloc_flags k = elim k.page_free_list [
  | none ↦ ok none k
  | some result ↦
      (do
        modify (unlink result)
        (if flag alloc_flags alloc_zero then page2kva result >>= clear_page else pure tt)
        pure (some result))
        k
]

unfoldable pub page_free : ℕ → M (Unit {0})
page_free pp k =
    if is_some (k.pages pp).pp_link
    then panic
    else if (k.pages pp).pp_ref != 0
    then panic
    else ok tt (record k {
      pages = update k.pages pp (record (k.pages pp) { pp_link = k.page_free_list });
      page_free_list = some pp;
    })

-- `pp->pp_ref++` on a `uint16_t`.
unfoldable pub page_incref : ℕ → M (Unit {0})
page_incref pp =
    modify (λ k. set_page pp (record (k.pages pp) { pp_ref = u16 ((k.pages pp).pp_ref + 1) }) k)

unfoldable pub page_decref : ℕ → M (Unit {0})
unfolding page_free
page_decref pp k =
    let ref : ℕ = u16 ((k.pages pp).pp_ref + 2 ^ 16 - 1) in
    let k' : Kernel = set_page pp (record (k.pages pp) { pp_ref = ref }) k in
    if ref == 0 then page_free pp k' else ok tt k'
