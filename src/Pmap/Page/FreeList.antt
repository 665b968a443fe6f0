-- ===== src/Pmap/Page/FreeList.antt =====
-- The free list of pages: what the links spell out, and how the allocator changes it.
use cs3510_operating_systems.Common.{
  ℕ, List, none, has, arith, some, true, update, false, Option, ◌≤◌, ◌<◌, ◌≡◌, ◌∷◌, if◌then◌else◌,
  Bool-cases, gt→leb, inl, inr, ◌^◌, ◌*◌, ◌/◌, ◌%◌, [], ◌≢◌, ◌⊎◌, ◌↔◌, Option-cases, ◌!=◌,
}
use cs3510_operating_systems.Layout.{flag, pgnum}
use cs3510_operating_systems.State.{PageInfo, Kernel, ok}
use cs3510_operating_systems.Pmap.Page.{
  alloc_zero, page2pa, kaddr, page2kva, clear_page, unlink, page_alloc, page_free, panic,
}

-- From `l` the links lead through the distinct pages `ps`, none of them referenced, to NULL.
abbrev pub Chain : (ℕ → PageInfo) → Option ℕ → List ℕ → Type 0
Chain pages l [] = l ≡ none
Chain pages l (p ∷ ps) =
    (l ≡ some p) × ((pages p).pp_ref ≡ 0) × (has p ps ≡ false) × Chain pages (pages p).pp_link ps

-- The list that starts at `page_free_list`; physical memory fits in 32-bit addresses.
pub record FreeList (k : Kernel) (ps : List ℕ) : Type 0 where
  pub chain : Chain k.pages k.page_free_list ps
  pub bounded : (p : ℕ) → has p ps ≡ true → p < k.npages
  pub addressable : k.npages ≤ 1048576

pub Chain-update :
    (pages : ℕ → PageInfo) (i : ℕ) (info : PageInfo) (l : Option ℕ) (ps : List ℕ)
    → has i ps ≡ false
    → Chain pages l ps
    → Chain (update pages i info) l ps
Chain-update pages i info l [] out c = c
Chain-update pages i info l (p ∷ ps) out c =
    ground (arith, Chain-update pages i info (pages p).pp_link ps)

-- The state behind an allocation of page `p`.
abbrev pub taken : ℕ → ℕ → Kernel → Kernel
taken flags p k = record (unlink p k) {
  word = if flag flags alloc_zero then update k.word p (λ _. 0) else k.word;
}

-- The kernel address of a page in memory is valid, and leads back to the page.
pub page2kva-ok :
    (p : ℕ) (k : Kernel) → p < k.npages → k.npages ≤ 1048576 → page2kva p k ≡ ok (p * 4096) k
unfolding page2kva kaddr page2pa pgnum
page2kva-ok p k h a =
    let e : p * 4096 % 2 ^ 32 ≡ p * 4096 = omega arith in
    let n : p * 4096 / 2 ^ 12 ≡ p = omega arith in rw (e, n, gt→leb k.npages p h)

pub page_alloc-cons :
    (flags p : ℕ) (ps : List ℕ) (k : Kernel)
    → FreeList k (p ∷ ps)
    → page_alloc flags k ≡ ok (some p) (taken flags p k)
unfolding page_alloc clear_page pgnum
page_alloc-cons flags p ps k free =
    let here : p < k.npages = free.bounded p (ground arith) in
    let n : p * 4096 / 2 ^ 12 ≡ p = omega arith in
    elim (Bool-cases (flag flags alloc_zero)) [
      | inl z ↦ rw (free.chain.0, z, page2kva-ok p (unlink p k) here free.addressable, n)
      | inr z ↦ rw (free.chain.0, z)
    ]

-- With a page on the free list, `page_alloc` takes the first one and leaves the rest: the page is
-- unlinked and unreferenced, filled with zeros exactly if the flags ask for it, and no other page's
-- record or contents change.
pub page_alloc_takes_first :
    (flags p : ℕ) (ps : List ℕ) (k : Kernel)
    → FreeList k (p ∷ ps)
    → (k' : Kernel) × (page_alloc flags k ≡ ok (some p) k')
      × FreeList k' ps
      × (k'.pages p ≡ record { pp_link = none; pp_ref = 0 })
      × ((q : ℕ) → q ≢ p → k'.pages q ≡ k.pages q)
      × ((i : ℕ) → k'.word p i ≡ (if flag flags alloc_zero then 0 else k.word p i))
      × ((q i : ℕ) → q ≢ p → k'.word q i ≡ k.word q i)
page_alloc_takes_first flags p ps k free = (
  taken flags p k,
  page_alloc-cons flags p ps k free,
  record {
    chain =
        Chain-update k.pages p (record (k.pages p) { pp_link = none }) (k.pages p).pp_link ps
          free.chain.2 free.chain.3;
    bounded = λ q h. free.bounded q (ground arith);
    addressable = free.addressable;
  },
  ground arith,
  (λ q ne. ground arith),
  (λ i. ground arith),
  (λ q i ne. ground arith),
)

-- With no page on the free list, `page_alloc` returns NULL and changes nothing.
pub page_alloc_exhausted : (flags : ℕ) (k : Kernel) → FreeList k [] → page_alloc flags k ≡ ok none k
unfolding page_alloc
page_alloc_exhausted flags k free = rw free.chain

-- The state behind `page_free`.
abbrev pub freed : ℕ → Kernel → Kernel
freed p k = record k {
  pages = update k.pages p (record (k.pages p) { pp_link = k.page_free_list });
  page_free_list = some p;
}

pub freed-FreeList :
    (p : ℕ) (ps : List ℕ) (k : Kernel)
    → FreeList k ps
    → has p ps ≡ false
    → p < k.npages
    → (k.pages p).pp_ref ≡ 0
    → FreeList (freed p k) (p ∷ ps)
freed-FreeList p ps k free out inside ref = record {
  chain = ground (
    arith,
    Chain-update k.pages p (record (k.pages p) { pp_link = k.page_free_list }) k.page_free_list ps,
  );
  bounded = λ q h. ground (arith, free.bounded q);
  addressable = free.addressable;
}

-- `page_free` panics exactly on a page that is linked or still referenced; any other page that is
-- in memory and not on the free list becomes the first on it.
pub page_free_lem :
    (p : ℕ) (ps : List ℕ) (k : Kernel)
    → FreeList k ps
    → has p ps ≡ false
    → p < k.npages
    → ((page_free p k ≡ panic) ↔ (((k.pages p).pp_link ≢ none) ⊎ ((k.pages p).pp_ref ≢ 0)))
      × (page_free p k ≢ panic → (k' : Kernel) × (page_free p k ≡ ok tt k') × FreeList k' (p ∷ ps))
unfolding page_free
page_free_lem p ps k free out inside = elim (Option-cases (k.pages p).pp_link) [
  | inr (q, e) ↦
      (((λ _. inl (ground arith)), λ _. ground arith), λ safe. absurd (safe (ground arith)))
  | inl e ↦ elim (Bool-cases ((k.pages p).pp_ref != 0)) [
    | inl r ↦ (((λ _. inr (ground arith)), λ _. ground arith), λ safe. absurd (safe (ground arith)))
    | inr r ↦ (
      ((λ h. ground arith), λ h. ground arith),
      λ _. (freed p k, ground arith, freed-FreeList p ps k free out inside (ground arith)),
    )
  ]
]
