-- ===== src/Syscall/Pages/Alloc.antt =====
-- What `sys_page_alloc` does on each of its branches.
use cs3510_operating_systems.Common.{
  some, true, ℕ, bit_or, arith, false, ◌/◌, ◌%◌, ◌<◌, ◌≡◌, ◌||◌, ◌↔◌, [], inr, inl, Bool-cases, ltb,
  ◌∙◌, ap, refl, ◌^◌, ◌*◌, bit_and-zero, bit_or-zero, if◌then◌else◌,
}
use cs3510_operating_systems.Layout.{flag, pte_p, pte_u, utop, pgnum, pte_addr, make_pte}
use cs3510_operating_systems.Layout.Laws.{bit_or-div_page}
use cs3510_operating_systems.State.{Kernel, ok, Ret, ret, err, inval, no_mem, pure}
use cs3510_operating_systems.Pmap.Page.{page2pa}
use cs3510_operating_systems.Pmap.Page.FreeList.{FreeList, page_alloc_exhausted}
use cs3510_operating_systems.Env.Lookup.{envid2env}
use cs3510_operating_systems.Syscall.Envs.Status.{with_env_found}
use cs3510_operating_systems.Syscall.Pages.{
  misaligned, bad_va, none_mask, bad_perm, alloc_at, sys_page_alloc,
}

-- An address passes exactly if it lies below `UTOP` and, where it is below 2 ^ 31, on a page
-- boundary: from there on the boundary is not checked.
pub bad_va_lem : (va : ℕ) → (bad_va va ≡ false) ↔ ((va < utop) × (va < 2147483648 → va % 4096 ≡ 0))
unfolding bad_va misaligned
bad_va_lem va = (
  (λ h. (ground arith, λ l. ground arith)),
  λ (below, aligned). elim (Bool-cases (ltb va 2147483648)) [
    | inl l ↦ rw (aligned (ground arith)) (ground arith)
    | inr g ↦ ground arith
  ],
)

-- Permissions pass exactly if they have `PTE_U` and `PTE_P`: no other bit is refused.
pub bad_perm_lem :
    (perm : ℕ) → (bad_perm perm ≡ false) ↔ ((flag perm pte_u ≡ true) × (flag perm pte_p ≡ true))
unfolding bad_perm
bad_perm_lem perm =
    let unasked : flag perm none_mask ≡ false = unfold none_mask in rw (bit_and-zero perm) refl in
    ground (arith, unasked)

mul_div : (n : ℕ) → n * 4096 / 4096 ≡ n
mul_div n = omega arith

-- The page that an entry maps, for any permissions: their bits from the twelfth on are joined to the
-- number of the page that was meant.
pub make_pte-page :
    (pp perm : ℕ)
    → pp < 1048576
    → pgnum (pte_addr (make_pte (page2pa pp) perm)) ≡ bit_or pp (perm / 4096)
unfolding pgnum pte_addr make_pte page2pa
make_pte-page pp perm small =
    let e : pp * 4096 % 2 ^ 32 ≡ pp * 4096 = omega arith in
    rw e (
      ap (λ n. n * 4096 / 4096) (bit_or-div_page (bit_or (pp * 4096) perm) 1)
      ∙ rw
          (
            bit_or-zero (bit_or (pp * 4096) perm / 4096),
            mul_div (bit_or (pp * 4096) perm / 4096),
            bit_or-div_page (pp * 4096) perm,
            mul_div pp,
          )
          refl)

module _ (envid e va perm : ℕ) (k : Kernel)
    (found : envid2env envid true k ≡ ok (ret 0, some e) k) where
  passed :
      (bad_va va || bad_perm perm) ≡ false → sys_page_alloc envid va perm k ≡ alloc_at e va perm k
  unfolding sys_page_alloc
  passed h =
      let va_ok : bad_va va ≡ false = ground arith in
      let perm_ok : bad_perm perm ≡ false = ground arith in
      with_env_found envid e true _ k found ∙ rw (va_ok, perm_ok) refl

  -- With an environment that the caller may manage, `sys_page_alloc` refuses an address or
  -- permissions that do not pass, and reports that no page is left, changing nothing.
  pub sys_page_alloc_refuses :
      ((bad_va va || bad_perm perm) ≡ true → sys_page_alloc envid va perm k ≡ ok (err inval) k)
      × ((bad_va va || bad_perm perm) ≡ false
          → FreeList k []
          → sys_page_alloc envid va perm k ≡ ok (err no_mem) k)
  unfolding sys_page_alloc alloc_at
  sys_page_alloc_refuses = (
    (λ h. with_env_found envid e true _ k found ∙ refused h),
    λ h none_left. passed h ∙ rw (page_alloc_exhausted 0 k none_left) refl,
  )
    where
      refused :
          (bad_va va || bad_perm perm) ≡ true
          → (if bad_va va
                then pure {A = Ret} (err inval)
                else if bad_perm perm
                then pure (err inval)
                else alloc_at e va perm)
              k
            ≡ ok (err inval) k
      refused h = elim (Bool-cases (bad_va va)) [
        | inl b ↦ rw b refl
        | inr g ↦ let bad : bad_perm perm ≡ true = ground arith in rw (g, bad) refl
      ]
