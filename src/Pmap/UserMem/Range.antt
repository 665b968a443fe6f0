-- ===== src/Pmap/UserMem/Range.antt =====
-- Which pages `user_mem_check` looks at, and when it accepts.
use cs3510_operating_systems.Common.{
  ℕ, some, ltb, Option, zero, Bool, suc, arith, none, ◌+◌, ◌*◌, ◌≤◌, ◌<◌, ◌≡◌, if◌then◌else◌, true,
  refl, ge→ltb, lt→ltb, false, ◌∙◌, if_apply, inr, bit_and_step, inl, bit_or, bit_or-mod_two,
  bit_and-one, Option-cases, ◌-◌, ◌/◌, ◌%◌, ◌↔◌,
}
use cs3510_operating_systems.Layout.{u32, rounddown, ulim, flag, pte_p}
use cs3510_operating_systems.State.{Kernel, ok, M, Ret}
use cs3510_operating_systems.Pmap.Table.Mapping.{HasTable, entry_of, pgdir_walk_hit}
use cs3510_operating_systems.Pmap.UserMem.{
  reject, page_allows, check_limit, check_loop, user_mem_check, ret, address_space_pages,
}

-- The first of `n` pages from `lower` on that does not pass.
first_denied : (ℕ → Bool) → ℕ → ℕ → Option ℕ
first_denied allowed lower zero = none
first_denied allowed lower (suc n) =
    let rest = first_denied allowed (lower + 4096) n in if allowed lower then rest else some lower

-- What the check does once the pages are known.
abbrev verdict : ℕ → ℕ → Option ℕ → M Ret
verdict va len none = check_limit va len
verdict va len (some a) = reject (if ltb va a then a else va)

-- What the entries of the pages from address `lo` to `hi` allow.
abbrev Reads : (pgdir : Option ℕ) → (perm : ℕ) → Kernel → (ℕ → Bool) → (lo hi : ℕ) → Type 0
Reads pgdir perm k allowed lo hi =
    (a : ℕ) → lo ≤ a → a < hi → a % 4096 ≡ 0 → page_allows pgdir a perm k ≡ ok (allowed a) k

module _ (pgdir : Option ℕ) (perm : ℕ) (k : Kernel) (allowed : ℕ → Bool) (lo hi : ℕ)
    (reads : Reads pgdir perm k allowed lo hi) where
  -- One round of the loop.
  check_loop_step :
      (va len upper fuel lower : ℕ)
      → lo ≤ lower
      → lower < hi
      → lower % 4096 ≡ 0
      → check_loop pgdir va len perm upper (suc fuel) lower k ≡ (
          if allowed lower
          then (if ltb (u32 (lower + 4096)) upper
              then check_loop pgdir va len perm upper fuel (u32 (lower + 4096)) k
              else check_limit va len k)
          else reject (if ltb va lower then lower else va) k)
  unfolding check_loop
  check_loop_step va len upper fuel lower above below aligned = rw (
    reads lower above below aligned,
    if_apply (allowed lower),
    if_apply (ltb (u32 (lower + 4096)) upper),
  )

  -- The loop looks at `n` pages, if the last of them is the first that reaches `upper`.
  check_loop_lem :
      (va len upper fuel n lower : ℕ)
      → lo ≤ lower
      → lower + 4096 * n < hi
      → lower % 4096 ≡ 0
      → n ≤ fuel
      → upper ≤ lower + 4096 * suc n
      → lower + 4096 * suc n < 4294967296
      → (0 < n → lower + 4096 * n < upper)
      → check_loop pgdir va len perm upper (suc fuel) lower k
        ≡ verdict va len (first_denied allowed lower (suc n)) k
  unfolding first_denied
  check_loop_lem va len upper fuel zero lower above below aligned f reach room more =
      let e : u32 (lower + 4096) ≡ lower + 4096 = omega arith in
      check_loop_step va len upper fuel lower above (omega arith) aligned
      ∙ rw (e, ge→ltb (lower + 4096) upper (omega arith)) (ground arith)
  check_loop_lem va len upper zero (suc n) lower above below aligned f reach room more =
      absurd (omega arith)
  check_loop_lem va len upper (suc fuel) (suc n) lower above below aligned f reach room more =
      let e : u32 (lower + 4096) ≡ lower + 4096 = omega arith in
      let ih : check_loop pgdir va len perm upper (suc fuel) (lower + 4096) k
          ≡ verdict va len (first_denied allowed (lower + 4096) (suc n)) k =
        check_loop_lem va len upper fuel n (lower + 4096) (omega arith) (omega arith) (omega arith)
          (omega arith) (omega arith) (omega arith) (λ p. omega arith) in
      check_loop_step va len upper (suc fuel) lower above (omega arith) aligned
      ∙ rw (e, lt→ltb (lower + 4096) upper (omega arith), ih) (pick (allowed lower) lower n)
    where
      pick :
          (b : Bool) (lower n : ℕ)
          → (if b
              then verdict va len (first_denied allowed (lower + 4096) (suc n)) k
              else reject (if ltb va lower then lower else va) k)
            ≡ verdict va len
                (if b then first_denied allowed (lower + 4096) (suc n) else some lower)
                k
      pick true lower n = refl
      pick false lower n = refl

first_denied-none :
    (allowed : ℕ → Bool) (lower n : ℕ)
    → (first_denied allowed lower n ≡ none) ↔ ((i : ℕ) → i < n → allowed (lower + 4096 * i) ≡ true)
unfolding first_denied
first_denied-none allowed lower zero = ((λ e i h. absurd (omega arith)), λ all. refl)
first_denied-none allowed lower (suc n) =
    let ih = first_denied-none allowed (lower + 4096) n in
    (
      (λ e. elim [
        | zero ↦ λ h. let z : lower + 4096 * 0 ≡ lower = omega arith in rw z (ground arith)
        | suc i ↦ λ h.
            let z : lower + 4096 * suc i ≡ lower + 4096 + 4096 * i = omega arith in
            rw z (ih.0 (ground arith) i (omega arith))
      ]),
      λ all.
          let z : lower + 4096 * 0 ≡ lower = omega arith in
          let here : allowed lower ≡ true = rw z at (all 0 (omega arith)) in
          rw here (
            ih.1 λ i h.
              let s : lower + 4096 * suc i ≡ lower + 4096 + 4096 * i = omega arith in
              rw s at (all (suc i) (omega arith))),
    )

-- The pages that are looked at: from the one that holds `va` to the last that ends at or below
-- `va + len`, and one in any case.
abbrev pub pages_checked : ℕ → ℕ → ℕ
pages_checked va len = suc ((va + len) / 4096 - va / 4096 - 1)

-- The entries of these pages.
abbrev pub ReadsRange :
    (pgdir : Option ℕ) → (perm : ℕ) → Kernel → (ℕ → Bool) → (va len : ℕ) → Type 0
ReadsRange pgdir perm k allowed va len =
    Reads pgdir perm k allowed (va / 4096 * 4096) (va / 4096 * 4096 + 4096 * pages_checked va len)

module _ (env perm : ℕ) (k : Kernel) (allowed : ℕ → Bool) (va len : ℕ)
    (reads : ReadsRange ((k.envs env).env_pgdir) perm k allowed va len) where
  -- `user_mem_check` ends, for a range that does not reach the last page of the address space, with
  -- the verdict on the first page that does not pass.
  user_mem_check-verdict :
      va + len < 4294963200
      → user_mem_check env va len perm k
        ≡ verdict va len (first_denied allowed (va / 4096 * 4096) (pages_checked va len)) k
  unfolding user_mem_check rounddown
  user_mem_check-verdict room =
      let lower : va - va % 4096 ≡ va / 4096 * 4096 = omega arith in
      let sum : u32 (va + len) ≡ va + len = omega arith in
      rw (sum, lower)
        (check_loop_lem (k.envs env).env_pgdir perm k allowed (va / 4096 * 4096)
          (va / 4096 * 4096 + 4096 * pages_checked va len) reads va len
          (va + len - (va + len) % 4096) address_space_pages ((va + len) / 4096 - va / 4096 - 1)
          (va / 4096 * 4096) (omega arith) (omega arith) (omega arith) (omega arith) (omega arith)
          (omega arith) (λ p. omega arith))

  -- `user_mem_check` accepts a range that does not reach the last page of the address space exactly
  -- if it ends below `ULIM` and each page passes that it looks at.
  pub user_mem_check_accepts :
      va + len < 4294963200
      → (user_mem_check env va len perm k ≡ ok (ret 0) k) ↔ (
          ((i : ℕ) → i < pages_checked va len → allowed (va / 4096 * 4096 + 4096 * i) ≡ true)
          × (va + len < ulim))
  unfolding check_limit reject
  user_mem_check_accepts room =
      let sum : u32 (va + len) ≡ va + len = omega arith in
      let fd = first_denied-none allowed (va / 4096 * 4096) (pages_checked va len) in
      rw (user_mem_check-verdict room)
        (elim (Option-cases (first_denied allowed (va / 4096 * 4096) (pages_checked va len))) [
          | inl e ↦ rw (e, sum) ((λ h. (fd.0 e, ground arith)), λ (all, below). ground arith)
          | inr (a, e) ↦
              rw e ((λ h. absurd (ground arith)), λ (all, below). ground (arith, fd.1 all))
        ])

-- A page that is present passes whatever permissions are asked for: the test is whether the entry
-- shares any bit with `perm | PTE_P`.
pub page_allows_present :
    (d a t perm : ℕ) (k : Kernel)
    → HasTable k d a t
    → flag (entry_of k t a) pte_p ≡ true
    → page_allows (some d) a perm k ≡ ok true k
unfolding page_allows
page_allows_present d a t perm k h e =
    let x : ℕ = entry_of k t a in
    let shares : flag (bit_or perm pte_p) x ≡ true =
      ground
        (arith, bit_and_step (bit_or perm pte_p) x, bit_or-mod_two perm pte_p, bit_and-one x) in
    rw (pgdir_walk_hit k d a t h false, shares)
