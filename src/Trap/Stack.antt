-- ===== src/Trap/Stack.antt =====
-- The kernel's stores to the user exception stack (kern/trap.c), where its page is mapped.
use cs3510_operating_systems.Common.{
  ℕ, ne→==, arith, false, update, some, ◌+◌, ◌/◌, ◌%◌, ◌<◌, ◌≡◌, ◌≢◌, ◌==◌, List, true, leb, ap,
  length, suc, ltb, get_or, refl, ◌-◌, ◌*◌, ◌≤◌, ◌∙◌, ◌&&◌, ◌∷◌, if◌then◌else◌, [], inr, inl, zero,
  Bool-cases, ==_refl,
}
use cs3510_operating_systems.Layout.{pgnum, pdx, ptx, pgoff, pte_addr, u32}
use cs3510_operating_systems.State.{Kernel, ok, and_then}
use cs3510_operating_systems.Trap.UserStack.{
  translate, store_in, store_aligned, store_unaligned, store_user, store_words,
}

-- The page below `UXSTACKTOP`.
abbrev pub stack : ℕ
stack = 0xeebff000

-- Page `n` backs the exception stack, and is neither the loaded directory nor the table.
pub record HasStack (k : Kernel) (n : ℕ) : Type 0 where
  pub mapped : translate stack k ≡ some n
  pub not_directory : n ≢ pgnum k.cr3
  pub not_table : n ≢ pgnum (pte_addr (k.word (pgnum k.cr3) (pdx stack)))

unfoldable pub written : ℕ → ℕ → ℕ → Kernel → Kernel
written n i w k = record k { word = update k.word n (update (k.word n) i w) }

pub HasStack-written : (n i w : ℕ) (k : Kernel) → HasStack k n → HasStack (written n i w k) n
unfolding translate written
HasStack-written n i w k h =
    let dir : (n == pgnum k.cr3) ≡ false = ne→== n (pgnum k.cr3) h.not_directory in
    let tab : (n == pgnum (pte_addr (k.word (pgnum k.cr3) (pdx stack)))) ≡ false =
      ne→== n (pgnum (pte_addr (k.word (pgnum k.cr3) (pdx stack)))) h.not_table in
    record {
      mapped = rw (dir, tab) h.mapped;
      not_directory = h.not_directory;
      not_table = rw dir h.not_table;
    }

translate-same :
    (va va' : ℕ) (k : Kernel)
    → pdx va ≡ pdx va'
    → ptx va ≡ ptx va'
    → translate va k ≡ translate va' k
unfolding translate
translate-same va va' k same_pde same_pte = rw (same_pde, same_pte) refl

-- A word on the stack.
store_aligned-written :
    (off w n : ℕ) (k : Kernel)
    → HasStack k n
    → off < 4096
    → store_aligned (stack + off) w k ≡ ok tt (written n (off / 4) w k)
unfolding store_aligned written pdx ptx pgoff
store_aligned-written off w n k h small =
    let same_pde : pdx (stack + off) ≡ pdx stack = omega arith in
    let same_pte : ptx (stack + off) ≡ ptx stack = omega arith in
    let index : (stack + off) % 4096 ≡ off = omega arith in
    ap (λ o. store_in ((stack + off) % 4096 / 4) w o k)
      (translate-same (stack + off) stack k same_pde same_pte ∙ h.mapped)
    ∙ rw index refl

pub store_user-written :
    (off w n : ℕ) (k : Kernel)
    → HasStack k n
    → off % 4 ≡ 0
    → off < 4096
    → store_user (stack + off) w k ≡ ok tt (written n (off / 4) w k)
unfolding store_user
store_user-written off w n k h aligned small =
    let al : ((stack + off) % 4 == 0) ≡ true = ground arith in
    ap (λ b. (if b then store_aligned (stack + off) w else store_unaligned (stack + off) w) k) al
    ∙ store_aligned-written off w n k h small

-- Words one behind the other.
unfoldable pub written_all : ℕ → ℕ → List ℕ → Kernel → Kernel
written_all n i [] k = k
written_all n i (w ∷ ws) k = written_all n (suc i) ws (written n i w k)

pub store_words-written_all :
    (ws : List ℕ) (off n : ℕ) (k : Kernel)
    → HasStack k n
    → off % 4 ≡ 0
    → off + 4 * length ws ≤ 4096
    → store_words (stack + off) ws k ≡ ok tt (written_all n (off / 4) ws k)
unfolding store_words written_all
store_words-written_all [] off n k h aligned fits = refl
store_words-written_all (w ∷ ws) off n k h aligned fits =
    let next : u32 (stack + off + 4) ≡ stack + (off + 4) = omega arith in
    let index : (off + 4) / 4 ≡ suc (off / 4) = omega arith in
    ap (λ r. and_then r (λ u. store_words (u32 (stack + off + 4)) ws))
      (store_user-written off w n k h aligned (omega arith))
    ∙ ap (λ va. store_words va ws (written n (off / 4) w k)) next
    ∙ store_words-written_all ws (off + 4) n (written n (off / 4) w k)
        (HasStack-written n (off / 4) w k h) (omega arith) (omega arith)
    ∙ ap (λ i. ok tt (written_all n i ws (written n (off / 4) w k))) index

pub HasStack-written_all :
    (ws : List ℕ) (n i : ℕ) (k : Kernel) → HasStack k n → HasStack (written_all n i ws k) n
unfolding written_all
HasStack-written_all [] n i k h = h
HasStack-written_all (w ∷ ws) n i k h =
    HasStack-written_all ws n (suc i) (written n i w k) (HasStack-written n i w k h)

get_or-later : (x : ℕ) (xs : List ℕ) (i : ℕ) → 0 < i → get_or (x ∷ xs) i 0 ≡ get_or xs (i - 1) 0
get_or-later x xs zero positive = absurd (omega arith)
get_or-later x xs (suc i) positive = let e : suc i - 1 ≡ i = omega arith in rw e refl

pub word-written :
    (n i w : ℕ) (k : Kernel) (j : ℕ)
    → (written n i w k).word n j ≡ (if i == j then w else k.word n j)
unfolding written
word-written n i w k j = rw (==_refl n) refl

-- What is then in the page, and that other pages and the environments are as they were.
pub word-written_all :
    (ws : List ℕ) (n i : ℕ) (k : Kernel) (j : ℕ)
    → (written_all n i ws k).word n j
      ≡ (if leb i j && ltb j (i + length ws) then get_or ws (j - i) 0 else k.word n j)
unfolding written written_all
word-written_all [] n i k j = ground arith
word-written_all (w ∷ ws) n i k j =
    word-written_all ws n (suc i) (written n i w k) j ∙ elim (Bool-cases (i == j)) [
      | inl e ↦ let first : j - i ≡ 0 = ground arith in rw (==_refl n, first) (ground arith)
      | inr apart ↦ elim (Bool-cases (ltb j i)) [
        | inl before ↦ rw (==_refl n, apart) (ground arith)
        | inr behind ↦
            let less_one : j - i - 1 ≡ j - suc i = omega arith in
            rw (==_refl n, apart)
              (ground (arith, get_or-later w ws (j - i) (ground arith), less_one))
      ]
    ]
