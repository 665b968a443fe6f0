-- ===== src/Trap/Pushed.antt =====
-- The stores to `*utf` in `page_fault_handler` of kern/trap.c.
use cs3510_operating_systems.Common.{
  get_or, ℕ, leb, List, ltb, ◌+◌, ◌-◌, ◌/◌, ◌%◌, ◌≤◌, ◌≡◌, ◌&&◌, ◌∷◌, if◌then◌else◌, [], ap, refl,
  arith, ◌*◌, ◌∙◌, length, suc, zero, ◌==◌, ◌++◌, inl, Bool-cases, inr,
}
use cs3510_operating_systems.Layout.{u32}
use cs3510_operating_systems.State.{Trapframe, Kernel, ok, and_then, ◌>>◌}
use cs3510_operating_systems.Trap.UserStack.{store_user}
use cs3510_operating_systems.Trap.Fault.{regs_words, push_utf}
use cs3510_operating_systems.Trap.Stack.{
  stack, HasStack, written, store_user-written, written_all, store_words-written_all,
  HasStack-written_all, HasStack-written, word-written_all, word-written,
}

-- `struct UTrapframe`, word by word.
abbrev pub utrapframe : ℕ → ℕ → Trapframe → List ℕ
utrapframe fault_va esp tf =
    fault_va ∷ tf.tf_err ∷ tf.tf_regs.reg_edi ∷ tf.tf_regs.reg_esi ∷ tf.tf_regs.reg_ebp
    ∷ tf.tf_regs.reg_oesp ∷ tf.tf_regs.reg_ebx ∷ tf.tf_regs.reg_edx ∷ tf.tf_regs.reg_ecx
    ∷ tf.tf_regs.reg_eax ∷ tf.tf_eip ∷ tf.tf_eflags ∷ esp ∷ []

-- The first ten words, which the source stores in the order of the structure.
abbrev first_words : ℕ → Trapframe → List ℕ
first_words fault_va tf = fault_va ∷ tf.tf_err ∷ regs_words tf.tf_regs

unfoldable pub pushed : ℕ → ℕ → ℕ → ℕ → Trapframe → Kernel → Kernel
pushed n i fault_va esp tf k = written n (i + 11) tf.tf_eflags (
    written n (i + 10) tf.tf_eip
      (written n (i + 12) esp (written_all n i (first_words fault_va tf) k)))

store_later :
    (off d m w n : ℕ) (k : Kernel)
    → HasStack k n
    → off % 4 ≡ 0
    → off + d + 4 ≤ 4096
    → d ≡ 4 * m
    → store_user (u32 (stack + off + d)) w k ≡ ok tt (written n (off / 4 + m) w k)
store_later off d m w n k h aligned fits words =
    let at : u32 (stack + off + d) ≡ stack + (off + d) = omega arith in
    let index : (off + d) / 4 ≡ off / 4 + m = omega arith in
    ap (λ va. store_user va w k) at
    ∙ store_user-written (off + d) w n k h (omega arith) (omega arith)
    ∙ ap (λ i. ok tt (written n i w k)) index

pub push_utf-pushed :
    (off n fault_va esp : ℕ) (tf : Trapframe) (k : Kernel)
    → HasStack k n
    → off % 4 ≡ 0
    → off + 52 ≤ 4096
    → push_utf (stack + off) fault_va esp tf k ≡ ok tt (pushed n (off / 4) fault_va esp tf k)
unfolding push_utf pushed
push_utf-pushed off n fault_va esp tf k h aligned fits =
    let ws : List ℕ = first_words fault_va tf in
    let k₁ : Kernel = written_all n (off / 4) ws k in
    let h₁ : HasStack k₁ n = HasStack-written_all ws n (off / 4) k h in
    let k₂ : Kernel = written n (off / 4 + 12) esp k₁ in
    let h₂ : HasStack k₂ n = HasStack-written n (off / 4 + 12) esp k₁ h₁ in
    let k₃ : Kernel = written n (off / 4 + 10) tf.tf_eip k₂ in
    let h₃ : HasStack k₃ n = HasStack-written n (off / 4 + 10) tf.tf_eip k₂ h₂ in
    let s₁₂ = store_user (u32 (stack + off + 48)) esp in
    let s₁₀ = store_user (u32 (stack + off + 40)) tf.tf_eip in
    let s₁₁ = store_user (u32 (stack + off + 44)) tf.tf_eflags in
    ap (λ r. and_then r (λ u. s₁₂ >> (s₁₀ >> s₁₁)))
      (store_words-written_all ws off n k h aligned (omega arith))
    ∙ ap (λ r. and_then r (λ u. s₁₀ >> s₁₁))
        (store_later off 48 12 esp n k₁ h₁ aligned (omega arith) refl)
    ∙ ap (λ r. and_then r (λ u. s₁₁))
        (store_later off 40 10 tf.tf_eip n k₂ h₂ aligned (omega arith) refl)
    ∙ store_later off 44 11 tf.tf_eflags n k₃ h₃ aligned (omega arith) refl

get_or-append :
    (xs ys : List ℕ) (m : ℕ)
    → get_or (xs ++ ys) m 0
      ≡ (if ltb m (length xs) then get_or xs m 0 else get_or ys (m - length xs) 0)
get_or-append [] ys m = let e : m - 0 ≡ m = omega arith in rw e (ground arith)
get_or-append (x ∷ xs) ys zero = ground arith
get_or-append (x ∷ xs) ys (suc m) =
    let e : suc m - suc (length xs) ≡ m - length xs = omega arith in
    get_or-append xs ys m ∙ rw e (ground arith)

-- The word in the order of the stores, and in the order of the structure.
frame_word :
    (i fault_va esp : ℕ) (tf : Trapframe) (old j : ℕ)
    → (if i + 11 == j
        then tf.tf_eflags
        else if i + 10 == j
        then tf.tf_eip
        else if i + 12 == j
        then esp
        else if leb i j && ltb j (i + 10)
        then get_or (first_words fault_va tf) (j - i) 0
        else old)
      ≡ (if leb i j && ltb j (i + 13) then get_or (utrapframe fault_va esp tf) (j - i) 0 else old)
frame_word i fault_va esp tf old j = elim (Bool-cases (leb i j && ltb j (i + 13))) [
  | inr outside ↦ ground arith
  | inl inside ↦ elim (Bool-cases (ltb j (i + 10))) [
    | inl first ↦
        let same_word =
          get_or-append (first_words fault_va tf) (tf.tf_eip ∷ tf.tf_eflags ∷ esp ∷ []) (j - i) in
        ground (arith, same_word)
    | inr last ↦ elim (Bool-cases (i + 10 == j)) [
      | inl e ↦ let at : j - i ≡ 10 = ground arith in rw at (ground arith)
      | inr e ↦ elim (Bool-cases (i + 11 == j)) [
        | inl e' ↦ let at : j - i ≡ 11 = ground arith in rw at (ground arith)
        | inr e' ↦ let at : j - i ≡ 12 = ground arith in rw at (ground arith)
      ]
    ]
  ]
]

pub pushed-utrapframe :
    (n i fault_va esp : ℕ) (tf : Trapframe) (k : Kernel) (j : ℕ)
    → (pushed n i fault_va esp tf k).word n j ≡ (
        if leb i j && ltb j (i + 13)
        then get_or (utrapframe fault_va esp tf) (j - i) 0
        else k.word n j)
unfolding pushed
pushed-utrapframe n i fault_va esp tf k j =
    let ws : List ℕ = first_words fault_va tf in
    let k₁ : Kernel = written_all n i ws k in
    let k₂ : Kernel = written n (i + 12) esp k₁ in
    let k₃ : Kernel = written n (i + 10) tf.tf_eip k₂ in
    word-written n (i + 11) tf.tf_eflags k₃ j
    ∙ ap (λ x. if i + 11 == j then tf.tf_eflags else x)
        (word-written n (i + 10) tf.tf_eip k₂ j
          ∙ ap (λ x. if i + 10 == j then tf.tf_eip else x)
              (word-written n (i + 12) esp k₁ j
                ∙ ap (λ x. if i + 12 == j then esp else x) (word-written_all ws n i k j)))
    ∙ frame_word i fault_va esp tf (k.word n j) j
