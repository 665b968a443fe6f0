-- ===== src/Str/Block/Fill.antt =====
-- What `memset` leaves in memory, and what `memcmp` and `memfind` report.
use cs3510_operating_systems.Common.{
  ℕ, arith, inl, suc, Bool-cases, update, fun_ext, zero, inr, ltb, bit_or, leb, refl, ◌^◌, ◌+◌, ◌*◌,
  ◌/◌, ◌%◌, ◌≤◌, ◌<◌, ◌≡◌, ◌≢◌, ◌∙◌, ◌==◌, ◌&&◌, ◌↔◌, if◌then◌else◌,
}
use cs3510_operating_systems.Layout.Laws.{scaled, bit_or-scaled}
use cs3510_operating_systems.Str.Block.{
  Memory, rep_stosb, rep_stosl, store_word, repeated, memset, memcmp, memfind, equal,
}

-- Memory after the n bytes at d were set to c.
abbrev pub filled : Memory → ℕ → ℕ → ℕ → ℕ → ℕ
filled mem d c n a = if leb d a && ltb a (d + n) then c else mem a

rep_stosb_lem : (mem : Memory) (d c n a : ℕ) → rep_stosb mem d c n a ≡ filled mem d (c % 256) n a
unfolding rep_stosb
rep_stosb_lem mem d c zero a = ground arith
rep_stosb_lem mem d c (suc n) a =
    ground (arith, rep_stosb_lem (update mem d (c % 256)) (suc d) c n a)

-- The word that `memset` stores holds its byte four times.
repeated_lem : (c : ℕ) → repeated c ≡ c % 256 * 16843009
unfolding repeated
repeated_lem c =
    let b : ℕ = c % 256 in
    let e₁ : b * 2 ^ 24 % 2 ^ 32 ≡ b * 16777216 = omega arith in
    let e₂ : b * 2 ^ 16 % 2 ^ 32 ≡ b * 65536 = omega arith in
    let e₃ : b * 2 ^ 8 % 2 ^ 32 ≡ b * 256 = omega arith in
    let s₁ : scaled 24 b ≡ b * 16777216 = omega arith in
    let s₂ : scaled 16 (b * 256 + b) ≡ b * 16777216 + b * 65536 = omega arith in
    let s₃ : scaled 8 (b * 65536 + b * 256 + b) ≡ b * 16777216 + b * 65536 + b * 256 =
      omega arith in
    let j₁ : bit_or (b * 16777216) (b * 65536) ≡ b * 16777216 + b * 65536 =
      omega (arith, rw s₁ at (bit_or-scaled 24 b (b * 65536) (omega arith))) in
    let j₂ : bit_or (b * 16777216 + b * 65536) (b * 256) ≡ b * 16777216 + b * 65536 + b * 256 =
      omega (arith, rw s₂ at (bit_or-scaled 16 (b * 256 + b) (b * 256) (omega arith))) in
    let j₃ : bit_or (b * 16777216 + b * 65536 + b * 256) b
        ≡ b * 16777216 + b * 65536 + b * 256 + b =
      omega (arith, rw s₃ at (bit_or-scaled 8 (b * 65536 + b * 256 + b) b (omega arith))) in
    rw (e₁, e₂, e₃, j₁, j₂, j₃) (omega arith)

store_word_lem :
    (mem : Memory) (d c a : ℕ) → store_word mem d (repeated c) a ≡ filled mem d (c % 256) 4 a
store_word_lem mem d c a =
    let b : ℕ = c % 256 in
    let b₀ : b * 16843009 % 256 ≡ b = omega arith in
    let b₁ : b * 16843009 / 256 % 256 ≡ b = omega arith in
    let b₂ : b * 16843009 / 65536 % 256 ≡ b = omega arith in
    let b₃ : b * 16843009 / 16777216 % 256 ≡ b = omega arith in
    rw (repeated_lem c, b₀, b₁, b₂, b₃) (ground arith)

rep_stosl_lem :
    (mem : Memory) (d c n a : ℕ)
    → rep_stosl mem d (repeated c) n a ≡ filled mem d (c % 256) (4 * n) a
unfolding rep_stosl
rep_stosl_lem mem d c zero a = ground arith
rep_stosl_lem mem d c (suc n) a =
    let step : store_word mem d (repeated c) ≡ filled mem d (c % 256) 4 =
      fun_ext (store_word_lem mem d c) in
    let size : 4 * suc n ≡ 4 * n + 4 = omega arith in
    rw (step, size) (rep_stosl_lem (filled mem d (c % 256) 4) (d + 4) c n a ∙ ground arith)

-- `memset` sets each byte of the block to the low byte of its argument, whichever instruction does
-- it, and no other byte.
pub memset_lem : (mem : Memory) (v c n a : ℕ) → memset mem v c n a ≡ filled mem v (c % 256) n a
unfolding memset
memset_lem mem v c n a = elim (Bool-cases (n == 0)) [
  | inl none_left ↦ ground arith
  | inr some_left ↦ elim (Bool-cases (v % 4 == 0 && n % 4 == 0)) [
    | inl words ↦
        let size : 4 * (n / 4) ≡ n = ground arith in
        rw (some_left, words) (rep_stosl_lem mem v c (n / 4) a ∙ rw size)
    | inr bytes ↦ rw (some_left, bytes) (rep_stosb_lem mem v c n a)
  ]
]

-- `memcmp` returns 0 exactly if the two blocks have the same bytes.
pub memcmp-equal :
    (mem : Memory) (s₁ s₂ n : ℕ)
    → (memcmp mem s₁ s₂ n ≡ equal) ↔ ((i : ℕ) → i < n → mem (s₁ + i) ≡ mem (s₂ + i))
unfolding memcmp
memcmp-equal mem s₁ s₂ zero = ((λ _ i below. absurd (omega arith)), λ _. refl)
memcmp-equal mem s₁ s₂ (suc n) =
    let (to, from) = memcmp-equal mem (suc s₁) (suc s₂) n in
    let at₁ : (i : ℕ) → s₁ + suc i ≡ suc s₁ + i = λ i. omega arith in
    let at₂ : (i : ℕ) → s₂ + suc i ≡ suc s₂ + i = λ i. omega arith in
    let z₁ : s₁ + 0 ≡ s₁ = omega arith in
    let z₂ : s₂ + 0 ≡ s₂ = omega arith in
    elim (Bool-cases (mem s₁ == mem s₂)) [
      | inl agree ↦ rw agree (
        (λ h. elim [
          | zero ↦ λ below. rw (z₁, z₂) (ground arith)
          | suc i ↦ λ below. rw (at₁ i, at₂ i) (to h i (omega arith))
        ]),
        λ h. from (λ i below. rw (at₁ i) at (rw (at₂ i) at (h (suc i) (omega arith)))),
      )
      | inr differ ↦ rw differ (
        (λ h. absurd (ground arith)),
        λ h.
            let first : mem s₁ ≡ mem s₂ = rw z₁ at (rw z₂ at (h 0 (omega arith))) in
            absurd (ground arith),
      )
    ]

-- `memfind` returns the address of the first byte that is c, or the end of the block.
pub memfind_lem :
    (mem : Memory) (s c n : ℕ)
    → let r = memfind mem s c n in
      (s ≤ r)
      × (r ≤ s + n)
      × (r < s + n → mem r ≡ c % 256)
      × ((a : ℕ) → s ≤ a → a < r → mem a ≢ c % 256)
unfolding memfind
memfind_lem mem s c zero =
    (omega arith, omega arith, (λ l. absurd (omega arith)), λ a l b. absurd (omega arith))
memfind_lem mem s c (suc n) =
    let (low, high, hit, before) = memfind_lem mem (suc s) c n in
    elim (Bool-cases (mem s == c % 256)) [
      | inl here ↦
          rw here (omega arith, omega arith, (λ l. ground arith), λ a l b. absurd (omega arith))
      | inr other ↦ rw other (
        omega arith,
        omega arith,
        (λ l. hit (omega arith)),
        λ a l b. elim (Bool-cases (s == a)) [
          | inl same_place ↦ ground arith
          | inr later ↦ before a (ground arith) b
        ],
      )
    ]
