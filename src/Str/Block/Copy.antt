-- ===== src/Str/Block/Copy.antt =====
-- What the block routines leave in memory.
use cs3510_operating_systems.Common.{
  suc, arith, ltb, ℕ, zero, leb, update, ◌+◌, ◌-◌, ◌≤◌, ◌≡◌, ◌&&◌, ◌⊎◌, if◌then◌else◌, inr, inl,
  fun_ext, Bool-cases, ◌*◌, ◌/◌, ◌∙◌,
}
use cs3510_operating_systems.Str.Block.{
  Memory, movsb_up, movsb_down, move_word, movsl_up, movsl_down, by_words, memmove,
}

-- Memory after the n bytes at s were copied to d.
abbrev pub copied : Memory → ℕ → ℕ → ℕ → ℕ → ℕ
copied mem d s n a = if leb d a && ltb a (d + n) then mem (s + (a - d)) else mem a

movsb_up_lem :
    (mem : Memory) (d s n a : ℕ)
    → ((d ≤ s) ⊎ (s + n ≤ d))
    → movsb_up mem d s n a ≡ copied mem d s n a
unfolding movsb_up
movsb_up_lem mem d s zero a apart = ground arith
movsb_up_lem mem d s (suc n) a apart =
    ground (arith, movsb_up_lem (update mem d (mem s)) (suc d) (suc s) n a (ground arith))

movsb_down_lem : (mem : Memory) (d s n a : ℕ) → s ≤ d → movsb_down mem d s n a ≡ copied mem d s n a
unfolding movsb_down
movsb_down_lem mem d s zero a below = ground arith
movsb_down_lem mem d s (suc n) a below =
    ground (arith, movsb_down_lem (update mem (d + n) (mem (s + n))) d s n a below)

-- A word is copied as its four bytes are.
move_word_lem : (mem : Memory) (d s a : ℕ) → move_word mem d s a ≡ copied mem d s 4 a
move_word_lem mem d s a = ground arith

copied-copied :
    (mem : Memory) (d s n a : ℕ)
    → ((d + 4 ≤ s) ⊎ (s + (4 * n + 4) ≤ d)) ⊎ (d ≡ s)
    → copied (copied mem d s 4) (d + 4) (s + 4) (4 * n) a ≡ copied mem d s (4 * n + 4) a
copied-copied mem d s n a apart = ground arith

movsl_up_lem :
    (mem : Memory) (d s n a : ℕ)
    → ((d + 4 ≤ s) ⊎ (s + 4 * n ≤ d)) ⊎ (d ≡ s)
    → movsl_up mem d s n a ≡ copied mem d s (4 * n) a
unfolding movsl_up
movsl_up_lem mem d s zero a apart = ground arith
movsl_up_lem mem d s (suc n) a apart =
    let step : move_word mem d s ≡ copied mem d s 4 = fun_ext (move_word_lem mem d s) in
    let size : 4 * suc n ≡ 4 * n + 4 = omega arith in
    rw (step, size)
      (movsl_up_lem (copied mem d s 4) (d + 4) (s + 4) n a (ground arith)
        ∙ copied-copied mem d s n a (ground arith))

copied-copied_down :
    (mem : Memory) (d s n a : ℕ)
    → s + 4 ≤ d
    → copied (copied mem (d + 4 * n) (s + 4 * n) 4) d s (4 * n) a ≡ copied mem d s (4 * n + 4) a
copied-copied_down mem d s n a below = ground arith

movsl_down_lem :
    (mem : Memory) (d s n a : ℕ) → s + 4 ≤ d → movsl_down mem d s n a ≡ copied mem d s (4 * n) a
unfolding movsl_down
movsl_down_lem mem d s zero a below = ground arith
movsl_down_lem mem d s (suc n) a below =
    let step : move_word mem (d + 4 * n) (s + 4 * n) ≡ copied mem (d + 4 * n) (s + 4 * n) 4 =
      fun_ext (move_word_lem mem (d + 4 * n) (s + 4 * n)) in
    let size : 4 * suc n ≡ 4 * n + 4 = omega arith in
    rw (step, size)
      (movsl_down_lem (copied mem (d + 4 * n) (s + 4 * n) 4) d s n a below
        ∙ copied-copied_down mem d s n a below)

-- `memmove` copies: afterwards each byte of the destination is what the source's byte was before,
-- however the two blocks overlap and whichever instruction did it, and no other byte changes.
pub memmove_lem :
    (mem : Memory) (dst src n a : ℕ) → memmove mem dst src n a ≡ copied mem dst src n a
unfolding memmove
memmove_lem mem d s n a = elim (Bool-cases (ltb s d && ltb d (s + n))) [
  | inl back ↦ elim (Bool-cases (by_words d s n)) [
    | inl words ↦
        let size : 4 * (n / 4) ≡ n = ground arith in
        rw (back, words) (movsl_down_lem mem d s (n / 4) a (ground arith) ∙ rw size)
    | inr bytes ↦ rw (back, bytes) (movsb_down_lem mem d s n a (ground arith))
  ]
  | inr up ↦ elim (Bool-cases (by_words d s n)) [
    | inl words ↦
        let size : 4 * (n / 4) ≡ n = ground arith in
        rw (up, words) (movsl_up_lem mem d s (n / 4) a (ground arith) ∙ rw size)
    | inr bytes ↦ rw (up, bytes) (movsb_up_lem mem d s n a (ground arith))
  ]
]
