-- ===== src/Console/Screen.antt =====
-- The cursor stays on the screen.
use cs3510_operating_systems.Common.{arith, inr, Bool-cases, ℕ, inl, ◌+◌, ◌%◌, ◌<◌, ◌==◌}
use cs3510_operating_systems.Console.{
  Display, put_char, scroll, put_blank, cga_putc, crt_size, with_attribute,
}

put_char-bound :
    (c : ℕ) (s : Display) → s.crt_pos < crt_size → (put_char c s).crt_pos < crt_size + 80
unfolding put_char
put_char-bound c s inside = ground arith

scroll-bound : (s : Display) → s.crt_pos < crt_size + 80 → (scroll s).crt_pos < crt_size
unfolding scroll
scroll-bound s inside = ground arith

put_blank-bound : (s : Display) → s.crt_pos < crt_size → (put_blank s).crt_pos < crt_size
unfolding put_blank
put_blank-bound s inside =
    scroll-bound (put_char (with_attribute 32) s) (put_char-bound (with_attribute 32) s inside)

-- `cga_putc` keeps the cursor on the screen's 2000 cells, whatever it puts out.
pub cga_putc-bound :
    (c : ℕ) (s : Display) → s.crt_pos < crt_size → (cga_putc c s).crt_pos < crt_size
unfolding cga_putc
cga_putc-bound c s inside = elim (Bool-cases (c % 256 == 9)) [
  | inl tab ↦
      let s₁ : Display = put_blank s in
      let s₂ : Display = put_blank s₁ in
      let s₃ : Display = put_blank s₂ in
      let s₄ : Display = put_blank s₃ in
      let b₂ : s₂.crt_pos < crt_size = put_blank-bound s₁ (put_blank-bound s inside) in
      let b₄ : s₄.crt_pos < crt_size = put_blank-bound s₃ (put_blank-bound s₂ b₂) in
      let b₅ : (put_blank s₄).crt_pos < crt_size = put_blank-bound s₄ b₄ in
      rw tab (scroll-bound (put_blank s₄) (omega (arith, b₅)))
  | inr other ↦
      rw other
        (scroll-bound (put_char (with_attribute c) s) (put_char-bound (with_attribute c) s inside))
]
