-- ===== src/Console/Output.antt =====
-- What `cons_putc` of kern/console.c puts out on its three devices.
use cs3510_operating_systems.Common.{
  ℕ, List, inl, Bool-cases, refl, inr, zero, suc, ◌%◌, ◌≡◌, ◌==◌, ◌∷◌, if◌then◌else◌, [], ap, ◌∙◌,
  ◌⊎◌, true, arith, ◌<◌, false,
}
use mathlib.Core.Path.{subst, sym}
use cs3510_operating_systems.Layout.{flag}
use cs3510_operating_systems.Console.{
  Display, scroll, put_char, with_attribute, put_blank, cga_putc, crt_size,
}
use cs3510_operating_systems.Console.Screen.{cga_putc-bound}
use cs3510_operating_systems.Console.Ports.{
  Io, inb, outb, delay, wait_ready, serial_putc, lpt_putc, show, put_ports, put_plain, put_blanks,
  cons_putc,
}

-- The bytes that were written to port `p`, the latest first.
unfoldable pub written_to : ℕ → List (ℕ × ℕ) → List ℕ
written_to p [] = []
written_to p ((q, v) ∷ outs) = let rest = written_to p outs in if q == p then v ∷ rest else rest

-- The serial port and the printer's.
abbrev pub on_serial : Io → List ℕ
on_serial io = written_to 0x3F8 io.outs

abbrev pub on_printer : Io → List ℕ
on_printer io = written_to 0x378 io.outs

-- The bytes that stand for `c`, before those of `l`.
abbrev pub printed : ℕ → List ℕ → List ℕ
printed c l = if c % 256 == 9 then 32 ∷ 32 ∷ 32 ∷ 32 ∷ 32 ∷ 9 ∷ l else c % 256 ∷ l

module _ (device : ℕ → ℕ → ℕ) where
  wait_ready-outs :
      (port mask n : ℕ) → (io : Io) → (wait_ready device port mask n io).outs ≡ io.outs
  unfolding wait_ready inb delay
  wait_ready-outs port mask zero io = refl
  wait_ready-outs port mask (suc n) io = elim (Bool-cases (flag (device io.reads port) mask)) [
    | inl e ↦ rw e refl
    | inr e ↦ rw e (wait_ready-outs port mask n _)
  ]

  serial_putc-outs :
      (c : ℕ) → (io : Io) → (serial_putc device c io).outs ≡ (1016, c % 256) ∷ io.outs
  unfolding serial_putc outb
  serial_putc-outs c io =
      ap (λ (o : List (ℕ × ℕ)). (1016, c % 256) ∷ o) (wait_ready-outs 1021 32 12800 io)

  lpt_putc-outs :
      (c : ℕ)
      → (io : Io) → (lpt_putc device c io).outs ≡ (890, 8) ∷ (890, 13) ∷ (888, c % 256) ∷ io.outs
  unfolding lpt_putc outb
  lpt_putc-outs c io =
      ap (λ (o : List (ℕ × ℕ)). (890, 8) ∷ (890, 13) ∷ (888, c % 256) ∷ o)
        (wait_ready-outs 889 128 12800 io)

  put_ports-outs :
      (c : ℕ)
      → (io : Io)
      → (put_ports device c io).outs
        ≡ (890, 8) ∷ (890, 13) ∷ (888, c % 256) ∷ (1016, c % 256) ∷ io.outs
  unfolding put_ports
  put_ports-outs c io =
      lpt_putc-outs c (serial_putc device c io)
      ∙ ap (λ (o : List (ℕ × ℕ)). (890, 8) ∷ (890, 13) ∷ (888, c % 256) ∷ o) (serial_putc-outs c io)

  -- Both ports got one byte more.
  abbrev Echoed : ℕ → Io → Io → Type 0
  Echoed v io io' = (on_serial io' ≡ v ∷ on_serial io) × (on_printer io' ≡ v ∷ on_printer io)

  put_ports-Echoed : (c : ℕ) → (io : Io) → Echoed (c % 256) io (put_ports device c io)
  unfolding written_to
  put_ports-Echoed c io =
      (ap (written_to 1016) (put_ports-outs c io), ap (written_to 888) (put_ports-outs c io))

  -- The ports of the two kinds of display.
  abbrev pub IsBase : ℕ → Type 0
  IsBase base = (base ≡ 980) ⊎ (base ≡ 948)

  show-kept :
      (base : ℕ)
      → (io : Io) → (s : Display) → IsBase base
      → (on_serial (show device base (io, s)).0 ≡ on_serial io)
        × (on_printer (show device base (io, s)).0 ≡ on_printer io)
  unfolding show outb written_to
  show-kept base io s (inl e) = rw e (refl, refl)
  show-kept base io s (inr e) = rw e (refl, refl)

  put_plain-Echoed :
      (base c : ℕ)
      → (io : Io) → (s : Display) → IsBase base
      → Echoed (c % 256) io (put_plain device base c (io, s)).0
  unfolding put_plain
  put_plain-Echoed base c io s b =
      let (a₁, a₂) = show-kept base (put_ports device c io) (put_char (with_attribute c) s) b in
      let (b₁, b₂) = put_ports-Echoed c io in (a₁ ∙ b₁, a₂ ∙ b₂)

  put_plain-display :
      (base c : ℕ)
      → (io : Io) → (s : Display)
      → (put_plain device base c (io, s)).1 ≡ scroll (put_char (with_attribute c) s)
  unfolding put_plain show
  put_plain-display base c io s = refl

  -- Both ports get the blanks.
  blanks : ℕ → List ℕ → List ℕ
  blanks zero l = l
  blanks (suc n) l = blanks n (32 ∷ l)

  put_blanks-Echoed :
      (n base : ℕ)
      → (io : Io) → (s : Display) → IsBase base
      → (on_serial (put_blanks device base n (io, s)).0 ≡ blanks n (on_serial io))
        × (on_printer (put_blanks device base n (io, s)).0 ≡ blanks n (on_printer io))
  unfolding put_blanks blanks
  put_blanks-Echoed zero base io s b = (refl, refl)
  put_blanks-Echoed (suc n) base io s b =
      let t : Io × Display = put_plain device base 32 (io, s) in
      let (a₁, a₂) = put_plain-Echoed base 32 io s b in
      let (b₁, b₂) = put_blanks-Echoed n base t.0 t.1 b in
      (b₁ ∙ ap (blanks n) a₁, b₂ ∙ ap (blanks n) a₂)

  put_blanks-display :
      (base : ℕ)
      → (io : Io) → (s : Display)
      → (put_blanks device base 5 (io, s)).1
        ≡ put_blank (put_blank (put_blank (put_blank (put_blank s))))
  unfolding put_blanks put_plain show put_blank
  put_blanks-display base io s = refl

  tab-Echoed :
      (base c : ℕ)
      → (io : Io) → (s : Display) → IsBase base
      → (c % 256 == 9) ≡ true
      → (on_serial (show device base (put_blanks device base 5 (put_ports device c io, s))).0
          ≡ printed c (on_serial io))
        × (on_printer (show device base (put_blanks device base 5 (put_ports device c io, s))).0
            ≡ printed c (on_printer io))
  unfolding blanks
  tab-Echoed base c io s b e =
      let t : Io × Display = put_blanks device base 5 (put_ports device c io, s) in
      let (k₁, k₂) = show-kept base t.0 t.1 b in
      let (l₁, l₂) = put_blanks-Echoed 5 base (put_ports device c io) s b in
      let (p₁, p₂) = put_ports-Echoed c io in
      let nine : c % 256 ≡ 9 = ground arith in
      let head : (l : List ℕ) → blanks 5 (c % 256 ∷ l) ≡ printed c l = λ l. rw (e, nine) refl in
      (k₁ ∙ l₁ ∙ ap (blanks 5) p₁ ∙ head _, k₂ ∙ l₂ ∙ ap (blanks 5) p₂ ∙ head _)

  cons_putc-tab :
      (base c : ℕ)
      → (io : Io) → (s : Display) → (c % 256 == 9) ≡ true
      → cons_putc device base c (io, s)
        ≡ show device base (put_blanks device base 5 (put_ports device c io, s))
  unfolding cons_putc
  cons_putc-tab base c io s e = rw e refl

  cons_putc-plain :
      (base c : ℕ)
      → (io : Io) → (s : Display) → (c % 256 == 9) ≡ false
      → cons_putc device base c (io, s) ≡ put_plain device base c (io, s)
  unfolding cons_putc
  cons_putc-plain base c io s e = rw e refl

  show-display : (base : ℕ) → (t : Io × Display) → (show device base t).1 ≡ scroll t.1
  unfolding show
  show-display base (io, s) = refl

  cons_putc-display :
      (base c : ℕ) → (io : Io) → (s : Display) → (cons_putc device base c (io, s)).1 ≡ cga_putc c s
  unfolding cga_putc
  cons_putc-display base c io s =
      let five : Display = put_blank (put_blank (put_blank (put_blank (put_blank s)))) in
      let one : Display = put_char (with_attribute c) s in
      elim (Bool-cases (c % 256 == 9)) [
        | inl e ↦
            let chosen : five ≡ (if c % 256 == 9 then five else one) = rw e refl in
            ap (λ (t : Io × Display). t.1) (cons_putc-tab base c io s e)
            ∙ show-display base _
            ∙ ap scroll (put_blanks-display base (put_ports device c io) s ∙ chosen)
        | inr e ↦
            let chosen : one ≡ (if c % 256 == 9 then five else one) = rw e refl in
            ap (λ (t : Io × Display). t.1) (cons_putc-plain base c io s e)
            ∙ put_plain-display base c io s
            ∙ ap scroll chosen
      ]

  -- On a display whose ports are those of one of the two kinds, and with the cursor on the screen,
  -- `cons_putc` sends the same bytes to the serial port and to the printer, whatever the devices
  -- answer: the character, and behind a tab five blanks. The display is what `cga_putc` makes of it,
  -- and the cursor stays on the screen.
  pub cons_putc_lem :
      (base c : ℕ)
      → (io : Io) → (s : Display) → IsBase base
      → s.crt_pos < crt_size
      → (on_serial (cons_putc device base c (io, s)).0 ≡ printed c (on_serial io))
        × (on_printer (cons_putc device base c (io, s)).0 ≡ printed c (on_printer io))
        × ((cons_putc device base c (io, s)).1 ≡ cga_putc c s)
        × ((cons_putc device base c (io, s)).1.crt_pos < crt_size)
  cons_putc_lem base c io s b inside =
      let shown = cons_putc-display base c io s in
      let inside' : (cons_putc device base c (io, s)).1.crt_pos < crt_size =
        subst (λ (x : Display). x.crt_pos < crt_size) (sym shown) (cga_putc-bound c s inside) in
      elim (Bool-cases (c % 256 == 9)) [
        | inl e ↦
            let step = cons_putc-tab base c io s e in
            let (a₁, a₂) = tab-Echoed base c io s b e in
            (
              ap (λ (t : Io × Display). on_serial t.0) step ∙ a₁,
              ap (λ (t : Io × Display). on_printer t.0) step ∙ a₂,
              shown,
              inside',
            )
        | inr e ↦
            let step = cons_putc-plain base c io s e in
            let (a₁, a₂) = put_plain-Echoed base c io s b in
            let head : (l : List ℕ) → c % 256 ∷ l ≡ printed c l = λ l. rw e refl in
            (
              ap (λ (t : Io × Display). on_serial t.0) step ∙ a₁ ∙ head _,
              ap (λ (t : Io × Display). on_printer t.0) step ∙ a₂ ∙ head _,
              shown,
              inside',
            )
      ]
