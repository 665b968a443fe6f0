-- ===== src/Console/Ports.antt =====
-- The serial port, the parallel port and the display's start in kern/console.c, with inb and outb of
-- inc/x86.h.
use cs3510_operating_systems.Common.{
  ℕ, Bool, List, bit_or, zero, some, none, suc, Option, ◌^◌, ◌+◌, ◌*◌, ◌%◌, ◌!=◌, ◌∷◌,
  if◌then◌else◌, ◌/◌, ◌==◌,
}
use cs3510_operating_systems.Layout.{flag, u16}
use cs3510_operating_systems.Console.{Display, scroll, put_char, with_attribute}

-- How many bytes have been read from ports, and what was written to them, the latest first.
pub record Io : Type 0 where
  pub reads : ℕ
  pub outs : List (ℕ × ℕ)

abbrev pub com1 : ℕ
com1 = 0x3F8

-- `device i p` is the byte that the `i`-th read of a port gets, if that is from port `p`.
module _ (device : ℕ → ℕ → ℕ) where
  unfoldable pub inb : ℕ → Io → ℕ × Io
  inb port io = (device io.reads port, record io { reads = suc io.reads })

  unfoldable pub outb : (port v : ℕ) → Io → Io
  outb port v io = record io { outs = (port, v % 256) ∷ io.outs }

  unfoldable pub delay : Io → Io
  unfolding inb
  delay io = (inb 0x84 (inb 0x84 (inb 0x84 (inb 0x84 io).1).1).1).1

  -- The loops that wait for a bit of a status port, with `n` rounds left.
  unfoldable pub wait_ready : (port mask n : ℕ) → Io → Io
  unfolding inb delay
  wait_ready port mask zero io = (inb port io).1
  wait_ready port mask (suc n) io =
      let rest = wait_ready port mask n (delay (inb port io).1) in
      if flag (inb port io).0 mask then (inb port io).1 else rest

  -- `none` is -1.
  unfoldable pub serial_proc_data : Io → Option ℕ × Io
  unfolding inb
  serial_proc_data io =
      let io₁ : Io = (inb (com1 + 5) io).1 in
      if flag (inb (com1 + 5) io).0 1
      then (some (inb com1 io₁).0, (inb com1 io₁).1)
      else (none, io₁)

  unfoldable pub serial_putc : ℕ → Io → Io
  unfolding outb
  serial_putc c io = outb com1 c (wait_ready (com1 + 5) 0x20 12800 io)

  unfoldable pub lpt_putc : ℕ → Io → Io
  unfolding outb
  lpt_putc c io = outb 0x37A 8 (outb 0x37A 13 (outb 0x378 c (wait_ready 0x379 0x80 12800 io)))

  -- Whether the port exists.
  unfoldable pub serial_init : Io → Bool × Io
  unfolding inb outb
  serial_init io =
      let io₁ : Io = outb (com1 + 1) 1 (
        outb (com1 + 4) 0 (
          outb (com1 + 3) 3
            (outb (com1 + 1) 0 (outb com1 12 (outb (com1 + 3) 0x80 (outb (com1 + 2) 0 io)))))) in
      let io₂ : Io = (inb (com1 + 5) io₁).1 in
      ((inb (com1 + 5) io₁).0 != 0xFF, (inb com1 (inb (com1 + 2) io₂).1).1)

  -- The base of the display's ports, and the cursor; `colour` is whether a word written to the colour
  -- display's memory is read back.
  unfoldable pub cga_init : Bool → Io → (ℕ × ℕ) × Io
  unfolding inb outb
  cga_init colour io =
      let base : ℕ = if colour then 0x3D4 else 0x3B4 in
      let io₁ : Io = outb base 14 io in
      let io₂ : Io = outb base 15 (inb (base + 1) io₁).1 in
      (
        (base, u16 (bit_or ((inb (base + 1) io₁).0 * 2 ^ 8) (inb (base + 1) io₂).0)),
        (inb (base + 1) io₂).1,
      )

  -- The end of `cga_putc`: scrolling, and the cursor; `base` is `addr_6845`.
  unfoldable pub show : ℕ → Io × Display → Io × Display
  unfolding scroll outb
  show base (io, s) =
      let pos : ℕ = (scroll s).crt_pos in
      (
        outb (base + 1) pos (outb base 15 (outb (base + 1) (pos / 2 ^ 8) (outb base 14 io))),
        scroll s,
      )

  -- The two ports that come before the display.
  unfoldable pub put_ports : ℕ → Io → Io
  unfolding serial_putc lpt_putc
  put_ports c io = lpt_putc c (serial_putc c io)

  -- A character other than the tab.
  unfoldable pub put_plain : ℕ → ℕ → Io × Display → Io × Display
  put_plain base c (io, s) = show base (put_ports c io, put_char (with_attribute c) s)

  unfoldable pub put_blanks : ℕ → ℕ → Io × Display → Io × Display
  put_blanks base zero t = t
  put_blanks base (suc n) t = put_blanks base n (put_plain base 32 t)

  unfoldable pub cons_putc : ℕ → ℕ → Io × Display → Io × Display
  cons_putc base c (io, s) =
      if c % 256 == 9
      then show base (put_blanks base 5 (put_ports c io, s))
      else put_plain base c (io, s)
