-- ===== src/Loader/Segment.antt =====
-- What `readseg` of boot/main.c puts where.
use cs3510_operating_systems.Common.{
  ℕ, ◌^◌, ◌<◌, ◌≡◌, true, refl, all_below-at, bit_or, arith, ◌/◌, ◌%◌, ◌==◌, inl, some, suc,
  Bool-cases, false, leb, inr, ltb, zero, ◌+◌, ◌-◌, ◌*◌, ◌≤◌, ◌∙◌, ◌&&◌, ◌⊎◌, if◌then◌else◌, ap,
}
use cs3510_operating_systems.Layout.{u32}
use cs3510_operating_systems.Str.Block.{Memory}
use cs3510_operating_systems.Loader.{
  Disk, sector_ports, sector_of, insl, readsect, read_sectors, readseg,
}

sector_ports-sector_of : (offset : ℕ) → offset < 2 ^ 28 → sector_of (sector_ports offset) ≡ offset
unfolding sector_of sector_ports
sector_ports-sector_of offset small =
    let top : offset / 16777216 < 16 = omega arith in
    let masked : (bit_or (offset / 16777216) 224 % 256 % 16 == offset / 16777216) ≡ true =
      all_below-at 16 (λ x. bit_or x 224 % 256 % 16 == x) (offset / 16777216) refl top in
    let kept : bit_or (offset / 16777216) 224 % 256 % 16 ≡ offset / 16777216 = ground arith in
    omega (arith, kept)

-- `n` sectors from number `s` on, at `pa`.
abbrev loaded : Disk → ℕ → ℕ → ℕ → Memory → Memory
loaded disk pa s n mem a =
    if leb pa a && ltb a (pa + 512 * n) then disk (s + (a - pa) / 512) ((a - pa) % 512) else mem a

loaded-step :
    (disk : Disk) (pa s n : ℕ) (mem : Memory) (a : ℕ)
    → loaded disk (pa + 512) (s + 1) n (insl (disk s) pa mem) a ≡ loaded disk pa s (suc n) mem a
unfolding insl
loaded-step disk pa s n mem a = elim (Bool-cases (leb (pa + 512) a)) [
  | inl later ↦
      let sector : s + 1 + (a - (pa + 512)) / 512 ≡ s + (a - pa) / 512 = ground arith in
      let byte : (a - (pa + 512)) % 512 ≡ (a - pa) % 512 = ground arith in
      rw (sector, byte) (ground arith)
  | inr first ↦ elim (Bool-cases (leb pa a)) [
    | inr before ↦ ground arith
    | inl inside ↦
        let sector : s + (a - pa) / 512 ≡ s = ground arith in
        let byte : (a - pa) % 512 ≡ a - pa = ground arith in rw (sector, byte) (ground arith)
  ]
]

read_sectors-step :
    (disk : Disk) (fuel pa end_pa s : ℕ) (mem : Memory)
    → pa < end_pa
    → pa + 512 < 2 ^ 32
    → s + 1 < 2 ^ 28
    → read_sectors disk (suc fuel) pa end_pa s mem
      ≡ read_sectors disk fuel (pa + 512) end_pa (s + 1) (insl (disk s) pa mem)
unfolding read_sectors readsect
read_sectors-step disk fuel pa end_pa s mem more fits small =
    let go_on : ltb pa end_pa ≡ true = ground arith in
    let next_pa : u32 (pa + 512) ≡ pa + 512 = omega arith in
    let next_s : u32 (s + 1) ≡ s + 1 = omega arith in
    let number : sector_of (sector_ports s) ≡ s = sector_ports-sector_of s (omega arith) in
    rw (go_on, next_pa, next_s, number) refl

read_sectors-loaded :
    (n : ℕ) (disk : Disk) (fuel pa end_pa s : ℕ) (mem : Memory)
    → n < fuel
    → end_pa ≤ pa + 512 * n
    → (n ≡ 0) ⊎ (pa + 512 * n < end_pa + 512)
    → end_pa + 512 ≤ 4294967296
    → s + n < 2 ^ 28
    → (mem' : Memory) × (read_sectors disk fuel pa end_pa s mem ≡ some mem')
      × ((a : ℕ) → mem' a ≡ loaded disk pa s n mem a)
unfolding read_sectors
read_sectors-loaded n disk zero pa end_pa s mem enough top exact fits small = absurd (omega arith)
read_sectors-loaded zero disk (suc fuel) pa end_pa s mem enough top exact fits small =
    let over : ltb pa end_pa ≡ false = ground arith in (mem, rw over refl, λ a. ground arith)
read_sectors-loaded (suc n) disk (suc fuel) pa end_pa s mem enough top exact fits small =
    let (mem', got, bytes) =
      read_sectors-loaded n disk fuel (pa + 512) end_pa (s + 1) (insl (disk s) pa mem) (omega arith)
        (omega arith) (ground arith) fits (omega arith) in
    (
      mem',
      read_sectors-step disk fuel pa end_pa s mem (ground arith) (ground arith) (omega arith) ∙ got,
      λ a. bytes a ∙ loaded-step disk pa s n mem a,
    )

-- The image that begins in the second sector.
abbrev pub image : Disk → ℕ → ℕ
image disk j = disk (j / 512 + 1) (j % 512)

-- `readseg` ends with the `count` bytes of the image from `offset` on at `pa`, where both lie alike in
-- their sectors, and changes memory only in the sectors that hold these bytes: if they end a sector
-- before the end of the address space, and their sectors' numbers have 28 bits.
pub readseg_lem :
    (disk : Disk) (pa count offset : ℕ) (mem : Memory)
    → pa % 512 ≡ offset % 512
    → pa + count + 512 ≤ 4294967296
    → offset + count + 1024 < 2 ^ 37
    → (mem' : Memory) × (readseg disk pa count offset mem ≡ some mem')
      × ((i : ℕ) → i < count → mem' (pa + i) ≡ image disk (offset + i))
      × ((a : ℕ) → (a < pa / 512 * 512) ⊎ (pa + count + 511 ≤ a) → mem' a ≡ mem a)
unfolding readseg
readseg_lem disk pa count offset mem alike fits small =
    let base : ℕ = pa / 512 * 512 in
    let n : ℕ = (pa % 512 + count + 511) / 512 in
    let end_pa : u32 (pa + count) ≡ pa + count = omega arith in
    let (mem', got, bytes) =
      read_sectors-loaded n disk (count / 512 + 3) base (pa + count) (offset / 512 + 1) mem
        (omega arith) (omega arith) (inr (omega arith)) (omega arith) (omega arith) in
    (
      mem',
      ap (λ e. read_sectors disk (count / 512 + 3) base e (offset / 512 + 1) mem) end_pa ∙ got,
      λ i below.
          let sector : offset / 512 + 1 + (pa + i - base) / 512 ≡ (offset + i) / 512 + 1 =
            omega arith in
          let byte : (pa + i - base) % 512 ≡ (offset + i) % 512 = omega arith in
          bytes (pa + i) ∙ rw (sector, byte) (ground arith),
      λ a outside. bytes a ∙ elim outside [ inl before ↦ ground arith | inr behind ↦ ground arith ],
    )
