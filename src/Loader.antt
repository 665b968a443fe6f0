-- ===== src/Loader.antt =====
-- boot/main.c: the boot loader reads the kernel's ELF image from the disk's second sector on.
pub mod Segment
use cs3510_operating_systems.Common.{
  ℕ, Option, none, leb, some, ltb, zero, suc, bit_or, ◌^◌, ◌+◌, ◌-◌, ◌*◌, ◌/◌, ◌%◌, ◌==◌, ◌&&◌,
  if◌then◌else◌,
}
use cs3510_operating_systems.Layout.{u32}
use cs3510_operating_systems.Str.Block.{Memory}
use cs3510_operating_systems.Env.Load.{Elf, Proghdr, elf_header, program_header, elf_magic}

abbrev pub sectsize : ℕ
sectsize = 512

-- The disk gives the bytes of a sector.
abbrev pub Disk : Type 0
Disk = ℕ → ℕ → ℕ

-- The ports 0x1F3 to 0x1F6, which take the sector's number.
pub record Ports : Type 0 where
  pub lba_low : ℕ
  pub lba_mid : ℕ
  pub lba_high : ℕ
  pub drive : ℕ

-- What the source writes to them; a port takes a byte.
unfoldable pub sector_ports : ℕ → Ports
sector_ports offset = record {
  lba_low = offset % 256;
  lba_mid = offset / 2 ^ 8 % 256;
  lba_high = offset / 2 ^ 16 % 256;
  drive = bit_or (offset / 2 ^ 24) 0xE0 % 256;
}

-- The sector that the disk then reads: the low half of the last port is a part of the number.
unfoldable pub sector_of : Ports → ℕ
sector_of p = p.lba_low + 2 ^ 8 * p.lba_mid + 2 ^ 16 * p.lba_high + 2 ^ 24 * (p.drive % 16)

-- `insl` of a whole sector.
unfoldable pub insl : (ℕ → ℕ) → ℕ → Memory → Memory
insl sector dst mem a = if leb dst a && ltb a (dst + sectsize) then sector (a - dst) else mem a

unfoldable pub readsect : Disk → ℕ → ℕ → Memory → Memory
unfolding sector_ports sector_of insl
readsect disk dst offset mem = insl (disk (sector_of (sector_ports offset))) dst mem

-- The loop of `readseg`, with fuel.
unfoldable pub read_sectors : Disk → ℕ → ℕ → ℕ → ℕ → Memory → Option Memory
unfolding readsect
read_sectors disk zero pa end_pa offset mem = none
read_sectors disk (suc fuel) pa end_pa offset mem =
    let rest =
      read_sectors disk fuel (u32 (pa + sectsize)) end_pa (u32 (offset + 1))
        (readsect disk pa offset mem) in
    if ltb pa end_pa then rest else some mem

unfoldable pub readseg : Disk → ℕ → ℕ → ℕ → Memory → Option Memory
unfolding read_sectors
readseg disk pa count offset mem =
    read_sectors disk (count / sectsize + 3) (pa / sectsize * sectsize) (u32 (pa + count))
      (offset / sectsize + 1) mem

abbrev pub elfhdr : ℕ
elfhdr = 0x10000

-- `enters` calls the kernel, `bad` is the endless loop for an image that is not an ELF file.
pub data Boot : Type 0 where
  enters : ℕ → Memory → Boot
  bad out_of_fuel : Boot

abbrev from_header : Memory → ℕ → ℕ
from_header mem i = mem (elfhdr + i)

-- The loop over the program headers, which are read from the memory that is being loaded; `n` are
-- left. Loading may write over the headers and the entry point.
unfoldable pub load_all : Disk → ℕ → ℕ → Memory → Boot
unfolding readseg program_header elf_header
load_all disk zero ph mem = enters (elf_header (from_header mem)).e_entry mem
load_all disk (suc n) ph mem =
    let header : Proghdr = program_header mem ph in
    elim (readseg disk header.p_pa header.p_memsz header.p_offset mem) [
      | none ↦ out_of_fuel
      | some mem' ↦ load_all disk n (u32 (ph + 32)) mem'
    ]

unfoldable pub start_kernel : Disk → Memory → Boot
unfolding load_all elf_header
start_kernel disk mem =
    let header : Elf = elf_header (from_header mem) in
    if header.e_magic == elf_magic
    then load_all disk header.e_phnum (u32 (elfhdr + header.e_phoff)) mem
    else bad

unfoldable pub bootmain : Disk → Memory → Boot
unfolding readseg start_kernel
bootmain disk mem = elim (readseg disk elfhdr (sectsize * 8) 0 mem) [
  | none ↦ out_of_fuel
  | some mem' ↦ start_kernel disk mem'
]
