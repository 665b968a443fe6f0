-- ===== src/Layout.antt =====
-- Addresses and page table entries: inc/mmu.h, inc/memlayout.h and the rounding macros of
-- inc/types.h. An address or an entry is a number below 2 ^ 32.
pub mod Laws
use cs3510_operating_systems.Common.{ℕ, ◌+◌, ◌-◌, ◌*◌, ◌/◌, ◌%◌, ◌^◌, Bool, bit_and, bit_or, ◌!=◌}

-- What a C expression of type `uint32_t` keeps of a number.
abbrev pub u32 : ℕ → ℕ
u32 x = x % 2 ^ 32

-- `uint16_t`, the type of `pp_ref`.
abbrev pub u16 : ℕ → ℕ
u16 x = x % 2 ^ 16

-- `x & m` as a condition.
abbrev pub flag : ℕ → ℕ → Bool
flag x m = bit_and x m != 0

abbrev pub pgsize : ℕ
pgsize = 4096

abbrev pub ptsize : ℕ
ptsize = pgsize * 1024

abbrev pub nptentries : ℕ
nptentries = 1024

abbrev pub pte_p : ℕ
pte_p = 0x001

abbrev pub pte_w : ℕ
pte_w = 0x002

abbrev pub pte_u : ℕ
pte_u = 0x004

abbrev pub pte_pwt : ℕ
pte_pwt = 0x008

abbrev pub pte_pcd : ℕ
pte_pcd = 0x010

abbrev pub pte_avail : ℕ
pte_avail = 0xe00

abbrev pub kernbase : ℕ
kernbase = 0xf0000000

abbrev pub kstacktop : ℕ
kstacktop = kernbase

abbrev pub kstksize : ℕ
kstksize = 8 * pgsize

abbrev pub kstkgap : ℕ
kstkgap = 8 * pgsize

abbrev pub mmiolim : ℕ
mmiolim = kstacktop - ptsize

abbrev pub mmiobase : ℕ
mmiobase = mmiolim - ptsize

abbrev pub ulim : ℕ
ulim = mmiobase

abbrev pub uvpt : ℕ
uvpt = ulim - ptsize

abbrev pub upages : ℕ
upages = uvpt - ptsize

abbrev pub uenvs : ℕ
uenvs = upages - ptsize

abbrev pub utop : ℕ
utop = uenvs

abbrev pub uxstacktop : ℕ
uxstacktop = utop

abbrev pub ustacktop : ℕ
ustacktop = utop - 2 * pgsize

abbrev pub extphysmem : ℕ
extphysmem = 0x100000

-- `NCPU` of kern/cpu.h.
abbrev pub ncpu_max : ℕ
ncpu_max = 8

abbrev pub mpentry_paddr : ℕ
mpentry_paddr = 0x7000

unfoldable pub pgnum : ℕ → ℕ
pgnum la = la / 2 ^ 12

unfoldable pub pdx : ℕ → ℕ
pdx la = la / 2 ^ 22 % 2 ^ 10

unfoldable pub ptx : ℕ → ℕ
ptx la = la / 2 ^ 12 % 2 ^ 10

unfoldable pub pgoff : ℕ → ℕ
pgoff la = la % 2 ^ 12

unfoldable pub pgaddr : ℕ → ℕ → ℕ → ℕ
pgaddr d t o = bit_or (bit_or (u32 (d * 2 ^ 22)) (u32 (t * 2 ^ 12))) o

-- `pte & ~0xFFF`
unfoldable pub pte_addr : ℕ → ℕ
pte_addr pte = pte / 2 ^ 12 * 2 ^ 12

unfoldable pub rounddown : ℕ → ℕ → ℕ
rounddown a n = a - a % n

unfoldable pub roundup : ℕ → ℕ → ℕ
unfolding rounddown
roundup a n = rounddown (u32 (a + n - 1)) n

-- `pa|perm|PTE_P`, as `page_insert` and `boot_map_region` write it.
unfoldable pub make_pte : ℕ → ℕ → ℕ
make_pte pa perm = bit_or (bit_or pa perm) pte_p
