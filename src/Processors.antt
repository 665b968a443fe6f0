-- ===== src/Processors.antt =====
-- kern/mpconfig.c: the processors that the firmware's tables list.
pub mod Pointer
pub mod Listing
pub mod BootCpu
pub mod Init
use cs3510_operating_systems.Common.{
  ℕ, Option, Bool, bit_or, not, ltb, none, zero, update, true, List, some, suc, false, ◌^◌, ◌+◌,
  ◌-◌, ◌*◌, ◌/◌, ◌%◌, ◌==◌, ◌!=◌, ◌&&◌, ◌||◌, ◌∷◌, if◌then◌else◌,
}
use cs3510_operating_systems.Layout.{flag, ncpu_max, pgnum, u32}
use cs3510_operating_systems.Str.Block.{Memory}
use cs3510_operating_systems.Env.Load.{half_at, word_at}

-- `MPPROC_BOOT` and `CPU_STARTED`.
abbrev pub mpproc_boot : ℕ
mpproc_boot = 2

abbrev pub started : ℕ
started = 1

-- What `mp_init` sets. `cpu_id` and `cpu_status` are the fields of the eight elements of `cpus`; a
-- write behind them is `none`. `bootcpu` is an index. `outs` are the bytes sent to ports, the latest first.
pub record Cpus : Type 0 where
  pub ncpu : ℕ
  pub ismp : Bool
  pub bootcpu : ℕ
  pub lapicaddr : ℕ
  pub cpu_id : ℕ → ℕ
  pub cpu_status : ℕ → ℕ
  pub outs : List (ℕ × ℕ)

-- `struct mp` and `struct mpconf`, as far as they are read, and the address behind the header.
pub record MpConf : Type 0 where
  pub length : ℕ
  pub version : ℕ
  pub entry : ℕ
  pub lapic : ℕ
  pub xlength : ℕ
  pub xchecksum : ℕ
  pub entries : ℕ

-- Physical memory and its size in pages: `KADDR` panics behind it. Where a function may panic,
-- `none` stands for that.
module _ (npages : ℕ) (mem : Memory) where
  unfoldable pub sum_loop : (addr len acc : ℕ) → ℕ
  sum_loop addr zero acc = acc
  sum_loop addr (suc len) acc = sum_loop (suc addr) len (acc + mem addr)

  unfoldable pub sum : (addr len : ℕ) → ℕ
  unfolding sum_loop
  sum addr len = sum_loop addr len 0 % 256

  abbrev signed : (addr c₀ c₁ c₂ c₃ : ℕ) → Bool
  signed addr c₀ c₁ c₂ c₃ =
      mem addr == c₀ && mem (addr + 1) == c₁ && mem (addr + 2) == c₂ && mem (addr + 3) == c₃

  -- A `struct mp` of 16 bytes.
  unfoldable pub is_mp : ℕ → Bool
  unfolding sum
  is_mp mp = signed mp b'_' b'M' b'P' b'_' && sum mp 16 == 0

  -- The loop, with `n` places to go.
  unfoldable pub find_mp : (n mp : ℕ) → Option ℕ
  unfolding is_mp
  find_mp zero mp = none
  find_mp (suc n) mp = let rest = find_mp n (mp + 16) in if is_mp mp then some mp else rest

  abbrev pub kaddr_ok : ℕ → Bool
  kaddr_ok pa = ltb (pa / 4096) npages

  unfoldable pub mpsearch1 : (a len : ℕ) → Option (Option ℕ)
  unfolding find_mp
  mpsearch1 a len =
      if kaddr_ok a && kaddr_ok (u32 (a + len)) then some (find_mp ((len + 15) / 16) a) else none

  -- The second place that is looked at, if nothing was found at the first.
  abbrev or_rom : Option (Option ℕ) → Option (Option ℕ)
  or_rom none = none
  or_rom (some none) = mpsearch1 0xF0000 0x10000
  or_rom (some (some mp)) = some (some mp)

  unfoldable pub mpsearch : Option (Option ℕ)
  unfolding mpsearch1 half_at
  mpsearch =
      let ebda : ℕ = half_at mem 0x40E in
      if not (kaddr_ok 0x400)
      then none
      else if ebda != 0
      then or_rom (mpsearch1 (ebda * 16) 1024)
      else or_rom (mpsearch1 (u32 (half_at mem 0x413 * 1024 + 2 ^ 32 - 1024)) 1024)

  unfoldable pub read_conf : ℕ → MpConf
  unfolding half_at word_at
  read_conf conf = record {
    length = half_at mem (conf + 4);
    version = mem (conf + 6);
    entry = half_at mem (conf + 34);
    lapic = word_at mem (conf + 36);
    xlength = half_at mem (conf + 40);
    xchecksum = mem (conf + 42);
    entries = conf + 44;
  }

  -- The tests of `mpconfig` on the table at `conf`.
  unfoldable pub is_conf : ℕ → Bool
  unfolding sum read_conf
  is_conf conf =
      let c : MpConf = read_conf conf in
      signed conf b'P' b'C' b'M' b'P'
      && sum conf c.length == 0
      && (c.version == 1 || c.version == 4)
      && (sum (conf + c.length) c.xlength + c.xchecksum) % 256 == 0

  -- The `struct mp` and the table.
  unfoldable pub conf_of : Option ℕ → Option (Option (ℕ × MpConf))
  unfolding is_conf read_conf word_at
  conf_of none = some none
  conf_of (some mp) =
      let conf : ℕ = word_at mem (mp + 4) in
      if conf == 0 || mem (mp + 11) != 0
      then some none
      else if not (kaddr_ok conf)
      then none
      else if is_conf conf
      then some (some (mp, read_conf conf))
      else some none

  unfoldable pub mpconfig : Option (Option (ℕ × MpConf))
  unfolding mpsearch conf_of
  mpconfig = elim mpsearch [ none ↦ none | some found ↦ conf_of found ]

  -- A processor entry: the boot processor is noted before it is known whether there is room.
  unfoldable pub note_boot : ℕ → Cpus → Cpus
  note_boot flags c = if flag flags mpproc_boot then record c { bootcpu = c.ncpu } else c

  unfoldable pub add_cpu : Cpus → Cpus
  add_cpu c =
      if ltb c.ncpu ncpu_max
      then record c { ncpu = suc c.ncpu; cpu_id = update c.cpu_id c.ncpu c.ncpu }
      else c

  -- The loop, with `n` entries to go.
  unfoldable pub read_entries : (n p : ℕ) → Cpus → Cpus
  read_entries zero p c = c
  read_entries (suc n) p c =
      let other = read_entries n (p + 8) c in
      let next = read_entries n (p + 20) (add_cpu (note_boot (mem (p + 3)) c)) in
      if mem p == 0 then next else if ltb (mem p) 5 then other else record c { ismp = false }

  -- `bootcpu->cpu_status = CPU_STARTED`, which is behind the array where `bootcpu` is.
  unfoldable pub mark_started : Cpus → Option Cpus
  mark_started c =
      if ltb c.bootcpu ncpu_max
      then some (record c { cpu_status = update c.cpu_status c.bootcpu started })
      else none

  -- `in23` is what port 0x23 gives.
  unfoldable pub finish_init : (in23 mp : ℕ) → Cpus → Cpus
  finish_init in23 mp c =
      if not c.ismp
      then record c { ncpu = 1; lapicaddr = 0 }
      else if mem (mp + 12) != 0
      then record c { outs = (0x23, bit_or in23 1) ∷ (0x22, 0x70) ∷ c.outs }
      else c

  abbrev pub finish_started : (in23 mp : ℕ) → Option Cpus → Option Cpus
  finish_started in23 mp none = none
  finish_started in23 mp (some c) = some (finish_init in23 mp c)

  abbrev pub init_with : ℕ → Cpus → Option (ℕ × MpConf) → Option Cpus
  init_with in23 c none = some (record c { bootcpu = 0 })
  init_with in23 c (some (mp, conf)) = finish_started in23 mp (
      mark_started (
        read_entries conf.entry conf.entries
          (record c { bootcpu = 0; ismp = true; lapicaddr = conf.lapic })))

  unfoldable pub mp_init : ℕ → Cpus → Option Cpus
  unfolding mpconfig read_entries finish_init mark_started
  mp_init in23 c = elim mpconfig [ none ↦ none | some found ↦ init_with in23 c found ]
