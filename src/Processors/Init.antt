-- ===== src/Processors/Init.antt =====
-- What `mp_init` of kern/mpconfig.c leaves.
use cs3510_operating_systems.Common.{ℕ, true, ◌+◌, ◌≡◌, if◌then◌else◌, sym, update}
use mathlib.Core.Path.{sym}
use cs3510_operating_systems.Str.Block.{Memory}
use cs3510_operating_systems.Processors.{Cpus, MpConf, finish_init, read_entries}
use cs3510_operating_systems.Processors.Listing.{IsListed, processors, all_known, at_most_eight}

module _ (npages : ℕ) (mem : Memory) where
  -- What `mp_init` leaves of `c`, where `n` entries at `p` follow a header with `lapic`.
  record Inits (n p lapic : ℕ) (c d : Cpus) : Type 0 where
    listed : IsListed d
    multi : d.ismp ≡ all_known npages mem n p
    number : d.ncpu ≡ (
        if all_known npages mem n p
        then at_most_eight npages mem (c.ncpu + processors npages mem n p)
        else 1)
    address : d.lapicaddr ≡ (if all_known npages mem n p then lapic else 0)
    boot : d.cpu_status d.bootcpu ≡ 1

  boot_started : Cpus → Cpus
  boot_started d = record d { cpu_status = update d.cpu_status d.bootcpu 1 }

  abbrev begun : Cpus → MpConf → Cpus
  begun c conf = record c { bootcpu = 0; ismp = true; lapicaddr = conf.lapic }

  -- The state that `mp_init` leaves.
  inited : (in23 mp : ℕ) → MpConf → Cpus → Cpus
  inited in23 mp conf c =
      finish_init npages mem in23 mp
        (boot_started (read_entries npages mem conf.entry conf.entries (begun c conf)))
