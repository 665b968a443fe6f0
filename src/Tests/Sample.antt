-- ===== src/Tests/Sample.antt =====
-- Sixteen pages: page 1 is a directory, page 2 its table, which maps page 3 at 4096; pages 4 and 5
-- are free. Environment 0 runs, 1 can run, 3 waits for a message, and the others are free.
use cs3510_operating_systems.Common.{
  if◌then◌else◌, refl, arith, false, some, none, true, ℕ, ◌+◌, ◌≡◌, ◌==◌, ◌∷◌, [],
}
use cs3510_operating_systems.State.{
  PageInfo, Env, Kernel, free, runnable, running, not_runnable, ok, ret,
}
use cs3510_operating_systems.Env.Life.{user_tf}
use cs3510_operating_systems.Env.Lookup.{envid2env}
use cs3510_operating_systems.Pmap.Page.FreeList.{FreeList}
use cs3510_operating_systems.Pmap.Table.Mapping.{HasTable}
use cs3510_operating_systems.Pmap.Table.Insert.{OldCounted}
use cs3510_operating_systems.Env.Life.Slots.{SlotChain}
use cs3510_operating_systems.Layout.{utop, pdx, pgnum, pte_addr, ptx}

abbrev pub page_info : ℕ → PageInfo
page_info p =
    if p == 4
    then record { pp_link = some 5; pp_ref = 0 }
    else if p == 5
    then record { pp_link = none; pp_ref = 0 }
    else record { pp_link = none; pp_ref = 1 }

abbrev pub some_env : ℕ → Env
some_env e = record {
  env_tf = user_tf;
  env_link = none;
  env_id = 4096 + e;
  env_parent_id = 4096;
  env_type = 0;
  env_status =
      if e == 0
      then running
      else if e == 1
      then runnable
      else if e == 3
      then not_runnable
      else free;
  env_runs = 0;
  env_cpunum = 0;
  env_pgdir = some 1;
  env_pgfault_upcall = 0;
  env_ipc_recving = e == 3;
  env_ipc_dstva = utop;
  env_ipc_value = 0;
  env_ipc_from = 0;
  env_ipc_perm = 0;
}

abbrev pub sample : Kernel
sample = record {
  npages = 16;
  pages = page_info;
  page_free_list = some 4;
  word = λ n i.
      if n == 1
      then (if i == 0 then 0x2007 else 0)
      else if n == 2
      then (if i == 1 then 0x3007 else 0)
      else 0;
  kern_pgdir = some 6;
  user_mem_check_addr = 0;
  envs = some_env;
  env_free_list = some 2;
  curenv = some 0;
  cpunum = 0;
  cpu_status = 1;
  cr3 = 4096;
  invlpg = [];
  kernel_lock = 1;
  nextfree = 0;
  mmio_next = 0;
}

-- The same with every entry of the directory and of the table filled in.
abbrev pub full : Kernel
full = record sample { word = λ n i. if n == 1 then 0x2007 else if n == 2 then 0x3007 else 0 }

pub sample-FreeList : FreeList sample (4 ∷ 5 ∷ [])
sample-FreeList = record {
  chain = ground arith;
  bounded = λ q h. ground arith;
  addressable = omega arith;
}

pub sample-SlotChain : SlotChain sample.envs sample.env_free_list (2 ∷ [])
sample-SlotChain = ground arith

pub mapped-HasTable : HasTable sample 1 4096 2
unfolding pdx pgnum pte_addr
mapped-HasTable = record {
  present = refl;
  table = refl;
  inside = omega arith;
  apart = λ e. omega arith;
}

pub absent-HasTable : HasTable sample 1 8192 2
unfolding pdx pgnum pte_addr
absent-HasTable = record {
  present = refl;
  table = refl;
  inside = omega arith;
  apart = λ e. omega arith;
}

pub mapped-OldCounted : OldCounted sample 2 4096
unfolding ptx pgnum pte_addr
mapped-OldCounted = record {
  inside = omega arith;
  counted = omega arith;
  fits = omega arith;
  unlinked = refl;
}

pub caller_found : envid2env 4096 true sample ≡ ok (ret 0, some 0) sample
unfolding envid2env
caller_found = refl

pub receiver_found : envid2env 4099 false sample ≡ ok (ret 0, some 3) sample
unfolding envid2env
receiver_found = refl
