-- ===== src/Tests/Machine.antt =====
-- The theorems on the boot loader, the start of the machine, page faults and the console's output.
use cs3510_operating_systems.Common.{
  ℕ, List, refl, arith, some, ◌+◌, ◌≤◌, ◌<◌, ◌≡◌, ◌==◌, ◌∷◌, ◌⊎◌, if◌then◌else◌, [], leb, inl,
  false, get_or, ◌-◌, ◌/◌, length,
}
use cs3510_operating_systems.State.{Kernel, ok}
use cs3510_operating_systems.Str.Block.{Memory}
use cs3510_operating_systems.Print.Ends.{IsFormat}
use cs3510_operating_systems.Print.Parts.{text_at}
use cs3510_operating_systems.Print.Loop.{vprintfmt}
use cs3510_operating_systems.Print.Console.{vcprintf, output, AllShort, vcprintf_lem, bytes}
use cs3510_operating_systems.Loader.{Disk, readseg}
use cs3510_operating_systems.Loader.Segment.{image, readseg_lem}
use cs3510_operating_systems.Processors.{Cpus, MpConf}
use cs3510_operating_systems.Pmap.Boot.Setup.{mem_init_mp}
use cs3510_operating_systems.Pmap.Boot.Stacks.{HasStackTable, Stacks, mem_init_mp-Stacks}
use cs3510_operating_systems.Env.Sched.{env_run}
use cs3510_operating_systems.Trap.UserStack.{translate}
use cs3510_operating_systems.Trap.Stack.{HasStack, stack}
use cs3510_operating_systems.Trap.Fault.{page_fault_handler, of_env, upcall_esp}
use cs3510_operating_systems.Trap.Upcall.{page_fault_handler_lem}
use cs3510_operating_systems.Layout.{pdx, pgnum, pte_addr}
use cs3510_operating_systems.Trap.Pushed.{utrapframe}
use cs3510_operating_systems.Syscall.Envs.{user_mem_assert}
use cs3510_operating_systems.Pmap.UserMem.{user_mem_check, check_loop}
use cs3510_operating_systems.Tests.Sample.{full}

-- The format "a%s" at address 10, and the text "b" at address 20.
abbrev text : Memory
text a =
    if a == 10
    then 97
    else if a == 11
    then 37
    else if a == 12
    then 115
    else if a == 20
    then 98
    else 0

text-IsFormat : IsFormat text (λ i. 20) 10 13 2
unfolding text_at
text-IsFormat = record { nul = refl; strings = λ a low high s j. (1, omega arith, refl) }

vcprintf_lem_example :
    (chars : List ℕ) × (vprintfmt text (λ i. 20) 7 10 0 ≡ some chars)
    × (calls : List (List ℕ)) × (vcprintf (λ i. 0) 7 text 10 0 (λ i. 20)
        ≡ some (length (bytes chars), calls))
    × (output calls ≡ bytes chars)
    × AllShort calls
vcprintf_lem_example =
    vcprintf_lem (λ i. 0) 7 text 10 0 (λ i. 20) 13 2 text-IsFormat (omega arith) (omega arith)

-- Each sector holds its number in every byte.
abbrev numbered : Disk
numbered sector i = sector

readseg_lem_example :
    (mem' : Memory) × (readseg numbered 1048676 1000 4196 (λ a. 7) ≡ some mem')
    × ((i : ℕ) → i < 1000 → mem' (1048676 + i) ≡ image numbered (4196 + i))
    × ((a : ℕ) → (a < 1048576) ⊎ (1050187 ≤ a) → mem' a ≡ 7)
readseg_lem_example =
    readseg_lem numbered 1048676 1000 4196 (λ a. 7) refl (omega arith) (omega arith)

-- The kernel's directory is page 1 of a state whose every entry is filled in.
abbrev at_start : Kernel
at_start = record full { kern_pgdir = some 1 }

start-HasStackTable : HasStackTable 1 2 at_start
unfolding pdx pgnum pte_addr
start-HasStackTable = record {
  directory = refl;
  table = record { present = refl; table = refl; inside = omega arith; apart = λ e. omega arith };
}

mem_init_mp-Stacks_example :
    (k' : Kernel) × (mem_init_mp 4027580416 at_start ≡ ok tt k') × Stacks 2 4027580416 0 at_start k'
mem_init_mp-Stacks_example =
    mem_init_mp-Stacks 1 2 4027580416 at_start (omega arith) start-HasStackTable

-- Environment 0 faults below its exception stack, which page 3 backs.
abbrev faulting : Kernel
faulting = record full { envs = λ e. record (full.envs e) { env_pgfault_upcall = 64 } }

faulting-HasStack : HasStack faulting 3
unfolding translate pgnum pte_addr
faulting-HasStack = record {
  mapped = refl;
  not_directory = λ e. omega arith;
  not_table = λ e. omega arith;
}

page_fault_handler_lem_example :
    (k' : Kernel) × (page_fault_handler {A = ℕ} 4096 (of_env 0) faulting ≡ env_run 0 k')
    × ((k'.envs 0).env_tf.tf_eip ≡ 64)
    × ((k'.envs 0).env_tf.tf_esp ≡ upcall_esp (faulting.envs 0).env_tf.tf_esp)
    × ((j : ℕ)
        → j < 13
        → k'.word 3 ((upcall_esp (faulting.envs 0).env_tf.tf_esp - stack) / 4 + j)
          ≡ get_or (utrapframe 4096 (faulting.envs 0).env_tf.tf_esp (faulting.envs 0).env_tf) j 0)
unfolding user_mem_assert upcall_esp user_mem_check check_loop
page_fault_handler_lem_example =
    page_fault_handler_lem ℕ 4096 0 3 faulting refl (λ e. omega arith) (inl (omega arith))
      faulting-HasStack refl

-- Base memory ends at 639 KB, and its last KB starts with a table's pointer; the table at 36864 lists
-- one processor.
abbrev pointer_byte : ℕ → ℕ
pointer_byte i = get_or (95 ∷ 77 ∷ 80 ∷ 95 ∷ 0 ∷ 144 ∷ 0 ∷ 0 ∷ 0 ∷ 0 ∷ 21 ∷ []) i 0

abbrev table_byte : ℕ → ℕ
table_byte i =
    if i == 34
    then 1
    else if i == 38
    then 224
    else if i == 39
    then 254
    else if i == 47
    then 2
    else get_or (80 ∷ 67 ∷ 77 ∷ 80 ∷ 64 ∷ 0 ∷ 4 ∷ 171 ∷ []) i 0

abbrev firmware : Memory
firmware a =
    if a == 1043
    then 127
    else if a == 1044
    then 2
    else if leb 653312 a
    then pointer_byte (a - 653312)
    else if leb 36864 a
    then table_byte (a - 36864)
    else 0

abbrev small_conf : MpConf
small_conf = record {
  length = 64;
  version = 4;
  entry = 1;
  lapic = 4276092928;
  xlength = 0;
  xchecksum = 0;
  entries = 36908;
}

abbrev no_cpus : Cpus
no_cpus = record {
  ncpu = 0;
  ismp = false;
  bootcpu = 0;
  lapicaddr = 0;
  cpu_id = λ i. 0;
  cpu_status = λ i. 0;
  outs = [];
}
