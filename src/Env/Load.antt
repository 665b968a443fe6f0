-- ===== src/Env/Load.antt =====
-- `load_icode` and `env_create` of kern/env.c: an ELF binary (inc/elf.h), which the kernel has in
-- its own memory, goes into the memory of a new environment.
use cs3510_operating_systems.Common.{ℕ, zero, suc, ◌+◌, ◌-◌, ◌*◌, ◌==◌, if◌then◌else◌}
use cs3510_operating_systems.Layout.{u32, pgsize, ustacktop}
use cs3510_operating_systems.State.{Env, Kernel, M, pure, fail, gets, modify, ◌>>=◌, ◌>>◌}
use cs3510_operating_systems.Env.Sched.{set_env, paddr, lcr3}
use cs3510_operating_systems.Env.Life.{env_alloc, region_alloc}
use cs3510_operating_systems.Syscall.Envs.{deref}
use cs3510_operating_systems.Trap.UserStack.{store_user_byte}

-- The bytes of the binary; its fields have the lowest byte first.
abbrev pub Binary : Type 0
Binary = ℕ → ℕ

unfoldable pub half_at : Binary → ℕ → ℕ
half_at binary i = binary i + 256 * binary (i + 1)

unfoldable pub word_at : Binary → ℕ → ℕ
unfolding half_at
word_at binary i = half_at binary i + 65536 * half_at binary (i + 2)

-- The fields that are read.
pub record Elf : Type 0 where
  pub e_magic : ℕ
  pub e_entry : ℕ
  pub e_phoff : ℕ
  pub e_phnum : ℕ

pub record Proghdr : Type 0 where
  pub p_type : ℕ
  pub p_offset : ℕ
  pub p_va : ℕ
  pub p_pa : ℕ
  pub p_filesz : ℕ
  pub p_memsz : ℕ

unfoldable pub elf_header : Binary → Elf
unfolding word_at
elf_header binary = record {
  e_magic = word_at binary 0;
  e_entry = word_at binary 24;
  e_phoff = word_at binary 28;
  e_phnum = half_at binary 44;
}

-- The program header at an offset; each has 32 bytes.
unfoldable pub program_header : Binary → ℕ → Proghdr
unfolding word_at
program_header binary ph = record {
  p_type = word_at binary ph;
  p_offset = word_at binary (ph + 4);
  p_va = word_at binary (ph + 8);
  p_pa = word_at binary (ph + 12);
  p_filesz = word_at binary (ph + 16);
  p_memsz = word_at binary (ph + 20);
}

abbrev pub elf_magic : ℕ
elf_magic = 0x464C457F

abbrev elf_prog_load : ℕ
elf_prog_load = 1

-- `memset(va, 0, n)` and `memcpy(va, binary + from, n)`, in the environment's memory.
unfoldable pub clear_user : ℕ → ℕ → M (Unit {0})
unfolding store_user_byte
clear_user va zero = pure tt
clear_user va (suc n) = store_user_byte va 0 >> clear_user (u32 (va + 1)) n

unfoldable pub copy_to_user : Binary → ℕ → ℕ → ℕ → M (Unit {0})
unfolding store_user_byte
copy_to_user binary va from zero = pure tt
copy_to_user binary va from (suc n) =
    store_user_byte va (binary from) >> copy_to_user binary (u32 (va + 1)) (suc from) n

unfoldable pub load_segment : ℕ → Binary → Proghdr → M (Unit {0})
unfolding clear_user copy_to_user
load_segment e binary ph = do
  region_alloc e ph.p_va ph.p_memsz
  clear_user ph.p_va ph.p_memsz
  copy_to_user binary ph.p_va ph.p_offset ph.p_filesz

-- The loop, with `n` program headers to go.
unfoldable pub load_segments : ℕ → Binary → ℕ → ℕ → M (Unit {0})
unfolding load_segment program_header
load_segments e binary zero ph = pure tt
load_segments e binary (suc n) ph =
    let header : Proghdr = program_header binary ph in
    let rest = load_segments e binary n (ph + 32) in
    if header.p_type == elf_prog_load then (load_segment e binary header >> rest) else rest

abbrev with_eip : ℕ → Env → Env
with_eip eip env = record env { env_tf = record (env.env_tf) { tf_eip = eip } }

unfoldable pub load_icode : ℕ → Binary → M (Unit {0})
unfolding elf_header load_segments
load_icode e binary = do
  pgdir ← gets (λ k. (k.envs e).env_pgdir)
  pa ← paddr pgdir
  lcr3 pa
  let header = elf_header binary
  (if header.e_magic == elf_magic then pure tt else fail)
  load_segments e binary header.e_phnum header.e_phoff
  region_alloc e (ustacktop - pgsize) pgsize
  modify (λ k. set_env e (with_eip header.e_entry (k.envs e)) k)
  kern_pgdir ← gets Kernel.kern_pgdir
  kern_pa ← paddr kern_pgdir
  lcr3 kern_pa

-- The result of `env_alloc` is not looked at; the pointer that it then leaves unset is taken for
-- NULL.
unfoldable pub env_create : Binary → ℕ → M (Unit {0})
unfolding load_icode
env_create binary type = env_alloc 0 >>= λ got.
    let (status, slot) = got in
    do
      e ← deref slot
      load_icode e binary
      modify (λ k. set_env e (record (k.envs e) { env_type = type }) k)
