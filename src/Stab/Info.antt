-- ===== src/Stab/Info.antt =====
-- `debuginfo_eip` of kern/kdebug.c. The kernel's tables, which the linker places, and what a user
-- program has at `USTABDATA` are parameters.
use cs3510_operating_systems.Common.{
  Bool, false, Option, true, zero, ltb, ℕ, some, none, leb, suc, ◌+◌, ◌-◌, ◌/◌, ◌==◌, ◌!=◌, ◌&&◌,
  ◌||◌, if◌then◌else◌,
}
use cs3510_operating_systems.Layout.{ulim, ptsize, pte_u, u32}
use cs3510_operating_systems.State.{Kernel, M, pure, gets, fail, hang, Ret, ret, err, ◌>>=◌, ◌>>◌}
use cs3510_operating_systems.Str.Text.{strfind}
use cs3510_operating_systems.Pmap.UserMem.{user_mem_check}
use cs3510_operating_systems.Syscall.Envs.{current, user_mem_assert}
use cs3510_operating_systems.Stab.{Stab, scan_back, stab_binsearch}

-- A table of symbols and its strings: where they begin and end, and what they hold.
pub record StabData : Type 0 where
  pub stabs_va : ℕ
  pub stab_end : ℕ
  pub stabstr_va : ℕ
  pub stabstr_end : ℕ
  pub stabs : ℕ → Stab
  pub stabstr : ℕ → ℕ

-- A name is its place in the strings, and none is "<unknown>".
pub record Eipdebuginfo : Type 0 where
  pub eip_file : Option ℕ
  pub eip_line : ℕ
  pub eip_fn_name : Option ℕ
  pub eip_fn_namelen : ℕ
  pub eip_fn_addr : ℕ
  pub eip_fn_narg : ℕ

abbrev pub n_fun : ℕ
n_fun = 0x24

abbrev pub n_sline : ℕ
n_sline = 0x44

abbrev pub n_so : ℕ
n_so = 0x64

abbrev pub n_sol : ℕ
n_sol = 0x84

abbrev pub n_psym : ℕ
n_psym = 0xa0

abbrev pub initial_info : ℕ → Eipdebuginfo
initial_info addr = record {
  eip_file = none;
  eip_line = 0;
  eip_fn_name = none;
  eip_fn_namelen = 9;
  eip_fn_addr = addr;
  eip_fn_narg = 0;
}

-- The result, negative as false, with what was stored in `*info`.
abbrev pub Answer : Type 0
Answer = Bool × Eipdebuginfo

abbrev pub string_size : StabData → ℕ
string_size d = d.stabstr_end - d.stabstr_va

-- The place of a stab's string, if it lies in the table.
unfoldable pub name_of : StabData → ℕ → Option ℕ → Option ℕ
name_of d i other =
    if ltb (d.stabs i).n_strx (string_size d) then some (d.stabs i).n_strx else other

-- The length of a function's name up to the colon.
unfoldable pub name_length : StabData → Option ℕ → Option ℕ
name_length d none = some 9
name_length d (some at) = elim (strfind d.stabstr (string_size d + 1) at b':') [
  | none ↦ none
  | some last ↦ some (last - at)
]

-- The parameters listed from index i on, of n at most.
unfoldable pub count_args : (ℕ → Stab) → ℕ → ℕ → ℕ
count_args stabs i zero = 0
count_args stabs i (suc n) =
    let rest = count_args stabs (suc i) n in if (stabs i).n_type == n_psym then suc rest else 0

-- A stab that names a source file.
abbrev pub names_file : Stab → Bool
names_file s = s.n_type == n_sol || (s.n_type == n_so && (s.n_value != 0))

-- The line, the file and the arguments, with the ends of the three regions.
unfoldable pub line_info : StabData → ℕ → ℕ × ℕ → ℕ × ℕ → Eipdebuginfo → Answer
unfolding name_of count_args scan_back
line_info d lfile (lfun, rfun) (lline, rline) info =
    if lline == rline
    then (let line : ℕ = lline - 1 in
        let file : Option ℕ =
          elim (scan_back (λ i. names_file (d.stabs i)) lfile (line + 1 - lfile)) [
            | none ↦ info.eip_file
            | some i ↦ name_of d i info.eip_file
          ] in
        let narg : ℕ =
          if ltb lfun (rfun - 1)
          then count_args d.stabs (lfun + 1) (rfun - 1 - (lfun + 1))
          else 0 in
        (
          true,
          record info { eip_line = (d.stabs line).n_desc; eip_file = file; eip_fn_narg = narg },
        ))
    else (false, info)

-- The search for the line in the function, or in the file where there is no function.
unfoldable pub find_line : StabData → ℕ → ℕ × ℕ → ℕ → ℕ × ℕ → Eipdebuginfo → M Answer
unfolding name_length line_info stab_binsearch
find_line d lfile (lfun, rfun) addr (first, count) info = elim (name_length d info.eip_fn_name) [
  | none ↦ λ _. hang
  | some len ↦ elim (stab_binsearch d.stabs n_sline first count addr) [
    | none ↦ λ _. hang
    | some lines ↦
        pure (line_info d lfile (lfun, rfun) lines (record info { eip_fn_namelen = len }))
  ]
]

-- The search for the function in the file's region. A left end before the table is read there, which
-- is no access to it.
unfoldable pub find_function : StabData → ℕ → ℕ × ℕ → Eipdebuginfo → M Answer
unfolding find_line name_of
find_function d addr (zero, rfile) info = fail
find_function d addr (suc lfile, rfile) info =
    if lfile == 0
    then pure (false, info)
    else elim (stab_binsearch d.stabs n_fun lfile rfile addr) [
      | none ↦ λ _. hang
      | some (zero, rfun) ↦ fail
      | some (suc lfun, rfun) ↦
          if ltb lfun rfun
          then (let start : ℕ = (d.stabs lfun).n_value in
              find_line d lfile (lfun, rfun) (u32 (addr + (4294967296 - start))) (lfun, rfun)
                (record info {
                  eip_fn_name = name_of d lfun info.eip_fn_name;
                  eip_fn_addr = start;
                }))
          else find_line d lfile (lfun, rfun) addr (lfile, rfile)
              (record info { eip_fn_addr = addr })
    ]

-- The part behind the choice of the tables.
unfoldable pub search_tables : StabData → ℕ → M Answer
unfolding find_function
search_tables d addr =
    if leb d.stabstr_end d.stabstr_va || (d.stabstr (string_size d - 1) != 0)
    then pure (false, initial_info addr)
    else elim (stab_binsearch d.stabs n_so 0 ((d.stab_end - d.stabs_va) / 12) addr) [
      | none ↦ λ _. hang
      | some files ↦ find_function d addr files (initial_info addr)
    ]

abbrev pub ustabdata : ℕ
ustabdata = ptsize / 2

abbrev pub if_readable : StabData → ℕ → ℕ → Ret → M Answer
if_readable d env addr (err x) = pure (false, initial_info addr)
if_readable d env addr (ret _) = do
  user_mem_assert env d.stabs_va (u32 (d.stab_end + 4294967296 - d.stabs_va)) pte_u
  user_mem_assert env d.stabstr_va (u32 (d.stabstr_end + 4294967296 - d.stabstr_va)) pte_u
  search_tables d addr

unfoldable pub debuginfo_eip : StabData → (Kernel → StabData) → ℕ → M Answer
unfolding search_tables
debuginfo_eip kernel user addr = if leb ulim addr then search_tables kernel addr else (do
  env ← current
  d ← gets user
  checked ← user_mem_check env ustabdata 16 pte_u
  if_readable d env addr checked)
