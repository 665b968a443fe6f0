-- ===== src/Trap/Gates.antt =====
-- The interrupt table that `trap_init` of kern/trap.c fills (the gate type is `SETGATE` of inc/mmu.h),
-- and `trapname`.
use Prim.Native.String.{String}
use mathlib.Core.Path.{subst}
use cs3510_operating_systems.Common.{
  Option, suc, zero, ℕ, true, none, some, ltb, leb, List, Bool, ◌+◌, ◌==◌, ◌&&◌, ◌∷◌, [],
  if◌then◌else◌, update, inl, false, inr, Bool-cases, arith, ◌≡◌, ◌||◌, ap, refl, not, has, ◌∙◌,
  ◌⊎◌, all_below-at,
}

-- The entry points of kern/trapentry.S, by the vector that each of them pushes.
pub data Handler : Type 0 where
  t_divide t_debug t_nmi t_brkpt t_oflow t_bound t_illop t_device t_dblflt t_coproc : Handler
  t_tss t_segnp t_stack t_gpflt t_pgflt t_res t_fperr t_align t_mchk t_simderr : Handler
  t_syscall : Handler
  t_irq : ℕ → Handler

-- `SETGATE`: the selector, the handler and the privilege level that `int` needs; `gd_type` is 0xf
-- for a trap gate and 0xe for an interrupt gate, which clears the interrupt flag.
pub record Gatedesc : Type 0 where
  pub gd_off : Handler
  pub gd_sel : ℕ
  pub gd_type : ℕ
  pub gd_dpl : ℕ
  pub gd_p : ℕ

abbrev pub gd_kt : ℕ
gd_kt = 8

unfoldable pub setgate : Bool → ℕ → Handler → ℕ → Gatedesc
setgate istrap sel off dpl = record {
  gd_off = off;
  gd_sel = sel;
  gd_type = if istrap then 0xf else 0xe;
  gd_dpl = dpl;
  gd_p = 1;
}

-- The number that an entry point pushes before it goes on to `_alltraps`.
abbrev pub trap_number : Handler → ℕ
trap_number t_divide = 0
trap_number t_debug = 1
trap_number t_nmi = 2
trap_number t_brkpt = 3
trap_number t_oflow = 4
trap_number t_bound = 5
trap_number t_illop = 6
trap_number t_device = 7
trap_number t_dblflt = 8
trap_number t_coproc = 9
trap_number t_tss = 10
trap_number t_segnp = 11
trap_number t_stack = 12
trap_number t_gpflt = 13
trap_number t_pgflt = 14
trap_number t_res = 15
trap_number t_fperr = 16
trap_number t_align = 17
trap_number t_mchk = 18
trap_number t_simderr = 19
trap_number t_syscall = 48
trap_number (t_irq n) = 32 + n

-- The lines of `trap_init`: the vector, the entry point and the privilege level.
abbrev gates : List (ℕ × Handler × ℕ)
gates =
    (0, t_divide, 0)
    ∷ (1, t_debug, 0)
    ∷ (2, t_nmi, 0)
    ∷ (3, t_brkpt, 3)
    ∷ (4, t_oflow, 0)
    ∷ (5, t_bound, 0)
    ∷ (6, t_illop, 0)
    ∷ (7, t_device, 0)
    ∷ (8, t_dblflt, 0)
    ∷ (9, t_coproc, 0)
    ∷ (10, t_tss, 0)
    ∷ (11, t_segnp, 0)
    ∷ (12, t_stack, 0)
    ∷ (13, t_gpflt, 0)
    ∷ (14, t_pgflt, 0)
    ∷ (15, t_res, 0)
    ∷ (16, t_fperr, 0)
    ∷ (17, t_align, 0)
    ∷ (18, t_mchk, 0)
    ∷ (19, t_simderr, 0)
    ∷ (48, t_syscall, 3)
    ∷ (32, t_irq 0, 0)
    ∷ (33, t_irq 1, 0)
    ∷ (34, t_irq 2, 0)
    ∷ (35, t_irq 3, 0)
    ∷ (36, t_irq 4, 0)
    ∷ (37, t_irq 5, 0)
    ∷ (38, t_irq 6, 0)
    ∷ (39, t_irq 7, 0)
    ∷ (40, t_irq 8, 0)
    ∷ (41, t_irq 9, 0)
    ∷ (42, t_irq 10, 0)
    ∷ (43, t_irq 11, 0)
    ∷ (44, t_irq 12, 0)
    ∷ (45, t_irq 13, 0)
    ∷ (46, t_irq 14, 0)
    ∷ (47, t_irq 15, 0)
    ∷ []

abbrev pub Table : Type 0
Table = ℕ → Option Gatedesc

-- The assignments, one after the other.
unfoldable set_gates : List (ℕ × Handler × ℕ) → Table → Table
unfolding setgate
set_gates [] idt = idt
set_gates ((v, h, dpl) ∷ rest) idt =
    set_gates rest (update idt v (some (setgate false gd_kt h dpl)))

-- The table after `trap_init`; a gate that is not set is not present.
unfoldable pub trap_init : Table
unfolding set_gates
trap_init = set_gates gates (λ v. none)

unfoldable excnames : List String
excnames =
    "Divide error" ∷ "Debug" ∷ "Non-Maskable Interrupt" ∷ "Breakpoint" ∷ "Overflow"
    ∷ "BOUND Range Exceeded" ∷ "Invalid Opcode" ∷ "Device Not Available" ∷ "Double Fault"
    ∷ "Coprocessor Segment Overrun" ∷ "Invalid TSS" ∷ "Segment Not Present" ∷ "Stack Fault"
    ∷ "General Protection" ∷ "Page Fault" ∷ "(unknown trap)" ∷ "x87 FPU Floating-Point Error"
    ∷ "Alignment Check" ∷ "Machine-Check" ∷ "SIMD Floating-Point Exception" ∷ []

abbrev name_in : List String → ℕ → String
name_in [] n = "(unknown trap)"
name_in (s ∷ ss) zero = s
name_in (s ∷ ss) (suc n) = name_in ss n

unfoldable trapname : ℕ → String
unfolding excnames
trapname trapno =
    if ltb trapno 20
    then name_in excnames trapno
    else if trapno == 48
    then "System call"
    else if leb 32 trapno && ltb trapno 48
    then "Hardware Interrupt"
    else "(unknown trap)"

-- What a line of `trap_init` gets right.
abbrev privilege : ℕ → ℕ
privilege v = if v == 3 || v == 48 then 3 else 0

abbrev fits : ℕ × Handler × ℕ → Bool
fits (v, h, dpl) = trap_number h == v && dpl == privilege v

abbrev all_fit : List (ℕ × Handler × ℕ) → Bool
all_fit [] = true
all_fit (g ∷ gs) = fits g && all_fit gs

abbrev IsRight : ℕ → Option Gatedesc → Type 0
IsRight v none = Unit {0}
IsRight v (some g) =
    (trap_number g.gd_off ≡ v) × (g.gd_dpl ≡ privilege v) × (g.gd_sel ≡ 8) × (g.gd_type ≡ 0xe)

set_gates-IsRight :
    (gs : List (ℕ × Handler × ℕ)) (idt : Table)
    → all_fit gs ≡ true
    → ((v : ℕ) → IsRight v (idt v))
    → (v : ℕ) → IsRight v (set_gates gs idt v)
unfolding set_gates setgate
set_gates-IsRight [] idt fit right = right
set_gates-IsRight ((n, h, dpl) ∷ gs) idt fit right =
    let f : fits (n, h, dpl) ≡ true = ground arith in
    let number : trap_number h ≡ n = ground arith in
    let level : dpl ≡ privilege n = ground arith in
    set_gates-IsRight gs (update idt n (some (setgate false gd_kt h dpl))) (ground arith) (λ v.
      elim (Bool-cases (n == v)) [
        | inl e ↦
            let at : n ≡ v = ground arith in rw e (number ∙ at, level ∙ ap privilege at, refl, refl)
        | inr e ↦ rw e (right v)
      ])

abbrev listed : ℕ → List (ℕ × Handler × ℕ) → Bool
listed v [] = false
listed v ((n, h, dpl) ∷ gs) = n == v || listed v gs

set_gates-some :
    (gs : List (ℕ × Handler × ℕ)) (idt : Table) (v : ℕ)
    → (listed v gs ≡ true) ⊎ ((g : Gatedesc) × (idt v ≡ some g))
    → (g : Gatedesc) × (set_gates gs idt v ≡ some g)
unfolding set_gates
set_gates-some [] idt v (inl l) = cc
set_gates-some [] idt v (inr g) = g
set_gates-some ((n, h, dpl) ∷ gs) idt v found =
    set_gates-some gs (update idt n (some (setgate false gd_kt h dpl))) v
      (elim (Bool-cases (n == v)) [
        | inl e ↦ inr (setgate false gd_kt h dpl, rw e refl)
        | inr e ↦ elim found [ inl l ↦ inl (ground arith) | inr (g, at) ↦ inr (g, rw e at) ]
      ])

IsRight-at :
    (v : ℕ) (g : Gatedesc) (o : Option Gatedesc) → o ≡ some g → IsRight v o → IsRight v (some g)
IsRight-at v g o e right = subst (λ x. IsRight v x) e right

abbrev pub has_gate : ℕ → Bool
has_gate v = ltb v 20 || leb 32 v && leb v 48

gates-listed : (v : ℕ) → has_gate v ≡ true → listed v gates ≡ true
gates-listed v has =
    let p = all_below-at 49 (λ v. not (has_gate v) || listed v gates) v refl (ground arith) in
    ground arith

-- `trap_init` gives every exception, hardware interrupt and the system call an interrupt gate into
-- the kernel's code, to the entry point that pushes the vector's own number; of these gates, user
-- code may use those of the breakpoint and of the system call only.
pub trap_init_lem :
    (v : ℕ)
    → has_gate v ≡ true
    → (g : Gatedesc) × (trap_init v ≡ some g)
      × (trap_number g.gd_off ≡ v)
      × (g.gd_dpl ≡ (if v == 3 || v == 48 then 3 else 0))
      × (g.gd_sel ≡ 8)
      × (g.gd_type ≡ 0xe)
unfolding trap_init
trap_init_lem v present =
    let (g, at) = set_gates-some gates (λ v. none) v (inl (gates-listed v present)) in
    let (number, level, sel, kind) =
      IsRight-at v g (trap_init v) at (set_gates-IsRight gates (λ v. none) refl (λ v. tt) v) in
    (g, at, number, level, sel, kind)
