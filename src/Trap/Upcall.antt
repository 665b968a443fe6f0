-- ===== src/Trap/Upcall.antt =====
-- How a page fault reaches the environment's own handler (`page_fault_handler` of kern/trap.c).
use cs3510_operating_systems.Common.{
  get_or, ℕ, leb, ltb, ◌+◌, ◌-◌, ◌/◌, ◌%◌, ◌≤◌, ◌≡◌, ◌&&◌, ap, refl, arith, ◌∙◌, inl, Bool-cases,
  inr, bit_or, ◌<◌, ◌⊎◌, some, ne→==, ◌≢◌, ==_refl, true,
}
use cs3510_operating_systems.Layout.{uxstacktop, pte_w, pte_u}
use cs3510_operating_systems.State.{Run, ◌>>=◌, Trapframe, Kernel, ok, and_then}
use cs3510_operating_systems.Trap.UserStack.{translate}
use cs3510_operating_systems.Env.Sched.{env_run}
use cs3510_operating_systems.Syscall.Envs.{current, deref, user_mem_assert}
use cs3510_operating_systems.Trap.Fault.{
  upcall_esp, set_frame, enter_upcall, push_and_run, page_fault_handler, require_upcall, of_env,
}
use cs3510_operating_systems.Trap.Stack.{stack, HasStack, written, written_all}
use cs3510_operating_systems.Trap.Pushed.{utrapframe, pushed, push_utf-pushed, pushed-utrapframe}

-- Where a frame fits: below the top of the exception stack, or, for a fault on that stack, below the
-- word under its top.
abbrev pub HasRoom : ℕ → Type 0
HasRoom esp = (esp < stack) ⊎ ((uxstacktop ≤ esp) ⊎ ((stack + 56 ≤ esp) × (esp % 4 ≡ 0)))

upcall_esp-stack :
    (esp : ℕ)
    → HasRoom esp
    → (off : ℕ) × (upcall_esp esp ≡ stack + off) × (off % 4 ≡ 0) × (off + 52 ≤ 4096)
unfolding upcall_esp
upcall_esp-stack esp (inl below) = (4044, ground arith, refl, omega arith)
upcall_esp-stack esp (inr (inl above)) = (4044, ground arith, refl, omega arith)
upcall_esp-stack esp (inr (inr (room, aligned))) = elim (Bool-cases (ltb esp uxstacktop)) [
  | inl y ↦ (esp - 56 - stack, ground arith, omega arith, ground arith)
  | inr n ↦ (4044, ground arith, refl, omega arith)
]

-- The environment with its stack pointer at the frame.
abbrev pub at_frame : ℕ → Kernel → Kernel
at_frame e k =
    set_frame (of_env e) (λ tf. record tf { tf_esp = upcall_esp (k.envs e).env_tf.tf_esp }) k

HasStack-at_frame : (e n : ℕ) (k : Kernel) → HasStack k n → HasStack (at_frame e k) n
unfolding translate
HasStack-at_frame e n k h = record {
  mapped = h.mapped;
  not_directory = h.not_directory;
  not_table = h.not_table;
}

abbrev at_upcall : ℕ → ℕ → Kernel → Kernel
at_upcall e upcall k = set_frame (of_env e) (λ tf. record tf { tf_eip = upcall }) k

pushed-envs :
    (n i fault_va esp : ℕ) (tf : Trapframe) (k : Kernel)
    → (pushed n i fault_va esp tf k).envs ≡ k.envs
unfolding pushed written written_all
pushed-envs n i fault_va esp tf k = refl

push_and_run-pushed :
    (A : Type 0) (fault_va esp e n off : ℕ) (k : Kernel)
    → off % 4 ≡ 0
    → off + 52 ≤ 4096
    → HasStack k n
    → push_and_run {A = A} (stack + off) fault_va esp (of_env e) e k
      ≡ env_run e (
          at_upcall e
            (k.envs e).env_pgfault_upcall
            (pushed n (off / 4) fault_va esp (k.envs e).env_tf k))
unfolding push_and_run
push_and_run-pushed A fault_va esp e n off k aligned fits h =
    ap (λ r. and_then r (λ u k'. env_run e (at_upcall e (k'.envs e).env_pgfault_upcall k')))
      (push_utf-pushed off n fault_va esp (k.envs e).env_tf k h aligned fits)
    ∙ rw (pushed-envs n (off / 4) fault_va esp (k.envs e).env_tf k) refl

enter_upcall-pushed :
    (A : Type 0) (fault_va e n off : ℕ) (k : Kernel)
    → upcall_esp (k.envs e).env_tf.tf_esp ≡ stack + off
    → off % 4 ≡ 0
    → off + 52 ≤ 4096
    → HasStack k n
    → user_mem_assert e
        (upcall_esp (k.envs e).env_tf.tf_esp)
        (uxstacktop - upcall_esp (k.envs e).env_tf.tf_esp)
        (bit_or pte_w pte_u)
        (at_frame e k)
      ≡ ok tt (at_frame e k)
    → enter_upcall {A = A} fault_va (of_env e) e k
      ≡ env_run e (
          at_upcall e ((at_frame e k).envs e).env_pgfault_upcall (
            pushed n
              (off / 4)
              fault_va
              (k.envs e).env_tf.tf_esp
              ((at_frame e k).envs e).env_tf
              (at_frame e k)))
unfolding enter_upcall
enter_upcall-pushed A fault_va e n off k at aligned fits h allowed =
    let esp : ℕ = (k.envs e).env_tf.tf_esp in
    ap (λ r. and_then r (λ u. push_and_run {A = A} (upcall_esp esp) fault_va esp (of_env e) e))
      allowed
    ∙ ap (λ utf. push_and_run {A = A} utf fault_va esp (of_env e) e (at_frame e k)) at
    ∙ push_and_run-pushed A fault_va esp e n off (at_frame e k) aligned fits
        (HasStack-at_frame e n k h)

current_lem : (e : ℕ) (k : Kernel) → k.curenv ≡ some e → current k ≡ ok e k
unfolding current
current_lem e k cur = ap (λ c. deref c k) cur

require_upcall_lem : (upcall e : ℕ) (k : Kernel) → upcall ≢ 0 → require_upcall upcall e k ≡ ok tt k
unfolding require_upcall
require_upcall_lem upcall e k some_upcall = rw (ne→== upcall 0 some_upcall) refl

page_fault_handler-enter :
    (A : Type 0) (fault_va e : ℕ) (k : Kernel)
    → k.curenv ≡ some e
    → (k.envs e).env_pgfault_upcall ≢ 0
    → page_fault_handler {A = A} fault_va (of_env e) k ≡ enter_upcall fault_va (of_env e) e k
unfolding page_fault_handler
page_fault_handler-enter A fault_va e k cur upcall =
    let present : current k ≡ ok e k = current_lem e k cur in
    let alive : require_upcall (k.envs e).env_pgfault_upcall e k ≡ ok tt k =
      require_upcall_lem (k.envs e).env_pgfault_upcall e k upcall in
    let from_alive : Run (Unit {0}) → Run A =
      λ r. and_then r (λ u. current >>= enter_upcall fault_va (of_env e)) in
    ap
      (λ r. and_then r (λ e' k'.
        and_then (require_upcall (k'.envs e').env_pgfault_upcall e' k')
          (λ u. current >>= enter_upcall fault_va (of_env e))))
      present
    ∙ ap from_alive alive
    ∙ ap (λ r. and_then r (enter_upcall fault_va (of_env e))) present

-- A page fault in the running environment `e`, which has an upcall, on a CPU with its directory
-- loaded, ends in `env_run` of `e` at the upcall, with the stack pointer at a `struct UTrapframe` on
-- its exception stack that holds the address, the error code and the interrupted registers: if there
-- is room for it, the check of the stack passes and the stack's page is mapped for writing.
pub page_fault_handler_lem :
    (A : Type 0) (fault_va e n : ℕ) (k : Kernel)
    → k.curenv ≡ some e
    → (k.envs e).env_pgfault_upcall ≢ 0
    → HasRoom (k.envs e).env_tf.tf_esp
    → HasStack k n
    → user_mem_assert e
        (upcall_esp (k.envs e).env_tf.tf_esp)
        (uxstacktop - upcall_esp (k.envs e).env_tf.tf_esp)
        (bit_or pte_w pte_u)
        (at_frame e k)
      ≡ ok tt (at_frame e k)
    → (k' : Kernel) × (page_fault_handler {A = A} fault_va (of_env e) k ≡ env_run e k')
      × ((k'.envs e).env_tf.tf_eip ≡ (k.envs e).env_pgfault_upcall)
      × ((k'.envs e).env_tf.tf_esp ≡ upcall_esp (k.envs e).env_tf.tf_esp)
      × ((j : ℕ)
          → j < 13
          → k'.word n ((upcall_esp (k.envs e).env_tf.tf_esp - stack) / 4 + j)
            ≡ get_or (utrapframe fault_va (k.envs e).env_tf.tf_esp (k.envs e).env_tf) j 0)
page_fault_handler_lem A fault_va e n k cur upcall room h allowed =
    let (off, at, aligned, fits) = upcall_esp-stack (k.envs e).env_tf.tf_esp room in
    let esp : ℕ = (k.envs e).env_tf.tf_esp in
    let k₁ : Kernel = at_frame e k in
    let k₂ : Kernel = pushed n (off / 4) fault_va esp (k₁.envs e).env_tf k₁ in
    let same_envs : k₂.envs ≡ k₁.envs =
      pushed-envs n (off / 4) fault_va esp (k₁.envs e).env_tf k₁ in
    (
      at_upcall e (k₁.envs e).env_pgfault_upcall k₂,
      page_fault_handler-enter A fault_va e k cur upcall
          ∙ enter_upcall-pushed A fault_va e n off k at aligned fits h allowed,
      rw (==_refl e) refl,
      rw (same_envs, ==_refl e) refl,
      λ j below.
          let index : (upcall_esp esp - stack) / 4 ≡ off / 4 = omega (arith, at) in
          let behind : off / 4 + j - off / 4 ≡ j = omega arith in
          rw index (
            pushed-utrapframe n (off / 4) fault_va esp (k₁.envs e).env_tf k₁ (off / 4 + j)
            ∙ (let inside : (leb (off / 4) (off / 4 + j) && ltb (off / 4 + j) (off / 4 + 13))
                    ≡ true =
                  ground arith in
                let same_frame : utrapframe fault_va esp (k₁.envs e).env_tf
                    ≡ utrapframe fault_va esp (k.envs e).env_tf =
                  rw (==_refl e) refl in
                rw (inside, behind) (ap (λ ws. get_or ws j 0) same_frame))),
    )
