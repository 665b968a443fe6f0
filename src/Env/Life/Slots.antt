-- ===== src/Env/Life/Slots.antt =====
-- The list of free environment slots, and the ids that slots are given.
use cs3510_operating_systems.Common.{
  ℕ, none, zero, has, arith, Option, some, update, bit_or, false, suc, List, ◌+◌, ◌<◌, ◌≡◌, ◌≢◌,
  ◌∷◌, [], not-has-range_from, gt→leb, ne→==, refl, le→leb, ==_refl, ◌^◌, ◌*◌, ◌/◌, ◌%◌, ◌==◌,
  range_from,
}
use native.Mathlib.Decide.{dec_lt}
use cs3510_operating_systems.Layout.Laws.{bit_or_index}
use cs3510_operating_systems.State.{Env, free, Kernel, ok}
use cs3510_operating_systems.Env.Sched.{nenv}
use cs3510_operating_systems.Env.Lookup.{envx}
use cs3510_operating_systems.Env.Life.{free_slot, free_slots, env_init, next_generation}

-- From `l` the links lead through the distinct free slots `es` to NULL.
abbrev pub SlotChain : (ℕ → Env) → Option ℕ → List ℕ → Type 0
SlotChain envs l [] = l ≡ none
SlotChain envs l (e ∷ es) =
    (l ≡ some e)
    × ((envs e).env_status ≡ free)
    × (has e es ≡ false)
    × SlotChain envs (envs e).env_link es

pub SlotChain-update :
    (envs : ℕ → Env) (i : ℕ) (env : Env) (l : Option ℕ) (es : List ℕ)
    → has i es ≡ false
    → SlotChain envs l es
    → SlotChain (update envs i env) l es
SlotChain-update envs i env l [] out c = c
SlotChain-update envs i env l (e ∷ es) out c =
    ground (arith, SlotChain-update envs i env (envs e).env_link es)

free_slots-SlotChain :
    (n m : ℕ) (k : Kernel)
    → SlotChain k.envs k.env_free_list (range_from n m)
    → let k' = free_slots n k in SlotChain k'.envs k'.env_free_list (range_from 0 (n + m))
unfolding free_slots free_slot range_from
free_slots-SlotChain zero m k c = let e : 0 + m ≡ m = omega arith in rw e c
free_slots-SlotChain (suc n) m k c =
    let e : suc n + m ≡ n + suc m = omega arith in
    rw e (free_slots-SlotChain n (suc m) (free_slot n k) (one n m k c))
  where
    one :
        (n m : ℕ) (k : Kernel)
        → SlotChain k.envs k.env_free_list (range_from (suc n) m)
        → let k' = free_slot n k in SlotChain k'.envs k'.env_free_list (range_from n (suc m))
    one n m k c =
        let env : Env = record (k.envs n) {
          env_status = free;
          env_id = 0;
          env_link = k.env_free_list;
        } in
        (
          refl,
          rw (==_refl n),
          not-has-range_from n (suc n) m (omega arith),
          rw (==_refl n) (
              SlotChain-update k.envs n env k.env_free_list (range_from (suc n) m)
                (not-has-range_from n (suc n) m (omega arith)) c),
        )

-- The id that a slot below 1024 gets is positive as an `int32_t`, names the slot, and differs from
-- the id that the slot had before.
pub new_id_lem :
    (old e : ℕ)
    → old < 2147483648
    → e < 1024
    → let id = bit_or (next_generation old) e in
      (0 < id) × (id < 2147483648) × (envx id ≡ e) × (id ≢ old)
unfolding next_generation
new_id_lem old e small slot = elim (dec_lt old 2147479552) [
  | yes low ↦
      let g : ℕ = (old + 4096) / 1024 in
      let e₁ : (old + 2 ^ 12) % 2 ^ 32 / 1024 * 1024 ≡ g * 1024 = omega arith in
      let e₂ : (g * 1024 == 0) ≡ false = ne→== _ _ (λ z. omega arith) in
      rw (e₁, e₂, gt→leb (2 ^ 31) (g * 1024) (omega arith), bit_or_index g e slot) (omega arith)
  | no high ↦
      let g : ℕ = (old + 4096) / 1024 in
      let e₁ : (old + 2 ^ 12) % 2 ^ 32 / 1024 * 1024 ≡ g * 1024 = omega arith in
      let e₂ : (g * 1024 == 0) ≡ false = ne→== _ _ (λ z. omega arith) in
      rw (e₁, e₂, le→leb (2 ^ 31) (g * 1024) (omega arith), bit_or_index 4 e slot) (omega arith)
]

-- `env_init` frees every slot, and links them in the order of the array.
pub env_init_lem :
    (k : Kernel)
    → (k' : Kernel) × (env_init k ≡ ok tt k')
      × SlotChain k'.envs k'.env_free_list (range_from 0 nenv)
unfolding env_init
env_init_lem k = (
  free_slots nenv (record k { env_free_list = none }),
  refl,
  free_slots-SlotChain nenv 0 (record k { env_free_list = none }) (unfold range_from in refl),
)
