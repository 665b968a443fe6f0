-- ===== src/Monitor/Blanks.antt =====
-- The inner loops of `runcmd` of kern/monitor.c: over blanks, and over an argument.
use mathlib.Core.Path.{subst}
use cs3510_operating_systems.Common.{
  arith, zero, inr, ℕ, some, false, Bool-cases, inl, true, refl, suc, ◌+◌, ◌≤◌, ◌<◌, ◌≡◌, ◌!=◌,
  ◌&&◌, ◌⊎◌, update, ne→==, ==_refl, not, ◌-◌, ◌≢◌, ◌∙◌, ◌==◌,
}
use cs3510_operating_systems.Str.Block.{Memory}
use cs3510_operating_systems.Monitor.Command.{is_white, gobble, scan}

-- What `gobble` leaves: blanks from `p` up to `b` are cleared, and no blank is at `b`.
pub record Gobbled (mem : Memory) (p n : ℕ) (mem' : Memory) (b : ℕ) : Type 0 where
  pub from : p ≤ b
  pub within : b ≤ p + n
  pub cleared : (j : ℕ) → p ≤ j → j < b → (mem' j ≡ 0) × (is_white (mem j) ≡ true)
  pub before : (j : ℕ) → j < p → mem' j ≡ mem j
  pub behind : (j : ℕ) → b ≤ j → mem' j ≡ mem j
  pub stopped : (mem b ≡ 0) ⊎ (is_white (mem b) ≡ false)

update-apart : (mem : Memory) (p v j : ℕ) → p ≢ j → update mem p v j ≡ mem j
update-apart mem p v j apart = rw (ne→== p j apart) refl

update-here : (mem : Memory) (p v : ℕ) → update mem p v p ≡ v
update-here mem p v = rw (==_refl p) refl

not_at_end : (mem : Memory) (p n : ℕ) → (mem p != 0) ≡ true → mem (p + n) ≡ 0 → n ≢ 0
not_at_end mem p n char ends z =
    let at : p + n ≡ p = omega arith in let here : mem p ≡ 0 = rw at at ends in ground arith

Gobbled-none :
    (mem : Memory) (p n : ℕ) → (mem p != 0 && is_white (mem p)) ≡ false → Gobbled mem p n mem p
Gobbled-none mem p n no_blank = record {
  from = omega arith;
  within = omega arith;
  cleared = λ j a b. absurd (omega arith);
  before = λ j b. refl;
  behind = λ j b. refl;
  stopped = elim (Bool-cases (mem p == 0)) [
    | inl z ↦ inl (ground arith)
    | inr z ↦ inr (ground arith)
  ];
}

Gobbled-one :
    (mem : Memory) (p n : ℕ) (mem' : Memory) (b : ℕ)
    → is_white (mem p) ≡ true
    → Gobbled (update mem p 0) (suc p) n mem' b
    → Gobbled mem p (suc n) mem' b
Gobbled-one mem p n mem' b blank g =
    let from : suc p ≤ b = g.from in
    let within : b ≤ suc p + n = g.within in
    record {
      from = omega arith;
      within = omega arith;
      cleared = λ j a c. elim (Bool-cases (p == j)) [
        | inl e ↦
            let at : p ≡ j = ground arith in
            (rw (← at) (g.before p (omega arith) ∙ update-here mem p 0), rw (← at) blank)
        | inr e ↦
            let (clear, white) = g.cleared j (ground arith) c in
            (clear, rw (update-apart mem p 0 j (ground arith)) at white)
      ];
      before = λ j c. g.before j (omega arith) ∙ update-apart mem p 0 j (λ e. omega arith);
      behind = λ j c. g.behind j c ∙ update-apart mem p 0 j (λ e. omega arith);
      stopped =
          subst (λ x. (x ≡ 0) ⊎ (is_white x ≡ false)) (update-apart mem p 0 b (λ e. omega arith))
            g.stopped;
    }

pub gobble-Gobbled :
    (fuel : ℕ) (mem : Memory) (p n : ℕ)
    → mem (p + n) ≡ 0
    → n < fuel
    → (mem' : Memory) × (b : ℕ) × (gobble fuel mem p ≡ some (mem', b)) × Gobbled mem p n mem' b
unfolding gobble
gobble-Gobbled zero mem p n ends enough = absurd (omega arith)
gobble-Gobbled (suc fuel) mem p n ends enough = elim (Bool-cases (mem p != 0 && is_white (mem p))) [
  | inr no_blank ↦ (mem, p, rw no_blank refl, Gobbled-none mem p n no_blank)
  | inl blank ↦
      let rest : n ≢ 0 = not_at_end mem p n (ground arith) ends in
      let at : suc p + (n - 1) ≡ p + n = omega arith in
      let ends' : update mem p 0 (suc p + (n - 1)) ≡ 0 =
        update-apart mem p 0 (suc p + (n - 1)) (λ e. omega arith) ∙ rw at ends in
      let (mem', b, got, g) =
        gobble-Gobbled fuel (update mem p 0) (suc p) (n - 1) ends' (omega arith) in
      let sum : suc (n - 1) ≡ n = omega arith in
      (
        mem',
        b,
        rw blank got,
        subst (λ n. Gobbled mem p n mem' b) sum (Gobbled-one mem p (n - 1) mem' b (ground arith) g),
      )
]

-- What `scan` finds: the next NUL or blank.
pub record Scanned (mem : Memory) (p n e : ℕ) : Type 0 where
  pub from : p ≤ e
  pub within : e ≤ p + n
  pub inside : (j : ℕ) → p ≤ j → j < e → (mem j ≢ 0) × (is_white (mem j) ≡ false)
  pub stopped : (mem e ≡ 0) ⊎ (is_white (mem e) ≡ true)

pub scan-Scanned :
    (fuel : ℕ) (mem : Memory) (p n : ℕ)
    → mem (p + n) ≡ 0
    → n < fuel
    → (e : ℕ) × (scan fuel mem p ≡ some e) × Scanned mem p n e
unfolding scan
scan-Scanned zero mem p n ends enough = absurd (omega arith)
scan-Scanned (suc fuel) mem p n ends enough =
    elim (Bool-cases (mem p != 0 && not (is_white (mem p)))) [
      | inr stop ↦ (
        p,
        rw stop refl,
        record {
          from = omega arith;
          within = omega arith;
          inside = λ j a b. absurd (omega arith);
          stopped = elim (Bool-cases (mem p == 0)) [
            | inl z ↦ inl (ground arith)
            | inr z ↦ inr (ground arith)
          ];
        },
      )
      | inl char ↦
          let rest : n ≢ 0 = not_at_end mem p n (ground arith) ends in
          let at : suc p + (n - 1) ≡ p + n = omega arith in
          let (e, got, s) = scan-Scanned fuel mem (suc p) (n - 1) (rw at ends) (omega arith) in
          let from : suc p ≤ e = s.from in
          let within : e ≤ suc p + (n - 1) = s.within in
          (
            e,
            rw char got,
            record {
              from = omega arith;
              within = omega arith;
              inside = λ j a b. elim (Bool-cases (p == j)) [
                | inl y ↦
                    let here : p ≡ j = ground arith in rw (← here) (λ z. ground arith, ground arith)
                | inr y ↦ s.inside j (ground arith) b
              ];
              stopped = s.stopped;
            },
          )
    ]
