-- ===== src/Monitor/Words.antt =====
-- The words that `runcmd` of kern/monitor.c has found so far, at each round of its outer loop.
use mathlib.Core.Path.{subst}
use cs3510_operating_systems.Common.{
  ℕ, inr, inl, true, false, same, Bool-cases, List, arith, ltb, ◌+◌, ◌-◌, ◌≤◌, ◌<◌, ◌≡◌, ◌≢◌, ◌∙◌,
  ◌==◌, ◌∷◌, ◌⊎◌, [], sym, has,
}
use cs3510_operating_systems.Str.Block.{Memory}
use cs3510_operating_systems.Monitor.Blanks.{Gobbled, Scanned}
use cs3510_operating_systems.Monitor.Command.{is_white}

-- A word of the line that begins at `lo` starts at `a`.
abbrev pub IsStart : Memory → ℕ → ℕ → Type 0
IsStart line lo a =
    (lo ≤ a)
    × (line a ≢ 0)
    × (is_white (line a) ≡ false)
    × ((a ≡ lo) ⊎ (is_white (line (a - 1)) ≡ true))

-- From `a` on, `mem` has a word of the line others a string of its own.
abbrev pub IsArgument : Memory → Memory → ℕ → Type 0
IsArgument line mem a =
    (len : ℕ) × (0 < len)
    × ((i : ℕ)
        → i < len
        → (mem (a + i) ≡ line (a + i)) × (line (a + i) ≢ 0) × (is_white (line (a + i)) ≡ false))
    × (mem (a + len) ≡ 0)

-- Each of a list; and a list that descends, from below `p`.
abbrev pub All : (ℕ → Type 0) → List ℕ → Type 0
All P [] = Unit {0}
All P (a ∷ others) = P a × All P others

abbrev pub Descending : ℕ → List ℕ → Type 0
Descending p [] = Unit {0}
Descending p (a ∷ others) = (a < p) × Descending a others

pub All-map :
    (P Q : ℕ → Type 0) (others : List ℕ) → ((a : ℕ) → P a → Q a) → All P others → All Q others
All-map P Q [] f h = tt
All-map P Q (a ∷ others) f (here, further) = (f a here, All-map P Q others f further)

pub Descending-up : (others : List ℕ) (p q : ℕ) → p ≤ q → Descending p others → Descending q others
Descending-up [] p q up h = tt
Descending-up (a ∷ others) p q up (below, h) = (omega arith, h)

-- An argument that the next blank ends, which is still at `p`.
abbrev pub IsOpen : Memory → Memory → ℕ → ℕ → Type 0
IsOpen line mem p a =
    (len : ℕ) × (0 < len)
    × ((i : ℕ)
        → i < len
        → (mem (a + i) ≡ line (a + i)) × (line (a + i) ≢ 0) × (is_white (line (a + i)) ≡ false))
    × (a + len ≤ p)
    × ((mem (a + len) ≡ 0) ⊎ ((a + len ≡ p) × (is_white (mem p) ≡ true)))

not_blank :
    (mem : Memory) (p : ℕ) → (mem p ≡ 0) ⊎ (is_white (mem p) ≡ false) → is_white (mem p) ≡ true → ⊥
not_blank mem p (inl z) white = ground arith
not_blank mem p (inr n) white = ground arith

-- `gobble` closes it.
pub IsOpen-closed :
    (line mem : Memory) (p n : ℕ) (mem' : Memory) (b a : ℕ)
    → Gobbled mem p n mem' b
    → IsOpen line mem p a
    → (len : ℕ) × (0 < len)
      × ((i : ℕ)
          → i < len
          → (mem' (a + i) ≡ line (a + i)) × (line (a + i) ≢ 0) × (is_white (line (a + i)) ≡ false))
      × (a + len ≤ p)
      × (mem' (a + len) ≡ 0)
IsOpen-closed line mem p n mem' b a g (len, some_char, chars, small, end) =
    let from : p ≤ b = g.from in
    (
      len,
      some_char,
      λ i c.
          let (same, nonzero, black) = chars i c in
          (g.before (a + i) (omega arith) ∙ same, nonzero, black),
      small,
      elim end [
        | inl z ↦ elim (Bool-cases (ltb (a + len) p)) [
          | inl inside ↦ g.before (a + len) (ground arith) ∙ z
          | inr at ↦ elim (Bool-cases (ltb (a + len) b)) [
            | inl blank ↦
                let (clear, white) = g.cleared (a + len) (ground arith) (ground arith) in clear
            | inr at_b ↦ g.behind (a + len) (ground arith) ∙ z
          ]
        ]
        | inr (at, white) ↦ elim (Bool-cases (p == b)) [
          | inl e ↦
              let here : p ≡ b = ground arith in
              absurd (
                not_blank mem p
                  (subst (λ q. (mem q ≡ 0) ⊎ (is_white (mem q) ≡ false)) (sym here) g.stopped)
                  white)
          | inr ne ↦ let (clear, white') = g.cleared p (omega arith) (ground arith) in rw at clear
        ]
      ],
    )

-- The outer loop at `p`, of a line from `lo` on.
pub record Reached (line : Memory) (lo p : ℕ) (mem : Memory) (argv : List ℕ) : Type 0 where
  pub from : lo ≤ p
  pub behind : (j : ℕ) → p ≤ j → mem j ≡ line j
  pub args : All (IsOpen line mem p) argv
  pub are_starts : All (IsStart line lo) argv
  pub descends : Descending p argv
  pub all_starts : (j : ℕ) → j < p → IsStart line lo j → has j argv ≡ true
  pub edge : (p ≡ lo) ⊎ ((mem p ≡ 0) ⊎ (is_white (mem p) ≡ true))

-- No word starts among the blanks.
pub start_before :
    (line mem : Memory) (lo p left : ℕ) (argv : List ℕ) (mem' : Memory) (b j : ℕ)
    → Reached line lo p mem argv
    → Gobbled mem p left mem' b
    → j < b
    → IsStart line lo j
    → has j argv ≡ true
start_before line mem lo p left argv mem' b j r g c st =
    let (from, nonzero, black, edge) = st in
    elim (Bool-cases (ltb j p)) [
      | inl y ↦ r.all_starts j (ground arith) st
      | inr y ↦
          let (clear, white) = g.cleared j (ground arith) c in
          let same_j : mem j ≡ line j = r.behind j (ground arith) in absurd (ground arith)
    ]

-- The word that is behind the blanks.
module _ (line mem : Memory) (lo p left : ℕ) (argv : List ℕ) (mem' : Memory) (b e n : ℕ)
    (r : Reached line lo p mem argv) (g : Gobbled mem p left mem' b) (char : mem' b ≢ 0)
    (s : Scanned mem' b n e) where
  from_p : p ≤ b
  from_p = g.from

  same_line : (j : ℕ) → b ≤ j → mem' j ≡ line j
  same_line j c = g.behind j c ∙ r.behind j (omega (arith, from_p))

  black_here : is_white (mem' b) ≡ false
  black_here = elim g.stopped [
    | inl z ↦ absurd (char (g.behind b (omega arith) ∙ z))
    | inr black ↦ subst (λ x. is_white x ≡ false) (sym (g.behind b (omega arith))) black
  ]

  pub some_char : b < e
  some_char = elim (Bool-cases (ltb b e)) [
    | inl y ↦ ground arith
    | inr no_char ↦
        let at : e ≡ b = let from : b ≤ e = s.from in ground arith in
        absurd (elim (subst (λ q. (mem' q ≡ 0) ⊎ (is_white (mem' q) ≡ true)) at s.stopped) [
          | inl z ↦ char z
          | inr white ↦ ground (arith, black_here)
        ])
  ]

  not_at_edge : p ≡ b → (mem p ≡ 0) ⊎ (is_white (mem p) ≡ true) → ⊥
  not_at_edge here (inl z) = char (g.behind b (omega arith) ∙ rw here at z)
  not_at_edge here (inr white) =
      let same_p : mem' p ≡ mem p = g.behind p (omega arith) in
      let black : is_white (mem' p) ≡ false = rw (← here) at black_here in ground arith

  edge_here : (b ≡ lo) ⊎ (is_white (line (b - 1)) ≡ true)
  edge_here = elim (Bool-cases (p == b)) [
    | inl y ↦
        let here : p ≡ b = ground arith in
        elim r.edge [ inl at ↦ inl (sym here ∙ at) | inr stop ↦ absurd (not_at_edge here stop) ]
    | inr apart ↦
        let below : p < b = ground (arith, from_p) in
        let (clear, white) = g.cleared (b - 1) (omega arith) (omega arith) in
        inr (subst (λ x. is_white x ≡ true) (r.behind (b - 1) (omega arith)) white)
  ]

  IsStart-here : IsStart line lo b
  IsStart-here = (
    omega (arith, r.from, from_p),
    λ z. char (same_line b (omega arith) ∙ z),
    subst (λ x. is_white x ≡ false) (same_line b (omega arith)) black_here,
    edge_here,
  )

  IsOpen-here : IsOpen line mem' e b
  IsOpen-here =
      let sum : b + (e - b) ≡ e = omega (arith, some_char) in
      (
        e - b,
        omega (arith, some_char),
        λ i c.
            let (nonzero, black) = s.inside (b + i) (omega arith) (omega arith) in
            let same_i : mem' (b + i) ≡ line (b + i) = same_line (b + i) (omega arith) in
            (same_i, λ z. nonzero (same_i ∙ z), subst (λ x. is_white x ≡ false) same_i black),
        omega arith,
        elim s.stopped [ inl z ↦ inl (rw sum z) | inr white ↦ inr (sum, white) ],
      )

  still-IsOpen : (a : ℕ) → IsOpen line mem p a → IsOpen line mem' e a
  still-IsOpen a open_a =
      let (len, positive, chars, small, end) = IsOpen-closed line mem p left mem' b a g open_a in
      (len, positive, chars, omega (arith, from_p, some_char), inl end)

  start_listed : (j : ℕ) → j < e → IsStart line lo j → has j (b ∷ argv) ≡ true
  start_listed j c st =
      let (from, nonzero, black, edge) = st in
      elim (Bool-cases (ltb j b)) [
        | inl y ↦
            let listed = start_before line mem lo p left argv mem' b j r g (ground arith) st in
            ground arith
        | inr y ↦ elim (Bool-cases (j == b)) [
          | inl e' ↦ ground arith
          | inr e' ↦
              let behind : b < j = ground arith in
              let (nonzero', black') = s.inside (j - 1) (omega arith) (omega arith) in
              let same_j : mem' (j - 1) ≡ line (j - 1) = same_line (j - 1) (omega arith) in
              absurd
                (elim edge [ inl at ↦ omega (arith, r.from, from_p) | inr white ↦ ground arith ])
        ]
      ]

  pub Reached-next : Reached line lo e mem' (b ∷ argv)
  Reached-next = record {
    from = omega (arith, r.from, from_p, some_char);
    behind = λ j c. same_line j (omega (arith, some_char));
    args = (IsOpen-here, All-map (IsOpen line mem p) (IsOpen line mem' e) argv still-IsOpen r.args);
    are_starts = (IsStart-here, r.are_starts);
    descends = (some_char, Descending-up argv p b from_p r.descends);
    all_starts = start_listed;
    edge = inr s.stopped;
  }
