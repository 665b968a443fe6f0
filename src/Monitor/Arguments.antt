-- ===== src/Monitor/Arguments.antt =====
-- What `runcmd` of kern/monitor.c makes of a command line.
use cs3510_operating_systems.Common.{
  ℕ, inr, inl, true, Bool-cases, List, arith, ltb, ◌+◌, ◌-◌, ◌≤◌, ◌<◌, ◌≡◌, ◌≢◌, ◌∙◌, ◌==◌, ◌∷◌, [],
  sym, has, length, zero, suc, refl,
}
use cs3510_operating_systems.Str.Block.{Memory}
use cs3510_operating_systems.Str.Text.Length.{IsString}
use cs3510_operating_systems.Monitor.Blanks.{Gobbled, gobble-Gobbled, scan-Scanned}
use cs3510_operating_systems.Monitor.Command.{stuck, too_many, Parse, split, parse}
use cs3510_operating_systems.Monitor.Words.{
  IsStart, IsArgument, IsOpen, All, All-map, Descending, Descending-up, IsOpen-closed, Reached,
  start_before, some_char, Reached-next,
}
use cs3510_operating_systems.Monitor.Blanks.{scan-Scanned}

-- What `parse` leaves of a line of `n` characters from `lo` on: every start of a word is an argument
-- and every argument is one, the latest first; or there are more words than fit.
abbrev pub IsParse : Memory → ℕ → ℕ → Parse → Type 0
IsParse line lo n (split mem argv) =
    (length argv ≤ 15)
    × All (IsArgument line mem) argv
    × All (IsStart line lo) argv
    × Descending (lo + n) argv
    × ((j : ℕ) → j < lo + n → IsStart line lo j → has j argv ≡ true)
IsParse line lo n (too_many mem) =
    (starts : List ℕ) × (length starts ≡ 16)
    × All (IsStart line lo) starts
    × Descending (lo + n) starts
IsParse line lo n stuck = ⊥

module _ (line : Memory) (lo n : ℕ) (fuel : ℕ) (ends : line (lo + n) ≡ 0)
    (inside : (j : ℕ) → lo ≤ j → j < lo + n → line j ≢ 0) (enough : n < fuel) where
  -- The end of the line.
  split-IsParse :
      (mem : Memory) (p left : ℕ) (argv : List ℕ) (mem' : Memory) (b : ℕ)
      → p + left ≡ lo + n
      → Reached line lo p mem argv
      → Gobbled mem p left mem' b
      → length argv ≤ 15
      → mem' b ≡ 0
      → IsParse line lo n (split mem' argv)
  split-IsParse mem p left argv mem' b sum r g few at_end =
      let from : p ≤ b = g.from in
      let within : b ≤ p + left = g.within in
      let nul : line b ≡ 0 = sym (g.behind b (omega arith) ∙ r.behind b from) ∙ at_end in
      let at_b : b ≡ lo + n = elim (Bool-cases (ltb b (lo + n))) [
        | inl y ↦ absurd (inside b (omega (arith, r.from)) (ground arith) nul)
        | inr y ↦ ground arith
      ] in
      (
        few,
        All-map (IsOpen line mem p) (IsArgument line mem') argv
            (λ a open_a.
              let (len, positive, chars, small, end) =
                IsOpen-closed line mem p left mem' b a g open_a in
              (len, positive, chars, end))
            r.args,
        r.are_starts,
        Descending-up argv p (lo + n) (omega arith) r.descends,
        λ j c st. start_before line mem lo p left argv mem' b j r g (omega arith) st,
      )

  parse-IsParse :
      (rounds : ℕ) (mem : Memory) (p left : ℕ) (argv : List ℕ)
      → p + left ≡ lo + n
      → left < rounds
      → length argv ≤ 15
      → Reached line lo p mem argv
      → IsParse line lo n (parse fuel rounds mem p argv)
  unfolding parse
  parse-IsParse zero mem p left argv sum more few r = absurd (omega arith)
  parse-IsParse (suc rounds) mem p left argv sum more few r =
      let ends' : mem (p + left) ≡ 0 = r.behind (p + left) (omega arith) ∙ rw sum ends in
      let (mem', b, got, g) = gobble-Gobbled fuel mem p left ends' (omega (arith, r.from)) in
      let from : p ≤ b = g.from in
      let within : b ≤ p + left = g.within in
      elim (Bool-cases (mem' b == 0)) [
        | inl z ↦
            rw (parse, got, z) (split-IsParse mem p left argv mem' b sum r g few (ground arith))
        | inr char ↦
            let m : ℕ = p + left - b in
            let end_m : b + m ≡ p + left = omega arith in
            let ends'' : mem' (b + m) ≡ 0 = g.behind (b + m) (omega arith) ∙ rw end_m ends' in
            let nonzero : mem' b ≢ 0 = λ z. ground arith in
            elim (Bool-cases (length argv == 15)) [
              | inl full ↦
                  let (e, got', s) = scan-Scanned fuel mem' b m ends'' (omega (arith, r.from)) in
                  let next = Reached-next line mem lo p left argv mem' b e m r g nonzero s in
                  let further : b < e =
                    some_char line mem lo p left argv mem' b e m r g nonzero s in
                  let within' : e ≤ b + m = s.within in
                  let (below, descends) = next.descends in
                  rw (parse, got, char, full)
                    (b ∷ argv, ground arith, next.are_starts, (omega arith, descends))
              | inr room ↦
                  let (e, got', s) = scan-Scanned fuel mem' b m ends'' (omega (arith, r.from)) in
                  let next = Reached-next line mem lo p left argv mem' b e m r g nonzero s in
                  let further : b < e =
                    some_char line mem lo p left argv mem' b e m r g nonzero s in
                  let within' : e ≤ b + m = s.within in
                  rw (parse, got, char, room, got')
                    (parse-IsParse rounds mem' e (p + left - e) (b ∷ argv) (omega arith)
                      (omega arith) (ground arith) next)
            ]
      ]

-- `runcmd` cuts a line of `n` characters, with fuel for one round more than that, into the words
-- that blanks separate: each argument is a word as a string of its own, no word is left out, and
-- there are at most 15; otherwise it finds 16 words and says that there are too many.
pub parse_lem :
    (line : Memory) (lo n fuel : ℕ)
    → IsString line lo n
    → n < fuel
    → IsParse line lo n (parse fuel fuel line lo [])
parse_lem line lo n fuel string enough =
    let inside : (j : ℕ) → lo ≤ j → j < lo + n → line j ≢ 0 = λ j a b.
      let at : lo + (j - lo) ≡ j = omega arith in rw at at (string.inside (j - lo) (omega arith)) in
    parse-IsParse line lo n fuel string.ends inside enough fuel line lo n [] refl enough
      (omega arith)
      (record {
        from = omega arith;
        behind = λ j a. refl;
        args = tt;
        are_starts = tt;
        descends = tt;
        all_starts = λ j below st. let (from, nonzero, black, edge) = st in absurd (omega arith);
        edge = inl refl;
      })
