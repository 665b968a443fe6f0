-- ===== src/Console/Queue.antt =====
-- The input buffer as a queue.
use cs3510_operating_systems.Common.{
  ap, List, ne→==, arith, update, refl, ℕ, false, suc, ◌+◌, ◌%◌, ◌<◌, ◌≡◌, ◌==◌, ◌++◌, ◌∷◌, [],
  length, length-append, true, ◌!=◌,
}
use cs3510_operating_systems.Console.{Cons, advance, consbufsize, cons_put, cons_take}

-- From r on the buffer holds these characters, and the next one goes to w.
abbrev pub Pending : (ℕ → ℕ) → ℕ → ℕ → List ℕ → Type 0
Pending buf r w [] = r ≡ w
Pending buf r w (c ∷ cs) = (buf r ≡ c) × Pending buf (advance r) w cs

-- The buffer holds the queue `cs`, which leaves one cell free.
pub record Holds (s : Cons) (cs : List ℕ) : Type 0 where
  pub pending : Pending s.buf s.rpos s.wpos cs
  pub start : s.rpos < consbufsize
  pub room : length cs < consbufsize

Pending-place :
    (buf : ℕ → ℕ) (r w : ℕ) (cs : List ℕ) → r < 512 → Pending buf r w cs → w ≡ (r + length cs) % 512
Pending-place buf r w [] inside p = omega (arith, p)
Pending-place buf r w (c ∷ cs) inside p =
    ground (arith, Pending-place buf (advance r) w cs (ground arith) p.1)

Pending-put :
    (buf : ℕ → ℕ) (r w c : ℕ) (cs : List ℕ)
    → r < 512
    → length cs < 511
    → w ≡ (r + length cs) % 512
    → Pending buf r w cs
    → Pending (update buf w c) r (advance w) (cs ++ (c ∷ []))
Pending-put buf r w c [] inside fits place p = (rw p (ground arith), ap advance p)
Pending-put buf r w c (x ∷ cs) inside fits place p =
    let apart : (w == r) ≡ false = ne→== w r (λ e. omega arith) in
    let further : w ≡ (advance r + length cs) % 512 = ground arith in
    (rw apart p.0, Pending-put buf (advance r) w c cs (ground arith) (omega arith) further p.1)

-- The input buffer is a queue: a byte other than NUL goes to its end, while it holds fewer than 511,
-- a NUL changes nothing, and what is taken is the first character, or 0 where there is none.
pub cons_queue :
    (s : Cons) (cs : List ℕ)
    → Holds s cs
    → ((c : ℕ) → 0 < c → c < 256 → length cs < 511 → Holds (cons_put c s) (cs ++ (c ∷ [])))
      × (cons_put 0 s ≡ s)
      × (cs ≡ [] → cons_take s ≡ (0, s))
      × ((c : ℕ) (rest : List ℕ)
          → cs ≡ c ∷ rest
          → (s' : Cons) × (cons_take s ≡ (c, s')) × Holds s' rest)
unfolding cons_put cons_take
cons_queue s cs h =
    let place : s.wpos ≡ (s.rpos + length cs) % 512 =
      Pending-place s.buf s.rpos s.wpos cs h.start h.pending in
    (
      (λ c some_char byte fits.
          let char : (c == 0) ≡ false = ne→== c 0 (λ e. omega arith) in
          let whole : c % 256 ≡ c = omega arith in
          rw (char, whole)
            (record {
              pending = Pending-put s.buf s.rpos s.wpos c cs h.start fits place h.pending;
              start = h.start;
              room = omega (arith, length-append cs (c ∷ []));
            })),
      refl,
      (λ e.
          let p : Pending s.buf s.rpos s.wpos [] =
            coe 0 1 (i. Pending s.buf s.rpos s.wpos (e i)) h.pending in
          ground (arith, p)),
      λ c rest e.
          let p : Pending s.buf s.rpos s.wpos (c ∷ rest) =
            coe 0 1 (i. Pending s.buf s.rpos s.wpos (e i)) h.pending in
          let shorter : length cs ≡ suc (length rest) = ap length e in
          let apart : (s.rpos != s.wpos) ≡ true = ground (arith, place, shorter) in
          (
            record s { rpos = advance s.rpos },
            rw (apart, p.0) refl,
            record {
              pending = p.1;
              start = ground (arith, h.start);
              room = omega (arith, h.room, shorter);
            },
          ),
    )
