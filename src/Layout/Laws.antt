-- ===== src/Layout/Laws.antt =====
-- What the address and entry macros compute.
use cs3510_operating_systems.Common.{
  ℕ, zero, suc, ◌+◌, ◌*◌, ◌/◌, ◌%◌, ◌≤◌, ◌<◌, ◌≡◌, refl, ◌∙◌, ap, true, bit_or, arith, max,
  bit_or-div_two, bit_or-mod_two, bit_or-zero, bit_and-one, bit_or_step, ◌^◌,
}
use cs3510_operating_systems.Layout.{
  pdx, ptx, pgoff, pgaddr, pte_addr, rounddown, roundup, make_pte, flag, pte_p,
}

-- `a >> k`, one digit at a time.
abbrev shifted : ℕ → ℕ → ℕ
shifted zero a = a
shifted (suc k) a = shifted k (a / 2)

shifted-bit_or : (k a b : ℕ) → shifted k (bit_or a b) ≡ bit_or (shifted k a) (shifted k b)
shifted-bit_or zero a b = refl
shifted-bit_or (suc k) a b = ap (shifted k) (bit_or-div_two a b) ∙ shifted-bit_or k (a / 2) (b / 2)

shifted-bit_or-mod :
    (k a b : ℕ) → shifted k (bit_or a b) % 2 ≡ max (shifted k a % 2) (shifted k b % 2)
shifted-bit_or-mod k a b =
    ap (λ n. n % 2) (shifted-bit_or k a b) ∙ bit_or-mod_two (shifted k a) (shifted k b)

shifted_twelve : (a : ℕ) → shifted 12 a ≡ a / 4096
shifted_twelve a = omega arith

pub bit_or-div_page : (a b : ℕ) → bit_or a b / 4096 ≡ bit_or (a / 4096) (b / 4096)
bit_or-div_page a b =
    let x : ℕ = bit_or a b in
    omega (arith, shifted_twelve x)
    ∙ shifted-bit_or 12 a b
    ∙ ap (λ n. bit_or n (shifted 12 b)) (shifted_twelve a)
    ∙ ap (bit_or (a / 4096)) (shifted_twelve b)

-- `a << k`, one digit at a time.
abbrev pub scaled : ℕ → ℕ → ℕ
scaled zero a = a
scaled (suc k) a = 2 * scaled k a

-- `|` joins a number whose low digits are free with one that fits there.
pub bit_or-scaled : (k h o : ℕ) → o < scaled k 1 → bit_or (scaled k h) o ≡ scaled k h + o
bit_or-scaled zero h o b = let e : o ≡ 0 = omega arith in rw e (omega (arith, bit_or-zero h))
bit_or-scaled (suc k) h o b =
    let s : ℕ = scaled k h in
    let e : 2 * s / 2 ≡ s = omega arith in
    let step : bit_or (2 * s) o ≡ bit_or s (o / 2) * 2 + max (2 * s % 2) (o % 2) =
      rw e at (bit_or_step (2 * s) o) in
    omega (arith, step, bit_or-scaled k h (o / 2) (omega arith))

-- A page number and an offset make up an address.
pub bit_or_page : (h o : ℕ) → o < 4096 → bit_or (h * 4096) o ≡ h * 4096 + o
bit_or_page h o b =
    let e : scaled 12 h ≡ h * 4096 = omega arith in rw e at (bit_or-scaled 12 h o (omega arith))

-- A generation and an index make up an environment id.
pub bit_or_index : (h o : ℕ) → o < 1024 → bit_or (h * 1024) o ≡ h * 1024 + o
bit_or_index h o b =
    let e : scaled 10 h ≡ h * 1024 = omega arith in rw e at (bit_or-scaled 10 h o (omega arith))

pgaddr-eq-sum :
    (d t o : ℕ) → d < 1024 → t < 1024 → o < 4096 → pgaddr d t o ≡ d * 4194304 + t * 4096 + o
unfolding pgaddr
pgaddr-eq-sum d t o hd ht ho =
    let e₁ : d * 2 ^ 22 % 2 ^ 32 ≡ d * 4194304 = omega arith in
    let e₂ : t * 2 ^ 12 % 2 ^ 32 ≡ t * 4096 = omega arith in
    let e₃ : scaled 22 d ≡ d * 4194304 = omega arith in
    let e₄ : bit_or (d * 4194304) (t * 4096) ≡ (d * 1024 + t) * 4096 =
      rw e₃ at (bit_or-scaled 22 d (t * 4096) (omega arith)) ∙ omega arith in
    rw (e₁, e₂, e₄) (omega (arith, bit_or_page (d * 1024 + t) o ho))

-- `PGADDR` puts an address together from the three parts that `PDX`, `PTX` and `PGOFF` give back,
-- for two indices below 1024 and an offset below 4096.
pub pgaddr_parts :
    (d t o : ℕ)
    → d < 1024
    → t < 1024
    → o < 4096
    → (pdx (pgaddr d t o) ≡ d) × (ptx (pgaddr d t o) ≡ t) × (pgoff (pgaddr d t o) ≡ o)
unfolding pdx ptx pgoff
pgaddr_parts d t o hd ht ho =
    rw (pgaddr-eq-sum d t o hd ht ho) (omega arith, omega arith, omega arith)

-- The two indices and the offset of a 32-bit address make up that address again.
pub pgaddr_of_parts : (va : ℕ) → va < 4294967296 → pgaddr (pdx va) (ptx va) (pgoff va) ≡ va
unfolding pdx ptx pgoff
pgaddr_of_parts va h = omega (
  arith,
  pgaddr-eq-sum (va / 2 ^ 22 % 2 ^ 10) (va / 2 ^ 12 % 2 ^ 10) (va % 2 ^ 12) (omega arith)
      (omega arith) (omega arith),
)

-- `ROUNDDOWN` and `ROUNDUP` to pages: the nearest page boundary below, and above unless the sum
-- leaves the 32 bits.
pub round_page :
    (a : ℕ)
    → a + 4095 < 4294967296
    → (rounddown a 4096 ≤ a)
      × (a < rounddown a 4096 + 4096)
      × (rounddown a 4096 % 4096 ≡ 0)
      × (a ≤ roundup a 4096)
      × (roundup a 4096 < a + 4096)
      × (roundup a 4096 % 4096 ≡ 0)
unfolding rounddown roundup
round_page a h = omega arith

-- The page number that is written into an entry is read back from it, if the permission bits
-- leave the upper twenty digits alone.
pub pte_addr-make_pte : (n perm : ℕ) → perm < 4096 → pte_addr (make_pte (n * 4096) perm) ≡ n * 4096
unfolding pte_addr make_pte
pte_addr-make_pte n perm h =
    let e : make_pte (n * 4096) perm / 4096 ≡ n =
      unfold make_pte in
      bit_or-div_page (bit_or (n * 4096) perm) 1
      ∙ rw (bit_or_page n perm h) (rw (bit_or-zero ((n * 4096 + perm) / 4096)) (omega arith)) in
    omega (arith, e)

pub make_pte-present : (pa perm : ℕ) → flag (make_pte pa perm) pte_p ≡ true
unfolding make_pte
make_pte-present pa perm =
    ground (arith, bit_and-one (bit_or (bit_or pa perm) 1), bit_or-mod_two (bit_or pa perm) 1)
