-- ===== src/Str/Text/Length.antt =====
-- The routines on strings against the string that memory holds.
use cs3510_operating_systems.Common.{
  arith, zero, some, none, min, inr, Bool-cases, ℕ, suc, ne→==, false, ap, inl, ◌+◌, ◌≤◌, ◌<◌, ◌≡◌,
  ◌≢◌, ◌∙◌, ◌==◌, if◌then◌else◌,
}
use cs3510_operating_systems.Str.Block.{Memory}
use cs3510_operating_systems.Str.Text.{strlen_loop, strlen, strnlen, strchr, strfind}

-- The string at s has n characters: a NUL comes after them, and not before.
pub record IsString (mem : Memory) (s n : ℕ) : Type 0 where
  pub ends : mem (s + n) ≡ 0
  pub inside : (i : ℕ) → i < n → mem (s + i) ≢ 0

pub IsString-tail : (mem : Memory) (s n : ℕ) → IsString mem s (suc n) → IsString mem (suc s) n
IsString-tail mem s n h =
    let at : (i : ℕ) → suc s + i ≡ s + suc i = λ i. omega arith in
    record {
      ends = rw (at n) h.ends;
      inside = λ i below. rw (at i) (h.inside (suc i) (omega arith));
    }

pub IsString-first : (mem : Memory) (s n : ℕ) → IsString mem s (suc n) → (mem s == 0) ≡ false
IsString-first mem s n h =
    let at : s + 0 ≡ s = omega arith in ne→== (mem s) 0 (rw at at (h.inside 0 (omega arith)))

pub IsString-empty : (mem : Memory) (s : ℕ) → IsString mem s 0 → mem s ≡ 0
IsString-empty mem s h = let at : s + 0 ≡ s = omega arith in rw at at h.ends

strlen_loop_lem :
    (n : ℕ) (mem : Memory) (fuel s m : ℕ)
    → IsString mem s n
    → n < fuel
    → strlen_loop mem fuel s m ≡ some (m + n)
unfolding strlen_loop
strlen_loop_lem n mem zero s m h enough = absurd (omega arith)
strlen_loop_lem zero mem (suc fuel) s m h enough =
    let sum : m + 0 ≡ m = omega arith in rw (IsString-empty mem s h, sum)
strlen_loop_lem (suc n) mem (suc fuel) s m h enough =
    let sum : m + suc n ≡ suc m + n = omega arith in
    rw (IsString-first mem s n h, sum)
      (strlen_loop_lem n mem fuel (suc s) (suc m) (IsString-tail mem s n h) (omega arith))

-- `strlen` returns the length of the string, with fuel for one round more than that.
pub strlen_lem :
    (mem : Memory) (fuel s n : ℕ) → IsString mem s n → n < fuel → strlen mem fuel s ≡ some n
unfolding strlen
strlen_lem mem fuel s n h enough = strlen_loop_lem n mem fuel s 0 h enough ∙ ap some (omega arith)

-- `strnlen` returns the length of the string or the bound, whichever is less.
pub strnlen_lem :
    (n : ℕ) (mem : Memory) (s size : ℕ) → IsString mem s n → strnlen mem s size ≡ min n size
unfolding strnlen
strnlen_lem n mem s zero h = omega arith
strnlen_lem zero mem s (suc size) h = rw (IsString-empty mem s h) (omega arith)
strnlen_lem (suc n) mem s (suc size) h =
    rw (IsString-first mem s n h)
      (omega (arith, strnlen_lem n mem (suc s) size (IsString-tail mem s n h)))

-- `strchr` and `strfind` agree on a string: where the byte is in it, both return its first place;
-- otherwise `strchr` returns NULL and `strfind` the end.
pub strchr-strfind :
    (n : ℕ) (mem : Memory) (fuel s c : ℕ)
    → IsString mem s n
    → n < fuel
    → (r : ℕ) × (strfind mem fuel s c ≡ some r)
      × (s ≤ r)
      × (r ≤ s + n)
      × ((a : ℕ) → s ≤ a → a < r → mem a ≢ c)
      × (strchr mem fuel s c ≡ some (if r == s + n then none else some r))
      × (r < s + n → mem r ≡ c)
unfolding strchr strfind
strchr-strfind n mem zero s c h enough = absurd (omega arith)
strchr-strfind zero mem (suc fuel) s c h enough =
    let e : mem s ≡ 0 = IsString-empty mem s h in
    (
      s,
      rw e,
      omega arith,
      omega arith,
      (λ a l b. absurd (omega arith)),
      rw e (ground arith),
      λ l. absurd (omega arith),
    )
strchr-strfind (suc n) mem (suc fuel) s c h enough =
    let more_left : (mem s == 0) ≡ false = IsString-first mem s n h in
    let sum : s + suc n ≡ suc s + n = omega arith in
    let (r, found, low, high, before, pointer, hit) =
      strchr-strfind n mem fuel (suc s) c (IsString-tail mem s n h) (omega arith) in
    elim (Bool-cases (mem s == c)) [
      | inl here ↦ (
        s,
        rw (more_left, here),
        omega arith,
        omega arith,
        (λ a l b. absurd (omega arith)),
        rw (more_left, here) (ground arith),
        λ l. ground arith,
      )
      | inr other ↦ (
        r,
        rw (more_left, other) found,
        omega arith,
        omega arith,
        (λ a l b. elim (Bool-cases (s == a)) [
          | inl same_place ↦ ground arith
          | inr later ↦ before a (ground arith) b
        ]),
        rw (more_left, other, sum) pointer,
        λ l. hit (omega arith),
      )
    ]
