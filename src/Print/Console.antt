-- ===== src/Print/Console.antt =====
-- `vcprintf` of lib/printf.c: the characters that a program prints are collected in a buffer of 256
-- bytes and handed to `sys_cputs` in pieces.
use mathlib.Core.Path.{subst}
use mathlib.Core.List.{append-nil, append_assoc}
use cs3510_operating_systems.Common.{
  ℕ, some, false, arith, refl, inl, Bool-cases, List, ne→==, inr, suc, update, zero, Option, none,
  ◌+◌, ◌%◌, ◌≤◌, ◌<◌, ◌≡◌, ◌==◌, ◌++◌, ◌∷◌, if◌then◌else◌, [], ==_refl, sym, length-append, length,
  ap, ◌∙◌,
}
use cs3510_operating_systems.Str.Block.{Memory}
use cs3510_operating_systems.Print.Ends.{IsFormat, vprintfmt_ends}
use cs3510_operating_systems.Print.Loop.{vprintfmt}

pub record Printbuf : Type 0 where
  pub idx : ℕ
  pub cnt : ℕ
  pub buf : ℕ → ℕ

-- The bytes that a call of `sys_cputs` is given, and the calls so far, the latest first.
abbrev pub first_bytes : (ℕ → ℕ) → ℕ → List ℕ
first_bytes buf zero = []
first_bytes buf (suc n) = first_bytes buf n ++ buf n ∷ []

abbrev pub Printing : Type 0
Printing = Printbuf × List (List ℕ)

-- The store of a character, and the flush of a full buffer.
abbrev appended : ℕ → Printbuf → Printbuf
appended ch b = record b { buf = update b.buf b.idx (ch % 256); idx = b.idx + 1 }

abbrev flush : Printing → Printing
flush (b, calls) = (record b { idx = 0 }, first_bytes b.buf b.idx ∷ calls)

abbrev flush_full : Printing → Printing
flush_full (b, calls) = if b.idx == 255 then flush (b, calls) else (b, calls)

abbrev count_one : Printing → Printing
count_one (b, calls) = (record b { cnt = b.cnt + 1 }, calls)

unfoldable pub putch : ℕ → Printing → Printing
putch ch (b, calls) = count_one (flush_full (appended ch b, calls))

unfoldable pub putch_all : List ℕ → Printing → Printing
unfolding putch
putch_all [] p = p
putch_all (ch ∷ chars) p = putch_all chars (putch ch p)

-- The last call, and the count.
abbrev finish : Printing → ℕ × List (List ℕ)
finish (b, calls) = (b.cnt, first_bytes b.buf b.idx ∷ calls)

-- What the buffer holds at first is not looked at.
unfoldable pub print_chars : (ℕ → ℕ) → Option (List ℕ) → Option (ℕ × List (List ℕ))
unfolding putch_all
print_chars old none = none
print_chars old (some chars) =
    some (finish (putch_all chars (record { idx = 0; cnt = 0; buf = old }, [])))

unfoldable pub vcprintf :
    (old : ℕ → ℕ) (fuel : ℕ) (mem : Memory) (fmt next : ℕ) (args : ℕ → ℕ)
    → Option (ℕ × List (List ℕ))
unfolding print_chars
vcprintf old fuel mem fmt next args = print_chars old (vprintfmt mem args fuel fmt next)

-- What the calls put out, in order.
abbrev pub output : List (List ℕ) → List ℕ
output [] = []
output (c ∷ calls) = output calls ++ c

first_bytes-update :
    (n i v : ℕ) (buf : ℕ → ℕ) → n ≤ i → first_bytes (update buf i v) n ≡ first_bytes buf n
first_bytes-update zero i v buf far = refl
first_bytes-update (suc n) i v buf far =
    let apart : (i == n) ≡ false = ne→== i n (λ e. omega arith) in
    rw (first_bytes-update n i v buf (omega arith), apart) refl

first_bytes-grown :
    (n v : ℕ) (buf : ℕ → ℕ) → first_bytes (update buf n v) (n + 1) ≡ first_bytes buf n ++ v ∷ []
first_bytes-grown n v buf =
    let next : n + 1 ≡ suc n = omega arith in
    rw (next, first_bytes-update n n v buf (omega arith), ==_refl n) refl

length-first_bytes : (buf : ℕ → ℕ) (n : ℕ) → length (first_bytes buf n) ≡ n
length-first_bytes buf zero = refl
length-first_bytes buf (suc n) =
    length-append (first_bytes buf n) (buf n ∷ []) ∙ omega (arith, length-first_bytes buf n)

-- Each call is for fewer than 256 bytes.
abbrev pub AllShort : List (List ℕ) → Type 0
AllShort [] = Unit {0}
AllShort (c ∷ calls) = (length c < 256) × AllShort calls

-- What was put out, with what waits in the buffer, is the text.
record Prints (p : Printing) (text : List ℕ) : Type 0 where
  room : p.0.idx < 255
  all : output p.1 ++ first_bytes p.0.buf p.0.idx ≡ text
  short : AllShort p.1
  counted : p.0.cnt ≡ length text

Prints-putch :
    (ch : ℕ) (p : Printing) (text : List ℕ)
    → Prints p text
    → Prints (putch ch p) (text ++ ch % 256 ∷ [])
unfolding putch
Prints-putch ch (b, calls) text h =
    let v : ℕ = ch % 256 in
    let buf : ℕ → ℕ = update b.buf b.idx v in
    let room : b.idx < 255 = h.room in
    let grown : output calls ++ first_bytes buf (b.idx + 1) ≡ text ++ v ∷ [] =
      ap (λ l. output calls ++ l) (first_bytes-grown b.idx v b.buf)
      ∙ sym (append_assoc (output calls) (first_bytes b.buf b.idx) (v ∷ []))
      ∙ ap (λ l. l ++ v ∷ []) h.all in
    let more : b.cnt + 1 ≡ length (text ++ v ∷ []) =
      omega (arith, h.counted, length-append text (v ∷ [])) in
    elim (Bool-cases (b.idx + 1 == 255)) [
      | inl full ↦ rw full (record {
        room = omega arith;
        all = append-nil (output calls ++ first_bytes buf (b.idx + 1)) ∙ grown;
        short = (omega (arith, length-first_bytes buf (b.idx + 1)), h.short);
        counted = more;
      })
      | inr space ↦
          rw space (record { room = ground arith; all = grown; short = h.short; counted = more })
    ]

-- The characters as bytes.
abbrev pub bytes : List ℕ → List ℕ
bytes [] = []
bytes (ch ∷ chars) = ch % 256 ∷ bytes chars

Prints-putch_all :
    (chars : List ℕ) (p : Printing) (text : List ℕ)
    → Prints p text
    → Prints (putch_all chars p) (text ++ bytes chars)
unfolding putch_all
Prints-putch_all [] p text h = subst (Prints p) (sym (append-nil text)) h
Prints-putch_all (ch ∷ chars) p text h =
    subst (Prints (putch_all chars (putch ch p))) (append_assoc text (ch % 256 ∷ []) (bytes chars))
      (Prints-putch_all chars (putch ch p) (text ++ ch % 256 ∷ []) (Prints-putch ch p text h))

-- `vcprintf`, where the characters of the format are known.
vcprintf-printed :
    (old : ℕ → ℕ) (fuel : ℕ) (mem : Memory) (fmt next : ℕ) (args : ℕ → ℕ) (chars : List ℕ)
    → vprintfmt mem args fuel fmt next ≡ some chars
    → (calls : List (List ℕ)) × (vcprintf old fuel mem fmt next args
        ≡ some (length (bytes chars), calls))
      × (output calls ≡ bytes chars)
      × AllShort calls
unfolding vcprintf print_chars
vcprintf-printed old fuel mem fmt next args chars printed =
    let p : Printing = putch_all chars (record { idx = 0; cnt = 0; buf = old }, []) in
    let done : Prints p (bytes chars) =
      Prints-putch_all chars (record { idx = 0; cnt = 0; buf = old }, []) []
        (record { room = omega arith; all = refl; short = tt; counted = refl }) in
    (
      first_bytes p.0.buf p.0.idx ∷ p.1,
      ap (print_chars old) printed
          ∙ ap (λ c. some (c, first_bytes p.0.buf p.0.idx ∷ p.1)) done.counted,
      done.all,
      (omega (arith, length-first_bytes p.0.buf p.0.idx, done.room), done.short),
    )

-- With a format that ends at `last`, whose arguments are strings shorter than `longest` where it has
-- the letter s, and fuel for both: `vcprintf` ends, puts out exactly the characters that `vprintfmt`
-- gives, as bytes and in their order, in calls of fewer than 256 bytes, and returns how many there
-- were.
pub vcprintf_lem :
    (old : ℕ → ℕ) (fuel : ℕ) (mem : Memory) (fmt next : ℕ) (args : ℕ → ℕ) (last longest : ℕ)
    → IsFormat mem args fmt last longest
    → fmt ≤ last
    → last + longest + 1 < fmt + fuel
    → (chars : List ℕ) × (vprintfmt mem args fuel fmt next ≡ some chars)
      × (calls : List (List ℕ)) × (vcprintf old fuel mem fmt next args
          ≡ some (length (bytes chars), calls))
      × (output calls ≡ bytes chars)
      × AllShort calls
vcprintf_lem old fuel mem fmt next args last longest h le enough =
    let (chars, printed) = vprintfmt_ends mem args fmt last longest h fuel next le enough in
    let (calls, got, all, short) = vcprintf-printed old fuel mem fmt next args chars printed in
    (chars, printed, calls, got, all, short)
