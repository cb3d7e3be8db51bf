-- ===== src/Prelude/Text/Decimal.antt =====
-- `strconv.Itoa` and `strconv.Atoi`, and that the second undoes the first.
use Prim.Native.Nat.{ℕ, zero, suc, ◌+◌, ◌-◌, ◌*◌, ◌/◌, ◌%◌, ◌^◌, ◌≤◌, ◌<◌}
use native.Mathlib.Nat.{pow-suc}
use mathlib.Core.Path.{◌≡◌, refl, ap, ◌∙◌}
use native.Mathlib.Numerals.{add-one}
use mathlib.Core.Logic.{inl, inr}
use mathlib.Core.Bool.{◌||◌}
use mathlib.Core.Option.{Option, none, some}
use mathlib.Core.List.{List, [], ◌∷◌}
use native.Mathlib.Omega.{arith}
use go_ddd.Prelude.Tests.{ltb, leb, nat_beq, Bool-cases, if◌then◌else◌}
use go_ddd.Prelude.Int.{ℤ, pos, negsuc, IsInt, max_int}

-- The digits of `n` before `out`, last digit first. Twenty rounds serve every 64-bit number.
digit_loop : ℕ → ℕ → List ℕ → List ℕ
digit_loop zero n out = out
digit_loop (suc f) n out =
    let rest = digit_loop f (n / 10) ((b'0' + n % 10) ∷ out) in
    if ltb n 10 then (b'0' + n % 10) ∷ out else rest

unfoldable pub itoa : ℤ → List ℕ
unfolding digit_loop
itoa (pos n) = digit_loop 20 n []
itoa (negsuc n) = b'-' ∷ digit_loop 20 (n + 1) []

-- The number that the digits spell behind `n`.
scan : List ℕ → ℕ → Option ℕ
scan [] n = some n
scan (c ∷ s) n = if ltb c b'0' || ltb b'9' c then none else scan s (n * 10 + (c - b'0'))

unsigned : List ℕ → Option ℕ
unsigned [] = none
unsigned (c ∷ s) = scan (c ∷ s) 0

-- The range of `int`.
positive : Option ℕ → Option ℤ
positive none = none
positive (some n) = if leb n max_int then some (pos n) else none

negative : Option ℕ → Option ℤ
negative none = none
negative (some zero) = some (pos 0)
negative (some (suc n)) = if leb n max_int then some (negsuc n) else none

-- `none` is a syntax or a range error.
unfoldable pub atoi : List ℕ → Option ℤ
unfolding scan unsigned positive negative
atoi [] = none
atoi (c ∷ s) =
    if nat_beq c b'-'
    then negative (unsigned s)
    else if nat_beq c b'+'
    then positive (unsigned s)
    else positive (unsigned (c ∷ s))

scan-digit_loop : (f n : ℕ) (out : List ℕ) → n < 10 ^ f → scan (digit_loop f n out) 0 ≡ scan out n
unfolding scan digit_loop
scan-digit_loop zero n out h = let e : n ≡ 0 = omega arith in ground arith
scan-digit_loop (suc f) n out h =
    ground (arith, pow-suc 10 f, scan-digit_loop f (n / 10) ((b'0' + n % 10) ∷ out))

IsDigit : ℕ → Type 0
IsDigit c = (b'0' ≤ c) × (c ≤ b'9')

-- A number of at least one round begins with a digit.
digit_loop_head :
    (f n : ℕ) (out : List ℕ)
    → (c : ℕ) × (s : List ℕ) × (digit_loop (suc f) n out ≡ c ∷ s) × (b'0' ≤ c) × (c ≤ b'9')
unfolding digit_loop
digit_loop_head zero n out = (b'0' + n % 10, out, ground arith, omega arith, omega arith)
digit_loop_head (suc f) n out = elim (Bool-cases (ltb n 10)) [
  | inl small ↦ (b'0' + n % 10, out, rw small, omega arith, omega arith)
  | inr big ↦ rw big (digit_loop_head f (n / 10) ((b'0' + n % 10) ∷ out))
]

scan-unsigned : (t s : List ℕ) {c : ℕ} → t ≡ c ∷ s → unsigned t ≡ scan t 0
unfolding unsigned
scan-unsigned t s e = rw e

unsigned-digits : (n : ℕ) → n < 10 ^ 20 → unsigned (digit_loop 20 n []) ≡ some n
unsigned-digits n h =
    let (c, s, e, _, _) = digit_loop_head 19 n [] in
    scan-unsigned (digit_loop 20 n []) s e ∙ (scan-digit_loop 20 n [] h ∙ (unfold scan in refl))

atoi_no_sign :
    (t s : List ℕ) (c : ℕ) → t ≡ c ∷ s → b'0' ≤ c → c ≤ b'9' → atoi t ≡ positive (unsigned t)
unfolding atoi
atoi_no_sign t s c e lo hi = rw e (ground arith)

-- Every `int` is read back from its decimal print.
pub atoi-itoa : (n : ℤ) → IsInt n → atoi (itoa n) ≡ some n
unfolding itoa
atoi-itoa (pos n) h =
    let (c, s, e, lo, hi) = digit_loop_head 19 n [] in
    atoi_no_sign (digit_loop 20 n []) s c e lo hi
    ∙ (ap positive (unsigned-digits n (omega arith)) ∙ (unfold positive in ground arith))
atoi-itoa (negsuc n) h =
    unfold atoi in
    ap negative (unsigned-digits (n + 1) (omega arith))
    ∙ (unfold negative in rw add-one (ground arith))

atoi_tests :
    (atoi (b'-' ∷ b'7' ∷ []) ≡ some (negsuc 6))
    × (atoi [] ≡ none)
    × (atoi (b'1' ∷ b'x' ∷ []) ≡ none)
    × (itoa (negsuc 11) ≡ b'-' ∷ b'1' ∷ b'2' ∷ [])
unfolding atoi itoa
atoi_tests = (refl, refl, refl, refl)

abbrev two_64 : ℕ
two_64 = 2 ^ 64

-- The digits of `strconv.ParseUint`, which stops at the first value that does not fit.
scan_capped : List ℕ → ℕ → Option ℕ
scan_capped [] n = some n
scan_capped (c ∷ s) n =
    if ltb c b'0' || ltb b'9' c
    then none
    else if leb two_64 (n * 10 + (c - b'0'))
    then some (two_64 - 1)
    else scan_capped s (n * 10 + (c - b'0'))

capped : List ℕ → Option ℕ
capped [] = none
capped (c ∷ s) = scan_capped (c ∷ s) 0

capped_positive : Option ℕ → ℤ
capped_positive none = pos 0
capped_positive (some n) = if leb n max_int then pos n else pos max_int

capped_negative : Option ℕ → ℤ
capped_negative none = pos 0
capped_negative (some zero) = pos 0
capped_negative (some (suc n)) = if leb n max_int then negsuc n else negsuc max_int

-- The number that `strconv.Atoi` returns, beside its error or not: zero on bad syntax, the nearest
-- `int` out of range.
unfoldable pub atoi_value : List ℕ → ℤ
unfolding scan_capped capped capped_positive capped_negative
atoi_value [] = pos 0
atoi_value (c ∷ s) =
    if nat_beq c b'-'
    then capped_negative (capped s)
    else if nat_beq c b'+'
    then capped_positive (capped s)
    else capped_positive (capped (c ∷ s))

below_64 : Option ℕ → Option ℕ
below_64 none = none
below_64 (some n) = if leb two_64 n then none else some n

-- `strconv.ParseUint(s, 10, 64)`; `none` is an error.
unfoldable pub parse_uint : List ℕ → Option ℕ
unfolding below_64 unsigned scan
parse_uint s = below_64 (unsigned s)
