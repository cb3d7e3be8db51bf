-- ===== src/Prelude/Text.antt =====
-- Go's strings: bytes. Literals, order, and the functions of `strings` and `strconv` in use.
pub mod Decimal
pub mod Trim
use Prim.Native.Char.{code}
use Prim.Native.Nat.{ℕ, suc, ◌+◌, ◌≤◌}
use Prim.Native.String.{String}
use mathlib.Core.Path.{◌≡◌, refl, ap}
use mathlib.Core.Logic.{◌≢◌, ◌⊎◌, inl, inr}
use mathlib.Core.Bool.{Bool, true, false, ◌&&◌, ◌||◌}
use mathlib.Core.Option.{Option, none, some}
use mathlib.Core.List.{List, [], ◌∷◌, ◌++◌, map}
use native.Mathlib.Omega.{arith}
use go_ddd.Prelude.Tests.{ltb, nat_beq, Bool-cases, Option-cases, if◌then◌else◌}
use go_ddd.Prelude.Lists.{length, All, drop}

abbrev pub Text : Type 0
Text = List ℕ

-- The bytes of an ASCII literal.
abbrev pub codes : String → Text
codes String.[] = []
codes (String.◌∷◌ c s) = code c ∷ codes s

-- `s < t`
unfoldable pub text_ltb : Text → Text → Bool
text_ltb s [] = false
text_ltb [] (y ∷ ys) = true
text_ltb (x ∷ xs) (y ∷ ys) = ltb x y || (nat_beq x y && text_ltb xs ys)

-- `strings.IndexByte`; `none` is -1
unfoldable pub index_byte : ℕ → Text → Option ℕ
index_byte b [] = none
index_byte b (c ∷ s) =
    if nat_beq c b then some 0 else (elim (index_byte b s) [ none ↦ none | some i ↦ some (suc i) ])

-- `strings.Count` with a pattern of one byte
unfoldable pub count_byte : ℕ → Text → ℕ
count_byte b [] = 0
count_byte b (c ∷ s) = let rest = count_byte b s in if nat_beq c b then suc rest else rest

-- `strings.Contains` with a pattern of one byte
unfoldable pub contains_byte : ℕ → Text → Bool
contains_byte b [] = false
contains_byte b (c ∷ s) = nat_beq c b || contains_byte b s

pub text_ltb_irrefl : (s : Text) → text_ltb s s ≡ false
unfolding text_ltb
text_ltb_irrefl [] = refl
text_ltb_irrefl (x ∷ xs) = ground (arith, text_ltb_irrefl xs)

pub text_ltb_trans :
    (s t u : Text) → text_ltb s t ≡ true → text_ltb t u ≡ true → text_ltb s u ≡ true
unfolding text_ltb
text_ltb_trans s t [] p q = cc
text_ltb_trans [] t (z ∷ zs) p q = refl
text_ltb_trans (x ∷ xs) [] (z ∷ zs) p q = cc
text_ltb_trans (x ∷ xs) (y ∷ ys) (z ∷ zs) p q = ground (arith, text_ltb_trans xs ys zs)

pub text_ltb_total : (s t : Text) → s ≢ t → text_ltb s t ≡ false → text_ltb t s ≡ true
unfolding text_ltb
text_ltb_total [] [] d p = absurd (d refl)
text_ltb_total [] (y ∷ ys) d p = cc
text_ltb_total (x ∷ xs) [] d p = refl
text_ltb_total (x ∷ xs) (y ∷ ys) d p = ground (arith, text_ltb_total xs ys)

-- Where the byte stands, by the text before it and the text after it.
pub index_byte-append :
    (b : ℕ) (s t : Text) → All (λ c. c ≢ b) s → index_byte b (s ++ b ∷ t) ≡ some (length s)
unfolding index_byte
index_byte-append b [] t h = ground arith
index_byte-append b (c ∷ s) t h = ground (arith, index_byte-append b s t h.1)

pub count_byte-append :
    (b : ℕ) (s t : Text) → count_byte b (s ++ t) ≡ count_byte b s + count_byte b t
unfolding count_byte
count_byte-append b [] t = omega arith
count_byte-append b (c ∷ s) t = ground (arith, count_byte-append b s t)

pub count_byte-zero : (b : ℕ) (s : Text) → All (λ c. c ≢ b) s → count_byte b s ≡ 0
unfolding count_byte
count_byte-zero b [] h = refl
count_byte-zero b (c ∷ s) h = ground (arith, count_byte-zero b s h.1)

pub All-of_count_byte : (b : ℕ) (s : Text) → count_byte b s ≡ 0 → All (λ c. c ≢ b) s
unfolding count_byte
All-of_count_byte b [] h = tt
All-of_count_byte b (c ∷ s) h = ground (arith, All-of_count_byte b s)

pub drop-append_length : (s : Text) (b : ℕ) (t : Text) → drop (suc (length s)) (s ++ b ∷ t) ≡ t
drop-append_length [] b t = refl
drop-append_length (c ∷ s) b t = drop-append_length s b t

-- The text split at the first occurrence of the byte.
pub index_byte_split :
    (b : ℕ) (s : Text) (i : ℕ)
    → index_byte b s ≡ some i
    → (l : Text) × (r : Text) × (s ≡ l ++ b ∷ r) × (length l ≡ i) × All (λ c. c ≢ b) l
unfolding index_byte
index_byte_split b [] i h = cc
index_byte_split b (c ∷ s) i h = elim (Bool-cases (nat_beq c b)) [
  | inl hit ↦ ([], s, ground arith, ground arith, tt)
  | inr miss ↦ elim (Option-cases (index_byte b s)) [
    | inl e ↦ absurd (ground arith)
    | inr (j, e) ↦
        let (l, r, cut, at, free) = index_byte_split b s j e in
        (c ∷ l, r, ap (◌∷◌ c) cut, ground arith, (ground arith, free))
  ]
]
