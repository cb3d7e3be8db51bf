-- ===== src/Prelude/Text/Trim/Lower.antt =====
-- `strings.ToLower`, and that it keeps a trimmed text trimmed.
use Prim.Native.Nat.{ℕ, ◌+◌}
use mathlib.Core.Path.{◌≡◌, refl, ◌∙◌, sym}
use mathlib.Core.Logic.{inl, inr}
use mathlib.Core.Bool.{Bool, true, false, ◌&&◌}
use mathlib.Core.List.{List, [], ◌∷◌, ◌++◌, map, reverse, reverse-cons, map-append}
use native.Mathlib.Omega.{arith}
use go_ddd.Prelude.Tests.{ltb, leb, Bool-cases, if◌then◌else◌}
use go_ddd.Prelude.Text.Trim.{IsTrimmed, leading, trailing, is_ascii_space, is_space_2, is_space_3}

-- 'A' to 'Z' to lower case.
unfoldable pub lower_byte : ℕ → ℕ
lower_byte c = if leb b'A' c && leb c b'Z' then c + 32 else c

unfoldable pub is_ascii : List ℕ → Bool
is_ascii [] = true
is_ascii (c ∷ s) = ltb c 128 && is_ascii s

-- The case tables of package `unicode`, applied to a text that is not ASCII.
pub record CaseTables : Type 0 where
  pub fold : List ℕ → List ℕ

-- `strings.ToLower`
unfoldable pub to_lower : CaseTables → List ℕ → List ℕ
unfolding lower_byte is_ascii
to_lower tables s = if is_ascii s then map lower_byte s else tables.fold s

-- What the domain relies on: lower case is stable, and makes no white space at the ends.
pub record IsLawful (tables : CaseTables) : Type 0 where
  pub lower_fold : (s : List ℕ) → to_lower tables (tables.fold s) ≡ tables.fold s
  pub fold_trimmed : (s : List ℕ) → IsTrimmed s → IsTrimmed (tables.fold s)

space_2_ascii : (a b : ℕ) → ltb a 128 ≡ true → is_space_2 a b ≡ false
unfolding is_space_2
space_2_ascii a b h = ground arith

space_3_ascii : (a b c : ℕ) → ltb a 128 ≡ true → is_space_3 a b c ≡ false
unfolding is_space_3
space_3_ascii a b c h = ground arith

space-lower_byte : (c : ℕ) → is_ascii_space (lower_byte c) ≡ is_ascii_space c
unfolding is_ascii_space lower_byte
space-lower_byte c = ground arith

ascii-lower_byte : (c : ℕ) → ltb (lower_byte c) 128 ≡ ltb c 128
unfolding lower_byte
ascii-lower_byte c = ground arith

lower_byte_idem : (c : ℕ) → lower_byte (lower_byte c) ≡ lower_byte c
unfolding lower_byte
lower_byte_idem c = ground arith

is_ascii-map : (s : List ℕ) → is_ascii (map lower_byte s) ≡ is_ascii s
unfolding is_ascii
is_ascii-map [] = refl
is_ascii-map (c ∷ s) = ground (arith, ascii-lower_byte c, is_ascii-map s)

map-lower_byte_idem : (s : List ℕ) → map lower_byte (map lower_byte s) ≡ map lower_byte s
map-lower_byte_idem [] = refl
map-lower_byte_idem (c ∷ s) = cc (lower_byte_idem c, map-lower_byte_idem s)

is_ascii-append : (s t : List ℕ) → is_ascii (s ++ t) ≡ (is_ascii s && is_ascii t)
unfolding is_ascii
is_ascii-append [] t = refl
is_ascii-append (c ∷ s) t = ground (arith, is_ascii-append s t)

is_ascii-reverse : (s : List ℕ) → is_ascii (reverse s) ≡ is_ascii s
unfolding is_ascii
is_ascii-reverse [] = refl
is_ascii-reverse (c ∷ s) =
    rw (reverse-cons c s, is_ascii-append (reverse s) (c ∷ []), is_ascii-reverse s) (ground arith)

map-reverse : (s : List ℕ) → reverse (map lower_byte s) ≡ map lower_byte (reverse s)
map-reverse [] = refl
map-reverse (c ∷ s) =
    rw (reverse-cons (lower_byte c) (map lower_byte s), reverse-cons c s, map-reverse s)
      (sym (map-append lower_byte (reverse s) (c ∷ [])))

leading-lower : (s : List ℕ) → is_ascii s ≡ true → leading (map lower_byte s) ≡ leading s
unfolding leading is_ascii
leading-lower [] h = refl
leading-lower (a ∷ []) h = ground (arith, space-lower_byte a)
leading-lower (a ∷ b ∷ []) h = ground (
  arith,
  space-lower_byte a,
  ascii-lower_byte a,
  space_2_ascii a b,
  space_2_ascii (lower_byte a) (lower_byte b),
)
leading-lower (a ∷ b ∷ c ∷ s) h = ground (
  arith,
  space-lower_byte a,
  ascii-lower_byte a,
  space_2_ascii a b,
  space_2_ascii (lower_byte a) (lower_byte b),
  space_3_ascii a b c,
  space_3_ascii (lower_byte a) (lower_byte b) (lower_byte c),
)

trailing-lower : (s : List ℕ) → is_ascii s ≡ true → trailing (map lower_byte s) ≡ trailing s
unfolding trailing is_ascii
trailing-lower [] h = refl
trailing-lower (c ∷ []) h = ground (arith, space-lower_byte c)
trailing-lower (c ∷ b ∷ []) h = ground (
  arith,
  space-lower_byte c,
  ascii-lower_byte b,
  space_2_ascii b c,
  space_2_ascii (lower_byte b) (lower_byte c),
)
trailing-lower (c ∷ b ∷ a ∷ s) h = ground (
  arith,
  space-lower_byte c,
  ascii-lower_byte a,
  ascii-lower_byte b,
  space_2_ascii b c,
  space_2_ascii (lower_byte b) (lower_byte c),
  space_3_ascii a b c,
  space_3_ascii (lower_byte a) (lower_byte b) (lower_byte c),
)

module _ {tables : CaseTables} (lawful : IsLawful tables) where
  pub to_lower-IsTrimmed : (s : List ℕ) → IsTrimmed s → IsTrimmed (to_lower tables s)
  unfolding to_lower
  to_lower-IsTrimmed s (l, r) = elim (Bool-cases (is_ascii s)) [
    | inl plain ↦ rw plain (
      leading-lower s plain ∙ l,
      rw (map-reverse s) (trailing-lower (reverse s) (is_ascii-reverse s ∙ plain) ∙ r),
    )
    | inr wide ↦ rw wide (lawful.fold_trimmed s (l, r))
  ]

  pub to_lower_idem : (s : List ℕ) → to_lower tables (to_lower tables s) ≡ to_lower tables s
  unfolding to_lower
  to_lower_idem s = elim (Bool-cases (is_ascii s)) [
    | inl plain ↦ rw (plain, is_ascii-map s, plain) (map-lower_byte_idem s)
    | inr wide ↦ rw wide (lawful.lower_fold s)
  ]
