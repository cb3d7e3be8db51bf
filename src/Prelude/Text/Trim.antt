-- ===== src/Prelude/Text/Trim.antt =====
-- `strings.TrimSpace`.
pub mod Lower
use Prim.Native.Nat.{ℕ, zero, suc, ◌+◌, ◌-◌, ◌≤◌, ◌<◌}
use mathlib.Core.Path.{◌≡◌, refl, ap, ◌∙◌, sym}
use mathlib.Core.Logic.{◌⊎◌, inl, inr}
use mathlib.Core.Bool.{Bool, true, false, ◌&&◌, ◌||◌}
use mathlib.Core.List.{
  List, [], ◌∷◌, ◌++◌, map, reverse, reverse-reverse, reverse-append, reverse-cons, append_assoc,
  map-append,
}
use native.Mathlib.Omega.{arith}
use go_ddd.Prelude.Tests.{ltb, leb, nat_beq, Bool-cases, if◌then◌else◌}
use go_ddd.Prelude.Lists.{length, drop, take, length-drop, take-append-drop, length-append, All}

-- '\t', '\n', '\v', '\f', '\r' and ' '
is_ascii_space : ℕ → Bool
is_ascii_space c = nat_beq c 32 || (leb 9 c && leb c 13)

-- The white space of Unicode beyond ASCII, in UTF-8: U+0085, U+00A0, U+1680, U+2000 to U+200A,
-- U+2028, U+2029, U+202F, U+205F and U+3000.
is_space_2 : ℕ → ℕ → Bool
is_space_2 a b = nat_beq a 0xC2 && (nat_beq b 0x85 || nat_beq b 0xA0)

is_space_3 : ℕ → ℕ → ℕ → Bool
is_space_3 a b c =
    (nat_beq a 0xE1 && nat_beq b 0x9A && nat_beq c 0x80)
    || (nat_beq a 0xE2
        && nat_beq b 0x80
        && ((leb 0x80 c && leb c 0x8A) || nat_beq c 0xA8 || nat_beq c 0xA9 || nat_beq c 0xAF))
    || (nat_beq a 0xE2 && nat_beq b 0x81 && nat_beq c 0x9F)
    || (nat_beq a 0xE3 && nat_beq b 0x80 && nat_beq c 0x80)

-- How many bytes of white space the text begins with: those of its first rune, or none.
pub leading : List ℕ → ℕ
leading [] = 0
leading (a ∷ []) = if is_ascii_space a then 1 else 0
leading (a ∷ b ∷ []) = if is_ascii_space a then 1 else if is_space_2 a b then 2 else 0
leading (a ∷ b ∷ c ∷ s) =
    if is_ascii_space a then 1 else if is_space_2 a b then 2 else if is_space_3 a b c then 3 else 0

-- The same of the last rune, over the reversed text.
pub trailing : List ℕ → ℕ
trailing [] = 0
trailing (c ∷ []) = if is_ascii_space c then 1 else 0
trailing (c ∷ b ∷ []) = if is_ascii_space c then 1 else if is_space_2 b c then 2 else 0
trailing (c ∷ b ∷ a ∷ s) =
    if is_ascii_space c then 1 else if is_space_2 b c then 2 else if is_space_3 a b c then 3 else 0

strip : ℕ → (List ℕ → ℕ) → List ℕ → List ℕ
strip zero width s = s
strip (suc fuel) width s = elim (width s) [ zero ↦ s | suc k ↦ strip fuel width (drop (suc k) s) ]

-- `strings.TrimSpace`. A text holds at most as many runes as bytes, so its length is fuel enough.
unfoldable pub trim_space : List ℕ → List ℕ
unfolding strip leading trailing is_ascii_space is_space_2 is_space_3
trim_space s =
    let rest = strip (length s) leading s in reverse (strip (length rest) trailing (reverse rest))

ℕ-cases : (n : ℕ) → (n ≡ 0) ⊎ ((k : ℕ) × (n ≡ suc k))
ℕ-cases zero = inl refl
ℕ-cases (suc k) = inr (k, refl)

abbrev Stops : (List ℕ → ℕ) → Type 0
Stops width = width [] ≡ 0

strip_done :
    (fuel : ℕ) (width : List ℕ → ℕ) (s : List ℕ)
    → Stops width
    → length s ≤ fuel
    → width (strip fuel width s) ≡ 0
unfolding strip
strip_done zero width [] e h = e
strip_done zero width (c ∷ s) e h = absurd (omega arith)
strip_done (suc fuel) width [] e h = rw (e, strip) e
strip_done (suc fuel) width (c ∷ s) e h = elim (ℕ-cases (width (c ∷ s))) [
  | inl stop ↦ rw (stop, strip) stop
  | inr (k, more) ↦
      rw (more, strip) (strip_done fuel width (drop k s) e (omega (arith, length-drop k s)))
]

strip_id : (fuel : ℕ) (width : List ℕ → ℕ) (s : List ℕ) → width s ≡ 0 → strip fuel width s ≡ s
unfolding strip
strip_id zero width s e = refl
strip_id (suc fuel) width s e = rw (e, strip)

strip_suffix :
    (fuel : ℕ) (width : List ℕ → ℕ) (s : List ℕ) → (p : List ℕ) × (s ≡ p ++ strip fuel width s)
unfolding strip
strip_suffix zero width s = ([], refl)
strip_suffix (suc fuel) width s = elim (ℕ-cases (width s)) [
  | inl stop ↦ ([], rw (stop, strip))
  | inr (k, more) ↦
      let (p, e) = strip_suffix fuel width (drop (suc k) s) in
      (
        take (suc k) s ++ p,
        rw (more, strip)
            (sym (take-append-drop (suc k) s)
              ∙ (ap (◌++◌ (take (suc k) s)) e ∙ sym (append_assoc (take (suc k) s) p _))),
      )
]

leading-append : (p r : List ℕ) → leading (p ++ r) ≡ 0 → leading p ≡ 0
unfolding leading
leading-append [] r h = refl
leading-append (a ∷ []) [] h = h
leading-append (a ∷ []) (x ∷ []) h = ground arith
leading-append (a ∷ []) (x ∷ y ∷ r) h = ground arith
leading-append (a ∷ b ∷ []) [] h = h
leading-append (a ∷ b ∷ []) (x ∷ r) h = ground arith
leading-append (a ∷ b ∷ c ∷ p) r h = ground arith

length-reverse : (s : List ℕ) → length (reverse s) ≡ length s
length-reverse [] = refl
length-reverse (c ∷ s) =
    omega
      (arith, ap length (reverse-cons c s), length-append (reverse s) (c ∷ []), length-reverse s)

-- Neither end is white space any more.
abbrev pub IsTrimmed : List ℕ → Type 0
IsTrimmed s = (leading s ≡ 0) × (trailing (reverse s) ≡ 0)

pub trim_space-IsTrimmed : (s : List ℕ) → IsTrimmed (trim_space s)
unfolding trim_space
trim_space-IsTrimmed s =
    let t = strip (length s) leading s in
    let done : leading t ≡ 0 =
      strip_done (length s) leading s (unfold leading in refl) (omega arith) in
    let v = strip (length t) trailing (reverse t) in
    let (q, e) = strip_suffix (length t) trailing (reverse t) in
    let cut : t ≡ reverse v ++ reverse q =
      sym (reverse-reverse t) ∙ (ap reverse e ∙ reverse-append q v) in
    (
      leading-append (reverse v) (reverse q) (rw (← cut) done),
      rw (reverse-reverse v) (
          strip_done (length t) trailing (reverse t) (unfold trailing in refl)
            (rw length-reverse (omega arith))),
    )

pub trim_space_id : (s : List ℕ) → IsTrimmed s → trim_space s ≡ s
unfolding trim_space
trim_space_id s (l, r) =
    rw (strip_id (length s) leading s l)
      (rw (strip_id (length s) trailing (reverse s) r) (reverse-reverse s))
