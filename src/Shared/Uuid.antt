-- ===== src/Shared/Uuid.antt =====
-- internal/shared/infrastructure/id/id.go: a version 4 UUID from sixteen random bytes.
use Prim.Native.Nat.{bit_and, bit_or}
use go_ddd.Prelude.{
  ℕ, zero, suc, ◌+◌, ◌-◌, ◌/◌, ◌%◌, ◌≤◌, ◌<◌, ◌≡◌, refl, Bool, true, List, [], ◌∷◌, ◌++◌, arith,
  ltb, nat_beq, nat_beq_iff, append-nil, ◌&&◌, ◌⊎◌, length, All, if◌then◌else◌,
}
use go_ddd.Prelude.Text.{Text}

-- A digit of encoding/hex.
hex_digit : ℕ → ℕ
hex_digit d = if ltb d 10 then b'0' + d else b'a' + (d - 10)

-- `hex.Encode`
hex_encode : List ℕ → Text
hex_encode [] = []
hex_encode (b ∷ bs) = hex_digit (b / 16) ∷ hex_digit (b % 16) ∷ hex_encode bs

-- version 4
set_version : ℕ → ℕ
set_version b = bit_or (bit_and b 0x0F) 0x40

-- variant 10
set_variant : ℕ → ℕ
set_variant b = bit_or (bit_and b 0x3F) 0x80

-- `New`, given what `rand.Read` wrote into the array.
unfoldable pub new_uuid : (b0 b1 b2 b3 b4 b5 b6 b7 b8 b9 b10 b11 b12 b13 b14 b15 : ℕ) → Text
unfolding hex_digit hex_encode set_version set_variant
new_uuid b0 b1 b2 b3 b4 b5 b6 b7 b8 b9 b10 b11 b12 b13 b14 b15 =
    hex_encode (b0 ∷ b1 ∷ b2 ∷ b3 ∷ [])
    ++ (b'-'
        ∷ (hex_encode (b4 ∷ b5 ∷ [])
            ++ (b'-'
                ∷ (hex_encode (set_version b6 ∷ b7 ∷ [])
                    ++ (b'-'
                        ∷ (hex_encode (set_variant b8 ∷ b9 ∷ [])
                            ++ (b'-' ∷ hex_encode (b10 ∷ b11 ∷ b12 ∷ b13 ∷ b14 ∷ b15 ∷ []))))))))

-- What a place of the text may hold.
pub data Class : Type 0 where
  hex dash four variant : Class

abbrev pub IsHex : ℕ → Type 0
IsHex c = ((b'0' ≤ c) × (c ≤ b'9')) ⊎ ((b'a' ≤ c) × (c ≤ b'f'))

abbrev pub Allows : Class → ℕ → Type 0
Allows hex c = IsHex c
Allows dash c = c ≡ b'-'
Allows four c = c ≡ b'4'
Allows variant c = (c ≡ b'8') ⊎ ((c ≡ b'9') ⊎ ((c ≡ b'a') ⊎ (c ≡ b'b')))

abbrev pub Fits : List Class → Text → Type 0
Fits [] [] = Unit
Fits (k ∷ ks) (c ∷ s) = Allows k c × Fits ks s
Fits _ _ = ⊥

-- Two digits for each of `n` bytes.
abbrev octets : ℕ → List Class → List Class
octets zero ks = ks
octets (suc n) ks = hex ∷ hex ∷ octets n ks

-- 8-4-4-4-12 digits, with the version and the variant in their places.
abbrev pub uuid_v4 : List Class
uuid_v4 = octets 4 (
    dash
    ∷ octets 2
        (dash ∷ four ∷ hex ∷ octets 1 (dash ∷ variant ∷ hex ∷ octets 1 (dash ∷ octets 6 []))))

hex_digit-IsHex : (d : ℕ) → d < 16 → IsHex (hex_digit d)
unfolding hex_digit
hex_digit-IsHex d h = ground arith

IsHex-high : (b : ℕ) → b < 256 → IsHex (hex_digit (b / 16))
IsHex-high b h = hex_digit-IsHex (b / 16) (omega arith)

IsHex-low : (b : ℕ) → IsHex (hex_digit (b % 16))
IsHex-low b = hex_digit-IsHex (b % 16) (omega arith)

holds_under : (ℕ → Bool) → ℕ → Bool
holds_under test zero = true
holds_under test (suc n) = holds_under test n && test n

holds_under_lem : (test : ℕ → Bool) (n b : ℕ) → b < n → holds_under test n ≡ true → test b ≡ true
unfolding holds_under
holds_under_lem test zero b small h = absurd (omega arith)
holds_under_lem test (suc n) b small h = ground (arith, holds_under_lem test n b)

set_version_table : holds_under (λ b. nat_beq (set_version b) (0x40 + b % 16)) 256 ≡ true
unfolding holds_under set_version
set_version_table = refl

set_variant_table : holds_under (λ b. nat_beq (set_variant b) (0x80 + b % 64)) 256 ≡ true
unfolding holds_under set_variant
set_variant_table = refl

set_version_lem : (b : ℕ) → b < 256 → set_version b ≡ 0x40 + b % 16
set_version_lem b h =
    (nat_beq_iff (set_version b) (0x40 + b % 16)).0 (holds_under_lem _ 256 b h set_version_table)

set_variant_lem : (b : ℕ) → b < 256 → set_variant b ≡ 0x80 + b % 64
set_variant_lem b h =
    (nat_beq_iff (set_variant b) (0x80 + b % 64)).0 (holds_under_lem _ 256 b h set_variant_table)

version_digit : (b : ℕ) → b < 256 → hex_digit (set_version b / 16) ≡ b'4'
unfolding hex_digit
version_digit b h = ground (arith, set_version_lem b h)

variant_digit : (b : ℕ) → b < 256 → Allows variant (hex_digit (set_variant b / 16))
unfolding hex_digit
variant_digit b h = ground (arith, set_variant_lem b h)

octets-Fits :
    (bs : List ℕ) (ks : List Class) (s : Text)
    → All (λ b. b < 256) bs
    → Fits ks s
    → Fits (octets (length bs) ks) (hex_encode bs ++ s)
unfolding hex_encode
octets-Fits [] ks s h f = f
octets-Fits (b ∷ bs) ks s h f = (IsHex-high b h.0, (IsHex-low b, octets-Fits bs ks s h.1 f))

last-Fits : (bs : List ℕ) → All (λ b. b < 256) bs → Fits (octets (length bs) []) (hex_encode bs)
last-Fits bs h = rw append-nil at (octets-Fits bs [] [] h tt)

-- Whatever the random bytes, the text is a version 4 UUID of variant 10, in lower case.
pub new_uuid-Fits :
    (b0 b1 b2 b3 b4 b5 b6 b7 b8 b9 b10 b11 b12 b13 b14 b15 : ℕ)
    → All
        (λ b. b < 256)
        (b0 ∷ b1 ∷ b2 ∷ b3 ∷ b4 ∷ b5 ∷ b6 ∷ b7 ∷ b8 ∷ b9 ∷ b10 ∷ b11 ∷ b12 ∷ b13 ∷ b14 ∷ b15 ∷ [])
    → Fits uuid_v4 (new_uuid b0 b1 b2 b3 b4 b5 b6 b7 b8 b9 b10 b11 b12 b13 b14 b15)
unfolding new_uuid
new_uuid-Fits b0 b1 b2 b3 b4 b5 b6 b7 b8 b9 b10 b11 b12 b13 b14 b15
      (h0, (h1, (h2, (h3, (h4, (h5, (h6, (h7, (h8, (h9, rest)))))))))) =
    let s4 = b'-' ∷ hex_encode (b10 ∷ b11 ∷ b12 ∷ b13 ∷ b14 ∷ b15 ∷ []) in
    let k4 = dash ∷ octets 6 [] in
    let f4 : Fits k4 s4 = (refl, last-Fits (b10 ∷ b11 ∷ b12 ∷ b13 ∷ b14 ∷ b15 ∷ []) rest) in
    let s3 = b'-' ∷ (hex_encode (set_variant b8 ∷ b9 ∷ []) ++ s4) in
    let k3 = dash ∷ variant ∷ hex ∷ octets 1 k4 in
    let f3 : Fits k3 s3 = (
      refl,
      (variant_digit b8 h8, (IsHex-low (set_variant b8), octets-Fits (b9 ∷ []) k4 s4 (h9, tt) f4)),
    ) in
    let s2 = b'-' ∷ (hex_encode (set_version b6 ∷ b7 ∷ []) ++ s3) in
    let k2 = dash ∷ four ∷ hex ∷ octets 1 k3 in
    let f2 : Fits k2 s2 = (
      refl,
      (version_digit b6 h6, (IsHex-low (set_version b6), octets-Fits (b7 ∷ []) k3 s3 (h7, tt) f3)),
    ) in
    let s1 = b'-' ∷ (hex_encode (b4 ∷ b5 ∷ []) ++ s2) in
    let k1 = dash ∷ octets 2 k2 in
    let f1 : Fits k1 s1 = (refl, octets-Fits (b4 ∷ b5 ∷ []) k2 s2 (h4, (h5, tt)) f2) in
    octets-Fits (b0 ∷ b1 ∷ b2 ∷ b3 ∷ []) k1 s1 (h0, (h1, (h2, (h3, tt)))) f1
