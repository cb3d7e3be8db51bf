-- ===== src/Customer/Email/Address.antt =====
-- Which texts `NewEmail` accepts, and that it normalises once and for all.
use go_ddd.Prelude.{
  ℕ, suc, ◌+◌, ◌-◌, ◌<◌, ◌≡◌, refl, sym, ap, ◌∙◌, ◌≢◌, ◌↔◌, inl, inr, true, some, [], ◌∷◌, ◌++◌,
  text_eq, length, drop, All, arith, text_beq_iff, Option-cases, length-append,
}
use go_ddd.Prelude.Text.{
  Text, index_byte, count_byte, contains_byte, index_byte-append, index_byte_split,
  count_byte-append, count_byte-zero, All-of_count_byte, drop-append_length,
}
use go_ddd.Prelude.Text.Trim.{trim_space, trim_space-IsTrimmed, trim_space_id}
use go_ddd.Prelude.Text.Trim.Lower.{
  CaseTables, IsLawful, to_lower, to_lower_idem, to_lower-IsTrimmed,
}
use go_ddd.Prelude.Result.{ok}
use go_ddd.Customer.Email.{Email, check_email, new_email}

-- One "@", with text on both sides of it, and a dot in the text behind it.
pub record IsAddress (v : Text) : Type 0 where
  pub local_part : Text
  pub domain_part : Text
  pub joined : v ≡ local_part ++ b'@' ∷ domain_part
  pub local_ne_nil : local_part ≢ []
  pub domain_ne_nil : domain_part ≢ []
  pub local_free : All (λ c. c ≢ b'@') local_part
  pub domain_free : All (λ c. c ≢ b'@') domain_part
  pub dotted : contains_byte b'.' domain_part ≡ true

-- What every check that passed says.
accepted :
    (v : Text) (e : Email)
    → check_email v ≡ ok e
    → (at : ℕ) × (index_byte b'@' v ≡ some at)
      × (0 < at)
      × (at ≢ length v - 1)
      × (count_byte b'@' v ≡ 1)
      × (contains_byte b'.' (drop (suc at) v) ≡ true)
      × (e.value ≡ v)
unfolding check_email
accepted v e h = elim (Option-cases (index_byte b'@' v)) [
  | inl none_at ↦ absurd (ground arith)
  | inr (at, found) ↦
      (at, found, ground arith, ground arith, ground arith, ground arith, ground arith)
]

count_byte_hit : (r : Text) → count_byte b'@' (b'@' ∷ r) ≡ 1 + count_byte b'@' r
unfolding count_byte
count_byte_hit r = omega arith

length-pos : (s : Text) → s ≢ [] → 0 < length s
length-pos [] h = absurd (h refl)
length-pos (c ∷ s) h = omega arith

check_email_sound : (v : Text) (e : Email) → check_email v ≡ ok e → IsAddress v × (e.value ≡ v)
check_email_sound v e h =
    let (at, found, after_first, not_last, once, dot, kept) = accepted v e h in
    let (l, r, joined, len, free) = index_byte_split b'@' v at found in
    let rest_free : count_byte b'@' r ≡ 0 = omega (
      arith,
      ap (count_byte b'@') joined,
      count_byte-append b'@' l (b'@' ∷ r),
      count_byte-zero b'@' l free,
      count_byte_hit r,
    ) in
    let behind : drop (suc at) v ≡ r = rw (joined, ← len) (drop-append_length l b'@' r) in
    (
      record {
        local_part = l;
        domain_part = r;
        joined = joined;
        local_ne_nil = λ p. omega (arith, ap length p);
        domain_ne_nil = λ p.
            not_last (omega (arith, ap length joined, length-append l (b'@' ∷ r), ap length p));
        local_free = free;
        domain_free = All-of_count_byte b'@' r rest_free;
        dotted = rw behind at dot;
      },
      kept,
    )

check_email_complete : (v : Text) → IsAddress v → check_email v ≡ ok (record { value = v })
unfolding check_email
check_email_complete v a =
    let at = length a.local_part in
    let found : index_byte b'@' v ≡ some at =
      rw a.joined (index_byte-append b'@' a.local_part a.domain_part a.local_free) in
    let behind : drop (suc at) v ≡ a.domain_part =
      rw a.joined (drop-append_length a.local_part b'@' a.domain_part) in
    let once : count_byte b'@' v ≡ 1 = omega (
      arith,
      ap (count_byte b'@') a.joined,
      count_byte-append b'@' a.local_part (b'@' ∷ a.domain_part),
      count_byte-zero b'@' a.local_part a.local_free,
      count_byte-zero b'@' a.domain_part a.domain_free,
      count_byte_hit a.domain_part,
    ) in
    let size : length v ≡ at + 1 + length a.domain_part =
      omega (arith, ap length a.joined, length-append a.local_part (b'@' ∷ a.domain_part)) in
    let first = length-pos a.local_part a.local_ne_nil in
    let last = length-pos a.domain_part a.domain_ne_nil in
    let dot : contains_byte b'.' (drop (suc at) v) ≡ true = rw behind a.dotted in
    rw (found, check_email) (ground (arith, text_beq_iff v []))

-- `NewEmail` accepts a text exactly when its normal form is an address, and keeps the normal form.
pub new_email_iff :
    (tables : CaseTables) (raw : Text) (e : Email)
    → (new_email tables raw ≡ ok e) ↔ (
        IsAddress (to_lower tables (trim_space raw)) × (e.value ≡ to_lower tables (trim_space raw)))
unfolding new_email
new_email_iff tables raw e =
    let v = to_lower tables (trim_space raw) in
    (
      check_email_sound v e,
      λ h. check_email_complete v h.0 ∙ ap ok (λ i. record { value = sym h.1 i }),
    )

-- With lawful case tables an accepted address is its own normal form: it is read back as it is.
pub new_email_idem :
    (tables : CaseTables) (raw : Text) (e : Email)
    → IsLawful tables
    → new_email tables raw ≡ ok e
    → new_email tables e.value ≡ ok e
unfolding new_email
new_email_idem tables raw e lawful h =
    let v = to_lower tables (trim_space raw) in
    let (a, kept) = check_email_sound v e h in
    let fixed : to_lower tables (trim_space v) ≡ v =
      ap (to_lower tables)
        (trim_space_id v (to_lower-IsTrimmed lawful (trim_space raw) (trim_space-IsTrimmed raw)))
      ∙ to_lower_idem lawful (trim_space raw) in
    ap check_email (ap (λ x. to_lower tables (trim_space x)) kept ∙ fixed) ∙ h
