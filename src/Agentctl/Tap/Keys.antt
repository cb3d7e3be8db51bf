-- ===== src/Agentctl/Tap/Keys.antt =====
-- The keys of a mark.
use go_ddd.Prelude.{
  ℕ, ◌≤◌, ◌≡◌, ◌≢◌, refl, sym, ap, ◌∙◌, Bool, false, ◌&&◌, ◌||◌, some, List, [], ◌∷◌, ◌++◌, arith,
  nat_beq, All, text_eq, text_beq, text_beq_iff, Bool-cases, inl, inr,
}
use go_ddd.Prelude.Int.{pos, max_int}
use go_ddd.Prelude.Text.{Text}
use go_ddd.Prelude.Text.Decimal.{itoa, atoi, atoi-itoa}
use go_ddd.Agentctl.Tap.{Partition, mark_key}

-- A topic has no slash, and a partition's number is an `int`.
abbrev pub Legal : Partition → Type 0
Legal p = All (λ x. x ≢ b'/') p.topic × (p.id ≤ max_int)

pub split_unique :
    (b : ℕ) (s s' t t' : Text)
    → All (λ x. x ≢ b) s
    → All (λ x. x ≢ b) s'
    → s ++ b ∷ t ≡ s' ++ b ∷ t'
    → (s ≡ s') × (t ≡ t')
split_unique b [] [] t t' free free' h = (refl, ground (arith, h))
split_unique b [] (x ∷ s') t t' free free' h = absurd (ground (arith, h, free'.0))
split_unique b (x ∷ s) [] t t' free free' h = absurd (ground (arith, h, free.0))
split_unique b (x ∷ s) (y ∷ s') t t' free free' h =
    let tails : s ++ b ∷ t ≡ s' ++ b ∷ t' = ground (arith, h) in
    let heads : x ≡ y = ground (arith, h) in
    let (l, r) = split_unique b s s' t t' free.1 free'.1 tails in
    (ap (λ u. x ∷ u) l ∙ ap (λ z. z ∷ s') heads, r)

pub mark_key-injective :
    (p q : Partition)
    → Legal p
    → Legal q
    → mark_key p.topic p.id ≡ mark_key q.topic q.id
    → (p.topic ≡ q.topic) × (p.id ≡ q.id)
unfolding mark_key
mark_key-injective p q lp lq h =
    let (topics, numbers) =
      split_unique b'/' p.topic q.topic (itoa (pos p.id)) (itoa (pos q.id)) lp.0 lq.0 h in
    let same : some (pos p.id) ≡ some (pos q.id) =
      sym (atoi-itoa (pos p.id) lp.1) ∙ ap atoi numbers ∙ atoi-itoa (pos q.id) lq.1 in
    (topics, ground (arith, same))

abbrev pub same_partition : Partition → Partition → Bool
same_partition p q = text_beq p.topic q.topic && nat_beq p.id q.id

abbrev pub member : Partition → List Partition → Bool
member p [] = false
member p (q ∷ qs) = member p qs || same_partition q p

pub mark_key-same :
    (p q : Partition)
    → Legal p
    → Legal q
    → text_beq (mark_key p.topic p.id) (mark_key q.topic q.id) ≡ same_partition p q
unfolding mark_key
mark_key-same p q lp lq =
    elim (Bool-cases (text_beq (mark_key p.topic p.id) (mark_key q.topic q.id))) [
      | inl same ↦
          let (topics, ids) =
            mark_key-injective p q lp lq
              ((text_beq_iff (mark_key p.topic p.id) (mark_key q.topic q.id)).0 same) in
          ground (arith, same, (text_beq_iff p.topic q.topic).1 topics, ids)
      | inr other ↦ elim (Bool-cases (same_partition p q)) [
        | inr apart ↦ other ∙ sym apart
        | inl alike ↦
            let topics = (text_beq_iff p.topic q.topic).0 (ground (arith, alike)) in
            let ids : p.id ≡ q.id = ground (arith, alike) in
            let keys : mark_key p.topic p.id ≡ mark_key q.topic q.id =
              ap (λ t. mark_key t p.id) topics ∙ ap (mark_key q.topic) ids in
            absurd (
              ground (
                arith,
                other,
                (text_beq_iff (mark_key p.topic p.id) (mark_key q.topic q.id)).1 keys,
              ))
      ]
    ]
